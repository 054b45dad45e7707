-- ===== src/Net/Framing/Joined.antt =====
-- process_data does not see where its input was cut.
use libki.Common.{
  ℕ, zero, suc, ◌+◌, ◌*◌, ◌≤◌, ◌≡◌, inl, inr, refl, ap, sym, subst, ◌∙◌, arith, List, [], ◌∷◌, ◌++◌,
  append-nil, length,
}
use libki.Net.Session.{
  Session, Handlers, Processed, finished, returned, stuck, turn, process, process_data,
}
use libki.Net.Framing.{
  measure, Turn-cases, turn_shrinks, process-again, process-leave, process_any_fuel, measure-le,
}
use libki.Net.Framing.Chunks.{IsInside, with_more, part}
use libki.Net.Framing.Chunks.Turns.{turn-IsInside, turn_more}

-- The session of a loop that has ended.
abbrev pub session_of : Session → Processed → Session
session_of s (finished t) = t
session_of s (returned t) = t
session_of s stuck = s

module _ (h : Handlers) where
  process-[] : (f : ℕ) (s : Session) → process h f [] s ≡ finished s
  unfolding process
  process-[] zero s = refl
  process-[] (suc f) s = refl

  -- Turns that are the same end in the same way.
  process_same :
      (f g b c : ℕ) (bs cs : List ℕ) (s t : Session)
      → turn h b bs s ≡ turn h c cs t
      → measure (b ∷ bs) s ≤ suc f
      → measure (c ∷ cs) t ≤ suc g
      → process h (suc f) (b ∷ bs) s ≡ process h (suc g) (c ∷ cs) t
  process_same f g b c bs cs s t e p q = elim (Turn-cases (turn h b bs s)) [
    | inl (more, s', k) ↦
        let k' = sym e ∙ k in
        process-again h f b bs more s s' k
        ∙ process_any_fuel h f g more s' (omega (arith, turn_shrinks h b bs more s s' k))
            (omega (arith, turn_shrinks h c cs more t s' k'))
        ∙ sym (process-again h g c cs more t s' k')
    | inr (s', k) ↦ process-leave h f b bs s s' k ∙ sym (process-leave h g c cs t s' (sym e ∙ k))
  ]

  ended_same : (f : ℕ) (s s' : Session) → process h f [] s ≡ finished s' → s ≡ s'
  ended_same f s s' e = ap (session_of s) (sym (process-[] f s) ∙ e)

  process_joined :
      (f g k : ℕ) (xs : List ℕ) (c : ℕ) (cs : List ℕ) (s s' : Session)
      → IsInside s
      → measure xs s ≤ f
      → measure (xs ++ (c ∷ cs)) s ≤ g
      → measure (c ∷ cs) s' ≤ suc k
      → process h f xs s ≡ finished s'
      → process h g (xs ++ (c ∷ cs)) s ≡ process h (suc k) (c ∷ cs) s'
  process_joined f g k [] c cs s s' i p q r e =
      subst
        (λ t. measure (c ∷ cs) t ≤ suc k → process h g (c ∷ cs) s ≡ process h (suc k) (c ∷ cs) t)
        (ended_same f s s' e) (process_any_fuel h g (suc k) (c ∷ cs) s q) r
  process_joined zero g k (b ∷ bs) c cs s s' i p q r e = absurd (omega arith)
  process_joined (suc f) zero k (b ∷ bs) c cs s s' i p q r e = absurd (omega arith)
  process_joined (suc f) (suc g) k (b ∷ bs) c cs s s' i p q r e =
      elim (Turn-cases (turn h b bs s)) [
        | inr (s₁, t) ↦ let left = process-leave h f b bs s s₁ t in absurd cc
        | inl (more, s₁, t) ↦ elim (turn_more h b c bs cs s i) [
          | inl u ↦
              let u' = u ∙ ap (with_more (c ∷ cs)) t in
              process-again h g b (bs ++ (c ∷ cs)) (more ++ (c ∷ cs)) s s₁ u'
              ∙ process_joined f g k more c cs s₁ s' (turn-IsInside h b bs more s s₁ t i)
                  (omega (arith, turn_shrinks h b bs more s s₁ t))
                  (omega (arith, turn_shrinks h b (bs ++ (c ∷ cs)) (more ++ (c ∷ cs)) s s₁ u')) r
                  (sym (process-again h f b bs more s s₁ t) ∙ e)
          | inr (v, w) ↦
              subst
                (λ x.
                  measure (c ∷ cs) x ≤ suc k
                  → process h (suc g) (b ∷ (bs ++ (c ∷ cs))) s ≡ process h (suc k) (c ∷ cs) x)
                (ended_same f (part h (b ∷ bs) s) s'
                  (sym (process-again h f b bs [] s (part h (b ∷ bs) s) v) ∙ e))
                (process_same g k b c (bs ++ (c ∷ cs)) cs s (part h (b ∷ bs) s) w q) r
        ]
      ]

  -- For a session that, when it is inside a packet and its data stream is good, has no gap
  -- between the end of the stream and the position to write at: if process_data uses up an input
  -- and ends with a session, then on this input with another behind it, it does what it does on
  -- the other from that session, whatever the handlers do.
  pub process_data-append :
      (xs ys : List ℕ) (s s' : Session)
      → IsInside s
      → process_data h xs s ≡ finished s'
      → process_data h (xs ++ ys) s ≡ process_data h ys s'
  unfolding process_data
  process_data-append xs [] s s' i e =
      ap (λ input. process_data h input s) (append-nil xs) ∙ e ∙ sym (process-[] 1 s')
  process_data-append xs (y ∷ ys) s s' i e =
      process_joined (2 * length xs + 1) (2 * length (xs ++ (y ∷ ys)) + 1) (2 * length (y ∷ ys)) xs
        y ys s s' i (measure-le h xs s) (measure-le h (xs ++ (y ∷ ys)) s)
        (omega (arith, measure-le h (y ∷ ys) s')) e
      ∙ process_any_fuel h (suc (2 * length (y ∷ ys))) (2 * length (y ∷ ys) + 1) (y ∷ ys) s'
          (omega (arith, measure-le h (y ∷ ys) s')) (measure-le h (y ∷ ys) s')
