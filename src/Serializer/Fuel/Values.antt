-- ===== src/Serializer/Fuel/Values.antt =====
-- Reading values ends.
use libki.Common.{
  ℕ, zero, suc, ◌+◌, ◌≤◌, ◌≡◌, refl, arith, ◌∷◌, Bool, true, false, ltb, if◌then◌else◌,
}
use libki.Common.Result.{Result, ok, throw, fault, stuck, ◌>>=◌}
use libki.Position.Laws.{offset, add_assign_lem}
use libki.Interface.Typed.{InScope}
use libki.Stream.{BitStream, realign, read}
use libki.Pclass.EnumType.{RuntimeError}
use libki.Pclass.Primitive
use libki.Pclass.Primitive.{
  Primitive, integer, floating, bit_integer, boolean, string, read_chars, read_string,
  helper_read_from,
}
use libki.Pclass.Enum.{Enum, enum_of, set_value}
use libki.Pclass.Enum.Transfer
use libki.Pclass.Object.{ValueType, primitive, enum, is_byte_aligned}
use libki.Serializer.{Buffers, thrown}
use libki.Serializer.Load.{load_values, read_value}
use libki.Serializer.Steps.{byte_position, realign_lem, byte_position_lem}
use native.Mathlib.Decide.{dec_le}
use libki.Serializer.Fuel.{
  HasWords, set_value-IsDone, IsBounded, Stands, Ends, Ends-bind, Ends-after, Ends-thrown, further,
}

lt-false : {a n : ℕ} → n ≤ a → ltb a n ≡ false
lt-false h = ground arith

lt-true : {a n : ℕ} → ¬ (n ≤ a) → ltb a n ≡ true
lt-true h = ground arith

module _ {S : Type 0} (k : Buffers S) (s : S) (len : ℕ) (bound : IsBounded k s len) where
  pub Ends-read :
      (width n q : ℕ) (st : BitStream S)
      → n ≤ 64
      → Stands k s len q st
      → Ends k s len (q + n) (read k.ops width st n)
  unfolding read
  Ends-read width n q st word w =
      let p = st.m_position in
      let scope : InScope p n = record {
        normal = w.normal;
        word = word;
        small = omega (arith, w.inside, bound.small);
      } in
      let moved = add_assign_lem p n w.normal (omega (arith, w.inside, bound.small)) in
      elim (dec_le (offset p + n) len) [
        | yes fits ↦
            rw (w.same, bound.reads width p n scope, lt-false fits)
              (record {
                same = refl;
                normal = moved.0;
                onward = omega (arith, w.onward, moved.1);
                inside = omega (arith, fits, moved.1);
              })
        | no out ↦ rw (w.same, bound.reads width p n scope, lt-true out) tt
      ]

  pub Ends-align :
      {B : Type 0} (q q' : ℕ) (al : Bool) (st : BitStream S)
      (f : BitStream S → Result RuntimeError (B × BitStream S))
      → Stands k s len q st
      → ((st' : BitStream S) → Stands k s len q st' → Ends k s len q' (f st'))
      → Ends k s len q' ((if al then thrown (realign k.ops st) else ok st) >>= f)
  Ends-align q q' true st f w next =
      let there = byte_position_lem st.m_position w.normal (omega (arith, w.inside, bound.small)) in
      rw (realign_lem k.ops st w.normal) (
        next (record st { m_position = byte_position st.m_position })
          (record {
            same = w.same;
            normal = there.0;
            onward = omega (arith, w.onward, there.1);
            inside = omega (arith, w.inside, there.1, bound.whole_bytes);
          }))
  Ends-align q q' false st f w next = next st w

  -- What gives the stream on as it is.
  pub Ends-map :
      {E A B : Type 0} (q : ℕ) (f : A → B) (r : Result E (A × BitStream S))
      → Ends k s len q r
      → Ends k s len q (r >>= λ x. ok (f x.0, x.1))
  Ends-map q f r h = Ends-bind k s len q q r _ h λ a st w. w

  pub Ends-weaken :
      {E A : Type 0} (q q' : ℕ) (r : Result E (A × BitStream S))
      → q ≤ q'
      → Ends k s len q' r
      → Ends k s len q r
  Ends-weaken q q' (ok (a, st)) h e = further k s len h e
  Ends-weaken q q' (throw e') h e = tt
  Ends-weaken q q' fault h e = tt
  Ends-weaken q q' stuck h e = absurd e

  pub Ends-read_chars :
      (bits n q : ℕ) (st : BitStream S)
      → bits ≤ 64
      → Stands k s len q st
      → Ends k s len q (read_chars k.ops bits n st)
  unfolding read_chars
  Ends-read_chars bits zero q st word w = w
  Ends-read_chars bits (suc n) q st word w =
      Ends-bind k s len (q + bits) q _ _ (Ends-read bits bits q st word w) λ c st' w'.
        Ends-map q (λ cs. c ∷ cs) _
          (Ends-read_chars bits n q st' word (further k s len (omega arith) w'))

  pub Ends-string :
      (bits q : ℕ) (st : BitStream S)
      → bits ≤ 64
      → Stands k s len q st
      → Ends k s len q (read_string k.ops bits st false)
  unfolding read_string
  Ends-string bits q st word w =
      Ends-bind k s len (q + 16) q _ _ (Ends-read 16 16 q st (omega arith) w)
        λ n st' w'. Ends-read_chars bits n q st' word (further k s len (omega arith) w')

  pub Ends-number :
      (bits q : ℕ) (st : BitStream S)
      → bits ≤ 64
      → Stands k s len q st
      → Ends k s len q (thrown (read k.ops bits st bits))
  Ends-number bits q st word w =
      Ends-thrown k s len q _
        (Ends-weaken q (q + bits) _ (omega arith) (Ends-read bits bits q st word w))

  pub Ends-value :
      (t : ValueType) (q : ℕ) (st : BitStream S)
      → HasWords t
      → Stands k s len q st
      → Ends k s len q (read_value k t false st)
  unfolding read_value Primitive.read_from helper_read_from Transfer.read_from enum_of set_value
  Ends-value (primitive (integer n)) q st word w = Ends-number n q st word w
  Ends-value (primitive (floating n)) q st word w = Ends-number n q st word w
  Ends-value (primitive (bit_integer n)) q st word w = Ends-number n q st word w
  Ends-value (primitive boolean) q st word w = Ends-thrown k s len q _ (
      Ends-bind k s len (q + 1) q _ _ (Ends-read 1 1 q st (omega arith) w)
        λ v st' w'. further k s len (omega arith) w')
  Ends-value (primitive (string n)) q st word w =
      Ends-thrown k s len q _ (Ends-string n q st word w)
  Ends-value (enum t) q st word w =
      Ends-map q (λ (e : Enum). e.m_value) _
        (Ends-bind k s len q q _ _ (Ends-number 32 q st (omega arith) w) λ v st' w'.
          Ends-after k s len q _ _ (set_value-IsDone v (record { m_type = t; m_value = 0 }))
            λ e. w')

  pub Ends-values :
      (t : ValueType) (n q : ℕ) (st : BitStream S)
      → HasWords t
      → Stands k s len q st
      → Ends k s len q (load_values k t false n st)
  unfolding load_values
  Ends-values t zero q st word w = w
  Ends-values t (suc n) q st word w = Ends-align q q (is_byte_aligned t) st _ w λ st1 w1.
      Ends-bind k s len q q _ _ (Ends-value t q st1 word w1)
        λ v st2 w2. Ends-map q (λ vs. v ∷ vs) _ (Ends-values t n q st2 word w2)
