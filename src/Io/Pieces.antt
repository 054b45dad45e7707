-- ===== src/Io/Pieces.antt =====
-- A stream that is written in pieces.
use libki.Common.{
  ℕ, zero, suc, ◌+◌, ◌≤◌, ◌≡◌, inl, inr, refl, ap, ap₂, sym, ◌∙◌, arith, List, [], ◌∷◌, ◌++◌,
  append_assoc, Bool, false, ◌&&◌, Bool-cases, ltb, length, length-append, take, drop,
}
use libki.Io.{IoStream, good, write}
use libki.Io.Laws.{take-append, drop-append, drop-drop}

-- Writing would leave a gap behind what is there.
abbrev pub outside : IoStream → Bool
outside stream = good stream && ltb (length stream.chars) stream.put_pos

pub take_more :
    (n k : ℕ) (xs ys : List ℕ) → length xs ≡ n → take (n + k) (xs ++ ys) ≡ xs ++ take k ys
take_more zero k [] ys e = ap (λ (j : ℕ). take j ys) (omega arith)
take_more zero k (x ∷ xs) ys e = absurd (omega arith)
take_more (suc n) k [] ys e = absurd (omega arith)
take_more (suc n) k (x ∷ xs) ys e =
    ap (λ (j : ℕ). take j (x ∷ (xs ++ ys))) moved
    ∙ ap (λ l. x ∷ l) (take_more n k xs ys (omega arith))
  where
    moved : suc n + k ≡ suc (n + k)
    moved = omega arith

pub drop_more : (n k : ℕ) (xs ys : List ℕ) → length xs ≡ n → drop (n + k) (xs ++ ys) ≡ drop k ys
drop_more n k xs ys e = sym (drop-drop n k (xs ++ ys)) ∙ ap (drop k) (drop-append n xs ys e)

length-take_le : (n : ℕ) (xs : List ℕ) → n ≤ length xs → length (take n xs) ≡ n
length-take_le zero xs h = refl
length-take_le (suc n) [] h = absurd (omega arith)
length-take_le (suc n) (x ∷ xs) h = ap suc (length-take_le n xs (omega arith))

overwritten :
    (p : ℕ) (c xs ys : List ℕ)
    → p ≤ length c
    → take (p + length xs) (take p c ++ (xs ++ drop (p + length xs) c))
        ++ (ys ++ drop (p + length xs + length ys) (take p c ++ (xs ++ drop (p + length xs) c)))
      ≡ take p c ++ ((xs ++ ys) ++ drop (p + length (xs ++ ys)) c)
overwritten p c xs ys h =
    ap₂ (λ a b. a ++ (ys ++ b)) front behind
    ∙ append_assoc (take p c) xs (ys ++ drop (p + length (xs ++ ys)) c)
    ∙ ap (λ l. take p c ++ l) (sym (append_assoc xs ys (drop (p + length (xs ++ ys)) c)))
  where
    front : take (p + length xs) (take p c ++ (xs ++ drop (p + length xs) c)) ≡ take p c ++ xs
    front =
        take_more p (length xs) (take p c) (xs ++ drop (p + length xs) c) (length-take_le p c h)
        ∙ ap (λ l. take p c ++ l) (take-append (length xs) xs (drop (p + length xs) c) refl)

    behind :
        drop (p + length xs + length ys) (take p c ++ (xs ++ drop (p + length xs) c))
        ≡ drop (p + length (xs ++ ys)) c
    behind =
        ap (λ (j : ℕ). drop j (take p c ++ (xs ++ drop (p + length xs) c))) (omega arith)
        ∙ drop_more p (length xs + length ys) (take p c) (xs ++ drop (p + length xs) c)
            (length-take_le p c h)
        ∙ drop_more (length xs) (length ys) xs (drop (p + length xs) c) refl
        ∙ drop-drop (p + length xs) (length ys) c
        ∙ ap (λ (j : ℕ). drop j c) (omega (arith, length-append xs ys))

-- Two pieces of a payload, written one after the other.
pub write-write :
    (xs ys : List ℕ) (s : IoStream) → outside s ≡ false → write ys (write xs s) ≡ write (xs ++ ys) s
unfolding write
write-write xs ys s i = elim (Bool-cases (good s)) [
  | inl g ↦ rw g (
      rw g (
        ap₂ (λ l (p : ℕ). record s { chars = l; put_pos = p })
          (overwritten s.put_pos s.chars xs ys (ground (arith, g)))
          (omega (arith, length-append xs ys))))
  | inr b ↦ rw b (rw b refl)
]

pub write-inside : (xs : List ℕ) (s : IoStream) → outside s ≡ false → outside (write xs s) ≡ false
unfolding write
write-inside xs s i = ground (
  arith,
  length-append (take s.put_pos s.chars) (xs ++ drop (s.put_pos + length xs) s.chars),
  length-append xs (drop (s.put_pos + length xs) s.chars),
  length-take_le s.put_pos s.chars,
)

pub take_prefix : (k : ℕ) (xs ys : List ℕ) → k ≤ length xs → take k (xs ++ ys) ≡ take k xs
take_prefix zero [] ys h = refl
take_prefix zero (x ∷ xs) ys h = refl
take_prefix (suc k) [] ys h = absurd (omega arith)
take_prefix (suc k) (x ∷ xs) ys h = ap (λ l. x ∷ l) (take_prefix k xs ys (omega arith))

pub drop_prefix : (k : ℕ) (xs ys : List ℕ) → k ≤ length xs → drop k (xs ++ ys) ≡ drop k xs ++ ys
drop_prefix zero [] ys h = refl
drop_prefix zero (x ∷ xs) ys h = refl
drop_prefix (suc k) [] ys h = absurd (omega arith)
drop_prefix (suc k) (x ∷ xs) ys h = drop_prefix k xs ys (omega arith)
