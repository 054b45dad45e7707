-- ===== src/Io/Laws.antt =====
-- Reading from a stream whose remaining input is known.
use libki.Common.{
  ℕ, zero, suc, ◌+◌, ◌<◌, ◌≡◌, refl, sym, ap, ◌∙◌, arith, List, [], ◌∷◌, ◌++◌, true, false, length,
  take, drop, length-append, ltb,
}
use libki.Io.{IoStream, good, remaining, read, exhausted}

module _ {ℓ} {A : Type ℓ} where
  pub take-append : (n : ℕ) (xs ys : List A) → length xs ≡ n → take n (xs ++ ys) ≡ xs
  take-append zero [] ys e = refl
  take-append zero (x ∷ xs) ys e = absurd (omega arith)
  take-append (suc n) [] ys e = absurd (omega arith)
  take-append (suc n) (x ∷ xs) ys e = ap (λ t. x ∷ t) (take-append n xs ys (omega arith))

  pub drop-append : (n : ℕ) (xs ys : List A) → length xs ≡ n → drop n (xs ++ ys) ≡ ys
  drop-append zero [] ys e = refl
  drop-append zero (x ∷ xs) ys e = absurd (omega arith)
  drop-append (suc n) [] ys e = absurd (omega arith)
  drop-append (suc n) (x ∷ xs) ys e = drop-append n xs ys (omega arith)

  pub drop-drop : (m n : ℕ) (xs : List A) → drop n (drop m xs) ≡ drop (m + n) xs
  drop-drop zero n xs = ap (λ (k : ℕ). drop k xs) zeroed
    where
      zeroed : n ≡ 0 + n
      zeroed = omega arith
  drop-drop (suc m) n [] = rw (more m n) (empty n)
    where
      more : (m n : ℕ) → suc m + n ≡ suc (m + n)
      more m n = omega arith

      empty : (n : ℕ) → drop {A = A} n [] ≡ []
      empty zero = refl
      empty (suc n) = refl
  drop-drop (suc m) n (x ∷ xs) = rw (more m n) (drop-drop m n xs)
    where
      more : (m n : ℕ) → suc m + n ≡ suc (m + n)
      more m n = omega arith

-- The stream has nothing wrong with it, and what is left to read is `input`.
pub record Offers (s : IoStream) (input : List ℕ) : Type 0 where
  pub is_good : good s ≡ true
  pub input_is : remaining s ≡ input

abbrev pub advance : ℕ → IoStream → IoStream
advance n s = record s { get_pos = s.get_pos + n }

pub advance-Offers :
    (s : IoStream) (xs rest : List ℕ) → Offers s (xs ++ rest) → Offers (advance (length xs) s) rest
advance-Offers s xs rest o = record {
  is_good = o.is_good;
  input_is =
      sym (drop-drop s.get_pos (length xs) s.chars)
      ∙ ap (drop (length xs)) o.input_is
      ∙ drop-append (length xs) xs rest refl;
}

-- A read of input that is there takes it.
pub read_lem :
    (n : ℕ) (s : IoStream) (xs rest : List ℕ)
    → length xs ≡ n
    → Offers s (xs ++ rest)
    → read n s ≡ (xs, advance n s)
unfolding read
read_lem n s xs rest e o =
    rw (o.is_good, o.input_is, enough)
      (ap (λ (t : List ℕ). (t, advance n s)) (take-append n xs rest e))
  where
    enough : ltb (length (xs ++ rest)) n ≡ false
    enough = ground (arith, length-append xs rest)

-- A read of more than there is takes all and sets the bits of failure.
pub read_short :
    (n : ℕ) (s : IoStream) (xs : List ℕ)
    → length xs < n
    → Offers s xs
    → read n s ≡ (xs, exhausted s)
unfolding read
read_short n s xs h o = rw (o.is_good, o.input_is, short) refl
  where
    short : ltb (length xs) n ≡ true
    short = ground arith
