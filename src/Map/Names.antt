-- ===== src/Map/Names.antt =====
-- The order of std::string: by the characters, as numbers below 256.
use libki.Common.{ℕ, ◌≡◌, refl, arith, List, [], ◌∷◌, Bool, true, false, ltb, if◌then◌else◌}

-- The characters of a std::string.
abbrev pub Name : Type 0
Name = List ℕ

unfoldable pub name_before : Name → Name → Bool
name_before xs [] = false
name_before [] (y ∷ ys) = true
name_before (x ∷ xs) (y ∷ ys) =
    if ltb x y then true else if ltb y x then false else name_before xs ys

pub name_before_irrefl : (a : Name) → name_before a a ≡ false
unfolding name_before
name_before_irrefl [] = refl
name_before_irrefl (x ∷ xs) = ground (arith, name_before_irrefl xs)

pub name_before_trans :
    (a b c : Name) → name_before a b ≡ true → name_before b c ≡ true → name_before a c ≡ true
unfolding name_before
name_before_trans a [] c h k = cc
name_before_trans a (y ∷ ys) [] h k = cc
name_before_trans [] (y ∷ ys) (z ∷ zs) h k = refl
name_before_trans (x ∷ xs) (y ∷ ys) (z ∷ zs) h k = ground (arith, name_before_trans xs ys zs)

pub name_before_total : (a b : Name) → name_before a b ≡ false → name_before b a ≡ false → a ≡ b
unfolding name_before
name_before_total [] [] h k = refl
name_before_total [] (y ∷ ys) h k = cc
name_before_total (x ∷ xs) [] h k = cc
name_before_total (x ∷ xs) (y ∷ ys) h k = ground (arith, name_before_total xs ys)
