-- ===== src/Pclass/Found.antt =====
-- What the lookups of pclass find: an element of a list by the position that a map has for a key, or
-- an exception.
use libki.Common.{
  ℕ, ◌≡◌, refl, ap, sym, ◌∙◌, arith, List, [], ◌∷◌, ◌++◌, Option, none, some, Bool, true, false,
  ltb, ◌==◌, if◌then◌else◌, length, get_elem?,
}
use libki.Common.Result.{Result, ok, throw, deref}
use libki.Map.{find, assign, same}
use libki.Map.Laws.{IsOrder, IsSorted, insert-IsSorted, assign-insert}
use libki.Map.Keyed.{key_of, AllKeyed, AllKeyed-insert, element, element-insert}
use libki.Pclass.EnumType.{RuntimeError, runtime_error}

pub same-ltb : (j k : ℕ) → same ltb j k ≡ (j == k)
same-ltb j k = ground arith

module _ {T : Type 0} where
  -- The element that a lookup gives.
  abbrev pub found : List T → Option ℕ → Result RuntimeError T
  found ts none = throw runtime_error
  found ts (some p) = deref (get_elem? ts p)

  abbrev or_throw : Option T → Result RuntimeError T
  or_throw none = throw runtime_error
  or_throw (some x) = ok x

  or_throw-if :
      (b : Bool) (x : T) (o : Option T) (r : Result RuntimeError T)
      → r ≡ or_throw o
      → or_throw (if b then some x else o) ≡ (if b then ok x else r)
  or_throw-if true x o r e = refl
  or_throw-if false x o r e = sym e

-- A map from the keys of elements to their positions.
module _ {T K : Type 0} (key : T → K) (before : K → K → Bool) where
  deref_keyed : (k : K) (o : Option T) → key_of key o ≡ some k → deref o ≡ or_throw o
  deref_keyed k none e = cc
  deref_keyed k (some x) e = refl

  -- No lookup leads out of the list.
  found_lem :
      (ts : List T) (j : K) (m : List (K × ℕ))
      → AllKeyed key ts m
      → found ts (find before j m) ≡ or_throw (element ts (find before j m))
  unfolding find
  found_lem ts j [] a = refl
  found_lem ts j ((k, p) ∷ m) a =
      at (same before j k) (deref_keyed k (get_elem? ts p) a.0) (found_lem ts j m a.1)
    where
      at :
          (b : Bool)
          → deref (get_elem? ts p) ≡ or_throw (get_elem? ts p)
          → found ts (find before j m) ≡ or_throw (element ts (find before j m))
          → found ts (if b then some p else find before j m)
            ≡ or_throw (element ts (if b then some p else find before j m))
      at true e f = e
      at false e f = f

  module _ (order : IsOrder before) (ts : List T) (t : T) (m : List (K × ℕ))
      (sorted : IsSorted before m) (keyed : AllKeyed key ts m)
      (new : find before (key t) m ≡ none) where
    -- A new last element under its key: the map stays a map of the keys.
    pub assign-IsSorted : IsSorted before (assign before (key t) (length ts) m)
    assign-IsSorted =
        rw (assign-insert before (key t) (length ts) m new)
          (insert-IsSorted before order (key t) (length ts) m sorted)

    pub assign-AllKeyed : AllKeyed key (ts ++ (t ∷ [])) (assign before (key t) (length ts) m)
    assign-AllKeyed =
        rw (assign-insert before (key t) (length ts) m new)
          (AllKeyed-insert key before ts t m keyed)

    -- The new element is found by its key, and the others as before.
    pub found-assign :
        (j : K)
        → found (ts ++ (t ∷ [])) (find before j (assign before (key t) (length ts) m))
          ≡ (if same before j (key t) then ok t else found ts (find before j m))
    found-assign j =
        found_lem (ts ++ (t ∷ [])) j _ assign-AllKeyed
        ∙ ap (λ m. or_throw (element (ts ++ (t ∷ [])) (find before j m)))
            (assign-insert before (key t) (length ts) m new)
        ∙ ap or_throw (element-insert key before order ts t j m sorted keyed new)
        ∙ or_throw-if (same before j (key t)) t _ _ (found_lem ts j m keyed)
