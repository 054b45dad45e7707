-- ===== src/Map/Laws.antt =====
-- What a map finds after an insertion, for a strict and total order.
use libki.Common.{
  ◌≡◌, refl, arith, List, [], ◌∷◌, ◌++◌, Option, none, some, Bool, true, false, if◌then◌else◌,
}
use libki.Map.{find, insert, assign, same}

abbrev pub or_else : {V : Type 0} → Option V → V → V
or_else none v = v
or_else (some w) v = w

-- An order that a map can use.
pub record IsOrder {K : Type 0} (before : K → K → Bool) : Type 0 where
  pub irrefl : (a : K) → before a a ≡ false
  pub trans : (a b c : K) → before a b ≡ true → before b c ≡ true → before a c ≡ true
  pub total : (a b : K) → before a b ≡ false → before b a ≡ false → a ≡ b

module _ {K V : Type 0} (before : K → K → Bool) where
  -- Every key of the map stands behind `k`; before it.
  abbrev pub AllAfter : K → List (K × V) → Type 0
  AllAfter k [] = Unit {0}
  AllAfter k ((j, v) ∷ m) = (before k j ≡ true) × AllAfter k m

  abbrev pub AllBefore : K → List (K × V) → Type 0
  AllBefore k [] = Unit {0}
  AllBefore k ((j, v) ∷ m) = (before j k ≡ true) × AllBefore k m

  abbrev pub IsSorted : List (K × V) → Type 0
  IsSorted [] = Unit {0}
  IsSorted ((j, v) ∷ m) = AllAfter j m × IsSorted m

pub same-eq :
    {K : Type 0} (before : K → K → Bool) (o : IsOrder before) (j k : K)
    → same before j k ≡ true
    → j ≡ k
same-eq before o j k e = o.total j k (ground arith) (ground arith)

module _ {K V : Type 0} (before : K → K → Bool) (o : IsOrder before) where
  AllAfter-trans :
      (k j : K) (m : List (K × V)) → before k j ≡ true → AllAfter before j m → AllAfter before k m
  AllAfter-trans k j [] h a = tt
  AllAfter-trans k j ((i, v) ∷ m) h a = (o.trans k j i h a.0, AllAfter-trans k j m h a.1)

  AllAfter-insert :
      (j k : K) (v : V) (m : List (K × V))
      → before j k ≡ true
      → AllAfter before j m
      → AllAfter before j (insert before k v m)
  unfolding insert
  AllAfter-insert j k v [] h a = (h, tt)
  AllAfter-insert j k v ((i, w) ∷ m) h a = ground (arith, AllAfter-insert j k v m h a.1)

  -- Insertion keeps the order.
  pub insert-IsSorted :
      (k : K) (v : V) (m : List (K × V)) → IsSorted before m → IsSorted before (insert before k v m)
  unfolding insert
  insert-IsSorted k v [] s = (tt, tt)
  insert-IsSorted k v ((i, w) ∷ m) s =
      ground (arith, insert-IsSorted k v m s.1, AllAfter-insert i k v m, AllAfter-trans k i m)

  -- A key that stands before all is not there.
  pub find-before : (k : K) (m : List (K × V)) → AllAfter before k m → find before k m ≡ none
  unfolding find
  find-before k [] a = refl
  find-before k ((j, v) ∷ m) a = ground (arith, find-before k m a.1)

  -- The inserted key has its old value, or the new one if it had none; every other key is as before.
  pub find-insert :
      (k j : K) (v : V) (m : List (K × V))
      → IsSorted before m
      → find before j (insert before k v m)
        ≡ (if same before j k then some (or_else (find before k m) v) else find before j m)
  unfolding find insert
  find-insert k j v [] s = refl
  find-insert k j v ((i, w) ∷ m) s = ground (
    arith,
    find-insert k j v m s.1,
    o.total j i,
    o.total k i,
    o.total j k,
    o.irrefl k,
    o.irrefl i,
    find-before k m,
    AllAfter-trans k i m,
  )

  -- A key behind all others goes to the end.
  pub insert_last :
      (k : K) (v : V) (m : List (K × V))
      → AllBefore before k m
      → insert before k v m ≡ m ++ ((k, v) ∷ [])
  unfolding insert
  insert_last k v [] a = refl
  insert_last k v ((j, w) ∷ m) a = ground (arith, insert_last k v m a.1, o.irrefl k, o.trans k j k)

module _ {K V : Type 0} (before : K → K → Bool) where
  -- For a new key, assignment is insertion.
  pub assign-insert :
      (k : K) (v : V) (m : List (K × V))
      → find before k m ≡ none
      → assign before k v m ≡ insert before k v m
  unfolding assign insert find
  assign-insert k v [] e = refl
  assign-insert k v ((j, w) ∷ m) e = ground (arith, assign-insert k v m)
