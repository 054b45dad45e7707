-- ===== src/Map/Keyed.antt =====
-- A map of keys to positions in a list, where each key is that of the element at its position.
use libki.Common.{
  ℕ, zero, suc, ◌≡◌, refl, ap, ◌∙◌, List, [], ◌∷◌, ◌++◌, Option, none, some, some-injective, sym,
  subst, true, false, if_both, if◌then◌else◌, length, get_elem?, Bool,
}
use libki.Map.{find, insert, same}
use libki.Map.Laws.{IsOrder, same-eq, IsSorted, find-insert}

-- The element that a map gives for a key.
abbrev pub element : {T : Type 0} → List T → Option ℕ → Option T
element ts none = none
element ts (some p) = get_elem? ts p

module _ {T K : Type 0} (key : T → K) where
  abbrev pub key_of : Option T → Option K
  key_of none = none
  key_of (some t) = some (key t)

  abbrev pub IsKeyed : List T → K → ℕ → Type 0
  IsKeyed ts k p = key_of (get_elem? ts p) ≡ some k

  abbrev pub AllKeyed : List T → List (K × ℕ) → Type 0
  AllKeyed ts [] = Unit {0}
  AllKeyed ts ((k, p) ∷ m) = IsKeyed ts k p × AllKeyed ts m

  IsKeyed-append :
      (ts : List T) (t : T) (k : K) (p : ℕ) → IsKeyed ts k p → IsKeyed (ts ++ (t ∷ [])) k p
  IsKeyed-append [] t k p i = cc
  IsKeyed-append (x ∷ ts) t k zero i = i
  IsKeyed-append (x ∷ ts) t k (suc p) i = IsKeyed-append ts t k p i

  pub last-IsKeyed : (ts : List T) (t : T) → IsKeyed (ts ++ (t ∷ [])) (key t) (length ts)
  last-IsKeyed [] t = refl
  last-IsKeyed (x ∷ ts) t = last-IsKeyed ts t

  -- A new last element leaves the keys of the others.
  pub AllKeyed-append :
      (ts : List T) (t : T) (m : List (K × ℕ)) → AllKeyed ts m → AllKeyed (ts ++ (t ∷ [])) m
  AllKeyed-append ts t [] a = tt
  AllKeyed-append ts t ((k, p) ∷ m) a = (IsKeyed-append ts t k p a.0, AllKeyed-append ts t m a.1)

  module _ (before : K → K → Bool) where
    pub insert-AllKeyed :
        (ts : List T) (k : K) (p : ℕ) (m : List (K × ℕ))
        → IsKeyed ts k p
        → AllKeyed ts m
        → AllKeyed ts (insert before k p m)
    unfolding insert
    insert-AllKeyed ts k p [] i a = (i, tt)
    insert-AllKeyed ts k p ((j, q) ∷ m) i a =
        if_both (AllKeyed ts) (before k j) (i, a)
          (if_both (AllKeyed ts) (before j k) (a.0, insert-AllKeyed ts k p m i a.1) a)

  -- With a new last element under its key.
  pub AllKeyed-insert :
      (before : K → K → Bool) (ts : List T) (t : T) (m : List (K × ℕ))
      → AllKeyed ts m
      → AllKeyed (ts ++ (t ∷ [])) (insert before (key t) (length ts) m)
  AllKeyed-insert before ts t m a =
      insert-AllKeyed before (ts ++ (t ∷ [])) (key t) (length ts) m (last-IsKeyed ts t)
        (AllKeyed-append ts t m a)

  get_elem?-append :
      (ts : List T) (t : T) (k : K) (p : ℕ)
      → IsKeyed ts k p
      → get_elem? (ts ++ (t ∷ [])) p ≡ get_elem? ts p
  get_elem?-append [] t k p i = cc
  get_elem?-append (x ∷ ts) t k zero i = refl
  get_elem?-append (x ∷ ts) t k (suc p) i = get_elem?-append ts t k p i

  pub get_elem?-last : (ts : List T) (t : T) → get_elem? (ts ++ (t ∷ [])) (length ts) ≡ some t
  get_elem?-last [] t = refl
  get_elem?-last (x ∷ ts) t = get_elem?-last ts t

  -- What was found is found as before.
  pub element-append :
      (before : K → K → Bool) (ts : List T) (t : T) (j : K) (m : List (K × ℕ))
      → AllKeyed ts m
      → element (ts ++ (t ∷ [])) (find before j m) ≡ element ts (find before j m)
  unfolding find
  element-append before ts t j [] a = refl
  element-append before ts t j ((k, p) ∷ m) a =
      at (same before j k) (get_elem?-append ts t k p a.0) (element-append before ts t j m a.1)
    where
      at :
          (b : Bool)
          → get_elem? (ts ++ (t ∷ [])) p ≡ get_elem? ts p
          → element (ts ++ (t ∷ [])) (find before j m) ≡ element ts (find before j m)
          → element (ts ++ (t ∷ [])) (if b then some p else find before j m)
            ≡ element ts (if b then some p else find before j m)
      at true e f = e
      at false e f = f

module _ {T K : Type 0} (key : T → K) (before : K → K → Bool) (o : IsOrder before) where
  -- A new last element under a new key: the map gives it for that key, and the others as before.
  pub element-insert :
      (ts : List T) (t : T) (j : K) (m : List (K × ℕ))
      → IsSorted before m
      → AllKeyed key ts m
      → find before (key t) m ≡ none
      → element (ts ++ (t ∷ [])) (find before j (insert before (key t) (length ts) m))
        ≡ (if same before j (key t) then some t else element ts (find before j m))
  element-insert ts t j m s a e =
      ap (element (ts ++ (t ∷ []))) (find-insert before o (key t) j (length ts) m s)
      ∙ rw e (
          at (same before j (key t)) (get_elem?-last key ts t)
            (element-append key before ts t j m a))
    where
      at :
          (b : Bool)
          → get_elem? (ts ++ (t ∷ [])) (length ts) ≡ some t
          → element (ts ++ (t ∷ [])) (find before j m) ≡ element ts (find before j m)
          → element (ts ++ (t ∷ [])) (if b then some (length ts) else find before j m)
            ≡ (if b then some t else element ts (find before j m))
      at true f g = f
      at false f g = g

module _ {T K : Type 0} (key : T → K) (before : K → K → Bool) (o : IsOrder before) where
  -- What a map finds carries the key.
  pub find-IsKeyed :
      (ts : List T) (k : K) (p : ℕ) (m : List (K × ℕ))
      → AllKeyed key ts m
      → find before k m ≡ some p
      → IsKeyed key ts k p
  unfolding find
  find-IsKeyed ts k p [] a e = cc
  find-IsKeyed ts k p ((j, q) ∷ m) a e = at (same before k j) refl e (find-IsKeyed ts k p m a.1)
    where
      at :
          (b : Bool)
          → same before k j ≡ b
          → (if b then some q else find before k m) ≡ some p
          → (find before k m ≡ some p → IsKeyed key ts k p)
          → IsKeyed key ts k p
      at true s f g =
          subst (λ x. IsKeyed key ts k x) (some-injective q p f)
            (a.0 ∙ ap some (sym (same-eq before o k j s)))
      at false s f g = g f

pub get_elem?-more :
    {T : Type 0} (ts : List T) (t u : T) (p : ℕ)
    → get_elem? ts p ≡ some u
    → get_elem? (ts ++ (t ∷ [])) p ≡ some u
get_elem?-more [] t u p e = cc
get_elem?-more (x ∷ ts) t u zero e = e
get_elem?-more (x ∷ ts) t u (suc p) e = get_elem?-more ts t u p e
