-- ===== src/Pclass/TypeSystem/Lookup.antt =====
-- What a type system finds and makes after a type was defined.
use libki.Common.{
  ℕ, ◌≡◌, ◌⊎◌, inl, inr, refl, ap, ap₂, ◌∙◌, ◌∷◌, [], ◌++◌, Option, none, some, ◌||◌, ltb, ◌==◌,
  if◌then◌else◌, length, ◌+◌, true, false, Bool, length-append,
}
use libki.Common.Result.{Result, ok, throw, ◌>>=◌}
use libki.Map.{find, assign, same}
use libki.Map.Names.{Name, name_before}
use libki.Map.Laws.{IsSorted}
use libki.Map.Keyed.{AllKeyed}
use libki.Map.Orders.{ltb-IsOrder, name_before-IsOrder}
use libki.Pclass.Found.{same-ltb, assign-IsSorted, assign-AllKeyed, found-assign}
use libki.Pclass.EnumType.{RuntimeError, runtime_error, is_some}
use libki.Pclass.TypeSystem.{
  DefinedType, TypeSystem, pointed, type_system, define_type, get_type_named, get_type_hashed,
  has_type_named, has_type_hashed, instantiate, instantiate_type,
}

abbrev name_of : DefinedType → Name
name_of t = t.m_name

abbrev hash_of : DefinedType → ℕ
hash_of t = t.m_hash

-- The lookups are sorted and lead to the types of their keys.
pub record IsIndexedSystem (ts : TypeSystem) : Type 0 where
  pub names_sorted : IsSorted name_before ts.m_type_name_lookup
  pub hashes_sorted : IsSorted ltb ts.m_type_hash_lookup
  pub names : AllKeyed name_of ts.m_types ts.m_type_name_lookup
  pub hashes : AllKeyed hash_of ts.m_types ts.m_type_hash_lookup

pub type_system-IsIndexedSystem : IsIndexedSystem type_system
unfolding type_system
type_system-IsIndexedSystem = record {
  names_sorted = tt;
  hashes_sorted = tt;
  names = tt;
  hashes = tt;
}

-- The system with one more type.
abbrev with_type : DefinedType → TypeSystem → TypeSystem
with_type t ts = record {
  m_types = ts.m_types ++ (t ∷ []);
  m_type_name_lookup = assign name_before t.m_name (length ts.m_types) ts.m_type_name_lookup;
  m_type_hash_lookup = assign ltb t.m_hash (length ts.m_types) ts.m_type_hash_lookup;
}

-- A type is refused, and nothing changes.
abbrev pub RefusedType : DefinedType → TypeSystem → Type 0
RefusedType t ts =
    (define_type t ts ≡ (throw runtime_error, ts))
    × ((has_type_named t.m_name ts || has_type_hashed t.m_hash ts) ≡ true)

-- Its name and its hash are new; it is found by them, and its instances by its name; the others
-- as before.
abbrev pub Defined : DefinedType → TypeSystem → TypeSystem → Name → ℕ → Type 0
Defined t ts ts' j h =
    (define_type t ts ≡ (ok tt, ts'))
    × ((has_type_named t.m_name ts || has_type_hashed t.m_hash ts) ≡ false)
    × IsIndexedSystem ts'
    × (length ts'.m_types ≡ length ts.m_types + 1)
    × (get_type_named j ts' ≡ (if same name_before j t.m_name then ok t else get_type_named j ts))
    × (get_type_hashed h ts' ≡ (if h == t.m_hash then ok t else get_type_hashed h ts))
    × (instantiate j ts'
        ≡ (if same name_before j t.m_name then instantiate_type t else instantiate j ts))

module _ (t : DefinedType) (ts : TypeSystem) (i : IsIndexedSystem ts)
    (new_name : find name_before t.m_name ts.m_type_name_lookup ≡ none)
    (new_hash : find ltb t.m_hash ts.m_type_hash_lookup ≡ none) where
  with_type-IsIndexedSystem : IsIndexedSystem (with_type t ts)
  with_type-IsIndexedSystem = record {
    names_sorted =
        assign-IsSorted name_of name_before name_before-IsOrder ts.m_types t ts.m_type_name_lookup
          i.names_sorted i.names new_name;
    hashes_sorted =
        assign-IsSorted hash_of ltb ltb-IsOrder ts.m_types t ts.m_type_hash_lookup i.hashes_sorted
          i.hashes new_hash;
    names =
        assign-AllKeyed name_of name_before name_before-IsOrder ts.m_types t ts.m_type_name_lookup
          i.names_sorted i.names new_name;
    hashes =
        assign-AllKeyed hash_of ltb ltb-IsOrder ts.m_types t ts.m_type_hash_lookup i.hashes_sorted
          i.hashes new_hash;
  }

  named_after :
      (j : Name)
      → get_type_named j (with_type t ts)
        ≡ (if same name_before j t.m_name then ok t else get_type_named j ts)
  unfolding get_type_named
  named_after j =
      found-assign name_of name_before name_before-IsOrder ts.m_types t ts.m_type_name_lookup
        i.names_sorted i.names new_name j

  hashed_after :
      (h : ℕ)
      → get_type_hashed h (with_type t ts) ≡ (if h == t.m_hash then ok t else get_type_hashed h ts)
  unfolding get_type_hashed
  hashed_after h =
      found-assign hash_of ltb ltb-IsOrder ts.m_types t ts.m_type_hash_lookup i.hashes_sorted
        i.hashes new_hash h
      ∙ ap (λ b. if b then ok t else pointed ts (find ltb h ts.m_type_hash_lookup))
          (same-ltb h t.m_hash)

  made_after :
      (j : Name)
      → instantiate j (with_type t ts)
        ≡ (if same name_before j t.m_name then instantiate_type t else instantiate j ts)
  unfolding instantiate
  made_after j =
      ap (λ r. r >>= instantiate_type) (named_after j) ∙ by_name (same name_before j t.m_name)
    where
      by_name :
          (b : Bool)
          → ((if b then ok t else get_type_named j ts) >>= instantiate_type)
            ≡ (if b then instantiate_type t else (get_type_named j ts >>= instantiate_type))
      by_name true = refl
      by_name false = refl

-- For a type system whose lookups are sorted and lead to the types of their keys: define_type
-- either throws and leaves the system, and the system has a type of the name or of the hash; or
-- it returns, the system had neither, stays so and has one type more, which is found by its name
-- and by its hash and makes the instances for its name, and for every other name and hash the
-- system gives what it gave before.
pub define_type-cases :
    (t : DefinedType) (ts : TypeSystem) (j : Name) (h : ℕ)
    → IsIndexedSystem ts
    → RefusedType t ts ⊎ ((ts' : TypeSystem) × Defined t ts ts' j h)
unfolding define_type has_type_named has_type_hashed
define_type-cases t ts j h i =
    by_keys (find name_before t.m_name ts.m_type_name_lookup)
      (find ltb t.m_hash ts.m_type_hash_lookup) refl refl
  where
    choice : Option ℕ → Option ℕ → Result RuntimeError (Unit {0}) × TypeSystem
    choice a b =
        if is_some a
        then (throw runtime_error, ts)
        else if is_some b
        then (throw runtime_error, ts)
        else (ok tt, with_type t ts)

    by_keys :
        (a b : Option ℕ)
        → find name_before t.m_name ts.m_type_name_lookup ≡ a
        → find ltb t.m_hash ts.m_type_hash_lookup ≡ b
        → RefusedType t ts ⊎ ((ts' : TypeSystem) × Defined t ts ts' j h)
    by_keys (some p) b e f =
        inl (
          ap₂ choice e f,
          ap (λ x. is_some x || is_some (find ltb t.m_hash ts.m_type_hash_lookup)) e,
        )
    by_keys none (some q) e f = inl (ap₂ choice e f, ap₂ (λ x y. is_some x || is_some y) e f)
    by_keys none none e f = inr (
      with_type t ts,
      (
        ap₂ choice e f,
        ap₂ (λ x y. is_some x || is_some y) e f,
        with_type-IsIndexedSystem t ts i e f,
        length-append ts.m_types (t ∷ []),
        named_after t ts i e f j,
        hashed_after t ts i e f h,
        made_after t ts i e f j,
      ),
    )
