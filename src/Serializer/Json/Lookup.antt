-- ===== src/Serializer/Json/Lookup.antt =====
-- What is found of a JSON object after a member was set.
use libki.Common.{
  ◌≡◌, ◌≢◌, refl, ap, sym, ◌∙◌, arith, some, Bool, true, false, if◌then◌else◌, Bool-cases, inl, inr,
}
use libki.Map.Names.{Name, name_before, name_before_irrefl}
use libki.Map.Laws.{same-eq}
use libki.Map.Orders.{name_before-IsOrder}
use libki.Serializer.Json.{Json, Members, no_members, member, set_member, get_member, same_name}

same_name_refl : (a : Name) → same_name a a ≡ true
same_name_refl a = ground (arith, name_before_irrefl a)

same_name-false : (a b : Name) → a ≢ b → same_name a b ≡ false
same_name-false a b h = elim (Bool-cases (same_name a b)) [
  | inl e ↦ absurd (h (same-eq name_before name_before-IsOrder a b e))
  | inr e ↦ e
]

module _ {V : Type 0} where
  pub get_member-set_member :
      (a : Name) (v : Json V) (ms : Members V) → get_member a (set_member a v ms) ≡ some v
  unfolding get_member set_member
  get_member-set_member a v no_members = rw (same_name_refl a) refl
  get_member-set_member a v (member key w ms) =
      by_key (same_name a key) refl (get_member-set_member a v ms)
    where
      by_key :
          (b : Bool)
          → same_name a key ≡ b
          → get_member a (set_member a v ms) ≡ some v
          → get_member a (if b then member key v ms else member key w (set_member a v ms)) ≡ some v
      by_key true e h = rw (e) refl
      by_key false e h = rw (e) h

  pub get_member-set_other :
      (a b : Name) (v : Json V) (ms : Members V)
      → a ≢ b
      → get_member b (set_member a v ms) ≡ get_member b ms
  unfolding get_member set_member
  get_member-set_other a b v no_members h = rw (same_name-false b a (λ e. h (sym e))) refl
  get_member-set_other a b v (member key w ms) h =
      by_key (same_name a key) refl (get_member-set_other a b v ms h)
    where
      by_key :
          (c : Bool)
          → same_name a key ≡ c
          → get_member b (set_member a v ms) ≡ get_member b ms
          → get_member b (if c then member key v ms else member key w (set_member a v ms))
            ≡ get_member b (member key w ms)
      by_key true e ih =
          let other =
            same_name-false b key
              λ f. h (same-eq name_before name_before-IsOrder a key e ∙ sym f) in
          rw (other) refl
      by_key false e ih = ap (λ r. if same_name b key then some w else r) ih
