-- ===== src/Serializer/Objects.antt =====
-- What an object is on a stream that is not a file, as steps: its type's hash, and then its
-- properties, the ones that the serializer ignores left out.
pub mod Saving
pub mod Loading
use libki.Common.{
  ℕ, ◌%◌, ◌^◌, ◌<◌, ◌≡◌, ◌⊎◌, inl, inr, arith, List, ◌∷◌, Bool, true, false, if◌then◌else◌,
}
use libki.Common.Result.{ok}
use libki.Pclass.Object.{
  PropertyInfo, Pointer, null, object, Properties, no_properties, property, Elements, values,
  objects, Pointers, no_pointers, next_pointer, get_element_count, kind_of, set_object,
}
use libki.Pclass.TypeSystem.{TypeSystem}
use libki.Serializer.{BinarySerializer}
use libki.Serializer.Save.{ignores}
use libki.Serializer.Load.{instance_of_hash}
use libki.Serializer.Steps.{Step, align, put, AreWords}
use libki.Serializer.Values.{values_steps, values_steps-AreWords, AreValues}

-- The element count of a dynamic property.
abbrev pub count_steps : Bool → ℕ → List Step → List Step
count_steps true n rest = align ∷ put (n % 2 ^ 32) 32 ∷ rest
count_steps false n rest = rest

module _ (z : BinarySerializer) where
  unfoldable mutual
    unfolding get_element_count

    pub object_steps : Pointer → List Step → List Step
    object_steps null rest = put 0 32 ∷ rest
    object_steps (object c ps) rest = put c.m_hash 32 ∷ properties_steps ps rest

    pub properties_steps : Properties → List Step → List Step
    properties_steps no_properties rest = rest
    properties_steps (property info es ps) rest =
        let further = properties_steps ps rest in
        if ignores z info
        then further
        else count_steps info.is_dynamic (get_element_count es) (elements_steps es further)

    pub elements_steps : Elements → List Step → List Step
    elements_steps (values t vs) rest = values_steps t vs rest
    elements_steps (objects c xs) rest = pointers_steps xs rest

    pub pointers_steps : Pointers → List Step → List Step
    pointers_steps no_pointers rest = rest
    pointers_steps (next_pointer x xs) rest = align ∷ object_steps x (pointers_steps xs rest)

  -- Of a property that is ignored, a new object has the elements from the start; of another it has
  -- elements of the same kind and, if the property is not dynamic, as many.
  abbrev pub Stays : PropertyInfo → Elements → Elements → Type 0
  Stays info es fs = (ignores z info ≡ true) × (fs ≡ es)

  abbrev pub Travels : PropertyInfo → Elements → Elements → Type 0
  Travels info es fs =
      (ignores z info ≡ false)
      × (kind_of fs ≡ kind_of es)
      × (info.is_dynamic ≡ false → get_element_count fs ≡ get_element_count es)
      × (get_element_count es < 2 ^ 32)

  -- The objects that the serializer is able to give back: of known types, with the properties of a
  -- new object of the type in their order, and elements that the types of the properties have.
  abbrev mutual
    pub IsKnown : Pointer → Type 0
    IsKnown null = Unit {0}
    IsKnown (object c ps) =
        (0 < c.m_hash)
        × (c.m_hash < 2 ^ 32)
        × ((new : Properties) × (instance_of_hash z.m_type_system c.m_hash ≡ ok (object c new))
            × AreKnown ps new)

    pub AreKnown : Properties → Properties → Type 0
    AreKnown no_properties no_properties = Unit {0}
    AreKnown no_properties (property info fs new) = ⊥
    AreKnown (property info es ps) no_properties = ⊥
    AreKnown (property info es ps) (property info' fs new) =
        (info' ≡ info) × (Stays info es fs ⊎ (Travels info es fs × HaveKnown es)) × AreKnown ps new

    pub HaveKnown : Elements → Type 0
    HaveKnown (values t vs) = AreValues t vs
    HaveKnown (objects c xs) = PointKnown c xs

    pub PointKnown : ℕ → Pointers → Type 0
    PointKnown c no_pointers = Unit {0}
    PointKnown c (next_pointer x xs) = (set_object c x ≡ ok x) × IsKnown x × PointKnown c xs

  count_steps-AreWords :
      (dynamic : Bool) (n : ℕ) (rest : List Step)
      → AreWords rest
      → AreWords (count_steps dynamic n rest)
  count_steps-AreWords true n rest w = (omega arith, w)
  count_steps-AreWords false n rest w = w

  mutual
    unfolding object_steps

    pub object_steps-AreWords :
        (x : Pointer) (rest : List Step)
        → IsKnown x
        → AreWords rest
        → AreWords (object_steps x rest)
    object_steps-AreWords null rest h w = (omega arith, w)
    object_steps-AreWords (object c ps) rest h w =
        (omega arith, properties_steps-AreWords ps h.2.0 rest h.2.2 w)

    properties_steps-AreWords :
        (ps new : Properties) (rest : List Step)
        → AreKnown ps new
        → AreWords rest
        → AreWords (properties_steps ps rest)
    properties_steps-AreWords no_properties new rest h w = w
    properties_steps-AreWords (property info es ps) no_properties rest h w = absurd h
    properties_steps-AreWords (property info es ps) (property info' fs new) rest h w =
        let further = properties_steps-AreWords ps new rest h.2 w in
        elim h.1 [
          | inl stays ↦ rw (stays.0) further
          | inr (travels, known) ↦ rw (travels.0) (
              count_steps-AreWords info.is_dynamic (get_element_count es) _
                (elements_steps-AreWords es (properties_steps ps rest) known further))
        ]

    elements_steps-AreWords :
        (es : Elements) (rest : List Step)
        → HaveKnown es
        → AreWords rest
        → AreWords (elements_steps es rest)
    elements_steps-AreWords (values t vs) rest h w = values_steps-AreWords t vs rest h w
    elements_steps-AreWords (objects c xs) rest h w = pointers_steps-AreWords c xs rest h w

    pointers_steps-AreWords :
        (c : ℕ) (xs : Pointers) (rest : List Step)
        → PointKnown c xs
        → AreWords rest
        → AreWords (pointers_steps xs rest)
    pointers_steps-AreWords c no_pointers rest h w = w
    pointers_steps-AreWords c (next_pointer x xs) rest h w =
        object_steps-AreWords x (pointers_steps xs rest) h.1
          (pointers_steps-AreWords c xs rest h.2 w)
