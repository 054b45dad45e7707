-- ===== src/Serializer/Fuel/Objects.antt =====
-- Loading objects ends.
use libki.Common.{
  ℕ, zero, suc, ◌+◌, ◌*◌, ◌≤◌, ◌<◌, arith, subst, sym, Option, none, some, get_elem?, List, [], ◌∷◌,
  Bool, true, false, ◌==◌, ltb, if◌then◌else◌,
}
use libki.Common.Result.{Result, ok, throw, fault, stuck, ◌>>=◌, deref, bind_assoc}
use libki.Stream.{BitStream, realign, read}
use libki.Pclass.EnumType.{RuntimeError}
use libki.Pclass.Object.{
  PropertyInfo, Pointer, null, object, Properties, no_properties, property, Elements,
  get_element_count, ElementKind, of_type, of_class, kind_of, set_object,
}
use libki.Serializer.{BinarySerializer, Buffers, thrown}
use libki.Serializer.Save.{ignores}
use libki.Serializer.Load.{
  Loaded, instance_of_hash, preload_object, load_into, load_object, load_properties, load_property,
  load_count, load_elements, load_pointers,
}
use libki.Serializer.Objects.Saving.{on_stream}
use libki.Map.{find}
use libki.Serializer.Fuel.{
  HasWords, set_object-IsDone, IsBounded, Stands, Ends, Ends-bind, Ends-after, Ends-thrown, further,
}
use libki.Serializer.Fuel.Values.{Ends-read, Ends-align, Ends-map, Ends-weaken, Ends-values}
use libki.Pclass.TypeSystem.{
  TypeSystem, DefinedType, get_type_hashed, instantiate_type, instance_of, pointed,
}
use libki.Pclass.Object.{ClassType, objects, values, Pointers, next_pointer}

abbrev HaveWords : ElementKind → Type 0
HaveWords (of_type t) = HasWords t
HaveWords (of_class c) = Unit {0}

-- All values of an object's properties are of types that a uint64_t has room for.
abbrev pub AllHaveWords : Properties → Type 0
AllHaveWords no_properties = Unit {0}
AllHaveWords (property info es ps) = HaveWords (kind_of es) × AllHaveWords ps

abbrev InstanceHasWords : Option (ClassType × Properties) → Type 0
InstanceHasWords none = Unit {0}
InstanceHasWords (some (c, ps)) = AllHaveWords ps

abbrev pub TypesHaveWords : List DefinedType → Type 0
TypesHaveWords [] = Unit {0}
TypesHaveWords (t ∷ ts) = InstanceHasWords t.m_instance × TypesHaveWords ts

-- A new object, where one is made.
abbrev MadeWithWords : Result RuntimeError Pointer → Type 0
MadeWithWords (ok null) = Unit {0}
MadeWithWords (ok (object c ps)) = AllHaveWords ps
MadeWithWords (throw e) = Unit {0}
MadeWithWords fault = Unit {0}
MadeWithWords stuck = ⊥

instantiate_type-MadeWithWords :
    (t : DefinedType) → InstanceHasWords t.m_instance → MadeWithWords (instantiate_type t)
unfolding instantiate_type
instantiate_type-MadeWithWords t h = by_instance t.m_instance h
  where
    by_instance :
        (o : Option (ClassType × Properties)) → InstanceHasWords o → MadeWithWords (instance_of o)
    by_instance none h = tt
    by_instance (some (c, ps)) h = h

get_elem?-MadeWithWords :
    (ts : List DefinedType) (i : ℕ)
    → TypesHaveWords ts
    → MadeWithWords (deref (get_elem? ts i) >>= instantiate_type)
get_elem?-MadeWithWords [] i h = tt
get_elem?-MadeWithWords (t ∷ ts) zero h = instantiate_type-MadeWithWords t h.0
get_elem?-MadeWithWords (t ∷ ts) (suc i) h = get_elem?-MadeWithWords ts i h.1

instance_of_hash-MadeWithWords :
    (ts : TypeSystem) (hash : ℕ)
    → TypesHaveWords ts.m_types
    → MadeWithWords (instance_of_hash ts hash)
unfolding instance_of_hash get_type_hashed
instance_of_hash-MadeWithWords ts hash h = by_hash (hash == 0) (find ltb hash ts.m_type_hash_lookup)
  where
    by_hash :
        (b : Bool) (o : Option ℕ)
        → MadeWithWords (if b then ok null else (pointed ts o >>= instantiate_type))
    by_hash true o = tt
    by_hash false none = tt
    by_hash false (some i) = get_elem?-MadeWithWords ts.m_types i h

module _ {S : Type 0} (k : Buffers S) (s : S) (len : ℕ) (bound : IsBounded k s len)
    (y : BinarySerializer) where
  abbrev z : BinarySerializer
  z = on_stream y

  Ends-made :
      {B : Type 0} (q : ℕ) (r : Result RuntimeError Pointer) (st : BitStream S)
      (f : Pointer × BitStream S → Result RuntimeError (B × BitStream S))
      → MadeWithWords r
      → ((c : ClassType) (ps : Properties) → AllHaveWords ps → Ends k s len q (f (object c ps, st)))
      → Ends k s len q (f (null, st))
      → Ends k s len q ((r >>= λ d. ok (d, st)) >>= f)
  Ends-made q (ok null) st f h some_object nothing = nothing
  Ends-made q (ok (object c ps)) st f h some_object nothing = some_object c ps h
  Ends-made q (throw e) st f h some_object nothing = tt
  Ends-made q fault st f h some_object nothing = tt
  Ends-made q stuck st f h some_object nothing = absurd h

  abbrev unmoved : {A : Type 0} → A → BitStream S → Loaded S A
  unmoved a st = ok (a, st)

  module _ (nested : BitStream S → Loaded S Pointer) (least : ℕ)
      (ends : (q : ℕ) (st : BitStream S)
        → least ≤ q
        → Stands k s len q st
        → Ends k s len q (nested st)) where
    Ends-pointers :
        (c n q : ℕ) (st : BitStream S)
        → least ≤ q
        → Stands k s len q st
        → Ends k s len q (load_pointers k z nested c n st)
    unfolding load_pointers
    Ends-pointers c zero q st h w = w
    Ends-pointers c (suc n) q st h w =
        Ends-align k s len bound q q true st (λ a. nested a >>= set) w
          λ st1 w1. Ends-bind k s len q q (nested st1) set (ends q st1 h w1) λ x st2 w2.
            Ends-after k s len q (set_object c x) (tail st2) (set_object-IsDone c x) λ new.
              Ends-map k s len bound q (λ xs. next_pointer new xs) _ (Ends-pointers c n q st2 h w2)
      where
        tail : BitStream S → Pointer → Loaded S Pointers
        tail st new = load_pointers k z nested c n st >>= λ r. ok (next_pointer new r.0, r.1)

        set : Pointer × BitStream S → Loaded S Pointers
        set r = set_object c r.0 >>= tail r.1

    Ends-elements :
        (kind : ElementKind) (n q : ℕ) (st : BitStream S)
        → HaveWords kind
        → least ≤ q
        → Stands k s len q st
        → Ends k s len q (load_elements k z nested kind n st)
    unfolding load_elements
    Ends-elements (of_type t) n q st word h w =
        Ends-map k s len bound q (λ vs. values t vs) _ (Ends-values k s len bound t n q st word w)
    Ends-elements (of_class c) n q st word h w =
        Ends-map k s len bound q (λ xs. objects c xs) _ (Ends-pointers c n q st h w)

    Ends-count :
        (dynamic : Bool) (n q : ℕ) (st : BitStream S)
        → Stands k s len q st
        → Ends k s len q (
            if dynamic
            then (thrown (realign k.ops st) >>= λ a. thrown (read k.ops 32 a 32))
            else unmoved n st)
    Ends-count true n q st w =
        Ends-align k s len bound q q true st (λ a. thrown (read k.ops 32 a 32)) w
          λ st1 w1. Ends-thrown k s len q _ (
            Ends-weaken k s len bound q (q + 32) _ (omega arith)
              (Ends-read k s len bound 32 32 q st1 (omega arith) w1))
    Ends-count false n q st w = w

    Ends-property :
        (info : PropertyInfo) (es : Elements) (q : ℕ) (st : BitStream S)
        → HaveWords (kind_of es)
        → least ≤ q
        → Stands k s len q st
        → Ends k s len q (load_property k z nested info es st)
    unfolding load_property load_count
    Ends-property info es q st word h w = by_ignores (ignores z info)
      where
        sent : Loaded S Elements
        sent =
            (if info.is_dynamic
              then (thrown (realign k.ops st) >>= λ a. thrown (read k.ops 32 a 32))
              else unmoved (get_element_count es) st)
            >>= λ r. load_elements k z nested (kind_of es) r.0 r.1

        by_ignores : (b : Bool) → Ends k s len q (if b then unmoved es st else sent)
        by_ignores true = w
        by_ignores false =
            Ends-bind k s len q q _ _ (Ends-count info.is_dynamic (get_element_count es) q st w)
              λ n st1 w1. Ends-elements (kind_of es) n q st1 word h w1

    Ends-properties :
        (ps : Properties) (q : ℕ) (st : BitStream S)
        → AllHaveWords ps
        → least ≤ q
        → Stands k s len q st
        → Ends k s len q (load_properties k z nested ps st)
    unfolding load_properties
    Ends-properties no_properties q st word h w = w
    Ends-properties (property info es ps) q st word h w =
        Ends-bind k s len q q _ _ (Ends-property info es q st word.0 h w) λ es' st1 w1.
          Ends-map k s len bound q (λ ps'. property info es' ps') _
            (Ends-properties ps q st1 word.1 h w1)

  abbrev made : ℕ × BitStream S → Loaded S Pointer
  made r = instance_of_hash z.m_type_system r.0 >>= λ dest. ok (dest, r.1)

  abbrev filled : ℕ → Pointer × BitStream S → Loaded S Pointer
  filled fuel r = load_into k z (load_object k fuel z) r.0 r.1

  -- Each object takes 32 bits, so that fuel for as many objects as there are bits is enough.
  pub Ends-object :
      (fuel q : ℕ) (st : BitStream S)
      → TypesHaveWords z.m_type_system.m_types
      → len < q + 32 * fuel
      → Stands k s len q st
      → Ends k s len q (load_object k fuel z st)
  unfolding load_object preload_object load_into
  Ends-object zero q st types enough w = absurd (omega (arith, enough, w.onward, w.inside))
  Ends-object (suc fuel) q st types enough w =
      subst (λ (r : Loaded S Pointer). Ends k s len q r)
        (sym (bind_assoc (thrown (read k.ops 32 st 32)) made (filled fuel)))
        (Ends-bind k s len (q + 32) q _ (λ r. made r >>= filled fuel)
          (Ends-thrown k s len (q + 32) _ (Ends-read k s len bound 32 32 q st (omega arith) w))
          λ hash st1 w1.
            Ends-made q (instance_of_hash z.m_type_system hash) st1 (filled fuel)
              (instance_of_hash-MadeWithWords z.m_type_system hash types)
              (λ c ps word.
                Ends-map k s len bound q (λ ps'. object c ps') _
                  (Ends-weaken k s len bound q (q + 32) _ (omega arith) (
                    Ends-properties (load_object k fuel z) (q + 32)
                      (λ q' st' h w'. Ends-object fuel q' st' types (omega (arith, enough, h)) w')
                      ps (q + 32) st1 word (omega arith) w1)))
              (further k s len {q' = q} (omega arith) w1))
