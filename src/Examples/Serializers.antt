-- ===== src/Examples/Serializers.antt =====
-- The serializer, at an object with a text, a flag and a vector of objects.
use libki.BitTypes.{BitInteger}
use libki.Map.Names.{name_before}
use libki.Pclass.TypeSystem.{DefinedType}
use libki.Pclass.TypeSystem.Lookup.{IsIndexedSystem, RefusedType, Defined, define_type-cases}
use libki.Common.{
  none, ◌⊎◌, ℕ, ◌<◌, ◌^◌, List, [], ◌∷◌, some, Bool, true, false, ◌≡◌, ◌≢◌, refl, inl, inr,
  replicate, arith,
}
use libki.Common.Result.{stuck, ◌>>=◌}
use libki.Stream.RoundTrip.{Stream}
use libki.Interface.{bit_buffer_ops}
use libki.Pclass.Primitive.{boolean, string, integer}
use libki.Pclass.Object.{
  ClassType, PropertyInfo, Pointer, null, object, Properties, no_properties, property, values,
  objects, primitive, Pointers, no_pointers, next_pointer, set_object, inherits, get_element_count,
  pointer_count, is_byte_aligned,
}
use libki.Pclass.TypeSystem.{TypeSystem, get_type_hashed, instantiate_type}
use libki.Serializer.{BinarySerializer}
use libki.Serializer.Load.{load, instance_of_hash}
use libki.Serializer.AnyBuffer.{whole, any_buffers}
use libki.Serializer.Steps.{run, end_of}
use libki.Serializer.Values.{values_steps}
use libki.Map.{find}
use libki.Serializer.Save.{save_object}
use libki.Serializer.Objects.{object_steps, IsKnown, PointKnown}
use libki.Serializer.Objects.Saving.{on_stream, run-object_steps}
use libki.Serializer.RoundTrip.{GivesBack, load-save}
use libki.Serializer.Termination.{load-ne-stuck}

abbrev pub node : ClassType
node = record { m_hash = 77; m_base_classes = [] }

abbrev shown : PropertyInfo
shown = record {
  m_name = 97 ∷ [];
  m_full_hash = 1;
  m_flags = 4;
  is_dynamic = false;
  is_array = false;
}

abbrev label : PropertyInfo
label = record {
  m_name = 98 ∷ [];
  m_full_hash = 2;
  m_flags = 4;
  is_dynamic = false;
  is_array = false;
}

abbrev children : PropertyInfo
children = record {
  m_name = 100 ∷ [];
  m_full_hash = 3;
  m_flags = 4;
  is_dynamic = true;
  is_array = true;
}

-- Not public, and so left out.
abbrev secret : PropertyInfo
secret = record {
  m_name = 99 ∷ [];
  m_full_hash = 4;
  m_flags = 0;
  is_dynamic = false;
  is_array = false;
}

abbrev pub node_properties : Bool → List ℕ → Pointers → Properties
node_properties b text xs = property shown (values (primitive boolean) (b ∷ [])) (
    property label (values (primitive (string 8)) (text ∷ [])) (
      property secret (values (primitive (integer 32)) (9 ∷ []))
        (property children (objects 77 xs) no_properties)))

abbrev pub leaf : Pointer
leaf = object node (node_properties true (65 ∷ 66 ∷ []) no_pointers)

abbrev pub tree : Pointer
tree =
    object node
      (node_properties false (65 ∷ 66 ∷ []) (next_pointer leaf (next_pointer null no_pointers)))

abbrev pub types : TypeSystem
types = record {
  m_types =
      record {
        m_name = 78 ∷ [];
        m_hash = 77;
        m_instance = some (node, node_properties false [] no_pointers);
      }
      ∷ [];
  m_type_name_lookup = (78 ∷ [], 0) ∷ [];
  m_type_hash_lookup = (77, 0) ∷ [];
}

-- WRITE_SERIALIZER_FLAGS and WRITE_PUBLIC_ONLY.
abbrev public_only : BinarySerializer
public_only = record { m_type_system = types; m_is_file = false; m_flags = 5; m_root_object = null }

abbrev plain : BinarySerializer
plain = record { m_type_system = types; m_is_file = false; m_flags = 0; m_root_object = null }

abbrev new_stream : Stream
new_stream = record { m_buffer = replicate 8 0; m_position = record { byte = 0; bit = 0 } }

-- Its properties are those of a new node.
node-IsKnown :
    (b : Bool) (xs : Pointers)
    → PointKnown public_only 77 xs
    → pointer_count xs < 2 ^ 32
    → IsKnown public_only (object node (node_properties b (65 ∷ 66 ∷ []) xs))
unfolding instance_of_hash get_type_hashed instantiate_type find get_element_count
node-IsKnown b xs known few = (
  omega arith,
  omega arith,
  (
    node_properties false [] no_pointers,
    refl,
    (
      refl,
      inr ((refl, refl, λ e. refl, omega arith), (tt, tt)),
      (
        refl,
        inr (
          (refl, refl, λ e. refl, omega arith),
          ((omega arith, omega arith, (omega arith, (omega arith, tt))), tt),
        ),
        (refl, inl (refl, refl), (refl, inr ((refl, refl, λ e. cc, few), known), tt)),
      ),
    ),
  ),
)

tree-IsKnown : IsKnown public_only tree
unfolding set_object inherits
tree-IsKnown =
    node-IsKnown false (next_pointer leaf (next_pointer null no_pointers))
      (refl, node-IsKnown true no_pointers tt (omega arith), (refl, tt, tt)) (omega arith)

load-save_example : GivesBack (λ bytes. bytes) (λ n bytes. bytes) public_only tree new_stream
unfolding end_of object_steps values_steps get_element_count is_byte_aligned
load-save_example =
    load-save (λ bytes. bytes) (λ n bytes. bytes) public_only tree new_stream refl refl
      (omega arith) tree-IsKnown (record { normal = omega arith; two_bytes = omega arith }) refl
      (omega arith) (omega arith)

load-ne-stuck_example :
    load any_buffers
      (λ n bytes. bytes)
      plain
      (record {
        m_buffer = whole (77 ∷ 0 ∷ 0 ∷ 0 ∷ 1 ∷ []);
        m_position = record { byte = 0; bit = 0 };
      })
      5
    ≢ stuck
load-ne-stuck_example =
    load-ne-stuck (λ n bytes. bytes) plain (77 ∷ 0 ∷ 0 ∷ 0 ∷ 1 ∷ []) (record { byte = 0; bit = 0 })
      5 refl refl refl ((tt, (omega arith, (omega arith, (tt, tt)))), tt) refl (omega arith)
      (omega arith)

run-object_steps_example :
    run new_stream (object_steps (on_stream plain) leaf [])
    ≡ (save_object bit_buffer_ops (on_stream plain) leaf new_stream >>= λ s. run s [])
run-object_steps_example = run-object_steps plain leaf [] new_stream

-- Of 24 bits: -2, to which 5 is added.
abbrev minus_two : BitInteger
minus_two = record { m_value = 0xfffffe }

abbrev gadget : DefinedType
gadget = record { m_name = 79 ∷ []; m_hash = 80; m_instance = none }

types-IsIndexedSystem : IsIndexedSystem types
unfolding name_before find
types-IsIndexedSystem = record {
  names_sorted = (tt, tt);
  hashes_sorted = (tt, tt);
  names = (refl, tt);
  hashes = (refl, tt);
}

define_type-cases_example :
    RefusedType gadget types ⊎ ((ts' : TypeSystem) × Defined gadget types ts' (78 ∷ []) 77)
define_type-cases_example = define_type-cases gadget types (78 ∷ []) 77 types-IsIndexedSystem
