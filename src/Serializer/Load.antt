-- ===== src/Serializer/Load.antt =====
-- BinarySerializer: how an object is loaded from a stream. uncompress of zlib is a parameter. An
-- exception leaves no object. on_created, which is called for each object with its properties set, is
-- a const function, and empty unless a class overrides it.
use libki.Common.{
  ℕ, zero, suc, ◌+◌, ◌*◌, ◌/◌, List, [], ◌∷◌, Bool, true, false, not, leb, ◌==◌, if◌then◌else◌,
}
use libki.Common.Int.{pos}
use libki.Common.Result.{Result, ok, throw, stuck, ◌>>=◌}
use libki.Position.{buffer_pos, add_int, sub_pos, as_bits, as_bytes, sub32, u32, to_int}
use libki.Stream.{BitStream, bit_stream, tell, seek, realign, capacity, read, read_copy}
use libki.Pclass.EnumType.{RuntimeError, runtime_error}
use libki.Pclass.Primitive
use libki.Pclass.Enum.{enum_of}
use libki.Pclass.Enum.Transfer
use libki.Pclass.Object.{
  ValueType, primitive, enum, Stored, is_byte_aligned, PropertyInfo, Pointer, null, object,
  Properties, no_properties, property, Elements, values, objects, Pointers, no_pointers,
  next_pointer, get_element_count, ElementKind, of_type, of_class, kind_of, set_object,
}
use libki.Pclass.TypeSystem.{TypeSystem, get_type_hashed, instantiate_type}
use libki.Serializer.{
  BinarySerializer, Buffers, write_serializer_flags, compressed, flag_is_set, thrown,
}
use libki.Serializer.Save.{ignores}

-- What is loaded, and the stream behind it.
abbrev pub Loaded : Type 0 → Type 0 → Type 0
Loaded S A = Result RuntimeError (A × BitStream S)

-- get_type and instantiate, by what stands in an object's header.
unfoldable pub instance_of_hash : TypeSystem → ℕ → Result RuntimeError Pointer
unfolding get_type_hashed instantiate_type
instance_of_hash ts type_hash =
    if type_hash == 0 then ok null else (get_type_hashed type_hash ts >>= instantiate_type)

module _ {S : Type 0} (k : Buffers S) where
  -- Type::read_from, for a property of the type.
  unfoldable pub read_value : (t : ValueType) → Bool → BitStream S → Loaded S (Stored t)
  unfolding Primitive.read_from Transfer.read_from enum_of
  read_value (primitive p) is_file st = Primitive.read_from k.ops p st is_file
  read_value (enum t) is_file st = do
    e ← enum_of t 0
    (e', after) ← Transfer.read_from k.ops e st is_file
    ok (e'.m_value, after)

  unfoldable pub load_values : (t : ValueType) → Bool → ℕ → BitStream S → Loaded S (List (Stored t))
  unfolding read_value is_byte_aligned realign
  load_values t is_file zero st = ok ([], st)
  load_values t is_file (suc n) st = do
    aligned ← if is_byte_aligned t then thrown (realign k.ops st) else ok st
    (v, after) ← read_value t is_file aligned
    (vs, end) ← load_values t is_file n after
    ok (v ∷ vs, end)

  unfoldable pub preload_object : TypeSystem → BitStream S → Loaded S Pointer
  unfolding instance_of_hash read
  preload_object ts st = do
    (type_hash, after) ← thrown (read k.ops 32 st 32)
    dest ← instance_of_hash ts type_hash
    ok (dest, after)

-- `nested` loads an object that a pointer leads to.
module _ {S : Type 0} (k : Buffers S) (z : BinarySerializer)
    (nested : BitStream S → Loaded S Pointer) where
  unfoldable pub load_pointers : ℕ → ℕ → BitStream S → Loaded S Pointers
  unfolding realign set_object
  load_pointers type_hash zero st = ok (no_pointers, st)
  load_pointers type_hash (suc n) st = do
    aligned ← thrown (realign k.ops st)
    (loaded, after) ← nested aligned
    x ← set_object type_hash loaded
    (xs, end) ← load_pointers type_hash n after
    ok (next_pointer x xs, end)

  unfoldable pub load_elements : ElementKind → ℕ → BitStream S → Loaded S Elements
  unfolding load_values load_pointers
  load_elements (of_type t) n st = load_values k t z.m_is_file n st >>= λ r. ok (values t r.0, r.1)
  load_elements (of_class c) n st = load_pointers c n st >>= λ r. ok (objects c r.0, r.1)

  -- The element count: read if the property is dynamic.
  unfoldable pub load_count : PropertyInfo → ℕ → BitStream S → Loaded S ℕ
  unfolding realign read
  load_count info n st =
      if info.is_dynamic
      then (do
        aligned ← thrown (realign k.ops st)
        if z.m_is_file
            then (thrown (read k.ops 8 aligned 8) >>= λ r. ok (r.0 / 2, r.1))
            else thrown (read k.ops 32 aligned 32))
      else ok (n, st)

  -- load_property: the elements that the property gets, each of which is set.
  unfoldable pub load_property : PropertyInfo → Elements → BitStream S → Loaded S Elements
  unfolding load_count load_elements get_element_count
  load_property info es st = if ignores z info then ok (es, st) else (do
    (n, counted) ← load_count info (get_element_count es) st
    load_elements (kind_of es) n counted)

  -- Of an object that is not in a file: the properties in the order of the class.
  unfoldable pub load_properties : Properties → BitStream S → Loaded S Properties
  unfolding load_property
  load_properties no_properties st = ok (no_properties, st)
  load_properties (property info es ps) st = do
    (es', after) ← load_property info es st
    (ps', end) ← load_properties ps after
    ok (property info es' ps', end)

  -- In a file: the property of a hash.
  unfoldable pub load_hashed : ℕ → Properties → BitStream S → Loaded S Properties
  unfolding load_property
  load_hashed hash no_properties st = throw runtime_error
  load_hashed hash (property info es ps) st =
      let here = (load_property info es st >>= λ r. ok (property info r.0 ps, r.1)) in
      let further = (load_hashed hash ps st >>= λ r. ok (property info es r.0, r.1)) in
      if info.m_full_hash == hash then here else further

  -- In a file: as many properties as the object's size has room for, with fuel.
  unfoldable pub load_sized : ℕ → ℕ → Properties → BitStream S → Loaded S Properties
  unfolding load_hashed tell seek read bit_stream
  load_sized zero object_size ps st = stuck
  load_sized (suc fuel) object_size ps st =
      let round : Loaded S Properties = (do
        aligned ← thrown (seek k.ops st (buffer_pos (as_bytes (tell k.ops st)) (pos 0)) true)
        (size, sized) ← thrown (read k.ops 32 aligned 32)
        property_buffer ← thrown (k.segment sized.m_buffer (tell k.ops sized) (sub32 size 32))
        (hash, hashed) ← thrown (read k.ops 32 (bit_stream k.ops property_buffer) 32)
        (ps', loaded) ← load_hashed hash ps hashed
        let byte_pos = u32 (as_bytes (tell k.ops sized) + as_bytes (tell k.ops loaded))
        moved ← thrown (seek k.ops sized (buffer_pos byte_pos (pos 0)) false)
        load_sized fuel object_size ps' moved) in
      if leb object_size (as_bits (tell k.ops st)) then ok (ps, st) else round

  -- In a file, where the size of the object stands before its properties.
  unfoldable pub load_segment : Properties → BitStream S → Loaded S Properties
  unfolding load_sized tell seek read bit_stream
  load_segment ps st = do
    (size, sized) ← thrown (read k.ops 32 st 32)
    let object_size = sub32 size 32
    object_buffer ← thrown (k.segment sized.m_buffer (tell k.ops sized) object_size)
    (ps', loaded) ← load_sized (object_size + 1) object_size ps (bit_stream k.ops object_buffer)
    let byte_pos = u32 (as_bytes (tell k.ops sized) + as_bytes (tell k.ops loaded))
    moved ← thrown (seek k.ops sized (buffer_pos byte_pos (pos 0)) false)
    ok (ps', moved)

module _ {S : Type 0} (k : Buffers S) where
  -- The properties of a new object, or nothing where there is none.
  unfoldable pub load_into :
      BinarySerializer → (BitStream S → Loaded S Pointer) → Pointer → BitStream S → Loaded S Pointer
  unfolding load_segment load_properties
  load_into z nested null st = ok (null, st)
  load_into z nested (object c ps) st = do
    (ps', after) ←
        if z.m_is_file then load_segment k z nested ps st else load_properties k z nested ps st
    ok (object c ps', after)

  -- With fuel for the depth of the object.
  unfoldable pub load_object : ℕ → BinarySerializer → BitStream S → Loaded S Pointer
  unfolding preload_object load_into
  load_object zero z st = stuck
  load_object (suc fuel) z st = do
    (dest, headed) ← preload_object k z.m_type_system st
    load_into z (load_object fuel z) dest headed

  -- Each object takes 32 bits at least.
  unfoldable pub load_root : BinarySerializer → BitStream S → Loaded S Pointer
  unfolding load_object capacity
  load_root z st = load_object (8 * capacity k.ops st + 1) z st

-- `uncompress` gives the memory of a new buffer of the size, after zlib's function of the name.
module _ {S : Type 0} (k : Buffers S) (uncompress : ℕ → List ℕ → List ℕ) where
  unfoldable pub open_compressed : Bool → BitStream S → Result RuntimeError (BitStream S)
  unfolding tell read read_copy capacity bit_stream
  open_compressed is_file st = thrown (do
    (toggle, toggled) ← if is_file then read k.ops 8 st 8 else ok (1, st)
    (uncompressed_size, sized) ← read k.ops 32 toggled 32
    let end = buffer_pos (capacity k.ops sized) (pos 0)
    let available = as_bytes (sub_pos end (tell k.ops sized))
    if not (toggle == 0)
        then (read_copy k.ops sized (available * 8) >>= λ r.
            ok (bit_stream k.ops (k.bit_buffer (uncompress uncompressed_size r.0))))
        else (k.segment sized.m_buffer (tell k.ops sized) available >>= λ s.
            ok (bit_stream k.ops s)))

  unfoldable pub load :
      BinarySerializer
      → BitStream S
      → ℕ
      → Result RuntimeError (BinarySerializer × Pointer × BitStream S)
  unfolding open_compressed load_root tell seek read bit_stream
  load z st size = do
    segment_buffer ← thrown (k.segment st.m_buffer (tell k.ops st) (size * 8))
    moved ← thrown (seek k.ops st (add_int (tell k.ops st) (to_int (size * 8))) false)
    let segment_stream = bit_stream k.ops segment_buffer
    (flags, flagged) ←
        if flag_is_set z.m_flags write_serializer_flags
        then thrown (read k.ops 32 segment_stream 32)
        else ok (z.m_flags, segment_stream)
    let z' = record z { m_flags = flags }
    opened ←
        if flag_is_set z'.m_flags compressed
        then open_compressed z'.m_is_file flagged
        else ok flagged
    (dest, end) ← load_root k z' opened
    ok (z', dest, moved)
