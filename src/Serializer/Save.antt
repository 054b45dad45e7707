-- ===== src/Serializer/Save.antt =====
-- BinarySerializer: how an object is saved to a stream. deflate of zlib is a parameter.
use libki.Common.{
  ℕ, ◌*◌, ◌%◌, ◌^◌, List, [], ◌∷◌, Bool, true, false, not, ltb, ◌&&◌, ◌||◌, if◌then◌else◌, length,
}
use libki.Common.Result.{Result, ok, ◌>>=◌}
use libki.Position.{BufferPos, sub_pos, as_bits, as_bytes}
use libki.Interface.{IBitBuffer}
use libki.Stream.{BitStream, tell, seek, realign, read_copy, write, write_copy}
use libki.Pclass.EnumType.{RuntimeError}
use libki.Pclass.Primitive
use libki.Pclass.Enum.Transfer
use libki.Pclass.Object.{
  ValueType, primitive, enum, Stored, is_byte_aligned, PropertyInfo, Pointer, null, object,
  Properties, no_properties, property, Elements, values, objects, Pointers, no_pointers,
  next_pointer, get_element_count,
}
use libki.Serializer.{
  BinarySerializer, write_serializer_flags, write_public_only, compressed, public, flag_is_set,
  thrown,
}

-- A property that the serializer passes over.
abbrev pub ignores : BinarySerializer → PropertyInfo → Bool
ignores z info = flag_is_set z.m_flags write_public_only && not (flag_is_set info.m_flags public)

module _ {S : Type 0} (b : IBitBuffer S) where
  -- IProperty::write_value_to, for an index in bounds.
  unfoldable pub write_value :
      (t : ValueType) → Bool → Stored t → BitStream S → Result RuntimeError (BitStream S)
  unfolding Primitive.write_to Transfer.write_to
  write_value (primitive p) is_file v st = Primitive.write_to b p st is_file v
  write_value (enum t) is_file v st =
      Transfer.write_to b (record { m_type = t; m_value = v }) st is_file

  unfoldable pub save_values :
      (t : ValueType) → Bool → List (Stored t) → BitStream S → Result RuntimeError (BitStream S)
  unfolding write_value is_byte_aligned realign
  save_values t is_file [] st = ok st
  save_values t is_file (v ∷ vs) st = do
    aligned ← if is_byte_aligned t then thrown (realign b st) else ok st
    after ← write_value t is_file v aligned
    save_values t is_file vs after

  -- The size of what was written from a position on goes there, in bits.
  unfoldable pub write_size : BufferPos → BitStream S → Result RuntimeError (BitStream S)
  unfolding tell seek write
  write_size start st =
      let end = tell b st in
      thrown (do
        back ← seek b st start true
        sized ← write b back (as_bits (sub_pos end start)) 32
        seek b sized end true)

  -- presave_object: the header, and whether there is an object.
  unfoldable pub presave_object : Pointer → BitStream S → Result RuntimeError (Bool × BitStream S)
  unfolding write
  presave_object null st = thrown (write b st 0 32) >>= λ st'. ok (false, st')
  presave_object (object c ps) st = thrown (write b st c.m_hash 32) >>= λ st'. ok (true, st')

module _ {S : Type 0} (b : IBitBuffer S) (z : BinarySerializer) where
  -- What stands before the elements of a property.
  unfoldable pub save_prefix :
      PropertyInfo → Elements → BitStream S → Result RuntimeError (BitStream S)
  unfolding write get_element_count
  save_prefix info es st = do
    headed ←
        if z.m_is_file
        then (thrown (write b st 0 32) >>= λ st'. thrown (write b st' info.m_full_hash 32))
        else ok st
    if info.is_dynamic
        then (if z.m_is_file
            then thrown (write b headed (get_element_count es * 2 % 2 ^ 8) 8)
            else thrown (write b headed (get_element_count es % 2 ^ 32) 32))
        else ok headed

  unfoldable mutual
    unfolding presave_object save_prefix save_values write_size realign tell write

    pub save_object : Pointer → BitStream S → Result RuntimeError (BitStream S)
    save_object null st = presave_object b null st >>= λ r. ok r.1
    save_object (object c ps) st = do
      (more, headed) ← presave_object b (object c ps) st
      sized ← if z.m_is_file then thrown (write b headed 0 32) else ok headed
      after ← save_properties ps sized
      if z.m_is_file then write_size b (tell b headed) after else ok after

    pub save_properties : Properties → BitStream S → Result RuntimeError (BitStream S)
    save_properties no_properties st = ok st
    save_properties (property info es ps) st = do
      after ← if ignores z info then ok st else (do
        aligned ← if info.is_dynamic || z.m_is_file then thrown (realign b st) else ok st
        started ← save_prefix info es aligned
        saved ← save_elements es started
        if z.m_is_file then write_size b (tell b aligned) saved else ok saved)
      save_properties ps after

    pub save_elements : Elements → BitStream S → Result RuntimeError (BitStream S)
    save_elements (values t vs) st = save_values b t z.m_is_file vs st
    save_elements (objects c xs) st = save_pointers xs st

    -- A class is aligned to bytes.
    pub save_pointers : Pointers → BitStream S → Result RuntimeError (BitStream S)
    save_pointers no_pointers st = ok st
    save_pointers (next_pointer x xs) st = do
      aligned ← thrown (realign b st)
      after ← save_object x aligned
      save_pointers xs after

-- What is saved is compressed by `deflate`: the bytes that zlib makes of all of its input.
module _ {S : Type 0} (b : IBitBuffer S) (deflate : List ℕ → List ℕ) where
  unfoldable pub save_compressed :
      Bool → BufferPos → BufferPos → BitStream S → Result RuntimeError (BitStream S)
  unfolding tell seek read_copy write write_copy
  save_compressed is_file header start st =
      let end = tell b st in
      let size = sub_pos end start in
      thrown (do
        back ← seek b st start true
        (uncompressed, read) ← read_copy b back (as_bits size)
        let bytes = deflate uncompressed
        let smaller = ltb (length bytes) (as_bytes size)
        at_header ← seek b read header true
        toggled ← if is_file then write b at_header (Primitive.bit_of smaller) 8 else ok at_header
        sized ← write b toggled (as_bytes size) 32
        if smaller then write_copy b sized bytes (length bytes * 8) else seek b sized end true)

  unfoldable pub save :
      BinarySerializer
      → Pointer
      → BitStream S
      → Result RuntimeError (BinarySerializer × BitStream S)
  unfolding save_object save_compressed tell write
  save z root st = do
    flagged ←
        if flag_is_set z.m_flags write_serializer_flags
        then thrown (write b st z.m_flags 32)
        else ok st
    headed ←
        if flag_is_set z.m_flags compressed
        then thrown (do
          toggled ← if z.m_is_file then write b flagged 0 8 else ok flagged
          write b toggled 0 32)
        else ok flagged
    saved ← save_object b z root headed
    finished ←
        if flag_is_set z.m_flags compressed
        then save_compressed z.m_is_file (tell b flagged) (tell b headed) saved
        else ok saved
    ok (record z { m_root_object = root }, finished)
