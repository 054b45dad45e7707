-- ===== src/Serializer.antt =====
-- BinarySerializer of serialization: the serializer and its flags, and what it needs of a buffer.
pub mod Save
pub mod Load
pub mod AnyBuffer
pub mod Steps
pub mod Values
pub mod Objects
pub mod RoundTrip
pub mod Fuel
pub mod Termination
pub mod Json
use libki.Common.{ℕ, List, Bool, false, ◌==◌, bit_and}
use libki.Common.Result.{Result, rethrow}
use libki.Position.{BufferPos}
use libki.Buffer.{R}
use libki.Interface.{IBitBuffer}
use libki.Pclass.EnumType.{RuntimeError, runtime_error}
use libki.Pclass.TypeSystem.{TypeSystem}
use libki.Pclass.Object.{Pointer, null}

-- BinarySerializer::flags, and that of IProperty.
abbrev pub write_serializer_flags : ℕ
write_serializer_flags = 0x01

abbrev pub write_public_only : ℕ
write_public_only = 0x04

abbrev pub compressed : ℕ
compressed = 0x08

abbrev pub public : ℕ
public = 0x04

abbrev pub flag_is_set : ℕ → ℕ → Bool
flag_is_set v f = bit_and v f == f

pub record BinarySerializer : Type 0 where
  pub m_type_system : TypeSystem
  pub m_is_file : Bool
  pub m_flags : ℕ
  pub m_root_object : Pointer

-- The constructor.
unfoldable pub binary_serializer : TypeSystem → Bool → ℕ → BinarySerializer
binary_serializer ts is_file flags = record {
  m_type_system = ts;
  m_is_file = is_file;
  m_flags = flags;
  m_root_object = null;
}

-- The buffers that an IBitBuffer pointer may lead to: their overrides, the segments that they make,
-- and new BitBuffers.
pub record Buffers (S : Type 0) : Type 0 where
  pub ops : IBitBuffer S
  pub segment : S → BufferPos → ℕ → R S
  pub bit_buffer : List ℕ → S

-- All of the exceptions are a ki::runtime_error.
abbrev pub thrown : {A : Type 0} → R A → Result RuntimeError A
thrown r = rethrow (λ e. runtime_error) r
