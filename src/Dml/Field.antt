-- ===== src/Dml/Field.antt =====
-- Fields: Field<ValueT> for the eleven types of dml/types, in their binary form.
-- A number is the unsigned one with the value's bytes, a STR the list of its characters and a WSTR
-- that of its 16-bit units.
pub mod RoundTrip
use libki.Common.{
  ℕ, suc, ◌+◌, ◌*◌, ◌%◌, ◌^◌, ◌/◌, List, [], ◌∷◌, ◌++◌, Bool, true, false, ◌==◌, ◌&&◌,
  if◌then◌else◌, length, bit_and, get_or,
}
use Prim.Native.String.{String}
use mathlib.Core.List.{reverse}
use libki.Io
use libki.Dml.Bytes.{
  Reader, DmlError, parse_error, done, raise, ◌>>=◌, return, memory, value_of, write_number,
  write_ushrt, write_int, write_gid, write_float, read_number, char_eq, big_endian_check,
}

pub data FieldType : Type 0 where
  byt ubyt shrt ushrt int uint str wstr flt dbl gid : FieldType

pub data FieldValue : Type 0 where
  byt ubyt shrt ushrt int uint flt dbl gid : ℕ → FieldValue
  str wstr : List ℕ → FieldValue

abbrev pub type_of : FieldValue → FieldType
type_of (FieldValue.byt v) = FieldType.byt
type_of (FieldValue.ubyt v) = FieldType.ubyt
type_of (FieldValue.shrt v) = FieldType.shrt
type_of (FieldValue.ushrt v) = FieldType.ushrt
type_of (FieldValue.int v) = FieldType.int
type_of (FieldValue.uint v) = FieldType.uint
type_of (FieldValue.flt v) = FieldType.flt
type_of (FieldValue.dbl v) = FieldType.dbl
type_of (FieldValue.gid v) = FieldType.gid
type_of (FieldValue.str v) = FieldType.str
type_of (FieldValue.wstr v) = FieldType.wstr

-- `m_type_hash`, taken to differ from type to type.
abbrev pub type_hash : FieldType → ℕ
type_hash FieldType.byt = 0
type_hash FieldType.ubyt = 1
type_hash FieldType.shrt = 2
type_hash FieldType.ushrt = 3
type_hash FieldType.int = 4
type_hash FieldType.uint = 5
type_hash FieldType.str = 6
type_hash FieldType.wstr = 7
type_hash FieldType.flt = 8
type_hash FieldType.dbl = 9
type_hash FieldType.gid = 10

-- FieldBase::is_type<ValueT>.
abbrev pub is_type : FieldType → FieldValue → Bool
is_type t v = type_hash t == type_hash (type_of v)

-- `ValueT()`.
abbrev pub default_value : FieldType → FieldValue
default_value FieldType.byt = FieldValue.byt 0
default_value FieldType.ubyt = FieldValue.ubyt 0
default_value FieldType.shrt = FieldValue.shrt 0
default_value FieldType.ushrt = FieldValue.ushrt 0
default_value FieldType.int = FieldValue.int 0
default_value FieldType.uint = FieldValue.uint 0
default_value FieldType.str = FieldValue.str []
default_value FieldType.wstr = FieldValue.wstr []
default_value FieldType.flt = FieldValue.flt 0
default_value FieldType.dbl = FieldValue.dbl 0
default_value FieldType.gid = FieldValue.gid 0

-- The units of a WSTR in memory.
unfoldable pub unit_bytes : List ℕ → List ℕ
unfolding memory
unit_bytes [] = []
unit_bytes (u ∷ us) = memory 2 u ++ unit_bytes us

-- `WSTR((char16_t *)data, …)`; the bytes of each unit are reversed on a big-endian host.
unfoldable pub units_of : List ℕ → List ℕ
unfolding value_of big_endian_check
units_of (a ∷ b ∷ bytes) =
    value_of (if big_endian_check then b ∷ a ∷ [] else a ∷ b ∷ []) ∷ units_of bytes
units_of _ = []

-- The characters behind a length, with their own test for failure.
unfoldable pub read_chars : ℕ → Reader DmlError (List ℕ)
read_chars size s =
    let (chars, s') = Io.read size s in
    if s'.fail then (raise parse_error, s') else (done chars, s')

-- What a specialisation of Field<ValueT> defines.
pub record FieldCodec (V : Type 0) : Type 0 where
  pub write : V → List ℕ
  pub read : Reader DmlError V
  pub size : V → ℕ
  pub type_name : String

abbrev pub byt_field : FieldCodec ℕ
byt_field = record { write = memory 1; read = read_number 1; size = λ v. 1; type_name = "BYT" }

abbrev pub ubyt_field : FieldCodec ℕ
ubyt_field = record { write = memory 1; read = read_number 1; size = λ v. 1; type_name = "UBYT" }

abbrev pub shrt_field : FieldCodec ℕ
shrt_field = record { write = write_ushrt; read = read_number 2; size = λ v. 2; type_name = "SHRT" }

abbrev pub ushrt_field : FieldCodec ℕ
ushrt_field = record {
  write = write_ushrt;
  read = read_number 2;
  size = λ v. 2;
  type_name = "USHRT";
}

abbrev pub int_field : FieldCodec ℕ
int_field = record { write = write_int; read = read_number 4; size = λ v. 4; type_name = "INT" }

abbrev pub uint_field : FieldCodec ℕ
uint_field = record { write = write_int; read = read_number 4; size = λ v. 4; type_name = "UINT" }

abbrev pub flt_field : FieldCodec ℕ
flt_field = record { write = write_float 4; read = read_number 4; size = λ v. 4; type_name = "FLT" }

abbrev pub dbl_field : FieldCodec ℕ
dbl_field = record { write = write_float 8; read = read_number 8; size = λ v. 8; type_name = "DBL" }

abbrev pub gid_field : FieldCodec ℕ
gid_field = record { write = write_gid; read = read_number 8; size = λ v. 8; type_name = "GID" }

-- The length of a text goes through a USHRT.
abbrev pub str_field : FieldCodec (List ℕ)
str_field = record {
  write = λ v. write_number 2 0xff00 8 (length v % 2 ^ 16) ++ v;
  read = do
    size ← read_number 2
    read_chars size;
  size = λ v. 2 + length v;
  type_name = "STR";
}

abbrev pub wstr_field : FieldCodec (List ℕ)
wstr_field = record {
  write = λ v. write_number 2 0xff00 8 (length v % 2 ^ 16) ++ unit_bytes v;
  read = do
    size ← read_number 2
    chars ← read_chars (size * 2)
    return (units_of chars);
  size = λ v. 2 + length v * 2;
  type_name = "WSTR";
}

unfoldable pub get_type_name : FieldType → String
get_type_name FieldType.byt = byt_field.type_name
get_type_name FieldType.ubyt = ubyt_field.type_name
get_type_name FieldType.shrt = shrt_field.type_name
get_type_name FieldType.ushrt = ushrt_field.type_name
get_type_name FieldType.int = int_field.type_name
get_type_name FieldType.uint = uint_field.type_name
get_type_name FieldType.str = str_field.type_name
get_type_name FieldType.wstr = wstr_field.type_name
get_type_name FieldType.flt = flt_field.type_name
get_type_name FieldType.dbl = dbl_field.type_name
get_type_name FieldType.gid = gid_field.type_name

-- The virtual functions.
unfoldable pub write_to : FieldValue → List ℕ
write_to (FieldValue.byt v) = byt_field.write v
write_to (FieldValue.ubyt v) = ubyt_field.write v
write_to (FieldValue.shrt v) = shrt_field.write v
write_to (FieldValue.ushrt v) = ushrt_field.write v
write_to (FieldValue.int v) = int_field.write v
write_to (FieldValue.uint v) = uint_field.write v
write_to (FieldValue.str v) = str_field.write v
write_to (FieldValue.wstr v) = wstr_field.write v
write_to (FieldValue.flt v) = flt_field.write v
write_to (FieldValue.dbl v) = dbl_field.write v
write_to (FieldValue.gid v) = gid_field.write v

unfoldable pub read_from : FieldType → Reader DmlError FieldValue
read_from FieldType.byt = do v ← byt_field.read; return (FieldValue.byt v)
read_from FieldType.ubyt = do v ← ubyt_field.read; return (FieldValue.ubyt v)
read_from FieldType.shrt = do v ← shrt_field.read; return (FieldValue.shrt v)
read_from FieldType.ushrt = do v ← ushrt_field.read; return (FieldValue.ushrt v)
read_from FieldType.int = do v ← int_field.read; return (FieldValue.int v)
read_from FieldType.uint = do v ← uint_field.read; return (FieldValue.uint v)
read_from FieldType.str = do v ← str_field.read; return (FieldValue.str v)
read_from FieldType.wstr = do v ← wstr_field.read; return (FieldValue.wstr v)
read_from FieldType.flt = do v ← flt_field.read; return (FieldValue.flt v)
read_from FieldType.dbl = do v ← dbl_field.read; return (FieldValue.dbl v)
read_from FieldType.gid = do v ← gid_field.read; return (FieldValue.gid v)

unfoldable pub get_size : FieldValue → ℕ
get_size (FieldValue.byt v) = byt_field.size v
get_size (FieldValue.ubyt v) = ubyt_field.size v
get_size (FieldValue.shrt v) = shrt_field.size v
get_size (FieldValue.ushrt v) = ushrt_field.size v
get_size (FieldValue.int v) = int_field.size v
get_size (FieldValue.uint v) = uint_field.size v
get_size (FieldValue.str v) = str_field.size v
get_size (FieldValue.wstr v) = wstr_field.size v
get_size (FieldValue.flt v) = flt_field.size v
get_size (FieldValue.dbl v) = dbl_field.size v
get_size (FieldValue.gid v) = gid_field.size v
