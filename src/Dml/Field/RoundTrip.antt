-- ===== src/Dml/Field/RoundTrip.antt =====
-- Fields come back from what they write, where the test of the host's order does not misjudge them.
use libki.Common.{
  ℕ, ◌+◌, ◌*◌, ◌%◌, ◌^◌, ◌/◌, ◌<◌, ◌≡◌, refl, ap, ◌∙◌, arith, List, [], ◌∷◌, ◌++◌, ◌⊎◌, inl, inr,
  Bool, true, false, if◌then◌else◌, length, length-append, append_assoc,
}
use mathlib.Core.List.{reverse}
use libki.Io.{IoStream}
use libki.Io.Laws.{Offers, advance, advance-Offers, read_lem}
use libki.Dml.Bytes.{
  done, bind_done, memory, value_of, char_eq, write_number, write_ushrt, write_int, write_gid,
  write_float, read_number,
}
use libki.Dml.Bytes.Laws.{
  first_byte, second_byte, third_byte, fourth_byte, write_int_exact, value_of-write_ushrt,
  value_of-memory, length-write_int, length-write_ushrt, high_byte,
}
use libki.Dml.Bytes.RoundTrip.{read_number_lem, good→not_fail}
use libki.Dml.Field.{
  str_field, wstr_field, FieldValue, type_of, unit_bytes, units_of, write_to, read_chars, read_from,
  get_size,
}

-- Of 64 bits.
abbrev pub last_byte : ℕ → ℕ
last_byte v = v / 2 ^ 56

abbrev IsExactInt : ℕ → Type 0
IsExactInt v =
    (v < 2 ^ 32)
    × ((char_eq (first_byte v) (fourth_byte v) ≡ false) ⊎ (second_byte v ≡ third_byte v))

abbrev AreUnits : List ℕ → Type 0
AreUnits [] = Unit {0}
AreUnits (u ∷ us) = (u < 2 ^ 16) × AreUnits us

-- The values whose bytes are written in the right order, which for a GID that the test misjudges is
-- also the reversed one, and texts whose length fits a USHRT.
abbrev pub IsExact : FieldValue → Type 0
IsExact (FieldValue.byt v) = v < 2 ^ 8
IsExact (FieldValue.ubyt v) = v < 2 ^ 8
IsExact (FieldValue.shrt v) = v < 2 ^ 16
IsExact (FieldValue.ushrt v) = v < 2 ^ 16
IsExact (FieldValue.int v) = IsExactInt v
IsExact (FieldValue.uint v) = IsExactInt v
IsExact (FieldValue.flt v) = v < 2 ^ 32
IsExact (FieldValue.dbl v) = v < 2 ^ 64
IsExact (FieldValue.gid v) =
    (v < 2 ^ 64)
    × ((char_eq (first_byte v) (last_byte v) ≡ false) ⊎ (reverse (memory 8 v) ≡ memory 8 v))
IsExact (FieldValue.str v) = length v < 2 ^ 16
IsExact (FieldValue.wstr v) = (length v < 2 ^ 16) × AreUnits v

write_gid_lem :
    (v : ℕ)
    → v < 2 ^ 64
    → (char_eq (first_byte v) (last_byte v) ≡ false) ⊎ (reverse (memory 8 v) ≡ memory 8 v)
    → write_gid v ≡ memory 8 v
unfolding write_gid
write_gid_lem v h (inl e) = rw (high_byte 56 v h, e) refl
write_gid_lem v h (inr e) = rw (high_byte 56 v h) (same_way (char_eq (first_byte v) (last_byte v)))
  where
    same_way : (b : Bool) → (if b then reverse (memory 8 v) else memory 8 v) ≡ memory 8 v
    same_way true = e
    same_way false = refl

length-unit_bytes : (us : List ℕ) → length (unit_bytes us) ≡ length us * 2
unfolding unit_bytes
length-unit_bytes [] = refl
length-unit_bytes (u ∷ us) = omega (arith, length-unit_bytes us)

units_of-unit_bytes : (us : List ℕ) → AreUnits us → units_of (unit_bytes us) ≡ us
unfolding unit_bytes units_of
units_of-unit_bytes [] h = refl
units_of-unit_bytes (u ∷ us) h = ground (arith, units_of-unit_bytes us h.1)

-- Reading characters that are there.
read_chars_lem :
    (n : ℕ) (s : IoStream) (xs rest : List ℕ)
    → length xs ≡ n
    → Offers s (xs ++ rest)
    → read_chars n s ≡ (done xs, advance n s)
unfolding read_chars
read_chars_lem n s xs rest e o = rw (read_lem n s xs rest e o, good→not_fail s o.is_good) refl

pub advance-advance : (m n : ℕ) (s : IoStream) → advance n (advance m s) ≡ advance (m + n) s
advance-advance m n s = ap (λ (k : ℕ). record s { get_pos = k }) sums
  where
    sums : s.get_pos + m + n ≡ s.get_pos + (m + n)
    sums = omega arith

-- A number of a known size whose bytes are next.
number_lem :
    (size v : ℕ) (s : IoStream) (bytes rest : List ℕ)
    → length bytes ≡ size
    → value_of bytes ≡ v
    → Offers s (bytes ++ rest)
    → read_number size s ≡ (done v, advance size s)
number_lem size v s bytes rest e same o =
    read_number_lem size s bytes rest e o ∙ ap (λ (t : ℕ). (done t, advance size s)) same

-- A length and then that many characters.
chars_lem :
    (n k : ℕ) (s : IoStream) (xs rest : List ℕ)
    → n < 2 ^ 16
    → length xs ≡ k
    → Offers s ((write_number 2 0xff00 8 (n % 2 ^ 16) ++ xs) ++ rest)
    → (read_number 2 s ≡ (done n, advance 2 s))
      × (read_chars k (advance 2 s) ≡ (done xs, advance (2 + k) s))
unfolding write_ushrt
chars_lem n k s xs rest h e o = (
  number_lem 2 n s (write_ushrt n) (xs ++ rest) (length-write_ushrt n h) (value_of-write_ushrt n h)
      o',
  read_chars_lem k (advance 2 s) xs rest e
        (rw (length-write_ushrt n h) at (advance-Offers s (write_ushrt n) (xs ++ rest) o'))
      ∙ ap (λ (t : IoStream). (done xs, t)) (advance-advance 2 k s),
)
  where
    cut : n % 2 ^ 16 ≡ n
    cut = omega arith

    o' : Offers s (write_ushrt n ++ (xs ++ rest))
    o' = rw (cut, append_assoc (write_ushrt n) xs rest) at o

size_and :
    (n : ℕ) (xs : List ℕ) (k : ℕ)
    → n < 2 ^ 16
    → length xs ≡ k
    → length (write_number 2 0xff00 8 (n % 2 ^ 16) ++ xs) ≡ 2 + k
unfolding write_ushrt
size_and n xs k h e =
    rw cut (omega (arith, length-append (write_ushrt n) xs, length-write_ushrt n h))
  where
    cut : n % 2 ^ 16 ≡ n
    cut = omega arith

pub length-write_to : (v : FieldValue) → IsExact v → length (write_to v) ≡ get_size v
unfolding write_to get_size write_float
length-write_to (FieldValue.byt v) h = refl
length-write_to (FieldValue.ubyt v) h = refl
length-write_to (FieldValue.shrt v) h = length-write_ushrt v h
length-write_to (FieldValue.ushrt v) h = length-write_ushrt v h
length-write_to (FieldValue.int v) h = length-write_int v h.0
length-write_to (FieldValue.uint v) h = length-write_int v h.0
length-write_to (FieldValue.flt v) h = refl
length-write_to (FieldValue.dbl v) h = refl
length-write_to (FieldValue.gid v) h = rw (write_gid_lem v h.0 h.1) refl
length-write_to (FieldValue.str v) h = size_and (length v) v (length v) h refl
length-write_to (FieldValue.wstr v) h =
    size_and (length v) (unit_bytes v) (length v * 2) h.0 (length-unit_bytes v)

-- For a value of one of the eleven types that is written exactly (a number that fits its type
-- and, if it is an INT, a UINT or a GID, whose bytes either pass the test of their order or are
-- the same when they are reversed; a text of fewer than 2 ^ 16 characters): reading its type from
-- a stream that offers the bytes it writes gives the value, and leaves the stream get_size bytes
-- further.
pub read_from-write_to :
    (v : FieldValue) (s : IoStream) (rest : List ℕ)
    → IsExact v
    → Offers s (write_to v ++ rest)
    → read_from (type_of v) s ≡ (done v, advance (get_size v) s)
unfolding read_from write_to get_size write_float
read_from-write_to (FieldValue.byt v) s rest h o =
    bind_done (read_number 1) _ s (advance 1 s) v
      (number_lem 1 v s (memory 1 v) rest refl (value_of-memory 1 v h) o)
read_from-write_to (FieldValue.ubyt v) s rest h o =
    bind_done (read_number 1) _ s (advance 1 s) v
      (number_lem 1 v s (memory 1 v) rest refl (value_of-memory 1 v h) o)
read_from-write_to (FieldValue.shrt v) s rest h o =
    bind_done (read_number 2) _ s (advance 2 s) v
      (number_lem 2 v s (write_ushrt v) rest (length-write_ushrt v h) (value_of-write_ushrt v h) o)
read_from-write_to (FieldValue.ushrt v) s rest h o =
    bind_done (read_number 2) _ s (advance 2 s) v
      (number_lem 2 v s (write_ushrt v) rest (length-write_ushrt v h) (value_of-write_ushrt v h) o)
read_from-write_to (FieldValue.int v) s rest h o =
    bind_done (read_number 4) _ s (advance 4 s) v (
      number_lem 4 v s (write_int v) rest (length-write_int v h.0) ((write_int_exact v h.0).1 h.1)
        o)
read_from-write_to (FieldValue.uint v) s rest h o =
    bind_done (read_number 4) _ s (advance 4 s) v (
      number_lem 4 v s (write_int v) rest (length-write_int v h.0) ((write_int_exact v h.0).1 h.1)
        o)
read_from-write_to (FieldValue.flt v) s rest h o =
    bind_done (read_number 4) _ s (advance 4 s) v
      (number_lem 4 v s (memory 4 v) rest refl (value_of-memory 4 v h) o)
read_from-write_to (FieldValue.dbl v) s rest h o =
    bind_done (read_number 8) _ s (advance 8 s) v
      (number_lem 8 v s (memory 8 v) rest refl (value_of-memory 8 v h) o)
read_from-write_to (FieldValue.gid v) s rest h o = bind_done (read_number 8) _ s (advance 8 s) v (
    number_lem 8 v s (memory 8 v) rest refl (value_of-memory 8 v h.0)
      (rw (write_gid_lem v h.0 h.1) at o))
read_from-write_to (FieldValue.str v) s rest h o =
    let (size, chars) = chars_lem (length v) (length v) s v rest h refl o in
    bind_done (str_field.read) _ s (advance (2 + length v) s) v
      (bind_done (read_number 2) _ s (advance 2 s) (length v) size ∙ chars)
read_from-write_to (FieldValue.wstr v) s rest h o =
    let (size, chars) =
      chars_lem (length v) (length v * 2) s (unit_bytes v) rest h.0 (length-unit_bytes v) o in
    bind_done (wstr_field.read) _ s (advance (2 + length v * 2) s) v (
      bind_done (read_number 2) _ s (advance 2 s) (length v) size
      ∙ bind_done (read_chars (length v * 2)) _ (advance 2 s) (advance (2 + length v * 2) s)
          (unit_bytes v) chars
      ∙ ap (λ t. (done t, advance (2 + length v * 2) s)) (units_of-unit_bytes v h.1))
