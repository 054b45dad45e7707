-- ===== src/Io.antt =====
-- The parts of std::stringstream that the protocol code relies on.
-- A stream is the sequence of its characters with a position to read from and one to write at, and the
-- bits `eofbit` and `failbit` of its state. What is written at a position inside the sequence replaces
-- what stood there, and the rest stays.
pub mod Laws
pub mod Pieces
use libki.Common.{
  ℕ, ◌+◌, ◌-◌, List, [], ◌∷◌, ◌++◌, Option, none, some, Bool, true, false, not, ◌&&◌, ltb, length,
  get_elem?, take, drop, if◌then◌else◌,
}

pub record IoStream : Type 0 where
  pub chars : List ℕ
  pub get_pos : ℕ
  pub put_pos : ℕ
  pub eof : Bool
  pub fail : Bool

unfoldable pub empty : IoStream
empty = record { chars = []; get_pos = 0; put_pos = 0; eof = false; fail = false }

-- A stream that holds a string, read from its beginning.
unfoldable pub of_string : List ℕ → IoStream
of_string chars = record { chars = chars; get_pos = 0; put_pos = 0; eof = false; fail = false }

abbrev pub good : IoStream → Bool
good s = not s.eof && not s.fail

abbrev pub remaining : IoStream → List ℕ
remaining s = drop s.get_pos s.chars

-- What is behind the end of the input.
abbrev pub exhausted : IoStream → IoStream
exhausted s = record s { get_pos = length s.chars; eof = true; fail = true }

-- istream::read: the characters that were there, and the stream after it.
unfoldable pub read : ℕ → IoStream → List ℕ × IoStream
read n s =
    if good s
    then (if ltb (length (remaining s)) n
        then (remaining s, exhausted s)
        else (take n (remaining s), record s { get_pos = s.get_pos + n }))
    else ([], record s { fail = true })

-- istream::get, where `none` is the end of file.
unfoldable pub get : IoStream → Option ℕ × IoStream
get s =
    if good s
    then elim (get_elem? s.chars s.get_pos) [
      | none ↦ (none, exhausted s)
      | some c ↦ (some c, record s { get_pos = s.get_pos + 1 })
    ]
    else (none, record s { fail = true })

-- istream::ignore, which does not set failbit at the end of the input.
unfoldable pub ignore : ℕ → IoStream → IoStream
ignore n s =
    if good s
    then (if ltb (length (remaining s)) n
        then record s { get_pos = length s.chars; eof = true }
        else record s { get_pos = s.get_pos + n })
    else record s { fail = true }

-- ostream::write.
unfoldable pub write : List ℕ → IoStream → IoStream
write xs s =
    if good s
    then record s {
      chars = take s.put_pos s.chars ++ (xs ++ drop (s.put_pos + length xs) s.chars);
      put_pos = s.put_pos + length xs;
    }
    else s

-- seekp(0, beg) and seekg(0, beg); the second clears eofbit first.
unfoldable pub rewind_put : IoStream → IoStream
rewind_put s = if s.fail then s else record s { put_pos = 0 }

unfoldable pub rewind_get : IoStream → IoStream
rewind_get s = if s.fail then record s { eof = false } else record s { eof = false; get_pos = 0 }
