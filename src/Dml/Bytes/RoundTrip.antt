-- ===== src/Dml/Bytes/RoundTrip.antt =====
-- Reading numbers from a stream.
use libki.Common.{ℕ, ◌<◌, ◌≡◌, refl, arith, List, ◌++◌, length, true, false}
use libki.Io.{IoStream, exhausted, good}
use libki.Io.Laws.{Offers, advance, read_lem, read_short}
use libki.Dml.Bytes.{done, raise, parse_error, value_of, read_number}

pub good→not_fail : (s : IoStream) → good s ≡ true → s.fail ≡ false
good→not_fail s h = ground arith

-- The value of the bytes that are there.
pub read_number_lem :
    (size : ℕ) (s : IoStream) (bytes rest : List ℕ)
    → length bytes ≡ size
    → Offers s (bytes ++ rest)
    → read_number size s ≡ (done (value_of bytes), advance size s)
unfolding read_number
read_number_lem size s bytes rest e o =
    rw (read_lem size s bytes rest e o, good→not_fail s o.is_good) refl

-- Too few bytes: an exception, and the stream in its failed state.
pub read_number_short :
    (size : ℕ) (s : IoStream) (bytes : List ℕ)
    → length bytes < size
    → Offers s bytes
    → read_number size s ≡ (raise parse_error, exhausted s)
unfolding read_number
read_number_short size s bytes h o = rw (read_short size s bytes h o) refl
