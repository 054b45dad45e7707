-- ===== src/Stream/Expand.antt =====
-- BitStream::expand_buffer over a BitBuffer: it makes room for the position and loses no bit.
use libki.Common.{
  ℕ, zero, suc, ◌+◌, ◌-◌, ◌*◌, ◌^◌, ◌≤◌, ◌<◌, ◌≡◌, ◌≢◌, ◌↔◌, refl, arith, List, [], ◌∷◌, ◌++◌, leb,
  true, length, length-append, length-replicate, replicate, get_or,
}
use libki.Common.Result.{ok, fault}
use libki.Position.{BufferPos, as_bytes}
use libki.Position.Laws.{offset, IsNormal, max_bits, as_bytes_lem}
use libki.Buffer
use libki.Buffer.{R}
use libki.Interface.{bit_buffer_ops}
use libki.Stream.{new_size, expand_buffer}
use libki.Stream.Log.{log2, log2_bounds, log2-lt}
use native.Mathlib.Decide.{dec_lt}
use native.Mathlib.Nat.{pow-suc}
use native.Mathlib.Numerals.{add-one}

get_or-replicate : (k j : ℕ) → get_or {A = ℕ} (replicate k 0) j 0 ≡ 0
get_or-replicate zero j = refl
get_or-replicate (suc k) zero = refl
get_or-replicate (suc k) (suc j) = get_or-replicate k j

-- Bytes of zero behind the end are as good as none.
get_or-append_zeros : (xs : List ℕ) (k j : ℕ) → get_or (xs ++ replicate k 0) j 0 ≡ get_or xs j 0
get_or-append_zeros [] k j = get_or-replicate k j
get_or-append_zeros (x ∷ xs) k zero = refl
get_or-append_zeros (x ∷ xs) k (suc j) = get_or-append_zeros xs k j

-- Growing a buffer keeps its bytes and fills the rest with zeros.
pub resize_grows :
    (buf : List ℕ) (n : ℕ)
    → length buf ≤ n
    → (length (Buffer.resize n buf) ≡ n)
      × ((j : ℕ) → get_or (Buffer.resize n buf) j 0 ≡ get_or buf j 0)
unfolding Buffer.resize
resize_grows buf n h = rw grows (size, λ j. get_or-append_zeros buf (n - length buf) j)
  where
    grows : leb (length buf) n ≡ true
    grows = ground arith

    size : length (buf ++ replicate (n - length buf) 0) ≡ n
    size = omega (
      arith,
      length-append buf (replicate (n - length buf) 0),
      length-replicate {0} {A = ℕ} (n - length buf) 0,
    )

-- `result` is a return of a buffer with the same bits, no shorter, that has room for `bytes` bytes.
pub record Expanded (buf : List ℕ) (bytes : ℕ) (result : R (List ℕ)) : Type 0 where
  pub after : List ℕ
  pub returns : result ≡ ok after
  pub grows : length buf ≤ length after
  pub room : bytes ≤ length after
  pub same : (j : ℕ) → get_or after j 0 ≡ get_or buf j 0

-- The size asked for is larger than the position, so the comparison that guards against an
-- overflow never holds.
new_size_lem :
    (buf : List ℕ) (byte bytes : ℕ)
    → 0 < byte
    → bytes ≤ byte + 1
    → length buf ≤ bytes
    → (new_size bit_buffer_ops buf (log2 byte + 1) ≡ 2 * 2 ^ (log2 byte + 1) + 2)
      × (bytes < 2 * 2 ^ (log2 byte + 1) + 2)
unfolding new_size bit_buffer_ops
new_size_lem buf byte bytes h k l =
    ground (arith, log2_bounds byte h, pow-suc 2 (log2 byte), add-one (log2 byte))

expand_buffer_grows :
    (buf : List ℕ) (p : BufferPos)
    → 0 < p.byte
    → p.byte < 2 ^ 29
    → as_bytes p ≤ p.byte + 1
    → length buf ≤ as_bytes p
    → expand_buffer bit_buffer_ops buf p ≡ ok (Buffer.resize (2 * 2 ^ (log2 p.byte + 1) + 2) buf)
unfolding expand_buffer bit_buffer_ops
expand_buffer_grows buf p h k l outside =
    ground (arith, new_size_lem buf p.byte (as_bytes p) h l outside, log2-lt 29 p.byte h k)

-- For a position with a bit below 8, more than 8 bits below 2 ^ 32, and a BitBuffer of at least
-- two bytes: expand_buffer returns a buffer that is no shorter, has at least as_bytes of the
-- position bytes, and has the same bytes as before, with 0 beyond its old end.
pub expand_buffer-Expanded :
    (buf : List ℕ) (p : BufferPos)
    → IsNormal p
    → offset p + 8 < max_bits
    → 2 ≤ length buf
    → Expanded buf (as_bytes p) (expand_buffer bit_buffer_ops buf p)
unfolding expand_buffer bit_buffer_ops
expand_buffer-Expanded buf p h small two = elim (dec_lt (as_bytes p) (length buf)) [
  | yes inside ↦ record {
    after = buf;
    returns = ground arith;
    grows = omega arith;
    room = omega arith;
    same = λ j. refl;
  }
  | no outside ↦
      let bytes = as_bytes_lem p h small in
      let (size, same) =
        resize_grows buf (2 * 2 ^ (log2 p.byte + 1) + 2) (omega (arith, larger outside)) in
      record {
        after = Buffer.resize (2 * 2 ^ (log2 p.byte + 1) + 2) buf;
        returns = expand_buffer_grows buf p (omega arith) (omega arith) (omega arith) (omega arith);
        grows = omega (arith, size, larger outside);
        room = omega (arith, size, larger outside);
        same = same;
      }
]
  where
    larger : ¬ (as_bytes p < length buf) → as_bytes p < 2 * 2 ^ (log2 p.byte + 1) + 2
    larger outside =
        let bytes = as_bytes_lem p h small in
        (new_size_lem buf p.byte (as_bytes p) (omega arith) (omega arith) (omega arith)).1

-- For a position with a bit below 8, more than 8 bits below 2 ^ 32, and every BitBuffer:
-- expand_buffer runs into undefined behaviour exactly if the position is in the first byte and
-- the buffer is no longer than as_bytes of the position, which is where it takes the logarithm of
-- 0.
pub expand_buffer-fault :
    (buf : List ℕ) (p : BufferPos)
    → IsNormal p
    → offset p + 8 < max_bits
    → (expand_buffer bit_buffer_ops buf p ≡ fault) ↔ ((p.byte ≡ 0) × (length buf ≤ as_bytes p))
unfolding expand_buffer bit_buffer_ops
expand_buffer-fault buf p h small = elim (dec_lt (as_bytes p) (length buf)) [
  | yes inside ↦
      let same : expand_buffer bit_buffer_ops buf p ≡ ok buf = ground arith in
      (λ e. absurd (returned _ buf same e), λ c. absurd (omega (arith, inside, c.1)))
  | no outside ↦ elim (dec_lt 0 p.byte) [
    | no first ↦
        (λ e. (omega (arith, first), omega (arith, outside)), λ c. ground (arith, c.0, c.1))
    | yes later ↦
        let bytes = as_bytes_lem p h small in
        let grown =
          expand_buffer_grows buf p later (omega arith) (omega arith) (omega (arith, outside)) in
        (λ e. absurd (returned _ _ grown e), λ c. absurd (omega (arith, later, c.0)))
  ]
]
  where
    returned : (r : R (List ℕ)) (after : List ℕ) → r ≡ ok after → r ≢ fault
    returned r after e f = cc
