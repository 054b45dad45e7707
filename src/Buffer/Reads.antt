-- ===== src/Buffer/Reads.antt =====
-- BitBuffer::read: the loop ends, and its result is the run of bits at the position.
use libki.Common.{
  ℕ, zero, suc, ◌+◌, ◌-◌, ◌*◌, ◌/◌, ◌%◌, ◌^◌, ◌≤◌, ◌<◌, ◌≡◌, refl, ap, arith, List, bit_or, lt→ltb,
  ◌∙◌, length, get_or, get_elem?-eq-get_or, get_elem?-out,
}
use libki.Common.Bits.{test_bit}
use libki.Common.Int.{pos}
use libki.Common.Result.{ok, fault}
use libki.Position.{BufferPos, add_assign}
use libki.Position.Laws.{offset, IsNormal, max_bits, add_assign_lem, copy_normal}
use native.Mathlib.Decide.{dec_lt}
use native.Mathlib.Nat.{sub-zero}
use libki.Buffer.{u8, shl64, bit_count, bits_value, read_loop, read}
use libki.Buffer.Spec.{bit_at, bits_at}
use libki.Buffer.Rounds.{bits_at-round}

-- Inside one byte the bits follow one another.
pub bit_at_byte :
    (buf : List ℕ) (j b i : ℕ)
    → b + i < 8
    → bit_at buf (j * 8 + b + i) ≡ test_bit (b + i) (get_or buf j 0)
unfolding bit_at
bit_at_byte buf j b i h = ground (arith, quotient, remainder)
  where
    quotient : (j * 8 + b + i) / 8 ≡ j
    quotient = omega arith

    remainder : (j * 8 + b + i) % 8 ≡ b + i
    remainder = omega arith

pub count_bounds :
    (left : ℕ) (p : BufferPos)
    → IsNormal p
    → 0 < left
    → (0 < bit_count left p) × (bit_count left p ≤ left) × (p.bit + bit_count left p ≤ 8)
count_bounds left p h k = ground arith

-- A round of the loop, with what it computes with named.
read_loop_step :
    (fuel : ℕ) (buf : List ℕ) (p : BufferPos) (n r value : ℕ)
    → n ≤ 64
    → r < n
    → p.byte < length buf
    → let count = bit_count (n - r) p in
      read_loop (suc fuel) buf p n (n - r) value
      ≡ read_loop fuel buf
          (add_assign p (pos count))
          n
          (n - r - count)
          (bit_or value (shl64 (bits_value (get_or buf p.byte 0) count p.bit) r))
unfolding read_loop
read_loop_step fuel buf p n r value small lt inside =
    rw (lt→ltb 0 (n - r) (omega arith), get_elem?-eq-get_or buf p.byte 0 inside, so_far) refl
  where
    so_far : u8 (n + 2 ^ 8 - (n - r)) ≡ r
    so_far = omega arith

module _ (buf : List ℕ) (q n : ℕ) (small : n ≤ 64) (inside : q + n ≤ 8 * length buf)
    (fits : q + n < max_bits) where
  -- A round at bit `r` of the run.
  read_round :
      (p : BufferPos) (r : ℕ)
      → IsNormal p
      → offset p ≡ q + r
      → r < n
      → let count = bit_count (n - r) p in
        bit_or (bits_at buf q r) (shl64 (bits_value (get_or buf p.byte 0) count p.bit) r)
        ≡ bits_at buf q (r + count)
  read_round p r h e lt =
      let bounds = count_bounds (n - r) p h (omega arith) in
      bits_at-round buf q r _ _ p.bit bounds.2 (omega arith)
        λ i k. rw (at_byte i) (bit_at_byte buf p.byte p.bit i (omega arith))
    where
      at_byte : (i : ℕ) → q + r + i ≡ p.byte * 8 + p.bit + i
      at_byte i = omega arith

  read_loop_lem :
      (fuel : ℕ) (p : BufferPos) (r : ℕ)
      → IsNormal p
      → offset p ≡ q + r
      → r ≤ n
      → n - r < fuel
      → read_loop fuel buf p n (n - r) (bits_at buf q r) ≡ ok (bits_at buf q n)
  unfolding read_loop
  read_loop_lem zero p r h e le enough = absurd (omega arith)
  read_loop_lem (suc fuel) p r h e le enough = elim (dec_lt r n) [
    | yes more ↦
        let bounds = count_bounds (n - r) p h (omega arith) in
        let moved = add_assign_lem p (bit_count (n - r) p) h (omega arith) in
        let rest =
          read_loop_lem fuel (add_assign p (pos (bit_count (n - r) p))) (r + bit_count (n - r) p)
            moved.0 (omega (arith, moved.1)) (omega arith) (omega arith) in
        read_loop_step fuel buf p n r (bits_at buf q r) small more (omega arith)
        ∙ rw (read_round p r h e more, left r (bit_count (n - r) p)) rest
    | no done ↦ rw (none_left r le done) (ap (λ (k : ℕ). ok (bits_at buf q k)) (all_read r le done))
  ]
    where
      left : (r c : ℕ) → n - r - c ≡ n - (r + c)
      left r c = omega arith

      none_left : (r : ℕ) → r ≤ n → ¬ (r < n) → n - r ≡ 0
      none_left r le done = omega arith

      all_read : (r : ℕ) → r ≤ n → ¬ (r < n) → r ≡ n
      all_read r le done = omega arith

-- For a position with a bit below 8 and a run of n bits there, at most 64, that lies inside the
-- buffer and ends below 2 ^ 32: the read returns the run of the buffer's bits, lowest first.
pub read_lem :
    (buf : List ℕ) (p : BufferPos) (n : ℕ)
    → IsNormal p
    → n ≤ 64
    → offset p + n ≤ 8 * length buf
    → offset p + n < max_bits
    → read buf p n ≡ ok (bits_at buf (offset p) n)
unfolding read bits_at
read_lem buf p n h small inside fits = rw (copy_normal p h) (
    rw (sub-zero n) at (
      read_loop_lem buf (offset p) n small inside fits (n + 1) p 0 h (omega arith) (omega arith)
        (omega arith)))

-- A read that runs past the end of the memory is undefined.
read_loop_outside :
    (fuel : ℕ) (buf : List ℕ) (p : BufferPos) (q n r value : ℕ)
    → n ≤ 64
    → q + n < max_bits
    → 8 * length buf < q + n
    → IsNormal p
    → offset p ≡ q + r
    → r < n
    → n - r < fuel
    → read_loop fuel buf p n (n - r) value ≡ fault
unfolding read_loop
read_loop_outside zero buf p q n r value small fits out h e lt enough = absurd (omega arith)
read_loop_outside (suc fuel) buf p q n r value small fits out h e lt enough =
    elim (dec_lt p.byte (length buf)) [
      | yes inside ↦
          let c = bit_count (n - r) p in
          let bounds = count_bounds (n - r) p h (omega arith) in
          let moved = add_assign_lem p c h (omega arith) in
          read_loop_step fuel buf p n r value small lt inside
          ∙ rw (left c) (
              read_loop_outside fuel buf (add_assign p (pos c)) q n (r + c) _ small fits out moved.0
                (omega (arith, moved.1)) (omega arith) (omega arith))
      | no beyond ↦ rw (lt→ltb 0 (n - r) (omega arith), get_elem?-out buf p.byte (omega arith)) refl
    ]
  where
    left : (c : ℕ) → n - r - c ≡ n - (r + c)
    left c = omega arith

pub read_outside :
    (buf : List ℕ) (p : BufferPos) (n : ℕ)
    → IsNormal p
    → n ≤ 64
    → offset p + n < max_bits
    → offset p ≤ 8 * length buf
    → 8 * length buf < offset p + n
    → read buf p n ≡ fault
unfolding read
read_outside buf p n h small fits before out = rw (copy_normal p h) (
    rw (sub-zero n) at (
      read_loop_outside (n + 1) buf p (offset p) n 0 0 small fits out h (omega arith) (omega arith)
        (omega arith)))
