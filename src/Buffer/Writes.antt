-- ===== src/Buffer/Writes.antt =====
-- BitBuffer::write: the loop ends, stores the value's bits at the position and keeps all others.
use libki.Common.{
  ℕ, zero, suc, ◌+◌, ◌-◌, ◌*◌, ◌/◌, ◌%◌, ◌^◌, ◌≤◌, ◌<◌, ◌≡◌, refl, ◌∙◌, arith, List, lt→ltb, ltb,
  leb, ◌&&◌, if◌then◌else◌, length, length-set, get_or, set, get_or-set_self, get_or-set_ne,
  get_elem?-eq-get_or,
}
use libki.Common.Bits.{test_bit}
use libki.Common.Int.{pos}
use libki.Common.Result.{ok}
use libki.Position.{BufferPos, add_assign}
use libki.Position.Laws.{offset, IsNormal, max_bits, add_assign_lem, copy_normal}
use libki.Buffer.{R, u8, bit_count, written_byte, write_loop, write}
use libki.Buffer.Spec.{bit_at, IsBytes}
use libki.Buffer.Rounds.{test_bit-written_byte, written_byte-lt}
use libki.Buffer.Reads.{count_bounds}
use native.Mathlib.Decide.{dec_lt, ℕ_discrete}
use native.Mathlib.Nat.{sub-zero}

-- `result` is a return of a buffer that has bits `lo` to `hi` of the value at the run which begins
-- at bit `q` of the buffer, and agrees with `before` outside them.
pub record Stored (before : List ℕ) (q lo hi value : ℕ) (result : R (List ℕ)) : Type 0 where
  pub after : List ℕ
  pub returns : result ≡ ok after
  pub same_length : length after ≡ length before
  pub bytes : IsBytes before → IsBytes after
  pub bits :
      (i : ℕ)
      → bit_at after i
        ≡ (if leb (q + lo) i && ltb i (q + hi) then test_bit (i - q) value else bit_at before i)

bit_at-set :
    (buf : List ℕ) (j x i : ℕ)
    → j < length buf
    → bit_at (set buf j x) i
      ≡ (if leb (j * 8) i && ltb i (j * 8 + 8) then test_bit (i - j * 8) x else bit_at buf i)
unfolding bit_at
bit_at-set buf j x i h = elim (ℕ_discrete (i / 8) j) [
  | yes e ↦ ground (arith, get_or-set_self buf j x 0 h)
  | no ne ↦ ground (arith, get_or-set_ne buf j (i / 8) x 0 (λ e. ne (omega arith)))
]

IsBytes-set :
    (buf : List ℕ) (j x : ℕ) → j < length buf → x < 256 → IsBytes buf → IsBytes (set buf j x)
IsBytes-set buf j x inside small h i = elim (ℕ_discrete j i) [
  | yes e ↦ rw (← e) (rw (get_or-set_self buf j x 0 inside) small)
  | no ne ↦ rw (get_or-set_ne buf j i x 0 ne) (h i)
]

bit_at-inside :
    (buf : List ℕ) (j i : ℕ)
    → j * 8 ≤ i
    → i < j * 8 + 8
    → bit_at buf i ≡ test_bit (i - j * 8) (get_or buf j 0)
unfolding bit_at
bit_at-inside buf j i h k = rw (quotient, remainder) refl
  where
    quotient : i / 8 ≡ j
    quotient = omega arith

    remainder : i % 8 ≡ i - j * 8
    remainder = omega arith

-- One round on the byte `j`, at bit `bit` of it, with `r` bits of the value stored before.
pub bit_at-round :
    (buf : List ℕ) (j bit q r count value i : ℕ)
    → j < length buf
    → bit + count ≤ 8
    → r + count ≤ 64
    → j * 8 + bit ≡ q + r
    → bit_at (set buf j (written_byte (get_or buf j 0) value r count bit)) i
      ≡ (if leb (q + r) i && ltb i (q + (r + count)) then test_bit (i - q) value else bit_at buf i)
bit_at-round buf j bit q r count value i inside h k e = ground (
  arith,
  bit_at-set buf j (written_byte (get_or buf j 0) value r count bit) i inside,
  test_bit-written_byte (i - j * 8) (get_or buf j 0) value r count bit,
  bit_at-inside buf j i,
  same_bit,
)
  where
    same_bit : q + r ≤ i → r + (i - j * 8 - bit) ≡ i - q
    same_bit le = omega arith

write_loop_step :
    (fuel : ℕ) (buf : List ℕ) (value : ℕ) (p : BufferPos) (n r : ℕ)
    → n ≤ 64
    → r < n
    → p.byte < length buf
    → let count = bit_count (n - r) p in
      write_loop (suc fuel) buf value p n (n - r)
      ≡ write_loop fuel
          (set buf p.byte (written_byte (get_or buf p.byte 0) value r count p.bit))
          value
          (add_assign p (pos count))
          n
          (n - r - count)
unfolding write_loop
write_loop_step fuel buf value p n r small lt inside =
    rw (lt→ltb 0 (n - r) (omega arith), get_elem?-eq-get_or buf p.byte 0 inside, so_far) refl
  where
    so_far : u8 (n + 2 ^ 8 - (n - r)) ≡ r
    so_far = omega arith

-- A round and then the rest.
Stored-step :
    (before mid : List ℕ) (q r c n value : ℕ) {result : R (List ℕ)}
    → r + c ≤ n
    → length mid ≡ length before
    → (IsBytes before → IsBytes mid)
    → ((i : ℕ)
        → bit_at mid i ≡ (
            if leb (q + r) i && ltb i (q + (r + c))
            then test_bit (i - q) value
            else bit_at before i))
    → Stored mid q (r + c) n value result
    → Stored before q r n value result
Stored-step before mid q r c n value h same bytes bits rest = record {
  after = rest.after;
  returns = rest.returns;
  same_length = rest.same_length ∙ same;
  bytes = λ b. rest.bytes (bytes b);
  bits = λ i. ground (arith, rest.bits i, bits i);
}

module _ (q n value : ℕ) (small : n ≤ 64) (fits : q + n < max_bits) where
  write_loop_lem :
      (fuel : ℕ) (buf : List ℕ) (p : BufferPos) (r : ℕ)
      → q + n ≤ 8 * length buf
      → IsNormal p
      → offset p ≡ q + r
      → r ≤ n
      → n - r < fuel
      → Stored buf q r n value (write_loop fuel buf value p n (n - r))
  unfolding write_loop
  write_loop_lem zero buf p r inside h e le enough = absurd (omega arith)
  write_loop_lem (suc fuel) buf p r inside h e le enough = elim (dec_lt r n) [
    | yes more ↦
        let c = bit_count (n - r) p in
        let x = written_byte (get_or buf p.byte 0) value r c p.bit in
        let bounds = count_bounds (n - r) p h (omega arith) in
        let moved = add_assign_lem p c h (omega arith) in
        let in_range : p.byte < length buf = omega arith in
        let rest =
          write_loop_lem fuel (set buf p.byte x) (add_assign p (pos c)) (r + c)
            (rw (length-set buf p.byte x) inside) moved.0 (omega (arith, moved.1)) (omega arith)
            (omega arith) in
        rw (write_loop_step fuel buf value p n r small more in_range, left r c)
          (Stored-step buf (set buf p.byte x) q r c n value (omega arith) (length-set buf p.byte x)
            (IsBytes-set buf p.byte x in_range (written_byte-lt _ value r c p.bit))
            (λ i. bit_at-round buf p.byte p.bit q r c value i in_range bounds.2 (omega arith) e)
            rest)
    | no done ↦ rw (none_left r le done) record {
      after = buf;
      returns = refl;
      same_length = refl;
      bytes = λ b. b;
      bits = λ i. nothing i r le done;
    }
  ]
    where
      left : (r c : ℕ) → n - r - c ≡ n - (r + c)
      left r c = omega arith

      none_left : (r : ℕ) → r ≤ n → ¬ (r < n) → n - r ≡ 0
      none_left r le done = omega arith

      nothing :
          (i r : ℕ)
          → r ≤ n
          → ¬ (r < n)
          → bit_at buf i
            ≡ (if leb (q + r) i && ltb i (q + n) then test_bit (i - q) value else bit_at buf i)
      nothing i r le done = ground arith

-- For a position with a bit below 8 and a run of n bits there, at most 64, that lies inside the
-- buffer and ends below 2 ^ 32: the write returns a buffer of the same length, of bytes if it was
-- one of bytes, in which the run holds the value's lowest n bits and each other bit is as before.
pub write_lem :
    (buf : List ℕ) (value : ℕ) (p : BufferPos) (n : ℕ)
    → IsNormal p
    → n ≤ 64
    → offset p + n ≤ 8 * length buf
    → offset p + n < max_bits
    → Stored buf (offset p) 0 n value (write buf value p n)
unfolding write
write_lem buf value p n h small inside fits = rw (copy_normal p h) (
    rw (sub-zero n) at (
      write_loop_lem (offset p) n value small fits (n + 1) buf p 0 inside h (omega arith)
        (omega arith) (omega arith)))
