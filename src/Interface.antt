-- ===== src/Interface.antt =====
-- The virtual interface IBitBuffer of util/BitStream, and what the class builds on it: the typed
-- `read<ValueT>` and `write<ValueT>`, and the copies from and to plain memory.
pub mod Typed
use libki.Common.{
  ℕ, zero, suc, ◌+◌, ◌-◌, ◌%◌, ◌^◌, List, [], ◌∷◌, Bool, ltb, leb, if◌then◌else◌, length,
}
use libki.Common.Int.{pos}
use libki.Common.Result.{Result, ok, throw, fault, stuck, ◌>>=◌}
use libki.Position.{BufferPos, copy, add_int, add_assign, as_bytes}
use libki.Buffer
use libki.Buffer.{R, BufferError, cannot_read, cannot_write}

pub record IBitBuffer (S : Type 0) : Type 0 where
  pub size : S → ℕ
  pub resize : ℕ → S → R S
  pub read : S → BufferPos → ℕ → R ℕ
  pub write : S → ℕ → BufferPos → ℕ → R S

-- BitBuffer's overrides.
unfoldable pub bit_buffer_ops : IBitBuffer (List ℕ)
bit_buffer_ops = record {
  size = length;
  resize = λ n buf. ok (Buffer.resize n buf);
  read = Buffer.read;
  write = Buffer.write;
}

module _ {S : Type 0} (b : IBitBuffer S) where
  -- The test for overflow that both templates begin with.
  unfoldable pub overflows : S → BufferPos → ℕ → Bool
  overflows s position bits = ltb (b.size s) (as_bytes (add_int position (pos bits)))

  -- read<ValueT>, for a ValueT of `width` bits.
  unfoldable pub read_value : ℕ → S → BufferPos → ℕ → R ℕ
  unfolding overflows
  read_value width s position bits =
      if overflows s position bits
      then throw cannot_read
      else (b.read s position bits >>= λ v. ok (v % 2 ^ width))

  -- write<ValueT>; `value` is the uint64_t that the value is cast to.
  unfoldable pub write_value : S → ℕ → BufferPos → ℕ → R S
  unfolding overflows
  write_value s value position bits =
      if overflows s position bits then throw cannot_write else b.write s value position bits

  abbrev round_bits : ℕ → ℕ
  round_bits bits_left = if leb 8 bits_left then 8 else bits_left

  -- read_copy: the bytes that go to `dst`.
  unfoldable pub read_copy_loop : ℕ → S → BufferPos → ℕ → R (List ℕ)
  read_copy_loop zero s position bits_left = stuck
  read_copy_loop (suc fuel) s position bits_left =
      let bits = round_bits bits_left in
      let round : R (List ℕ) = (do
        byte ← read_value 8 s position bits
        rest ← read_copy_loop fuel s (add_assign position (pos bits)) (bits_left - bits)
        ok (byte ∷ rest)) in
      if ltb 0 bits_left then round else ok []

  unfoldable pub read_copy : S → BufferPos → ℕ → R (List ℕ)
  unfolding read_copy_loop read_value
  read_copy s position bitsize = read_copy_loop (bitsize + 1) s (copy position) bitsize

  -- write_copy: `src` is the memory from the pointer on.
  unfoldable pub write_copy_loop : ℕ → S → List ℕ → BufferPos → ℕ → R S
  write_copy_loop zero s src position bits_left = stuck
  write_copy_loop (suc fuel) s [] position bits_left = if ltb 0 bits_left then fault else ok s
  write_copy_loop (suc fuel) s (byte ∷ src) position bits_left =
      let bits = round_bits bits_left in
      let round : R S = (do
        s' ← write_value s byte position bits
        write_copy_loop fuel s' src (add_assign position (pos bits)) (bits_left - bits)) in
      if ltb 0 bits_left then round else ok s

  unfoldable pub write_copy : S → List ℕ → BufferPos → ℕ → R S
  unfolding write_copy_loop write_value
  write_copy s src position bitsize = write_copy_loop (bitsize + 1) s src (copy position) bitsize
