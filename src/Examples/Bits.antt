-- ===== src/Examples/Bits.antt =====
-- util/BitStream at concrete inputs.
use libki.Common.{ℕ, ◌%◌, ◌<◌, ◌≡◌, ◌↔◌, ◌≤◌, inr, refl, arith, List, [], ◌∷◌}
use libki.Common.Int.{pos}
use libki.Common.Result.{ok, fault}
use libki.Position.{BufferPos, sub_int, as_bytes}
use libki.Position.Laws.{sub_int-bit-eight}
use libki.Buffer
use libki.Buffer.{R, cannot_read, segment_outside, segment_too_long}
use libki.Buffer.Spec.{bits_at, bit_at}
use libki.Common.Bits.{test_bit}
use libki.Buffer.Reads.{read_lem}
use libki.Buffer.Writes.{Stored, write_lem}
use libki.Interface.{bit_buffer_ops, read_value, write_value}
use libki.Interface.Typed.{read_value_lem, read_value-write_value}
use libki.Stream.{expand_buffer}
use libki.Stream.Expand.{Expanded, expand_buffer-Expanded, expand_buffer-fault}
use libki.Stream.RoundTrip.{Stream, Item, total, at, write_all, read_all, read_all-write_all}
use libki.Segment.{BitBufferSegment, segment_ops}
use libki.Segment.Laws.{read_value_unaligned}

abbrev four_bytes : List ℕ
four_bytes = 0x5a ∷ 0xc3 ∷ 0x0f ∷ 0x81 ∷ []

abbrev sixth_bit : BufferPos
sixth_bit = record { byte = 0; bit = 6 }

abbrev third_byte : BufferPos
third_byte = record { byte = 2; bit = 0 }

abbrev second_byte : BufferPos
second_byte = record { byte = 1; bit = 0 }

abbrev two_items : List Item
two_items = record { value = 300; width = 9 } ∷ record { value = 70000; width = 12 } ∷ []

abbrev fresh_stream : Stream
fresh_stream = record { m_buffer = 0 ∷ 0 ∷ []; m_position = record { byte = 0; bit = 3 } }

read_all-write_all_example :
    (written : Stream) × (end : Stream) × (write_all fresh_stream two_items ≡ ok written)
    × (read_all (record written { m_position = record { byte = 0; bit = 3 } }) two_items
        ≡ ok (300 ∷ 368 ∷ [], end))
    × (at end ≡ at written)
    × (end.m_buffer ≡ written.m_buffer)
unfolding total
read_all-write_all_example =
    read_all-write_all two_items fresh_stream
      (record { normal = omega arith; two_bytes = omega arith }) (omega arith, (omega arith, tt))
      (omega arith) (omega arith)

read_value-write_value_example :
    (after : List ℕ) × (write_value bit_buffer_ops four_bytes 0x1234 sixth_bit 10 ≡ ok after)
    × (read_value bit_buffer_ops 16 after sixth_bit 10 ≡ ok 0x234)
    × (read_value bit_buffer_ops 16 after third_byte 12
        ≡ read_value bit_buffer_ops 16 four_bytes third_byte 12)
read_value-write_value_example =
    read_value-write_value 16 four_bytes 0x1234 sixth_bit third_byte 10 12
      (record { normal = omega arith; word = omega arith; small = omega arith })
      (record { normal = omega arith; word = omega arith; small = omega arith }) (omega arith)
      (omega arith) (inr (omega arith))

read_value_lem_example : read_value bit_buffer_ops 16 four_bytes sixth_bit 10 ≡ ok 0x30d
unfolding bits_at bit_at test_bit
read_value_lem_example =
    read_value_lem 16 four_bytes sixth_bit 10
      (record { normal = omega arith; word = omega arith; small = omega arith })

read_lem_example : Buffer.read four_bytes sixth_bit 10 ≡ ok 0x30d
unfolding bits_at bit_at test_bit
read_lem_example =
    read_lem four_bytes sixth_bit 10 (omega arith) (omega arith) (omega arith) (omega arith)

write_lem_example : Stored four_bytes 6 0 10 0x234 (Buffer.write four_bytes 0x234 sixth_bit 10)
write_lem_example =
    write_lem four_bytes 0x234 sixth_bit 10 (omega arith) (omega arith) (omega arith) (omega arith)

expand_buffer-Expanded_example :
    Expanded four_bytes 5 (expand_buffer bit_buffer_ops four_bytes (record { byte = 4; bit = 1 }))
unfolding as_bytes
expand_buffer-Expanded_example =
    expand_buffer-Expanded four_bytes (record { byte = 4; bit = 1 }) (omega arith) (omega arith)
      (omega arith)

expand_buffer-fault_example :
    (expand_buffer bit_buffer_ops four_bytes sixth_bit ≡ fault)
    ↔ ((sixth_bit.byte ≡ 0) × (4 ≤ as_bytes sixth_bit))
expand_buffer-fault_example = expand_buffer-fault four_bytes sixth_bit (omega arith) (omega arith)

abbrev unaligned_segment : BitBufferSegment (List ℕ)
unaligned_segment = record { m_buffer = four_bytes; m_from = sixth_bit; m_bitsize = 26 }

read_value_unaligned_example :
    read_value (segment_ops bit_buffer_ops) 8 unaligned_segment (record { byte = 3; bit = 0 }) 8
    ≡ fault
read_value_unaligned_example =
    read_value_unaligned 8 unaligned_segment (record { byte = 3; bit = 0 })
      (record { from_normal = omega arith; ends = omega arith; small = omega arith }) (omega arith)
      refl (record { normal = omega arith; word = omega arith; small = omega arith }) refl

sub_int-bit-eight_example : ((sub_int second_byte (pos 8)).bit ≡ 8) ↔ ((0 < 8) × (8 % 8 ≡ 0))
sub_int-bit-eight_example = sub_int-bit-eight second_byte 8 (omega arith)
