-- ===== src/Serializer/Steps/Window.antt =====
-- A segment of whole bytes as a view of its bits, and steps seen from its start.
use libki.Common.{ℕ, ◌+◌, ◌%◌, ◌≡◌, refl, ap, subst, ◌∙◌, arith, List, [], ◌∷◌}
use libki.Position.Laws.{offset}
use libki.Buffer.Spec.{bits_at}
use libki.Segment.{BitBufferSegment}
use libki.Segment.Laws.{IsInside, read_value_aligned}
use libki.Serializer.AnyBuffer.{any_buffers, part, read_value-part}
use libki.Serializer.Steps.{Step, align, put, end_of, aligned, Lie}
use libki.Serializer.Steps.Reading.{IsView}

-- The bits of a buffer from bit `q` on.
abbrev pub bits_from : List ℕ → ℕ → ℕ → ℕ → ℕ
bits_from buf q r n = bits_at buf (q + r) n

pub end_of-add :
    (steps : List Step) (q r : ℕ) → q % 8 ≡ 0 → end_of (q + r) steps ≡ q + end_of r steps
unfolding end_of
end_of-add [] q r h = refl
end_of-add (align ∷ steps) q r h = ap (λ t. end_of t steps) moved ∙ end_of-add steps q (aligned r) h
  where
    moved : aligned (q + r) ≡ q + aligned r
    moved = omega (arith, h)
end_of-add (put v n ∷ steps) q r h = ap (λ t. end_of t steps) moved ∙ end_of-add steps q (r + n) h
  where
    moved : q + r + n ≡ q + (r + n)
    moved = omega arith

pub Lie-bits_from :
    (steps : List Step) (buf : List ℕ) (q r : ℕ)
    → q % 8 ≡ 0
    → Lie (bits_at buf) (q + r) steps
    → Lie (bits_from buf q) r steps
Lie-bits_from [] buf q r h lie = tt
Lie-bits_from (align ∷ steps) buf q r h lie =
    Lie-bits_from steps buf q (aligned r) h (subst (λ t. Lie (bits_at buf) t steps) moved lie)
  where
    moved : aligned (q + r) ≡ q + aligned r
    moved = omega (arith, h)
Lie-bits_from (put v n ∷ steps) buf q r h lie = (
  lie.0,
  Lie-bits_from steps buf q (r + n) h (subst (λ t. Lie (bits_at buf) t steps) moved lie.1),
)
  where
    moved : q + r + n ≡ q + (r + n)
    moved = omega arith

pub segment-IsView :
    (g : BitBufferSegment (List ℕ))
    → IsInside g
    → g.m_from.bit ≡ 0
    → IsView any_buffers (part g) (bits_from g.m_buffer (offset g.m_from)) g.m_bitsize
segment-IsView g inside byte = record {
  reads = λ width p n scope fits.
      read_value-part width g p n
      ∙ ground (arith, read_value_aligned width g p n inside byte scope);
  small = omega (arith, inside.small);
}
