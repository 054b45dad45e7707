-- ===== src/Serializer/Steps/Writing.antt =====
-- Steps that are run on a BitBuffer leave their values in it.
use libki.Common.{ℕ, ◌+◌, ◌*◌, ◌≤◌, ◌<◌, ◌≡◌, refl, ap, subst, ◌∙◌, arith, List, [], ◌∷◌, length}
use libki.Common.Result.{Result, ok}
use libki.Position.Laws.{max_bits}
use libki.Buffer.Spec.{bit_at, bits_at, bits_at-eq-mod}
use libki.Interface.{bit_buffer_ops}
use libki.Stream.RoundTrip.{Stream, IsReady, at, write-Wrote}
use libki.Pclass.EnumType.{RuntimeError}
use libki.Serializer.Steps.{
  Step, align, put, run, end_of, aligned, AreWords, Lie, end_of-le, byte_position,
  byte_position_lem, realign_lem,
}

pub record HasRun (st : Stream) (steps : List Step) (result : Result RuntimeError Stream)
    : Type 0 where
  pub after : Stream
  pub returns : result ≡ ok after
  pub ready : IsReady after
  pub moved : at after ≡ end_of (at st) steps
  pub room : at after ≤ 8 * length after.m_buffer
  pub before : (i : ℕ) → i < at st → bit_at after.m_buffer i ≡ bit_at st.m_buffer i
  pub lie : Lie (bits_at after.m_buffer) (at st) steps

pub run_lem :
    (steps : List Step) (st : Stream)
    → IsReady st
    → AreWords steps
    → at st ≤ 8 * length st.m_buffer
    → end_of (at st) steps + 8 < max_bits
    → HasRun st steps (run st steps)
unfolding run end_of
run_lem [] st r w inside small = record {
  after = st;
  returns = refl;
  ready = r;
  moved = refl;
  room = inside;
  before = λ i h. refl;
  lie = tt;
}
run_lem (align ∷ steps) st r w inside small =
    let start : Stream = record st { m_position = byte_position st.m_position } in
    let there =
      byte_position_lem st.m_position r.normal (omega (arith, end_of-le steps (aligned (at st)))) in
    let rest =
      run_lem steps start (record { normal = there.0; two_bytes = r.two_bytes }) w
        (omega (arith, there.1)) (rw (there.1) small) in
    record {
      after = rest.after;
      returns = rw (realign_lem bit_buffer_ops st r.normal) rest.returns;
      ready = rest.ready;
      moved = rest.moved ∙ ap (λ q. end_of q steps) there.1;
      room = rest.room;
      before = λ i h. rest.before i (omega (arith, there.1));
      lie = subst (λ q. Lie (bits_at rest.after.m_buffer) q steps) there.1 rest.lie;
    }
run_lem (put v n ∷ steps) st r w inside small =
    let first = write-Wrote st v n r w.0 (omega (arith, end_of-le steps (at st + n))) in
    let rest =
      run_lem steps first.after first.ready w.1 (omega (arith, first.moved, first.room))
        (rw (first.moved) small) in
    record {
      after = rest.after;
      returns = rw (first.returns) rest.returns;
      ready = rest.ready;
      moved = rest.moved ∙ ap (λ q. end_of q steps) first.moved;
      room = rest.room;
      before = λ i h. ground (arith, rest.before i, first.moved, first.bits i);
      lie = (
        bits_at-eq-mod rest.after.m_buffer (at st) n v
            (λ i h. ground (arith, rest.before (at st + i), first.moved, first.bits (at st + i))),
        subst (λ q. Lie (bits_at rest.after.m_buffer) q steps) first.moved rest.lie,
      );
    }
