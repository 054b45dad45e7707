-- ===== src/Serializer/RoundTrip/Saved.antt =====
-- On a stream that is not a file, and without compression, save is the steps of its format.
use libki.Common.{
  ℕ, ◌+◌, ◌*◌, ◌≤◌, ◌<◌, ◌≡◌, refl, ap, sym, ◌∙◌, arith, List, [], ◌∷◌, Bool, true, false,
  if◌then◌else◌, length,
}
use libki.Common.Result.{Result, ok, throw, fault, stuck, ◌>>=◌, bind_assoc}
use libki.Position.Laws.{max_bits}
use libki.Interface.{bit_buffer_ops}
use libki.Stream.{write}
use libki.Stream.RoundTrip.{Stream, IsReady, at}
use libki.Pclass.EnumType.{RuntimeError}
use libki.Pclass.Object.{Pointer, null, object}
use libki.Serializer.{BinarySerializer, write_serializer_flags, compressed, flag_is_set, thrown}
use libki.Serializer.Save.{save, save_object}
use libki.Serializer.Steps.{Step, put, run, end_of, AreWords, end_of-le}
use libki.Serializer.Steps.Writing.{HasRun, run_lem}
use libki.Serializer.Values.Saving.{Saves, Saves-bind, Saves-put}
use libki.Serializer.Objects.{object_steps, properties_steps, IsKnown, object_steps-AreWords}
use libki.Serializer.Objects.Saving.{on_stream, Saves-object_steps}

-- The serializer's flags, where they are written.
abbrev pub flags_steps : Bool → ℕ → List Step → List Step
flags_steps true flags rest = put flags 32 ∷ rest
flags_steps false flags rest = rest

abbrev pub flagged : BinarySerializer → Bool
flagged z = flag_is_set z.m_flags write_serializer_flags

-- All of what save writes.
abbrev pub save_steps : BinarySerializer → Pointer → List Step
save_steps z root = flags_steps (flagged z) z.m_flags (object_steps z root [])

Saves-flags_steps :
    (b : Bool) (flags : ℕ)
    → Saves
        (λ st. if b then thrown (write bit_buffer_ops st flags 32) else ok st)
        (flags_steps b flags)
Saves-flags_steps true flags rest st = Saves-put flags 32 rest st
Saves-flags_steps false flags rest st = refl

pub flags_steps-AreWords :
    (b : Bool) (flags : ℕ) (rest : List Step) → AreWords rest → AreWords (flags_steps b flags rest)
flags_steps-AreWords true flags rest w = (omega arith, w)
flags_steps-AreWords false flags rest w = w

bind_ok : {A : Type 0} (r : Result RuntimeError A) → (r >>= λ a. ok a) ≡ r
bind_ok (ok a) = refl
bind_ok (throw e) = refl
bind_ok fault = refl
bind_ok stuck = refl

module _ (deflate : List ℕ → List ℕ) (y : BinarySerializer) (root : Pointer) where
  abbrev saver : BinarySerializer
  saver = on_stream y

  -- The code of save, where nothing is compressed, is the steps.
  pub save-run :
      (st after : Stream)
      → flag_is_set saver.m_flags compressed ≡ false
      → run st (save_steps saver root) ≡ ok after
      → save bit_buffer_ops deflate saver root st
        ≡ ok (record saver { m_root_object = root }, after)
  unfolding save run
  save-run st after plain done = rw (plain) (
      sym (bind_assoc (begin st) (λ s. save_object bit_buffer_ops saver root s) _)
      ∙ ap (λ r. r >>= λ s. ok (record saver { m_root_object = root }, s)) wrote)
    where
      begin : Stream → Result RuntimeError Stream
      begin s = if flagged saver then thrown (write bit_buffer_ops s saver.m_flags 32) else ok s

      wrote : (begin st >>= λ s. save_object bit_buffer_ops saver root s) ≡ ok after
      wrote =
          sym (bind_ok (begin st >>= λ s. save_object bit_buffer_ops saver root s))
          ∙ sym (
              Saves-bind begin (λ s. save_object bit_buffer_ops saver root s)
                (flags_steps (flagged saver) saver.m_flags) (object_steps saver root)
                (Saves-flags_steps (flagged saver) saver.m_flags) (Saves-object_steps y root) [] st)
          ∙ done

  -- It returns, and its values lie in the buffer.
  pub save-HasRun :
      (st : Stream)
      → IsKnown saver root
      → IsReady st
      → at st ≤ 8 * length st.m_buffer
      → end_of (at st) (save_steps saver root) + 8 < max_bits
      → HasRun st (save_steps saver root) (run st (save_steps saver root))
  save-HasRun st known r inside small =
      run_lem (save_steps saver root) st r
        (flags_steps-AreWords (flagged saver) saver.m_flags _
          (object_steps-AreWords saver root [] known tt))
        inside small

-- An object takes 32 bits at least.
end_of-object_steps :
    (z : BinarySerializer) (x : Pointer) (rest : List Step) (q : ℕ)
    → q + 32 ≤ end_of q (object_steps z x rest)
unfolding object_steps end_of
end_of-object_steps z null rest q = end_of-le rest (q + 32)
end_of-object_steps z (object c ps) rest q = end_of-le (properties_steps z ps rest) (q + 32)

pub end_of-flags_steps :
    (b : Bool) (flags : ℕ) (z : BinarySerializer) (x : Pointer) (q : ℕ)
    → q + 32 ≤ end_of q (flags_steps b flags (object_steps z x []))
unfolding end_of
end_of-flags_steps true flags z x q = omega (arith, end_of-object_steps z x [] (q + 32))
end_of-flags_steps false flags z x q = end_of-object_steps z x [] q
