-- ===== src/Serializer/Values/Saving.antt =====
-- The values of a property are saved as the steps of the format.
use libki.Common.{
  ℕ, ◌%◌, ◌^◌, length, ◌≡◌, refl, ap, sym, ◌∙◌, List, [], ◌∷◌, Bool, true, false, if◌then◌else◌,
}
use libki.Common.Result.{Result, ok, ◌>>=◌, bind_ext, bind_assoc, rethrow-bind}
use libki.Buffer.{R}
use libki.Interface.{bit_buffer_ops}
use libki.Stream.{realign, write}
use libki.Stream.RoundTrip.{Stream}
use libki.Pclass.EnumType.{RuntimeError, runtime_error}
use libki.Pclass.Primitive
use libki.Pclass.Primitive.{
  integer, floating, bit_integer, boolean, string, bit_of, write_chars, write_string,
  helper_write_to,
}
use libki.Pclass.Enum.Transfer
use libki.Pclass.Object.{ValueType, primitive, enum, Stored, is_byte_aligned}
use libki.Serializer.{thrown}
use libki.Serializer.Save.{write_value, save_values}
use libki.Serializer.Steps.{Step, put, run, maybe_align}
use libki.Serializer.Values.{char_steps, value_steps, values_steps}

-- What the code does to a stream are the steps, whatever follows.
abbrev pub Saves : (Stream → Result RuntimeError Stream) → (List Step → List Step) → Type 0
Saves f steps = (rest : List Step) (st : Stream) → run st (steps rest) ≡ (f st >>= λ s. run s rest)

-- One thing after another.
pub Saves-bind :
    (f g : Stream → Result RuntimeError Stream) (a b : List Step → List Step)
    → Saves f a
    → Saves g b
    → Saves (λ st. f st >>= g) (λ rest. a (b rest))
Saves-bind f g a b h k rest st =
    h (b rest) st
    ∙ bind_ext (f st) _ _ (λ s. k rest s)
    ∙ sym (bind_assoc (f st) g (λ s. run s rest))

pub Saves-maybe_align :
    (al : Bool)
    → Saves (λ st. if al then thrown (realign bit_buffer_ops st) else ok st) (maybe_align al)
unfolding run
Saves-maybe_align true rest st = refl
Saves-maybe_align false rest st = refl

pub Saves-put :
    (v n : ℕ) → Saves (λ st. thrown (write bit_buffer_ops st v n)) (λ rest. put v n ∷ rest)
unfolding run
Saves-put v n rest st = refl

-- The exceptions of two writes may be turned into others one by one.
Saves-thrown :
    (f g : Stream → R Stream) (steps : List Step → List Step)
    → Saves (λ st. thrown (f st) >>= λ s. thrown (g s)) steps
    → Saves (λ st. thrown (f st >>= g)) steps
Saves-thrown f g steps h rest st =
    h rest st ∙ ap (λ r. r >>= λ s. run s rest) (sym (rethrow-bind (λ e. runtime_error) (f st) g))

Saves-char_steps :
    (n : ℕ) (cs : List ℕ)
    → Saves (λ st. thrown (write_chars bit_buffer_ops n cs st)) (char_steps n cs)
unfolding write_chars
Saves-char_steps n [] rest st = refl
Saves-char_steps n (c ∷ cs) rest st =
    Saves-thrown (λ s. write bit_buffer_ops s c n) (λ s. write_chars bit_buffer_ops n cs s) _
      (Saves-bind (λ s. thrown (write bit_buffer_ops s c n)) _ (λ x. put c n ∷ x) _ (Saves-put c n)
        (Saves-char_steps n cs))
      rest st

Saves-value_steps :
    (t : ValueType) (v : Stored t)
    → Saves (λ st. write_value bit_buffer_ops t false v st) (value_steps t v)
unfolding write_value Primitive.write_to helper_write_to write_string Transfer.write_to
Saves-value_steps (primitive (integer n)) v rest st = Saves-put v n rest st
Saves-value_steps (primitive (floating n)) v rest st = Saves-put v n rest st
Saves-value_steps (primitive (bit_integer n)) v rest st = Saves-put v n rest st
Saves-value_steps (primitive boolean) v rest st = Saves-put (bit_of v) 1 rest st
Saves-value_steps (primitive (string n)) v rest st =
    let size = length v % 2 ^ 16 in
    Saves-thrown (λ s. write bit_buffer_ops s size 16) (λ s. write_chars bit_buffer_ops n v s) _
      (Saves-bind (λ s. thrown (write bit_buffer_ops s size 16)) _ (λ x. put size 16 ∷ x) _
        (Saves-put size 16) (Saves-char_steps n v))
      rest st
Saves-value_steps (enum t) v rest st = Saves-put v 32 rest st

pub Saves-values_steps :
    (t : ValueType) (vs : List (Stored t))
    → Saves (λ st. save_values bit_buffer_ops t false vs st) (values_steps t vs)
unfolding values_steps save_values
Saves-values_steps t [] rest st = refl
Saves-values_steps t (v ∷ vs) rest st =
    Saves-bind (λ s. if is_byte_aligned t then thrown (realign bit_buffer_ops s) else ok s) _
      (maybe_align (is_byte_aligned t)) _ (Saves-maybe_align (is_byte_aligned t))
      (Saves-bind (λ s. write_value bit_buffer_ops t false v s) _ (value_steps t v) _
        (Saves-value_steps t v) (Saves-values_steps t vs))
      rest st
