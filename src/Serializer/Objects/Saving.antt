-- ===== src/Serializer/Objects/Saving.antt =====
-- On a stream that is not a file, save_object is the steps of the object.
use libki.Common.{
  ℕ, ◌%◌, ◌^◌, ◌≡◌, refl, ap, sym, ◌∙◌, List, ◌∷◌, Bool, true, false, ◌||◌, if◌then◌else◌,
}
use libki.Common.Result.{Result, ok, ◌>>=◌, bind_assoc}
use libki.Interface.{bit_buffer_ops}
use libki.Stream.{realign, write}
use libki.Stream.RoundTrip.{Stream}
use libki.Pclass.EnumType.{RuntimeError}
use libki.Pclass.Object.{
  Pointer, null, object, Properties, no_properties, property, Elements, values, objects, Pointers,
  no_pointers, next_pointer, get_element_count,
}
use libki.Serializer.{BinarySerializer, thrown}
use libki.Serializer.Save.{
  ignores, presave_object, save_prefix, save_object, save_properties, save_elements, save_pointers,
}
use libki.Serializer.Steps.{Step, run, align, put}
use libki.Serializer.Values.Saving.{
  Saves, Saves-bind, Saves-maybe_align, Saves-put, Saves-values_steps,
}
use libki.Serializer.Objects.{
  count_steps, object_steps, properties_steps, elements_steps, pointers_steps,
}

-- The serializer without the form of a file.
abbrev pub on_stream : BinarySerializer → BinarySerializer
on_stream z = record z { m_is_file = false }

Saves-same :
    (f g : Stream → Result RuntimeError Stream) (steps : List Step → List Step)
    → ((st : Stream) → f st ≡ g st)
    → Saves g steps
    → Saves f steps
Saves-same f g steps e h rest st = h rest st ∙ ap (λ r. r >>= λ s. run s rest) (sym (e st))

-- What does nothing more.
Saves-ok :
    (f : Stream → Result RuntimeError Stream) (steps : List Step → List Step)
    → Saves f steps
    → Saves (λ st. f st >>= λ s. ok s) steps
Saves-ok f steps h = Saves-bind f (λ s. ok s) steps (λ rest. rest) h (λ rest st. refl)

Saves-unless :
    (b : Bool) (f : Stream → Result RuntimeError Stream) (steps : List Step → List Step)
    → Saves f steps
    → Saves (λ st. if b then ok st else f st) (λ rest. if b then rest else steps rest)
Saves-unless true f steps h rest st = refl
Saves-unless false f steps h rest st = h rest st

abbrev header : Bool → ℕ → Stream → Result RuntimeError (Bool × Stream)
header more hash st = thrown (write bit_buffer_ops st hash 32) >>= λ s. ok (more, s)

-- The header of an object, and what comes behind it.
Saves-headed :
    (more : Bool) (hash : ℕ) (f : Stream → Result RuntimeError Stream)
    (steps : List Step → List Step)
    → Saves f steps
    → Saves (λ st. header more hash st >>= λ r. f r.1) (λ rest. put hash 32 ∷ steps rest)
Saves-headed more hash f steps h =
    Saves-same _ (λ st. thrown (write bit_buffer_ops st hash 32) >>= f) _
      (λ st. bind_assoc (thrown (write bit_buffer_ops st hash 32)) _ _)
      (Saves-bind (λ st. thrown (write bit_buffer_ops st hash 32)) f (λ rest. put hash 32 ∷ rest)
        steps (Saves-put hash 32) h)

-- The element count of a dynamic property, and what comes behind it.
Saves-counted :
    (dynamic : Bool) (n : ℕ) (f : Stream → Result RuntimeError Stream)
    (steps : List Step → List Step)
    → Saves f steps
    → Saves
        (λ st. (if dynamic || false then thrown (realign bit_buffer_ops st) else ok st) >>= λ s.
          (if dynamic then thrown (write bit_buffer_ops s (n % 2 ^ 32) 32) else ok s) >>= f)
        (λ rest. count_steps dynamic n (steps rest))
Saves-counted true n f steps h =
    Saves-bind (λ st. thrown (realign bit_buffer_ops st)) _ (λ rest. align ∷ rest) _
      (Saves-maybe_align true)
      (Saves-bind (λ s. thrown (write bit_buffer_ops s (n % 2 ^ 32) 32)) f
        (λ rest. put (n % 2 ^ 32) 32 ∷ rest) steps (Saves-put (n % 2 ^ 32) 32) h)
Saves-counted false n f steps h = h

module _ (y : BinarySerializer) where
  abbrev z : BinarySerializer
  z = on_stream y

  mutual
    unfolding save_object object_steps presave_object save_prefix get_element_count

    -- For a serializer that is not in the form of a file, a null pointer or any object, and any
    -- stream over a BitBuffer: save_object, followed by further steps, does, exceptions included,
    -- what the steps of the format do one by one, followed by the same: the hash of the type (0
    -- for null) in 32 bits, then each property that is not ignored, with an alignment and a count
    -- of 32 bits if it is dynamic, and its elements, aligned where the type is.
    pub Saves-object_steps :
        (x : Pointer) → Saves (λ st. save_object bit_buffer_ops z x st) (object_steps z x)
    Saves-object_steps null = Saves-headed false 0 (λ s. ok s) (λ rest. rest) (λ rest st. refl)
    Saves-object_steps (object c ps) =
        Saves-headed true c.m_hash (λ s. save_properties bit_buffer_ops z ps s >>= λ a. ok a)
          (properties_steps z ps) (Saves-ok _ _ (Saves-properties_steps ps))

    Saves-properties_steps :
        (ps : Properties)
        → Saves (λ st. save_properties bit_buffer_ops z ps st) (properties_steps z ps)
    Saves-properties_steps no_properties = λ rest st. refl
    Saves-properties_steps (property info es ps) =
        Saves-bind _ (λ s. save_properties bit_buffer_ops z ps s) _ (properties_steps z ps)
          (Saves-unless (ignores z info) _ _ (
            Saves-counted info.is_dynamic (get_element_count es) _ _
              (Saves-ok _ _ (Saves-elements_steps es))))
          (Saves-properties_steps ps)

    Saves-elements_steps :
        (es : Elements) → Saves (λ st. save_elements bit_buffer_ops z es st) (elements_steps z es)
    Saves-elements_steps (values t vs) = Saves-values_steps t vs
    Saves-elements_steps (objects c xs) = Saves-pointers_steps xs

    Saves-pointers_steps :
        (xs : Pointers) → Saves (λ st. save_pointers bit_buffer_ops z xs st) (pointers_steps z xs)
    Saves-pointers_steps no_pointers = λ rest st. refl
    Saves-pointers_steps (next_pointer x xs) =
        Saves-bind (λ st. thrown (realign bit_buffer_ops st)) _ (λ rest. align ∷ rest) _
          (Saves-maybe_align true)
          (Saves-bind (λ s. save_object bit_buffer_ops z x s) _ (object_steps z x) _
            (Saves-object_steps x) (Saves-pointers_steps xs))

-- For a serializer that is not in the form of a file, a null pointer or any object, and any
-- stream over a BitBuffer: save_object, followed by further steps, does, exceptions included,
-- what the steps of the format do one by one, followed by the same: the hash of the type (0 for
-- null) in 32 bits, then each property that is not ignored, with an alignment and a count of 32
-- bits if it is dynamic, and its elements, aligned where the type is.
pub run-object_steps :
    (y : BinarySerializer) (x : Pointer) (rest : List Step) (st : Stream)
    → run st (object_steps (on_stream y) x rest)
      ≡ (save_object bit_buffer_ops (on_stream y) x st >>= λ s. run s rest)
run-object_steps y x rest st = Saves-object_steps y x rest st
