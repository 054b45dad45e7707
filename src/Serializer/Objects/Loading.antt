-- ===== src/Serializer/Objects/Loading.antt =====
-- On a stream that is not a file, load_object gives back the object whose steps are ahead.
use libki.Common.{
  ℕ, zero, suc, ◌+◌, ◌*◌, ◌^◌, ◌≤◌, ◌<◌, ◌≡◌, ◌⊎◌, inl, inr, refl, ap, subst, arith, List, ◌∷◌,
  Bool, true, false, if◌then◌else◌,
}
use libki.Common.Result.{ok, ◌>>=◌}
use libki.Position.{BufferPos}
use libki.Position.Laws.{offset}
use libki.Stream.{BitStream, realign, read}
use libki.Pclass.Object.{
  PropertyInfo, Pointer, null, object, Properties, no_properties, property, Elements, values,
  objects, Pointers, no_pointers, next_pointer, pointer_count, get_element_count, kind_of,
  set_object,
}
use libki.Serializer.{BinarySerializer, Buffers, thrown}
use libki.Serializer.Save.{ignores}
use libki.Serializer.Load.{
  Loaded, instance_of_hash, preload_object, load_into, load_object, load_properties, load_property,
  load_count, load_elements, load_pointers,
}
use libki.Serializer.Steps.{Step, align, put, end_of-le}
use libki.Serializer.Steps.Reading.{
  IsView, Ahead, Got, stream, read-Got, Got-bind, Got-align, thrown-Got,
}
use libki.Serializer.Values.Loading.{Got-map, Got-same, here, later, values-Got}
use libki.Serializer.Objects.{
  count_steps, object_steps, properties_steps, elements_steps, pointers_steps, Stays, Travels,
  IsKnown, AreKnown, HaveKnown, PointKnown,
}
use libki.Serializer.Objects.Saving.{on_stream}
use native.Mathlib.Nat.{mod-eq_of_lt}

module _ {S : Type 0} (k : Buffers S) (s : S) (bits : ℕ → ℕ → ℕ) (len : ℕ)
    (view : IsView k s bits len) (y : BinarySerializer) where
  abbrev z : BinarySerializer
  z = on_stream y

  -- The header of an object leads to a new one.
  preload-Got :
      (hash : ℕ) (new : Pointer) (p : BufferPos) (rest : List Step)
      → hash < 2 ^ 32
      → instance_of_hash z.m_type_system hash ≡ ok new
      → Ahead k s bits len p (put hash 32 ∷ rest)
      → Got k s bits len
          (offset p + 32)
          new
          rest
          (preload_object k z.m_type_system (stream k s bits len p))
  unfolding preload_object
  preload-Got hash new p rest h e ahead =
      Got-bind k s bits len view _
        (thrown-Got k s bits len view
          (read-Got k s bits len view 32 hash 32 p rest (omega arith) h ahead))
        λ p' onward ahead'. record {
          place = p';
          returns = ap (λ r. r >>= λ d. ok (d, stream k s bits len p')) e;
          onward = onward;
          ahead = ahead';
        }

  -- The element count that is read, or that of a new object.
  count-Got :
      (dynamic : Bool) (m n : ℕ) (p : BufferPos) (rest : List Step)
      → (dynamic ≡ false → m ≡ n)
      → n < 2 ^ 32
      → Ahead k s bits len p (count_steps dynamic n rest)
      → Got k s bits len (offset p) n rest (
          if dynamic
          then (thrown (realign k.ops (stream k s bits len p)) >>= λ st.
              thrown (read k.ops 32 st 32))
          else ok (m, stream k s bits len p))
  count-Got true m n p rest same small h = Got-align k s bits len view true p _ h λ p' onward ahead.
      later k s bits len view (omega (arith, onward)) (
        thrown-Got k s bits len view (
          read-Got k s bits len view 32 n 32 p' rest (omega arith) small
            (subst (λ c. Ahead k s bits len p' (put c 32 ∷ rest)) (mod-eq_of_lt small) ahead)))
  count-Got false m n p rest same small h =
      Got-same k s bits len view (ap (λ c. ok (c, stream k s bits len p)) (same refl))
        (here k s bits len view n p rest h)

  module _ (nested : BitStream S → Loaded S Pointer) where
    -- The property's steps are loaded into the property of a new object.
    property-Got :
        (info : PropertyInfo) (es fs : Elements) (p : BufferPos) (rest : List Step)
        → Stays z info es fs ⊎ (Travels z info es fs × HaveKnown z es)
        → ((p' : BufferPos)
            → HaveKnown z es
            → offset p ≤ offset p'
            → Ahead k s bits len p' (elements_steps z es rest)
            → Got k s bits len (offset p) es rest (
                load_elements k z nested
                  (kind_of es)
                  (get_element_count es)
                  (stream k s bits len p')))
        → Ahead k s bits len p (
            if ignores z info
            then rest
            else count_steps info.is_dynamic (get_element_count es) (elements_steps z es rest))
        → Got k s bits len
            (offset p)
            es
            rest
            (load_property k z nested info fs (stream k s bits len p))
    unfolding load_property load_count
    property-Got info es fs p rest (inl (ignored, same)) next h =
        rw (ignored, same) (here k s bits len view es p rest (rw (ignored) at h))
    property-Got info es fs p rest (inr ((sent, kind, count, small), known)) next h = rw (sent) (
        Got-bind k s bits len view _
          (count-Got info.is_dynamic (get_element_count fs) (get_element_count es) p _ count small
            (rw (sent) at h))
          λ p' onward ahead. rw (kind) (next p' known onward ahead))

    -- A pointer's object, and then the others'.
    pointer-Got :
        (c : ℕ) (x : Pointer) (xs : Pointers) (n : ℕ) (p : BufferPos) (rest : List Step)
        → set_object c x ≡ ok x
        → Ahead k s bits len p (align ∷ object_steps z x (pointers_steps z xs rest))
        → ((p' : BufferPos)
            → offset p ≤ offset p'
            → Ahead k s bits len p' (object_steps z x (pointers_steps z xs rest))
            → Got k s bits len
                (offset p')
                x
                (pointers_steps z xs rest)
                (nested (stream k s bits len p')))
        → ((p' : BufferPos)
            → offset p ≤ offset p'
            → Ahead k s bits len p' (pointers_steps z xs rest)
            → Got k s bits len
                (offset p')
                xs
                rest
                (load_pointers k z nested c n (stream k s bits len p')))
        → Got k s bits len
            (offset p)
            (next_pointer x xs)
            rest
            (load_pointers k z nested c (suc n) (stream k s bits len p))
    unfolding load_pointers
    pointer-Got c x xs n p rest e h first others =
        Got-align k s bits len view true p (λ st. nested st >>= set) h
          λ p1 onward1 ahead1.
            Got-bind k s bits len view set (first p1 onward1 ahead1) λ p2 onward2 ahead2.
              Got-same k s bits len view (ap (λ m. m >>= tail (stream k s bits len p2)) e) (
                Got-map k s bits len view {q = offset p2} (λ ys. next_pointer x ys)
                  (omega (arith, onward1, onward2)) refl
                  (others p2 (omega (arith, onward1, onward2)) ahead2))
      where
        tail : BitStream S → Pointer → Loaded S Pointers
        tail st new = load_pointers k z nested c n st >>= λ r. ok (next_pointer new r.0, r.1)

        set : Pointer × BitStream S → Loaded S Pointers
        set r = set_object c r.0 >>= tail r.1

  -- Enough fuel for the objects that are ahead: each takes 32 bits.
  abbrev Enough : ℕ → BufferPos → Type 0
  Enough fuel p = len < offset p + 32 * fuel

  mutual
    unfolding load_object load_into load_properties load_elements load_pointers object_steps
        get_element_count

    pub object_steps-Got :
        (x : Pointer) (fuel : ℕ) (p : BufferPos) (rest : List Step)
        → IsKnown z x
        → Enough fuel p
        → Ahead k s bits len p (object_steps z x rest)
        → Got k s bits len (offset p) x rest (load_object k fuel z (stream k s bits len p))
    object_steps-Got x zero p rest i e h =
        absurd (omega (arith, e, h.inside, end_of-le (object_steps z x rest) (offset p)))
    object_steps-Got null (suc fuel) p rest i e h =
        Got-bind k s bits len view _ (preload-Got 0 null p rest (omega arith) refl h)
          λ p' onward ahead.
            later k s bits len view (omega (arith, onward))
              (here k s bits len view null p' rest ahead)
    object_steps-Got (object c ps) (suc fuel) p rest i e h =
        Got-bind k s bits len view _
          (preload-Got c.m_hash (object c i.2.0) p (properties_steps z ps rest) i.1 i.2.1 h)
          λ p' onward ahead.
            Got-map k s bits len view {q = offset p'} (λ qs. object c qs) (omega (arith, onward))
              refl
              (properties_steps-Got ps i.2.0 fuel p' rest i.2.2 (omega (arith, onward, e)) ahead)

    properties_steps-Got :
        (ps new : Properties) (fuel : ℕ) (p : BufferPos) (rest : List Step)
        → AreKnown z ps new
        → Enough fuel p
        → Ahead k s bits len p (properties_steps z ps rest)
        → Got k s bits len
            (offset p)
            ps
            rest
            (load_properties k z (load_object k fuel z) new (stream k s bits len p))
    properties_steps-Got no_properties no_properties fuel p rest i e h =
        here k s bits len view no_properties p rest h
    properties_steps-Got no_properties (property info' fs new) fuel p rest i e h = absurd i
    properties_steps-Got (property info es ps) no_properties fuel p rest i e h = absurd i
    properties_steps-Got (property info es ps) (property info' fs new) fuel p rest i e h =
        Got-same k s bits len view
          (ap
            (λ j.
              load_properties k z (load_object k fuel z) (property j fs new)
                (stream k s bits len p))
            i.0)
          (Got-bind k s bits len view _
            (property-Got (load_object k fuel z) info es fs p (properties_steps z ps rest) i.1
              (λ p' known onward ahead. later k s bits len view onward (
                elements_steps-Got es fuel p' (properties_steps z ps rest) known
                  (omega (arith, e, onward)) ahead))
              h)
            λ p' onward ahead.
              Got-map k s bits len view {q = offset p'} (λ qs. property info es qs)
                (omega (arith, onward)) refl
                (properties_steps-Got ps new fuel p' rest i.2 (omega (arith, e, onward)) ahead))

    elements_steps-Got :
        (es : Elements) (fuel : ℕ) (p : BufferPos) (rest : List Step)
        → HaveKnown z es
        → Enough fuel p
        → Ahead k s bits len p (elements_steps z es rest)
        → Got k s bits len (offset p) es rest (
            load_elements k z
              (load_object k fuel z)
              (kind_of es)
              (get_element_count es)
              (stream k s bits len p))
    elements_steps-Got (values t vs) fuel p rest i e h =
        Got-map k s bits len view {q = offset p} (λ xs. values t xs) (omega arith) refl
          (values-Got k s bits len view t vs p rest i h)
    elements_steps-Got (objects c xs) fuel p rest i e h =
        Got-map k s bits len view {q = offset p} (λ ys. objects c ys) (omega arith) refl
          (pointers_steps-Got c xs fuel p rest i e h)

    pointers_steps-Got :
        (c : ℕ) (xs : Pointers) (fuel : ℕ) (p : BufferPos) (rest : List Step)
        → PointKnown z c xs
        → Enough fuel p
        → Ahead k s bits len p (pointers_steps z xs rest)
        → Got k s bits len
            (offset p)
            xs
            rest
            (load_pointers k z (load_object k fuel z) c (pointer_count xs) (stream k s bits len p))
    pointers_steps-Got c no_pointers fuel p rest i e h = here k s bits len view no_pointers p rest h
    pointers_steps-Got c (next_pointer x xs) fuel p rest i e h =
        pointer-Got (load_object k fuel z) c x xs (pointer_count xs) p rest i.0 h
          (λ p' onward ahead.
            object_steps-Got x fuel p' (pointers_steps z xs rest) i.1 (omega (arith, e, onward))
              ahead)
          (λ p' onward ahead.
            pointers_steps-Got c xs fuel p' rest i.2 (omega (arith, e, onward)) ahead)
