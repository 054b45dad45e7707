-- ===== src/Serializer/Values/Loading.antt =====
-- What the steps of values have left is loaded as the values.
use libki.Common.{
  ℕ, ◌^◌, ◌≤◌, ◌<◌, ◌≡◌, refl, ap, subst, ◌∙◌, arith, List, [], ◌∷◌, Bool, true, false, not, ◌&&◌,
  ◌==◌, length,
}
use libki.Common.Result.{Result, ok, ◌>>=◌}
use libki.Position.{BufferPos}
use libki.Position.Laws.{offset}
use libki.Stream.{BitStream}
use libki.Pclass.Primitive
use libki.Pclass.Primitive.{
  integer, floating, bit_integer, boolean, string, bit_of, read_chars, read_string,
  helper_read_from,
}
use libki.Pclass.EnumType
use libki.Pclass.EnumType.{has_element_valued}
use libki.Pclass.Enum.{Enum, enum_of, set_value}
use libki.Pclass.Enum.Transfer
use libki.Pclass.Object.{ValueType, primitive, enum, Stored, is_byte_aligned}
use libki.Serializer.{Buffers}
use libki.Serializer.Load.{read_value, load_values}
use libki.Serializer.Steps.{Step, put}
use libki.Serializer.Steps.Reading.{
  IsView, Ahead, Got, stream, read-Got, Got-bind, Got-align, thrown-Got,
}
use libki.Serializer.Values.{char_steps, value_steps, values_steps, AreChars, IsValue, AreValues}
use native.Mathlib.Nat.{mod-eq_of_lt}

bit_of-lt : (v : Bool) → bit_of v < 2 ^ 1
bit_of-lt true = omega arith
bit_of-lt false = omega arith

bit_of-not : (v : Bool) → not (bit_of v == 0) ≡ v
bit_of-not true = refl
bit_of-not false = refl

module _ {S : Type 0} (k : Buffers S) (s : S) (bits : ℕ → ℕ → ℕ) (len : ℕ)
    (view : IsView k s bits len) where
  -- What was read is given on, changed, with the stream.
  pub Got-map :
      {E A B : Type 0} {q q' : ℕ} {a : A} {c : B} {steps : List Step}
      {r : Result E (A × BitStream S)} (f : A → B)
      → q' ≤ q
      → f a ≡ c
      → Got k s bits len q a steps r
      → Got k s bits len q' c steps (r >>= λ x. ok (f x.0, x.1))
  Got-map f h e g =
      Got-bind k s bits len view (λ x. ok (f x.0, x.1)) g
        λ p onward ahead. record {
          place = p;
          returns = ap (λ c. ok (c, stream k s bits len p)) e;
          onward = omega (arith, h, onward);
          ahead = ahead;
        }

  -- An equal result.
  pub Got-same :
      {E A : Type 0} {q : ℕ} {a : A} {steps : List Step} {r r' : Result E (A × BitStream S)}
      → r' ≡ r
      → Got k s bits len q a steps r
      → Got k s bits len q a steps r'
  Got-same e g = record {
    place = g.place;
    returns = e ∙ g.returns;
    onward = g.onward;
    ahead = g.ahead;
  }

  abbrev done : (E : Type 0) {A : Type 0} → A → BufferPos → Result E (A × BitStream S)
  done E a p = ok (a, stream k s bits len p)

  pub later :
      {E A : Type 0} {q q' : ℕ} {a : A} {steps : List Step} {r : Result E (A × BitStream S)}
      → q' ≤ q
      → Got k s bits len q a steps r
      → Got k s bits len q' a steps r
  later h g = record {
    place = g.place;
    returns = g.returns;
    onward = omega (arith, h, g.onward);
    ahead = g.ahead;
  }

  pub here :
      {E A : Type 0} (a : A) (p : BufferPos) (steps : List Step)
      → Ahead k s bits len p steps
      → Got k s bits len (offset p) a steps (done E a p)
  here a p steps h = record { place = p; returns = refl; onward = omega arith; ahead = h }

  chars-Got :
      (n : ℕ) (cs : List ℕ) (p : BufferPos) (rest : List Step)
      → AreChars n cs
      → Ahead k s bits len p (char_steps n cs rest)
      → Got k s bits len (offset p) cs rest (read_chars k.ops n (length cs) (stream k s bits len p))
  unfolding read_chars
  chars-Got n [] p rest v h = here [] p rest h
  chars-Got n (c ∷ cs) p rest v h =
      Got-bind k s bits len view _
        (read-Got k s bits len view n c n p (char_steps n cs rest) (omega arith) v.0 h)
        λ p' onward ahead.
          Got-map (λ xs. c ∷ xs) (omega (arith, onward)) refl (chars-Got n cs p' rest v.1 ahead)

  -- The length that was written is that of the text.
  string-Got :
      (n : ℕ) (cs : List ℕ) (p : BufferPos) (rest : List Step)
      → IsValue (primitive (string n)) cs
      → Ahead k s bits len p (value_steps (primitive (string n)) cs rest)
      → Got k s bits len (offset p) cs rest (read_string k.ops n (stream k s bits len p) false)
  unfolding read_string
  string-Got n cs p rest v h =
      Got-bind k s bits len view _
        (read-Got k s bits len view 16 (length cs) 16 p (char_steps n cs rest) (omega arith) v.1 (
          subst (λ m. Ahead k s bits len p (put m 16 ∷ char_steps n cs rest)) (mod-eq_of_lt v.1) h))
        λ p' onward ahead. later (omega (arith, onward)) (chars-Got n cs p' rest v.2 ahead)

  enum-Got :
      (t : EnumType.EnumType) (v : ℕ) (p : BufferPos) (rest : List Step)
      → (not (v == 0) && not (has_element_valued v t)) ≡ false
      → Ahead k s bits len p rest
      → Got k s bits len
          (offset p)
          (record { m_type = t; m_value = v })
          rest
          (set_value v (record { m_type = t; m_value = 0 }) >>= λ e. ok (e, stream k s bits len p))
  unfolding set_value
  enum-Got t v p rest i h = record {
    place = p;
    returns = rw (i) refl;
    onward = omega arith;
    ahead = h;
  }

  value-Got :
      (t : ValueType) (v : Stored t) (p : BufferPos) (rest : List Step)
      → IsValue t v
      → Ahead k s bits len p (value_steps t v rest)
      → Got k s bits len (offset p) v rest (read_value k t false (stream k s bits len p))
  unfolding read_value Primitive.read_from helper_read_from Transfer.read_from enum_of set_value
  value-Got (primitive (integer n)) v p rest i h =
      later (omega arith)
        (thrown-Got k s bits len view (read-Got k s bits len view n v n p rest (omega arith) i.1 h))
  value-Got (primitive (floating n)) v p rest i h =
      later (omega arith)
        (thrown-Got k s bits len view (read-Got k s bits len view n v n p rest (omega arith) i.1 h))
  value-Got (primitive (bit_integer n)) v p rest i h =
      later (omega arith)
        (thrown-Got k s bits len view (read-Got k s bits len view n v n p rest (omega arith) i.1 h))
  value-Got (primitive boolean) v p rest i h = thrown-Got k s bits len view (
      Got-map (λ x. not (x == 0)) (omega arith) (bit_of-not v)
        (read-Got k s bits len view 1 (bit_of v) 1 p rest (omega arith) (bit_of-lt v) h))
  value-Got (primitive (string n)) v p rest i h =
      thrown-Got k s bits len view (string-Got n v p rest i h)
  value-Got (enum t) v p rest i h =
      Got-map {q = offset p} (λ (e : Enum). e.m_value) (omega arith) refl
        (Got-bind k s bits len view _
          (thrown-Got k s bits len view
            (read-Got k s bits len view 32 v 32 p rest (omega arith) i.0 h))
          λ p' onward ahead. later (omega (arith, onward)) (enum-Got t v p' rest i.1 ahead))

  pub values-Got :
      (t : ValueType) (vs : List (Stored t)) (p : BufferPos) (rest : List Step)
      → AreValues t vs
      → Ahead k s bits len p (values_steps t vs rest)
      → Got k s bits len
          (offset p)
          vs
          rest
          (load_values k t false (length vs) (stream k s bits len p))
  unfolding values_steps load_values
  values-Got t [] p rest i h = here [] p rest h
  values-Got t (v ∷ vs) p rest i h =
      Got-align k s bits len view (is_byte_aligned t) p _ h λ p1 onward1 ahead1.
        Got-bind k s bits len view _ (value-Got t v p1 _ i.0 ahead1) λ p2 onward2 ahead2.
          Got-map (λ xs. v ∷ xs) (omega (arith, onward1, onward2)) refl
            (values-Got t vs p2 rest i.1 ahead2)
