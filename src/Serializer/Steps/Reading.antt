-- ===== src/Serializer/Steps/Reading.antt =====
-- Reading what steps have left, from any buffer of which the typed reads are known.
use libki.Common.{
  ℕ, ◌+◌, ◌%◌, ◌^◌, ◌≤◌, ◌<◌, ◌≡◌, refl, ap, subst, sym, ◌∙◌, arith, Bool, true, false,
  if◌then◌else◌, List, ◌∷◌,
}
use libki.Common.Int.{pos}
use libki.Common.Result.{Result, ok, ◌>>=◌}
use libki.Buffer.{R}
use libki.Position.{BufferPos, add_assign}
use libki.Position.Laws.{offset, IsNormal, max_bits, add_assign_lem}
use libki.Interface
use libki.Interface.Typed.{InScope, mod-pow_wider}
use libki.Stream.{BitStream, read, realign}
use libki.Pclass.EnumType.{RuntimeError}
use libki.Serializer.{Buffers, thrown}
use libki.Serializer.Steps.{
  Step, align, put, maybe_align, end_of, aligned, AreWords, Lie, end_of-le, byte_position,
  realign_lem, byte_position_lem,
}
use native.Mathlib.Nat.{mod-eq_of_lt}

module _ {S : Type 0} (k : Buffers S) (s : S) (bits : ℕ → ℕ → ℕ) (len : ℕ) where
  -- The first `len` bits of the buffer are those that `bits` gives.
  pub record IsView : Type 0 where
    pub reads :
        (width : ℕ) (p : BufferPos) (n : ℕ)
        → InScope p n
        → offset p + n ≤ len
        → Interface.read_value k.ops width s p n ≡ ok (bits (offset p) n % 2 ^ width)
    pub small : len + 16 < max_bits

  -- From the position on lie the values of the steps.
  pub record Ahead (p : BufferPos) (steps : List Step) : Type 0 where
    pub normal : IsNormal p
    pub words : AreWords steps
    pub lie : Lie bits (offset p) steps
    pub inside : end_of (offset p) steps ≤ len

  abbrev pub stream : BufferPos → BitStream S
  stream p = record { m_buffer = s; m_position = p }

  -- `a` was read, at least up to bit `q`, and the values of the steps lie ahead.
  pub record Got {E A : Type 0} (q : ℕ) (a : A) (steps : List Step)
      (result : Result E (A × BitStream S)) : Type 0 where
    pub place : BufferPos
    pub returns : result ≡ ok (a, stream place)
    pub onward : q ≤ offset place
    pub ahead : Ahead place steps

-- Reads of a view.
module _ {S : Type 0} (k : Buffers S) (s : S) (bits : ℕ → ℕ → ℕ) (len : ℕ)
    (view : IsView k s bits len) where
  -- realign passes over an alignment.
  pub Ahead-align :
      (p : BufferPos) (steps : List Step)
      → Ahead k s bits len p (align ∷ steps)
      → Ahead k s bits len (byte_position p) steps × (offset p ≤ offset (byte_position p))
  unfolding end_of
  Ahead-align p steps h =
      let below : offset p + 8 < max_bits =
        omega (arith, h.inside, end_of-le steps (aligned (offset p)), view.small) in
      let there = byte_position_lem p h.normal below in
      (
        record {
          normal = there.0;
          words = h.words;
          lie = subst (λ q. Lie bits q steps) (sym there.1) h.lie;
          inside = subst (λ q. end_of q steps ≤ len) (sym there.1) h.inside;
        },
        omega (arith, there.1),
      )

  -- A read of as many bits as a value has gives the value.
  pub read-Got :
      (width v n : ℕ) (p : BufferPos) (steps : List Step)
      → n ≤ width
      → v < 2 ^ n
      → Ahead k s bits len p (put v n ∷ steps)
      → Got k s bits len (offset p + n) v steps (read k.ops width (stream k s bits len p) n)
  unfolding end_of read
  read-Got width v n p steps wide fits h =
      let below : offset p + n ≤ len = omega (arith, h.inside, end_of-le steps (offset p + n)) in
      let scope : InScope p n = record {
        normal = h.normal;
        word = h.words.0;
        small = omega (arith, view.small);
      } in
      let moved = add_assign_lem p n h.normal (omega (arith, view.small)) in
      let value : bits (offset p) n % 2 ^ width ≡ v =
        ap (λ x. x % 2 ^ width) h.lie.0 ∙ mod-pow_wider width n v wide ∙ mod-eq_of_lt fits in
      record {
        place = add_assign p (pos n);
        returns = rw (view.reads width p n scope below, value) refl;
        onward = omega (arith, moved.1);
        ahead = record {
          normal = moved.0;
          words = h.words.1;
          lie = subst (λ q. Lie bits q steps) (sym moved.1) h.lie.1;
          inside = subst (λ q. end_of q steps ≤ len) (sym moved.1) h.inside;
        };
      }

  -- A read that is followed by what uses its value.
  pub Got-bind :
      {E A B : Type 0} {q q' : ℕ} {a : A} {c : B} {steps rest : List Step}
      {r : Result E (A × BitStream S)} (f : A × BitStream S → Result E (B × BitStream S))
      → Got k s bits len q a steps r
      → ((p : BufferPos)
          → q ≤ offset p
          → Ahead k s bits len p steps
          → Got k s bits len q' c rest (f (a, stream k s bits len p)))
      → Got k s bits len q' c rest (r >>= f)
  Got-bind f g next =
      let n = next g.place g.onward g.ahead in
      record {
        place = n.place;
        returns = ap (λ r. r >>= f) g.returns ∙ n.returns;
        onward = n.onward;
        ahead = n.ahead;
      }

  -- An alignment where there is one, followed by what is read behind it.
  pub Got-align :
      {B : Type 0} {q : ℕ} {c : B} {steps rest : List Step} (al : Bool) (p : BufferPos)
      (f : BitStream S → Result RuntimeError (B × BitStream S))
      → Ahead k s bits len p (maybe_align al steps)
      → ((p' : BufferPos)
          → offset p ≤ offset p'
          → Ahead k s bits len p' steps
          → Got k s bits len q c rest (f (stream k s bits len p')))
      → Got k s bits len q c rest (
          (if al
            then thrown (realign k.ops (stream k s bits len p))
            else ok (stream k s bits len p))
          >>= f)
  Got-align {steps} true p f h next =
      let there = Ahead-align p steps h in
      rw (realign_lem k.ops (stream k s bits len p) h.normal)
        (next (byte_position p) there.1 there.0)
  Got-align false p f h next = next p (omega arith) h

  pub thrown-Got :
      {A : Type 0} {q : ℕ} {a : A} {steps : List Step} {r : R (A × BitStream S)}
      → Got k s bits len q a steps r
      → Got k s bits len q a steps (thrown r)
  thrown-Got g = record {
    place = g.place;
    returns = ap thrown g.returns;
    onward = g.onward;
    ahead = g.ahead;
  }
