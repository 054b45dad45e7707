-- ===== src/Net/Header.antt =====
-- PacketHeader of protocol/net.
use libki.Common.{
  ℕ, List, [], ◌∷◌, ◌++◌, Option, none, some, Bool, true, false, leb, ltb, if◌then◌else◌, ◌%◌, ◌≡◌,
  ◌<◌, arith, length, get_elem?, length-append, drop, zero, suc, refl, ◌∙◌, ap,
}
use libki.Io
use libki.Io.{IoStream, good, remaining}
use libki.Io.Laws.{Offers, advance, advance-Offers}
use libki.Dml.Bytes.RoundTrip.{good→not_fail}
use libki.Dml.Bytes.{Reader, done, raise}
use libki.Control.{ProtocolError, invalid_header_data}

pub record PacketHeader : Type 0 where
  pub m_control : Bool
  pub m_opcode : ℕ

unfoldable pub write_to : PacketHeader → List ℕ
write_to h = (if h.m_control then 1 else 0) ∷ h.m_opcode ∷ 0 ∷ 0 ∷ []

-- `istream.get() >= 1`, and the conversion of what `get` returns to a uint8_t; the end of file is -1.
abbrev at_least_one : Option ℕ → Bool
at_least_one none = false
at_least_one (some c) = leb 1 c

abbrev to_byte : Option ℕ → ℕ
to_byte none = 255
to_byte (some c) = c % 256

unfoldable pub read_from : Reader ProtocolError PacketHeader
read_from s =
    let (control, s₁) = Io.get s in
    let (opcode, s₂) = Io.get s₁ in
    let s₃ = Io.ignore 2 s₂ in
    if s₁.fail
    then (raise invalid_header_data, s₁)
    else if s₂.fail
    then (raise invalid_header_data, s₂)
    else if s₃.eof
    then (raise invalid_header_data, s₃)
    else (done (record { m_control = at_least_one control; m_opcode = to_byte opcode }), s₃)

unfoldable pub get_size : PacketHeader → ℕ
get_size h = 4

module _ {ℓ} {A : Type ℓ} where
  -- An element is the first of what is left behind as many.
  get_elem?-drop : (n : ℕ) (xs ys : List A) (x : A) → drop n xs ≡ x ∷ ys → get_elem? xs n ≡ some x
  get_elem?-drop zero [] ys x e = cc
  get_elem?-drop zero (z ∷ xs) ys x e = cc
  get_elem?-drop (suc n) [] ys x e = cc
  get_elem?-drop (suc n) (z ∷ xs) ys x e = get_elem?-drop n xs ys x e

-- A character that is there is got.
get_lem :
    (s : IoStream) (c : ℕ) (rest : List ℕ) → Offers s (c ∷ rest) → Io.get s ≡ (some c, advance 1 s)
unfolding Io.get
get_lem s c rest o = rw (o.is_good, get_elem?-drop s.get_pos s.chars rest c o.input_is) refl

ignore_lem :
    (n : ℕ) (s : IoStream) (xs rest : List ℕ)
    → length xs ≡ n
    → Offers s (xs ++ rest)
    → Io.ignore n s ≡ advance n s
unfolding Io.ignore
ignore_lem n s xs rest e o = rw (o.is_good, o.input_is, enough) refl
  where
    enough : ltb (length (xs ++ rest)) n ≡ false
    enough = ground (arith, length-append xs rest)

-- Any four bytes are a header.
pub read_from_four :
    (a b c d : ℕ) (s : IoStream) (rest : List ℕ)
    → Offers s (a ∷ b ∷ c ∷ d ∷ rest)
    → read_from s ≡ (done (record { m_control = leb 1 a; m_opcode = b % 256 }), advance 4 s)
unfolding read_from
read_from_four a b c d s rest o =
    let o₁ = advance-Offers s (a ∷ []) (b ∷ c ∷ d ∷ rest) o in
    let o₂ = advance-Offers (advance 1 s) (b ∷ []) (c ∷ d ∷ rest) o₁ in
    ground (
      arith,
      get_lem s a (b ∷ c ∷ d ∷ rest) o,
      get_lem (advance 1 s) b (c ∷ d ∷ rest) o₁,
      ignore_lem 2 (advance 1 (advance 1 s)) (c ∷ d ∷ []) rest refl o₂,
      good→not_fail s o.is_good,
      not_eof s o.is_good,
    )
  where
    not_eof : (s : IoStream) → good s ≡ true → s.eof ≡ false
    not_eof s h = ground arith

-- A packet header with an opcode below 256 is read back from a stream that offers what it writes,
-- which leaves the stream 4 bytes further.
pub header_read_from-write_to :
    (h : PacketHeader) (s : IoStream) (rest : List ℕ)
    → h.m_opcode < 256
    → Offers s (write_to h ++ rest)
    → read_from s ≡ (done h, advance 4 s)
unfolding write_to
header_read_from-write_to h s rest small o =
    read_from_four (if h.m_control then 1 else 0) h.m_opcode 0 0 s rest o
    ∙ ap (λ t. (done t, advance 4 s)) same
  where
    same :
        record { m_control = leb 1 (if h.m_control then 1 else 0); m_opcode = h.m_opcode % 256 } ≡ h
    same = ground arith
