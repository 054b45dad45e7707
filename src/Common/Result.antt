-- ===== src/Common/Result.antt =====
-- How a C++ function ends: it returns, it throws, it runs into undefined behaviour (`fault`), or a
-- loop of the model has used up its fuel (`stuck`).
use mathlib.Core.Path.{◌≡◌, refl}
use mathlib.Core.Option.{Option, none, some}

pub data Result {ℓ} (E : Type ℓ) (A : Type ℓ) : Type ℓ where
  ok : A → Result E A
  throw : E → Result E A
  fault stuck : Result E A

infixl 5 ◌>>=◌
abbrev pub ◌>>=◌ {ℓ} : {E A B : Type ℓ} → Result E A → (A → Result E B) → Result E B
ok a >>= f = f a
throw e >>= f = throw e
fault >>= f = fault
stuck >>= f = stuck

-- A read through a pointer that may leave its array.
abbrev pub deref {ℓ} : {E A : Type ℓ} → Option A → Result E A
deref none = fault
deref (some a) = ok a

-- `try { … } catch (E &e) { throw F(…); }`
abbrev pub rethrow {ℓ} : {E F A : Type ℓ} → (E → F) → Result E A → Result F A
rethrow f (ok a) = ok a
rethrow f (throw e) = throw (f e)
rethrow f fault = fault
rethrow f stuck = stuck

-- What follows a result may be replaced by what does the same, and may be grouped.
module _ {ℓ} {E A B : Type ℓ} where
  pub bind_ext :
      (m : Result E A) (f g : A → Result E B) → ((a : A) → f a ≡ g a) → (m >>= f) ≡ (m >>= g)
  bind_ext (ok a) f g h = h a
  bind_ext (throw e) f g h = refl
  bind_ext fault f g h = refl
  bind_ext stuck f g h = refl

module _ {ℓ} {E A B C : Type ℓ} where
  pub bind_assoc :
      (m : Result E A) (f : A → Result E B) (g : B → Result E C)
      → (m >>= f >>= g) ≡ (m >>= λ a. f a >>= g)
  bind_assoc (ok a) f g = refl
  bind_assoc (throw e) f g = refl
  bind_assoc fault f g = refl
  bind_assoc stuck f g = refl

-- `rethrow` may be moved into what follows.
module _ {ℓ} {E F A B : Type ℓ} where
  pub rethrow-bind :
      (c : E → F) (m : Result E A) (f : A → Result E B)
      → rethrow c (m >>= f) ≡ (rethrow c m >>= λ a. rethrow c (f a))
  rethrow-bind c (ok a) f = refl
  rethrow-bind c (throw e) f = refl
  rethrow-bind c fault f = refl
  rethrow-bind c stuck f = refl
