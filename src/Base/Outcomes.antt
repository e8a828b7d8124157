-- ===== src/Base/Outcomes.antt =====
-- What holds of the value of code that may panic: a postcondition, carried through the operators that
-- such code is written with.
use mathlib.Core.Path.{◌≡◌, refl, subst}
use mathlib.Core.Bool.{Bool, true, false}
use mathlib.Core.Option.{Option, none, some}
use riscv64_emu_rust.Base.Tests.{◌>>=◌, assert, if◌then◌else◌}

module _ {A : Type 0} where
  -- Of a panic nothing is claimed.
  abbrev pub Post : (A → Type 0) → Option A → Type 0
  Post P none = Unit
  Post P (some a) = P a

  pub Post-some : (P : A → Type 0) (o : Option A) (a : A) → Post P o → o ≡ some a → P a
  Post-some P o a h e = subst (Post P) e h

  pub Post-if :
      (P : A → Type 0) (b : Bool) (o o' : Option A)
      → (b ≡ true → Post P o)
      → (b ≡ false → Post P o')
      → Post P (if b then o else o')
  Post-if P true o o' h k = h refl
  Post-if P false o o' h k = k refl

  pub Post-assert :
      (P : A → Type 0) (b : Bool) (o : Option A) → (b ≡ true → Post P o) → Post P (assert b o)
  Post-assert P true o h = h refl
  Post-assert P false o h = tt

  pub Post-self : (o : Option A) → Post (λ a. o ≡ some a) o
  Post-self none = tt
  Post-self (some a) = refl

  pub Post-mono : (P Q : A → Type 0) (o : Option A) → ((a : A) → P a → Q a) → Post P o → Post Q o
  Post-mono P Q none f h = tt
  Post-mono P Q (some a) f h = f a h

  pub Post-both : (P Q : A → Type 0) (o : Option A) → Post P o → Post Q o → Post (λ a. P a × Q a) o
  Post-both P Q none h k = tt
  Post-both P Q (some a) h k = (h, k)

module _ {A B : Type 0} where
  pub Post-bind :
      (P : A → Type 0) (Q : B → Type 0) (o : Option A) (f : A → Option B)
      → Post P o
      → ((a : A) → P a → Post Q (f a))
      → Post Q (o >>= f)
  Post-bind P Q none f h k = tt
  Post-bind P Q (some a) f h k = k a h

  pub Post-step :
      (Q : B → Type 0) (o : Option A) (f : A → Option B)
      → ((a : A) → o ≡ some a → Post Q (f a))
      → Post Q (o >>= f)
  Post-step Q none f k = tt
  Post-step Q (some a) f k = k a refl

pub bind_assoc :
    {A B C : Type 0} (o : Option A) (f : A → Option B) (g : B → Option C)
    → (o >>= f >>= g) ≡ (o >>= λ a. f a >>= g)
bind_assoc none f g = refl
bind_assoc (some a) f g = refl
