-- ===== src/Base/Results.antt =====
-- Functions that may raise and have no state: `do` blocks on `Outcome`.
use mathlib.Core.Path.{◌≡◌, refl}
use mathlib.Core.Bool.{Bool, true, false}
use machine_deck.Base.Tests.{if◌then◌else◌}
use machine_deck.Base.Effects.{Outcome, ok, raised}

module _ {ℓ} {E A B : Type ℓ} where
  infixl 5 ◌>>=◌
  abbrev pub ◌>>=◌ : Outcome E A → (A → Outcome E B) → Outcome E B
  ok a >>= f = f a
  raised e >>= f = raised e

  -- A block returns only if its first part does.
  pub bind-eq-ok :
      (r : Outcome E A) (f : A → Outcome E B) {b : B}
      → r >>= f ≡ ok b
      → (a : A) × (r ≡ ok a) × (f a ≡ ok b)
  bind-eq-ok (ok a) f h = (a, refl, h)
  bind-eq-ok (raised e) f h = cc

module _ {ℓ κ} {E A B : Type ℓ} {C : Type κ} where
  -- As `bind-eq-ok`, for what follows from each value that the rest of the block may be given.
  pub bind-cases :
      (r : Outcome E A) (f : A → Outcome E B) {b : B}
      → r >>= f ≡ ok b
      → ((a : A) → r ≡ ok a → f a ≡ ok b → C)
      → C
  bind-cases (ok a) f h k = k a refl h
  bind-cases (raised e) f h k = cc

module _ {ℓ} {E A : Type ℓ} where
  -- A guard that raises was passed.
  pub guarded-eq-ok :
      (b : Bool) (e : E) (r : Outcome E A) {a : A} → (if b then raised e else r) ≡ ok a → r ≡ ok a
  guarded-eq-ok true e r h = cc
  guarded-eq-ok false e r h = h

  -- As `guarded-eq-ok`, with the guard.
  pub guard-passed :
      (b : Bool) (e : E) (r : Outcome E A) {a : A}
      → (if b then raised e else r) ≡ ok a
      → (b ≡ false) × (r ≡ ok a)
  guard-passed true e r h = cc
  guard-passed false e r h = (refl, h)
