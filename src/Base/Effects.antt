-- ===== src/Base/Effects.antt =====
-- Methods that change an object and may raise: what was written before a raise stays written, so
-- the state comes back beside the exception too.
use mathlib.Core.Bool.{false, true, Bool}
use mathlib.Core.Path.{◌≡◌, refl}
use machine_deck.Base.Tests.{if◌then◌else◌}

pub data Outcome {ℓ} (E A : Type ℓ) : Type ℓ where
  ok : A → Outcome E A
  raised : E → Outcome E A

abbrev pub is_ok {ℓ} : {E A : Type ℓ} → Outcome E A → Bool
is_ok (ok _) = true
is_ok (raised _) = false

abbrev pub Exec {ℓ} : Type ℓ → Type ℓ → Type ℓ → Type ℓ
Exec S E A = S → Outcome E A × S

module _ {ℓ} {S E A : Type ℓ} where
  abbrev pub pure : A → Exec S E A
  pure a s = (ok a, s)

  abbrev pub raise : E → Exec S E A
  raise e s = (raised e, s)

  abbrev pub lift : Outcome E A → Exec S E A
  lift r s = (r, s)

  abbrev pub gets : (S → A) → Exec S E A
  gets f s = (ok (f s), s)

module _ {ℓ} {S E : Type ℓ} where
  abbrev pub modify : (S → S) → Exec S E (Unit {ℓ})
  modify f s = (ok tt, f s)

  -- `if b: raise e`
  abbrev pub raise_if : Bool → E → Exec S E (Unit {ℓ})
  raise_if b e s = (if b then raised e else ok tt, s)

module _ {ℓ} {S E A B : Type ℓ} where
  abbrev pub continue : Outcome E A → (A → Exec S E B) → Exec S E B
  continue (ok a) f s = f a s
  continue (raised e) f s = (raised e, s)

  infixl 5 ◌>>=◌ ◌>>◌
  abbrev pub ◌>>=◌ : Exec S E A → (A → Exec S E B) → Exec S E B
  ◌>>=◌ m f s = let (r, s') = m s in continue r f s'

  abbrev pub ◌>>◌ : Exec S E A → Exec S E B → Exec S E B
  m >> k = m >>= λ _. k

-- `try: m` with `except: raise ... from exc`
abbrev pub handle_errors {ℓ} : {S E F A : Type ℓ} → (E → F) → Exec S E A → Exec S F A
handle_errors f m s = let (r, s') = m s in (elim r [ ok a ↦ ok a | raised e ↦ raised (f e) ], s')

module _ {ℓ κ} {S E A B : Type ℓ} where
  -- What holds of the state before the rest of a block, and after it for every value that the rest
  -- may be given, holds at the end, whether the block returns or raises.
  pub continue-keeps :
      (P : S → Type κ) (r : Outcome E A) (f : A → Exec S E B) (s : S)
      → P s
      → ((a : A) → r ≡ ok a → P (f a s).1)
      → P (continue r f s).1
  continue-keeps P (ok a) f s h k = k a refl
  continue-keeps P (raised e) f s h k = h

  -- As `continue-keeps`, for a block that raises `e`.
  pub continue-raised :
      (P : S → Type κ) (r : Outcome E A) (f : A → Exec S E B) (s : S) {e : E}
      → P s
      → ((a : A) → r ≡ ok a → (f a s).0 ≡ raised e → P (f a s).1)
      → (continue r f s).0 ≡ raised e
      → P (continue r f s).1
  continue-raised P (ok a) f s h k q = k a refl q
  continue-raised P (raised e) f s h k q = h

module _ {ℓ} {S E A B : Type ℓ} where
  -- A block returns only if its first part does.
  pub continue-eq-ok :
      (r : Outcome E A) (f : A → Exec S E B) (s : S) {b : B}
      → (continue r f s).0 ≡ ok b
      → (a : A) × (r ≡ ok a) × ((f a s).0 ≡ ok b)
  continue-eq-ok (ok a) f s h = (a, refl, h)
  continue-eq-ok (raised e) f s h = cc

-- The postcondition of a method that returns; nothing is said where it raises.
abbrev pub Returns {ℓ κ} : {S E A : Type ℓ} → (A → S → Type κ) → Outcome E A × S → Type κ
Returns Q (ok a, s) = Q a s
Returns Q (raised _, s) = Unit

module _ {ℓ κ} {S E A B : Type ℓ} where
  pub continue-Returns :
      (P : A → S → Type κ) (Q : B → S → Type κ) (m : Outcome E A × S) (f : A → Exec S E B)
      → Returns P m
      → ((a : A) (s : S) → P a s → Returns Q (f a s))
      → Returns Q (continue m.0 f m.1)
  continue-Returns P Q (ok a, s) f h k = k a s h
  continue-Returns P Q (raised e, s) f h k = tt

-- The postcondition of a method: one where it returns, and one where it raises.
abbrev pub Ends {ℓ κ} :
    {S E A : Type ℓ} → (S → Type κ) → (A → S → Type κ) → Outcome E A × S → Type κ
Ends J Q (ok a, s) = Q a s
Ends J Q (raised _, s) = J s

module _ {ℓ κ} {S E A B : Type ℓ} where
  pub continue-Ends :
      (J : S → Type κ) (P : A → S → Type κ) (Q : B → S → Type κ) (m : Outcome E A × S)
      (f : A → Exec S E B)
      → Ends J P m
      → ((a : A) (s : S) → P a s → Ends J Q (f a s))
      → Ends J Q (continue m.0 f m.1)
  continue-Ends J P Q (ok a, s) f h k = k a s h
  continue-Ends J P Q (raised e, s) f h k = h
