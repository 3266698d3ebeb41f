-- ===== src/Prelude/Effects.antt =====
-- Calls that may raise, over a state: a database, a broker or a cache behind an interface.

use mathlib.Core.Path.{◌≡◌, refl}

-- How a Python call ends: a value, or an exception.
pub data Outcome {ℓ κ} (E : Type ℓ) (A : Type κ) : Type (ℓ ⊔ κ) where
  ok : A → Outcome E A
  raised : E → Outcome E A

-- A call that reads and changes the world `W`.
abbrev pub Act : Type 0 → Type 0 → Type 0 → Type 0
Act W E A = W → Outcome E A × W

module _ {W E : Type 0} where
  abbrev pub pure : {A : Type 0} → A → Act W E A
  pure a w = (ok a, w)

  abbrev pub raise : {A : Type 0} → E → Act W E A
  raise e w = (raised e, w)

  infixl 5 ◌>>=◌ ◌>>◌
  abbrev pub bind_result : {A B : Type 0} → Outcome E A × W → (A → Act W E B) → Outcome E B × W
  bind_result (ok a, w) f = f a w
  bind_result (raised e, w) f = (raised e, w)

  abbrev pub ◌>>=◌ : {A B : Type 0} → Act W E A → (A → Act W E B) → Act W E B
  ◌>>=◌ m f w = bind_result (m w) f

  abbrev pub ◌>>◌ : {A B : Type 0} → Act W E A → Act W E B → Act W E B
  ◌>>◌ m k w = bind_result (m w) (λ _. k)

  -- `try: m  except Exception as exc: ...  else: ...`, as a value to branch on.
  abbrev pub catch_result : {A : Type 0} → Outcome E A × W → Outcome E (Outcome E A) × W
  catch_result (r, w) = (ok r, w)

  abbrev pub attempt : {A : Type 0} → Act W E A → Act W E (Outcome E A)
  attempt m w = catch_result (m w)

-- What holds after a call that binds another: after its exception, or after the rest.
module _ {W E : Type 0} where
  pub bind_ensures {ℓ} :
      {A B : Type 0} (P : Outcome E B → W → Type ℓ) (t : Outcome E A × W) (f : A → Act W E B)
      → ((a : A) (w : W) → t ≡ (ok a, w) → P (f a w).0 (f a w).1)
      → ((e : E) (w : W) → t ≡ (raised e, w) → P (raised e) w)
      → P (bind_result t f).0 (bind_result t f).1
  bind_ensures P (ok a, w) f hok hraised = hok a w refl
  bind_ensures P (raised e, w) f hok hraised = hraised e w refl

-- An exception that a call ends with satisfies `P`.
abbrev pub OnlyRaises {ℓ} : {E A : Type 0} → (E → Type ℓ) → Outcome E A → Type ℓ
OnlyRaises P (ok _) = Unit
OnlyRaises P (raised e) = P e

module _ {W E : Type 0} where
  pub bind_only {ℓ κ} :
      {A B : Type 0} (P : E → Type ℓ) (R : Outcome E B → Type κ) (t : Outcome E A × W)
      (f : A → Act W E B)
      → OnlyRaises P t.0
      → ((a : A) (w : W) → R (f a w).0)
      → ((e : E) → P e → R (raised e))
      → R (bind_result t f).0
  bind_only P R (ok a, w) f only hok hraised = hok a w
  bind_only P R (raised e, w) f only hok hraised = hraised e only

module _ {W E : Type 0} where
  -- A call inside `try` goes on whichever way it ends.
  pub attempt_only {κ} :
      {A B : Type 0} (R : Outcome E B → Type κ) (t : Outcome E A × W) (f : Outcome E A → Act W E B)
      → ((r : Outcome E A) (w : W) → R (f r w).0)
      → R (bind_result (catch_result t) f).0
  attempt_only R (r, w) f h = h r w
