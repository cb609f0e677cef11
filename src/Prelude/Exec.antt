-- ===== src/Prelude/Exec.antt =====
-- Methods that mutate an object and may throw. A throw leaves what was written before it, unless
-- a savepoint or a transaction puts the state back (withTransaction of
-- apps/backend/src/db/database.ts and the withSavepoint methods of the journals).
pub mod Rules
pub mod Returns
use mathlib.Core.Path.{◌≡◌, refl}
use mathlib.Core.Option.{Option, none, some}
use mathlib.Core.List.{List, [], ◌∷◌}
use mathlib.Core.Bool.{Bool, true, false}
use Prim.Native.Nat.{ℕ}
use Prim.Native.String.{String}

-- OperatorError of apps/backend/src/services/operatorService.ts. Its optional `details`, which
-- repeat values that the failed call was given or read, are left out.
pub record OperatorError : Type 0 where
  pub message : String
  pub status_code : ℕ
  pub code : Option String

-- A thrown value is an OperatorError or any other error, such as a violated SQL constraint.
pub data Thrown : Type 0 where
  operator_error : OperatorError → Thrown
  other_error : String → Thrown

pub data Result (A : Type 0) : Type 0 where
  ok : A → Result A
  err : Thrown → Result A

abbrev pub Exec : Type 0 → Type 0 → Type 0
Exec S A = S → Result A × S

abbrev pub refusal : String → ℕ → Option String → Thrown
refusal message status code =
    operator_error (record { message = message; status_code = status; code = code })

module _ {S A : Type 0} where
  abbrev pub pure : A → Exec S A
  pure a s = (ok a, s)

  abbrev pub throw : Thrown → Exec S A
  throw e s = (err e, s)

  abbrev pub lift : Result A → Exec S A
  lift r s = (r, s)

  abbrev pub gets : (S → A) → Exec S A
  gets f s = (ok (f s), s)

  -- `BEGIN … COMMIT`, or `ROLLBACK` and the error again. What a rollback puts back of the state
  -- before, the database alone, is `restore before after`.
  abbrev pub rolled_back : (S → S → S) → S → Result A × S → Result A × S
  rolled_back restore before (ok a, after) = (ok a, after)
  rolled_back restore before (err e, after) = (err e, restore before after)

  unfoldable pub with_transaction : (S → S → S) → Exec S A → Exec S A
  with_transaction restore m s = rolled_back restore s (m s)

  abbrev pub handled : (Thrown → Exec S A) → Result A × S → Result A × S
  handled h (ok a, s) = (ok a, s)
  handled h (err e, s) = h e s

  unfoldable pub try_catch : Exec S A → (Thrown → Exec S A) → Exec S A
  try_catch m h s = handled h (m s)

abbrev pub modify : {S : Type 0} → (S → S) → Exec S (Unit {0})
modify f s = (ok tt, f s)

module _ {S A B : Type 0} where
  abbrev pub continue : (A → Exec S B) → Result A × S → Result B × S
  continue f (ok a, s) = f a s
  continue f (err e, s) = (err e, s)

  infixl 5 ◌>>=◌ ◌>>◌
  unfoldable pub ◌>>=◌ : Exec S A → (A → Exec S B) → Exec S B
  ◌>>=◌ m f s = continue f (m s)

  abbrev pub ◌>>◌ : Exec S A → Exec S B → Exec S B
  m >> n = m >>= λ _. n

abbrev pub done : {S : Type 0} → Exec S (Unit {0})
done = pure tt

-- `for (const x of xs) { … }`
unfoldable pub for_each : {S A : Type 0} → List A → (A → Exec S (Unit {0})) → Exec S (Unit {0})
for_each [] body = done
for_each (x ∷ xs) body = body x >> for_each xs body

unfoldable pub or_throw : {S A : Type 0} → Thrown → Option A → Exec S A
or_throw e none = throw e
or_throw e (some a) = pure a

unfoldable pub ensure : {S : Type 0} → Bool → Thrown → Exec S (Unit {0})
ensure true e = done
ensure false e = throw e
