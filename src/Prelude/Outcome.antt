-- ===== src/Prelude/Outcome.antt =====
-- The outcome of running C code: it returns, it does something undefined (reads a wild or NULL
-- pointer, indexes out of bounds), or it waits for ever for a mutex that it holds itself.
use mathlib.Core.Path.{◌≡◌}

pub data Run {ℓ} (A : Type ℓ) : Type ℓ where
  ok : A → Run A
  fault : Run A
  deadlock : Run A

infixl 5 ◌>>=◌ ◌>>◌
abbrev pub ◌>>=◌ {ℓ κ} : {A : Type ℓ} {B : Type κ} → Run A → (A → Run B) → Run B
ok value >>= next = next value
fault >>= next = fault
deadlock >>= next = deadlock

abbrev pub ◌>>◌ {ℓ} : {B : Type ℓ} → Run (Unit {0}) → Run B → Run B
m >> k = m >>= λ _. k

-- The run ends normally, in a value that satisfies `P`.
abbrev pub Returns {ℓ κ} : {Value : Type ℓ} (run : Run Value) (P : Value → Type κ) → Type (ℓ ⊔ κ)
Returns {Value} run P = (value : Value) × (run ≡ ok value) × P value
