-- ===== src/Prelude/Options.antt =====
-- A statement about the result of a call that may have none.
use mathlib.Core.Option.{Option, none, some}

abbrev pub Holds {ℓ κ} : {A : Type ℓ} → (A → Type κ) → Option A → Type κ
Holds P none = Unit
Holds P (some r) = P r
