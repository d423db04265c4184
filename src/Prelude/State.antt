-- ===== src/Prelude/State.antt =====
-- Code that changes a state `W`: a `do` block threads it from call to call.
abbrev pub State {ℓ} : Type ℓ → Type 0 → Type ℓ
State W A = W → A × W

module _ {ℓ} {W : Type ℓ} where
  infixl 5 ◌>>=◌ ◌>>◌
  abbrev pub pure : {A : Type 0} → A → State W A
  pure a w = (a, w)

  abbrev pub ◌>>=◌ : {A B : Type 0} → State W A → (A → State W B) → State W B
  ◌>>=◌ m f w = f (m w).0 (m w).1

  -- The result of the first call is discarded.
  abbrev pub ◌>>◌ : {A B : Type 0} → State W A → State W B → State W B
  ◌>>◌ m k w = k (m w).1
