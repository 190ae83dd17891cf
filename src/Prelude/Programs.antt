-- ===== src/Prelude/Programs.antt =====
-- A program is a function of the state; `do` blocks chain programs and readings of the state.
use mathlib.Core.List.{List, [], ◌∷◌}

infixl 5 ◌>>=◌ ◌>>◌
abbrev pub ◌>>=◌ {ℓ κ} : {W : Type ℓ} {A : Type κ} → (W → A) → (A → W → W) → W → W
◌>>=◌ r k w = k (r w) w

abbrev pub ◌>>◌ {ℓ} : {W : Type ℓ} → (W → W) → (W → W) → W → W
◌>>◌ f g w = g (f w)

abbrev pub skip {ℓ} : {W : Type ℓ} → W → W
skip w = w

-- `for (… of xs) body`
abbrev pub each {ℓ κ} : {W : Type ℓ} {A : Type κ} → (A → W → W) → List A → W → W
each body [] w = w
each body (x ∷ xs) w = each body xs (body x w)
