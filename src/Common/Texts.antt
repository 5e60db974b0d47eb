-- ===== src/Common/Texts.antt =====
-- Slices of a text, by characters.
use Prim.Native.Nat.{ℕ, zero, suc}
use Prim.Native.String.{String, [], ◌∷◌}

-- `text[:n]`
unfoldable pub clip : ℕ → String → String
clip zero text = []
clip (suc n) [] = []
clip (suc n) (c ∷ text) = c ∷ clip n text
