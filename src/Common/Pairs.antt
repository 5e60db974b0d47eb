-- ===== src/Common/Pairs.antt =====
-- Pairs as keys.
use mathlib.Core.Path.{◌≡◌}
use mathlib.Core.Logic.{◌↔◌}
use mathlib.Core.Bool.{Bool, true, ◌&&◌}
use native.Mathlib.Omega.{arith}
use node_monitor.Common.Tests.{Eq, ◌==◌}

module _ {ℓ} {A B : Type ℓ} ⦃a : Eq A⦄ ⦃b : Eq B⦄ where
  abbrev pub same_pair : A × B → A × B → Bool
  same_pair p q = (p.0 == q.0) && (p.1 == q.1)

  pub same_pair_iff : (p q : A × B) → (same_pair p q ≡ true) ↔ (p ≡ q)
  same_pair_iff p q = ground (arith, a.equals_iff p.0 q.0, b.equals_iff p.1 q.1)

  instance abbrev pub pair_eq : Eq (A × B)
  pair_eq = record { equals = same_pair; equals_iff = same_pair_iff }
