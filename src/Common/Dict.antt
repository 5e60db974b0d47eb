-- ===== src/Common/Dict.antt =====
-- Python's `dict`: an association list in insertion order, at most one entry for each key.
use Prim.Native.Nat.{ℕ, ◌+◌}
use mathlib.Core.Path.{◌≡◌, refl, ap}
use mathlib.Core.Logic.{inl, inr}
use mathlib.Core.Bool.{true, false}
use mathlib.Core.Option.{Option, none, some}
use mathlib.Core.List.{List, [], ◌∷◌}
use native.Mathlib.Omega.{arith}
use node_monitor.Common.Tests.{if◌then◌else◌, Eq, ◌==◌, Bool-cases}
use node_monitor.Common.Lists.{contains, IsDistinct, sum_by, All}

abbrev pub Dict {ℓ κ} : Type ℓ → Type κ → Type (ℓ ⊔ κ)
Dict K V = List (K × V)

module _ {ℓ κ} {K : Type ℓ} {V : Type κ} where
  abbrev pub keys : Dict K V → List K
  keys [] = []
  keys ((k, v) ∷ d) = k ∷ keys d

  abbrev pub values : Dict K V → List V
  values [] = []
  values ((k, v) ∷ d) = v ∷ values d

module _ {ℓ κ} {K : Type ℓ} {V : Type κ} ⦃e : Eq K⦄ where
  -- `d.get(k)`
  unfoldable pub lookup : K → Dict K V → Option V
  lookup k [] = none
  lookup k ((j, v) ∷ d) = if j == k then some v else lookup k d

  -- `d[k] = v`: a known key keeps its place, a new one goes last.
  unfoldable pub put : K → V → Dict K V → Dict K V
  put k v [] = (k, v) ∷ []
  put k v ((j, w) ∷ d) = if j == k then (k, v) ∷ d else (j, w) ∷ put k v d

  -- `d.pop(k, None)`
  unfoldable pub discard : K → Dict K V → Dict K V
  discard k [] = []
  discard k ((j, w) ∷ d) = if j == k then d else (j, w) ∷ discard k d

  -- `{**a, **b}`
  unfoldable pub merge : Dict K V → Dict K V → Dict K V
  merge a [] = a
  merge a ((k, v) ∷ b) = merge (put k v a) b

  pub lookup-put :
      (k j : K) (v : V) (d : Dict K V)
      → lookup j (put k v d) ≡ (if k == j then some v else lookup j d)
  unfolding lookup put
  lookup-put k j v [] = refl
  lookup-put k j v ((i, w) ∷ d) =
      ground (arith, e.equals_iff k j, e.equals_iff i k, e.equals_iff i j, lookup-put k j v d)

  pub contains-keys-put :
      (k j : K) (v : V) (d : Dict K V)
      → contains j (keys (put k v d)) ≡ (if k == j then true else contains j (keys d))
  unfolding put
  contains-keys-put k j v [] = ground arith
  contains-keys-put k j v ((i, w) ∷ d) =
      ground
        (arith, e.equals_iff k j, e.equals_iff i k, e.equals_iff i j, contains-keys-put k j v d)

  -- A write keeps the keys distinct.
  pub put-IsDistinct :
      (k : K) (v : V) (d : Dict K V) → IsDistinct (keys d) → IsDistinct (keys (put k v d))
  unfolding put
  put-IsDistinct k v [] h = (refl, tt)
  put-IsDistinct k v ((i, w) ∷ d) h = ground (
    arith,
    e.equals_iff i k,
    e.equals_iff k i,
    contains-keys-put k i v d,
    put-IsDistinct k v d h.1,
  )

-- The first of two optional values that is there.
abbrev pub or_else {ℓ} : {A : Type ℓ} → Option A → Option A → Option A
or_else (some a) o = some a
or_else none o = o

module _ {ℓ κ} {K : Type ℓ} {V : Type κ} ⦃e : Eq K⦄ where
  pub lookup_absent : (k : K) (d : Dict K V) → contains k (keys d) ≡ false → lookup k d ≡ none
  unfolding lookup
  lookup_absent k [] h = refl
  lookup_absent k ((j, w) ∷ d) h = ground (arith, lookup_absent k d)

  -- In `{**a, **b}` the entries of `b` win.
  pub lookup-merge :
      (k : K) (a b : Dict K V)
      → IsDistinct (keys b)
      → lookup k (merge a b) ≡ or_else (lookup k b) (lookup k a)
  unfolding lookup merge
  lookup-merge k a [] h = refl
  lookup-merge k a ((j, w) ∷ b) h = ground (
    arith,
    lookup-merge k (put j w a) b h.1,
    lookup-put j k w a,
    e.equals_iff j k,
    lookup_absent j b,
  )

-- What a write adds to a sum over the entries: the weight of the new entry in place of the old one.
abbrev pub weight_at {ℓ κ} : {K : Type ℓ} {V : Type κ} → (K → V → ℕ) → K → Option V → ℕ
weight_at w k none = 0
weight_at w k (some v) = w k v

pub sum_by-put {ℓ κ} :
    {K : Type ℓ} {V : Type κ} ⦃e : Eq K⦄ (w : K → V → ℕ) (k : K) (v : V) (d : Dict K V)
    → sum_by (λ entry. w entry.0 entry.1) (put k v d) + weight_at w k (lookup k d)
      ≡ sum_by (λ entry. w entry.0 entry.1) d + w k v
unfolding lookup put
sum_by-put w k v [] = omega arith
sum_by-put ⦃e⦄ w k v ((j, u) ∷ d) = elim (Bool-cases (j == k)) [
  | inl same ↦
      let same_weight : w j u ≡ w k u = ap (λ i. w i u) ((e.equals_iff j k).0 same) in
      rw same (omega (arith, same_weight))
  | inr other ↦ rw other (omega (arith, sum_by-put w k v d))
]

pub All-put {ℓ κ ι} :
    {K : Type ℓ} {V : Type κ} ⦃e : Eq K⦄ (P : V → Type ι) (k : K) (v : V) (d : Dict K V)
    → All P (values d)
    → P v
    → All P (values (put k v d))
unfolding put
All-put P k v [] h new = (new, tt)
All-put P k v ((j, u) ∷ d) h new = elim (Bool-cases (j == k)) [
  | inl same ↦ rw same (new, h.1)
  | inr other ↦ rw other (h.0, All-put P k v d h.1 new)
]
