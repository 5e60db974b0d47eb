-- ===== src/Pipeline/Minutes/Bounded.antt =====
-- pipeline/node_metrics.py: the loop that bounds the waiting censuses.
use node_monitor.Common.{
  ℕ, zero, suc, ◌+◌, ◌≤◌, ◌≡◌, refl, true, List, [], ◌∷◌, length, contains, ◌==◌, nat_eq, ltb,
  arith, Bool-cases, inl, inr, min,
}
use node_monitor.Common.Dict.{Dict, keys, discard}
use node_monitor.Pipeline.Minutes.{
  CensusMessage, least, drop_oldest, bound_census, max_pending_census_minutes,
}

least_lem : (m : ℕ) (ks : List ℕ) → contains (least m ks) (m ∷ ks) ≡ true
unfolding least
least_lem m [] = ground (arith, nat_eq.equals_iff m m)
least_lem m (k ∷ ks) = let found = least_lem (min m k) ks in go (least (min m k) ks) found
  where
    go : (l : ℕ) → contains l (min m k ∷ ks) ≡ true → contains l (m ∷ k ∷ ks) ≡ true
    go l h = ground (arith, h)

length-discard :
    (k : ℕ) (d : Dict ℕ CensusMessage)
    → contains k (keys d) ≡ true
    → suc (length (discard k d)) ≡ length d
unfolding discard
length-discard k [] h = absurd (ground (arith, h))
length-discard k ((j, v) ∷ d) h = elim (Bool-cases (j == k)) [
  | inl same ↦ rw same refl
  | inr other ↦ rw other (omega (arith, length-discard k d (ground (arith, h, other))))
]

-- A turn of the loop removes one census.
length-drop_oldest :
    (m : ℕ) (c : CensusMessage) (cs : Dict ℕ CensusMessage)
    → length (drop_oldest ((m, c) ∷ cs)) ≡ length cs
unfolding drop_oldest
length-drop_oldest m c cs =
    omega (arith, length-discard (least m (keys cs)) ((m, c) ∷ cs) (least_lem m (keys cs)))

bound_empty : (turns : ℕ) → bound_census turns [] ≡ []
unfolding bound_census
bound_empty zero = refl
bound_empty (suc turns) = refl

-- The loop needs no more turns than there are censuses: further ones change nothing, and at most
-- the bound is left.
pub bound_census-ends :
    (turns more : ℕ) (census : Dict ℕ CensusMessage)
    → length census ≤ turns
    → (length (bound_census turns census) ≤ max_pending_census_minutes)
      × (bound_census (turns + more) census ≡ bound_census turns census)
unfolding bound_census
bound_census-ends zero more [] h = (omega arith, bound_empty (0 + more))
bound_census-ends zero more (x ∷ cs) h = absurd (omega (arith, h))
bound_census-ends (suc turns) more [] h = (omega arith, bound_empty (suc turns + more))
bound_census-ends (suc turns) more ((m, c) ∷ cs) h =
    let next = drop_oldest ((m, c) ∷ cs) in
    let shorter : length next ≤ turns = omega (arith, h, length-drop_oldest m c cs) in
    let rest = bound_census-ends turns more next shorter in
    let one_more : suc turns + more ≡ suc (turns + more) = omega arith in
    elim (Bool-cases (ltb max_pending_census_minutes (length ((m, c) ∷ cs)))) [
      | inl over ↦ rw (one_more, over) (rest.0, rest.1)
      | inr within ↦ rw (one_more, within) (ground (arith, within), refl)
    ]
