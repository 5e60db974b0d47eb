-- ===== src/Pipeline/Classify/Best.antt =====
-- pipeline/classify.py: the rule that is picked, by priority and place in the table.
use node_monitor.Common.{
  ℕ, ◌≤◌, ◌<◌, ◌≡◌, refl, sym, Bool, true, false, Option, none, some, List, [], ◌∷◌, ◌++◌, All,
  All-append, append_assoc, append-nil, arith, Bool-cases, inl, inr, ltb, ltb→lt,
}
use node_monitor.Pipeline.Classify.{outranks, pick}

module _ {R : Type 0} (matches : R → Bool) (priority : R → ℕ) where
  -- Of the rules that match, those before `w` have a lower priority and those after it no higher
  -- one.
  pub record IsBest (rs : List R) (w : R) : Type 0 where
    pub before : List R
    pub after : List R
    pub split : rs ≡ before ++ w ∷ after
    pub hit : matches w ≡ true
    pub earlier : All (λ r. matches r ≡ true → priority r < priority w) before
    pub later : All (λ r. matches r ≡ true → priority r ≤ priority w) after

  unfoldable pub IsChoice : List R → Option R → Type 0
  IsChoice rs none = All (λ r. matches r ≡ false) rs
  IsChoice rs (some w) = IsBest rs w

  All-weaken : {P Q : R → Type 0} → ((r : R) → P r → Q r) → (rs : List R) → All P rs → All Q rs
  All-weaken f [] h = tt
  All-weaken f (r ∷ rs) (h, hs) = (f r h, All-weaken f rs hs)

  below_new :
      (r w : R)
      → priority w < priority r
      → (seen : List R) → IsBest seen w
      → All (λ q. matches q ≡ true → priority q < priority r) seen
  below_new r w lower seen best = rw best.split (
      All-append (λ q. matches q ≡ true → priority q < priority r) best.before (w ∷ best.after)
        (All-weaken (λ q below hit. omega (arith, below hit, lower)) best.before best.earlier)
        (
          λ hit. lower,
          All-weaken (λ q below hit. omega (arith, below hit, lower)) best.after best.later,
        ))

  keeps :
      (r w : R) (seen : List R)
      → (matches r ≡ true → priority r ≤ priority w)
      → IsBest seen w
      → IsBest (seen ++ r ∷ []) w
  keeps r w seen above best = record {
    before = best.before;
    after = best.after ++ r ∷ [];
    split = rw (best.split, append_assoc best.before) refl;
    hit = best.hit;
    earlier = best.earlier;
    later =
        All-append (λ q. matches q ≡ true → priority q ≤ priority w) best.after (r ∷ []) best.later
          (above, tt);
  }

  step-IsChoice :
      (r : R) (seen : List R) (best : Option R)
      → IsChoice seen best
      → IsChoice (seen ++ r ∷ []) (pick matches priority (r ∷ []) best)
  unfolding pick outranks IsChoice
  step-IsChoice r seen none h = elim (Bool-cases (matches r)) [
    | inl hit ↦ rw hit (record {
      before = seen;
      after = [];
      split = refl;
      hit = hit;
      earlier = All-weaken (λ q miss hit'. ground (arith, miss, hit')) seen h;
      later = tt;
    })
    | inr miss ↦ rw miss (All-append (λ q. matches q ≡ false) seen (r ∷ []) h (miss, tt))
  ]
  step-IsChoice r seen (some w) h = elim (Bool-cases (ltb (priority w) (priority r))) [
    | inr lower ↦ rw lower (keeps r w seen (λ same. ground arith) h)
    | inl higher ↦ elim (Bool-cases (matches r)) [
      | inr miss ↦ rw (higher, miss) (keeps r w seen (λ hit. ground (arith, hit, miss)) h)
      | inl hit ↦
          rw (higher, hit)
            (record {
              before = seen;
              after = [];
              split = refl;
              hit = hit;
              earlier = below_new r w (ltb→lt (priority w) (priority r) higher) seen h;
              later = tt;
            })
    ]
  ]

  go_on-IsChoice :
      (seen rs : List R) (best : Option R)
      → IsChoice seen best
      → IsChoice (seen ++ rs) (pick matches priority rs best)
  unfolding pick
  go_on-IsChoice seen [] best h = rw (append-nil seen) h
  go_on-IsChoice seen (r ∷ rs) best h = rw (sym (append_assoc seen (r ∷ []) rs)) (
      go_on-IsChoice (seen ++ r ∷ []) rs (pick matches priority (r ∷ []) best)
        (step-IsChoice r seen best h))

  pub pick-IsChoice : (rs : List R) → IsChoice rs (pick matches priority rs none)
  unfolding IsChoice
  pick-IsChoice rs = go_on-IsChoice [] rs none tt

  -- A rule that is held already and matches comes before the others.
  pub pick_on-IsChoice :
      (w : R) (rs : List R)
      → matches w ≡ true
      → IsChoice (w ∷ rs) (pick matches priority rs (some w))
  unfolding IsChoice
  pick_on-IsChoice w rs hit =
      go_on-IsChoice (w ∷ []) rs (some w)
        (record { before = []; after = []; split = refl; hit = hit; earlier = tt; later = tt })
