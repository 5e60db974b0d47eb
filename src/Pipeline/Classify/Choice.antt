-- ===== src/Pipeline/Classify/Choice.antt =====
-- What classify.py returns, told by the tables alone.
use mathlib.Core.Option
use node_monitor.Common.{
  ℕ, ◌≡◌, refl, sym, String, Bool, true, Option, none, some, List, [], ◌∷◌, ◌++◌, contains, text_eq,
  arith, Bool-cases, inl, inr, ltb, if◌then◌else◌, all,
}
use node_monitor.Pipeline.Rules.{
  CategoryRule, ActivityRule, category_rules, activity_rules, default_category, spec_categories,
}
use node_monitor.Pipeline.Classify.{
  Classification, as_category, haystack, activity_rule, category_rule, classify,
}
use node_monitor.Pipeline.Classify.Best.{IsBest, IsChoice, pick-IsChoice, pick_on-IsChoice}

-- The rules that compete for the category: the activity's, then the table's.
unfoldable pub candidates : Option ActivityRule → List CategoryRule
candidates none = category_rules
candidates (some r) = as_category r ∷ category_rules

-- `Matches search text`: the test that a rule's pattern is found in the text.
unfoldable pub finds : (String → String → Bool) → String → String → Bool
finds search text pattern = search pattern text

module _ (search : String → String → Bool) (comm cmdline : String) (uid min_user_uid : ℕ) where
  -- The best activity rule and the best candidate, and what the process is told to be by them.
  pub record IsClassified (result : Classification) : Type 0 where
    pub by : Option ActivityRule
    pub best_activity :
        IsChoice
          (λ r. search r.pattern (haystack comm cmdline))
          ActivityRule.priority
          activity_rules
          by
    pub activity : result.activity ≡ Option.map ActivityRule.activity by
    pub chosen : Option CategoryRule
    pub best_category :
        IsChoice
          (λ r. search r.pattern (haystack comm cmdline))
          CategoryRule.priority
          (candidates by)
          chosen
    pub category : result.category ≡ (
        if ltb uid min_user_uid
        then "system"
        else Option.get_or (Option.map CategoryRule.category chosen) default_category)

  category_rule-IsChoice :
      (by : Option ActivityRule)
      → activity_rule search (haystack comm cmdline) ≡ by
      → IsChoice
          (λ r. search r.pattern (haystack comm cmdline))
          ActivityRule.priority
          activity_rules
          by
      → IsChoice
          (λ r. search r.pattern (haystack comm cmdline))
          CategoryRule.priority
          (candidates by)
          (category_rule search (haystack comm cmdline))
  unfolding category_rule candidates as_category IsChoice
  category_rule-IsChoice none e h = rw e (
      pick-IsChoice (λ r. search r.pattern (haystack comm cmdline)) CategoryRule.priority
        category_rules)
  category_rule-IsChoice (some r) e h = rw e (
      pick_on-IsChoice (λ r. search r.pattern (haystack comm cmdline)) CategoryRule.priority
        (as_category r) category_rules h.hit)

  activity_rule-IsChoice :
      IsChoice
        (λ r. search r.pattern (haystack comm cmdline))
        ActivityRule.priority
        activity_rules
        (activity_rule search (haystack comm cmdline))
  unfolding activity_rule
  activity_rule-IsChoice =
      pick-IsChoice (λ r. search r.pattern (haystack comm cmdline)) ActivityRule.priority
        activity_rules

  -- The activity is that of the best activity rule that matches, of the highest priority and then
  -- the earliest, and None if none does. The category is that of the best of the activity's rule
  -- and the category rules, else the default, but "system" for a uid below the users'.
  pub classify-IsClassified : IsClassified (classify search comm cmdline uid min_user_uid)
  unfolding classify
  classify-IsClassified = record {
    by = activity_rule search (haystack comm cmdline);
    best_activity = activity_rule-IsChoice;
    activity = refl;
    chosen = category_rule search (haystack comm cmdline);
    best_category =
        category_rule-IsChoice (activity_rule search (haystack comm cmdline)) refl
          activity_rule-IsChoice;
    category = refl;
  }

is_spec : String → Bool
is_spec category = contains category spec_categories

all-middle :
    {R : Type 0} (p : R → Bool) (before : List R) (w : R) (after : List R)
    → all p (before ++ w ∷ after) ≡ true
    → p w ≡ true
all-middle p [] w after h = ground arith
all-middle p (r ∷ before) w after h = all-middle p before w after (ground arith)

-- What holds of all rules of the table holds of the best.
of_best :
    {R : Type 0} (matches : R → Bool) (priority : R → ℕ) (f : R → String) (rs : List R) (w : R)
    → all (λ r. is_spec (f r)) rs ≡ true
    → IsBest matches priority rs w
    → is_spec (f w) ≡ true
of_best matches priority f rs w h best =
    all-middle (λ r. is_spec (f r)) best.before w best.after (rw (sym best.split) h)

activities_lem : all (λ r. is_spec r.category) activity_rules ≡ true
unfolding is_spec
activities_lem = refl

categories_lem : all (λ r. is_spec r.category) category_rules ≡ true
unfolding is_spec
categories_lem = refl

candidates-spec :
    (matches : ActivityRule → Bool) (by : Option ActivityRule)
    → IsChoice matches ActivityRule.priority activity_rules by
    → all (λ r. is_spec r.category) (candidates by) ≡ true
unfolding candidates as_category IsChoice
candidates-spec matches none h = categories_lem
candidates-spec matches (some r) h =
    rw
      (of_best matches ActivityRule.priority ActivityRule.category activity_rules r activities_lem
        h)
      categories_lem

chosen-spec :
    (matches : CategoryRule → Bool) (rs : List CategoryRule) (chosen : Option CategoryRule)
    → all (λ r. is_spec r.category) rs ≡ true
    → IsChoice matches CategoryRule.priority rs chosen
    → is_spec (Option.get_or (Option.map CategoryRule.category chosen) default_category) ≡ true
unfolding IsChoice
chosen-spec matches rs none known h = unfold is_spec in refl
chosen-spec matches rs (some w) known h =
    of_best matches CategoryRule.priority CategoryRule.category rs w known h

-- The category of a process is always one of SPEC_CATEGORIES.
pub classify-IsSpec :
    (search : String → String → Bool) (comm cmdline : String) (uid min_user_uid : ℕ)
    → contains (classify search comm cmdline uid min_user_uid).category spec_categories ≡ true
classify-IsSpec search comm cmdline uid min_user_uid =
    let c = classify-IsClassified search comm cmdline uid min_user_uid in
    let known =
      chosen-spec (λ r. search r.pattern (haystack comm cmdline)) (candidates c.by) c.chosen
        (candidates-spec (λ r. search r.pattern (haystack comm cmdline)) c.by c.best_activity)
        c.best_category in
    elim (Bool-cases (ltb uid min_user_uid)) [
      | inl system ↦ rw (c.category, system) refl
      | inr user ↦ rw (c.category, user) (unfold is_spec in known)
    ]
