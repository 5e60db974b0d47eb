-- ===== src/Pipeline/Classify.antt =====
-- pipeline/classify.py: the category and the activity of a process. `search` stands for
-- `re.search`: of a pattern in a text.
pub mod Best
pub mod Choice
use mathlib.Core.Option
use node_monitor.Common.{
  ℕ, String, Bool, true, false, Option, none, some, List, [], ◌∷◌, ◌&&◌, if◌then◌else◌, ltb,
}
use node_monitor.Pipeline.Rules.{
  CategoryRule, ActivityRule, category_rules, activity_rules, default_category,
}

pub record Classification : Type 0 where
  pub category : String
  pub activity : Option String

-- `best is None or priority > best`
unfoldable pub outranks {ℓ} : {R : Type ℓ} → (R → ℕ) → R → Option R → Bool
outranks priority r none = true
outranks priority r (some best) = ltb (priority best) (priority r)

-- Both loops of `classify`: the best rule so far stands for the variables it has set.
unfoldable pub pick {ℓ} : {R : Type ℓ} → (R → Bool) → (R → ℕ) → List R → Option R → Option R
pick matches priority [] best = best
pick matches priority (r ∷ rs) best =
    pick matches priority rs (if outranks priority r best && matches r then some r else best)

unfoldable pub haystack : String → String → String
haystack comm String.[] = comm
haystack comm (String.◌∷◌ c s) = String.◌∷◌ c s

-- What the matched activity says of the category.
unfoldable pub as_category : ActivityRule → CategoryRule
as_category r = record { category = r.category; pattern = r.pattern; priority = r.priority }

module _ (search : String → String → Bool) (text : String) where
  unfoldable pub activity_rule : Option ActivityRule
  activity_rule = pick (λ r. search r.pattern text) ActivityRule.priority activity_rules none

  unfoldable pub category_rule : Option CategoryRule
  category_rule =
      pick (λ r. search r.pattern text) CategoryRule.priority category_rules
        (Option.map as_category activity_rule)

unfoldable pub classify : (String → String → Bool) → String → String → ℕ → ℕ → Classification
classify search comm cmdline uid min_user_uid =
    let text = haystack comm cmdline in
    record {
      category =
          if ltb uid min_user_uid
          then "system"
          else Option.get_or (Option.map CategoryRule.category (category_rule search text))
              default_category;
      activity = Option.map ActivityRule.activity (activity_rule search text);
    }
