-- ===== src/Pipeline/Usage/Tests.antt =====
-- Examples for the theorems on the usage summaries. The floats are natural numbers here.
use node_monitor.Common.{
  ℕ, ◌+◌, ◌/◌, max, String, Bool, true, false, ◌≡◌, none, some, List, [], ◌∷◌, ◌==◌, text_eq,
  length, All, Option,
}
use node_monitor.Common.Dict.{values}
use node_monitor.Pipeline.Usage.Tallies.{Floats, Process}
use node_monitor.Pipeline.Usage.{new_interval}
use node_monitor.Pipeline.Usage.Totals.{
  processes, amount, users_amount, censuses_amount, add_censuses, everyone, add_censuses-totals,
}
use node_monitor.Pipeline.Usage.Derived.{IsDerived, add_censuses-IsDerived}
use node_monitor.Pipeline.Usage.Rows.Emitted.{IsRising, samples, run, idle, run-counts}

instance abbrev naturals : Floats ℕ
naturals = record {
  zero_float = 0;
  add_float = λ x y. x + y;
  max_float = λ x y. max x y;
  ratio = λ x n. x / n;
  over = λ x n. x / n;
}

abbrev process_of : String → String → Process ℕ
process_of name category = record {
  username = name;
  is_user_process = true;
  cpu_seconds = some 2;
  rss_kb = 100;
  gpu_mem_mb = none;
  threads = 3;
  state = "S";
  interactive = true;
  cpu_state = "active";
  idle_bucket = "<5m";
  owner_presence = "interactive";
  category = category;
  activity = none;
}

abbrev rows : List (Process ℕ)
rows = process_of "ann" "shell" ∷ process_of "bob" "editor" ∷ process_of "ann" "editor" ∷ []

abbrev censuses : List (List (Process ℕ) × Bool)
censuses = (rows, true) ∷ ([], false) ∷ (rows, false) ∷ []

abbrev is_ann : String → Bool
is_ann name = name == "ann"

add_censuses-totals_example :
    (users_amount processes is_ann (add_censuses censuses (new_interval 0)).users
      ≡ censuses_amount processes is_ann censuses)
    × (amount processes (add_censuses censuses (new_interval 0)).node
        ≡ censuses_amount processes everyone censuses)
add_censuses-totals_example = add_censuses-totals processes is_ann censuses 0

add_censuses-IsDerived_example :
    IsDerived (add_censuses censuses (new_interval 0)).node
    × All IsDerived (values (add_censuses censuses (new_interval 0)).users)
add_censuses-IsDerived_example = add_censuses-IsDerived censuses 0

-- Texts compared by whether the first is empty.
abbrev text_less : String → String → Bool
text_less a b = a == ""

-- The second census is in the second interval, and the clock goes back for the third.
abbrev messages : List (List (Process ℕ) × ℕ × Option String)
messages = (rows, 400, some "ok") ∷ (rows, 700, none) ∷ (rows, 100, some "failed") ∷ []

run-counts_example :
    IsRising 0 (run text_less messages (idle 300 5))
    × (samples (run text_less messages (idle 300 5)) ≡ length messages)
run-counts_example = run-counts text_less messages 300 5
