-- ===== src/Pipeline/Tests.antt =====
-- Examples for the theorems on the pipeline.
use node_monitor.Common.{
  ℕ, ◌+◌, ◌≤◌, arith, none, List, [], ◌∷◌, length, ◌≡◌, refl, String, Bool, true, false, some, ◌==◌,
  contains, text_eq,
}
use node_monitor.Pipeline.Node
use node_monitor.Common.Dict.{Dict}
use node_monitor.Pipeline.Minutes.Bounded.{bound_census-ends}
use node_monitor.Pipeline.Minutes.{
  CensusMessage, bound_census, max_pending_census_minutes, Counters, Aggregator,
}
use node_monitor.Pipeline.Minutes.Samples.{samples, open_samples, add_all, add_all-samples}
use node_monitor.Pipeline.Rules.{spec_categories}
use node_monitor.Pipeline.Classify.{
  classify, outranks, pick, as_category, haystack, activity_rule, category_rule,
}
use node_monitor.Pipeline.Classify.Choice.{IsClassified, classify-IsClassified, classify-IsSpec}

-- Finds a pattern that is plain text in a text that has nothing else.
abbrev plain : String → String → Bool
plain pattern text = pattern == text

classify_ran :
    classify plain "jupyter" "" 1000 1000
    ≡ record { category = "jupyter"; activity = some "jupyter-server" }
unfolding classify outranks pick as_category haystack activity_rule category_rule
classify_ran = refl

classify-IsClassified_example :
    IsClassified plain "jupyter" "" 1000 1000 (classify plain "jupyter" "" 1000 1000)
classify-IsClassified_example = classify-IsClassified plain "jupyter" "" 1000 1000

classify-IsSpec_example :
    contains (classify plain "sh" "jupyter" 12 1000).category spec_categories ≡ true
classify-IsSpec_example = classify-IsSpec plain "sh" "jupyter" 12 1000

abbrev census : CensusMessage
census = record { gpus = []; scan_seconds = none; gpu_status = none }

-- Eleven minutes.
abbrev censuses : Dict ℕ CensusMessage
censuses =
    (1, census)
    ∷ (2, census)
    ∷ (3, census)
    ∷ (4, census)
    ∷ (5, census)
    ∷ (6, census)
    ∷ (7, census)
    ∷ (8, census)
    ∷ (9, census)
    ∷ (10, census)
    ∷ (11, census)
    ∷ []

bound_census-ends_example :
    (length (bound_census 11 censuses) ≤ max_pending_census_minutes)
    × (bound_census (11 + 4) censuses ≡ bound_census 11 censuses)
bound_census-ends_example = bound_census-ends 11 4 censuses (omega arith)

abbrev counters : Counters
counters = record {
  cpu_jiffies = [];
  net = ("eth0", (5, 6)) ∷ [];
  md_ops = [];
  probe_cpu = none;
  rss_kb = none;
  ts = some 3;
}

-- Two in the first minute, one in the second.
abbrev messages : List (Counters × ℕ × ℕ)
messages = (counters, 1000000, 1) ∷ (counters, 31000000, 1) ∷ (counters, 61000000, 1) ∷ []

abbrev aggregator : Aggregator
aggregator = record { open_minute = none; prev = none; census = []; last_closed = none }

add_all-samples_example :
    samples (add_all messages aggregator).0
      + open_samples (add_all messages aggregator).1.open_minute
    ≡ open_samples aggregator.open_minute + length messages
add_all-samples_example = add_all-samples messages aggregator

-- Aggregators that keep nothing.
abbrev idle : Node.Aggregators
idle = record {
  State = Unit;
  Body = Unit;
  Stored = Unit;
  Processes = Unit;
  enrich = λ body. tt;
  add_counters = λ body recv session_id a. ([], a);
  add_census = λ body recv a. a;
  add_usage = λ processes recv a. ([], a);
  flush_minutes = λ a. ([], a);
  flush_usage = λ a. ([], a);
}

abbrev late_counters : Node.Message idle
late_counters = record {
  kind = Node.counters;
  boot_id = none;
  probe_version = none;
  hostname = none;
  mem_total = none;
  mem_available = none;
  has_processes = false;
  body = tt;
}

abbrev pipeline : Node.NodePipeline idle
pipeline = record {
  host = "n1";
  summary_interval = 300000000;
  session_id = 1;
  boot_id = none;
  probe_version = none;
  last_census_at = none;
  last_minute = some 120000000;
  last_interval = none;
  aggregators = tt;
}
