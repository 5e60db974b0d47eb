-- ===== src/Pipeline/Usage/Rows.antt =====
-- pipeline/usage.py: the summary rows, `_Tally.row`, and `UsageAggregator`. The order of the names
-- in a row is the order of Python's texts, a parameter.
pub mod Emitted
use node_monitor.Common.{
  ℕ, ◌-◌, ◌%◌, String, Bool, true, false, Option, none, some, List, [], ◌∷◌, ◌++◌, if◌then◌else◌,
  ◌==◌, nat_eq, map, ltb, contains, text_eq, sort_by,
}
use node_monitor.Common.Dict.{Dict}
use node_monitor.Pipeline.Usage.Tallies.{Floats, Process, Cell, Tally}
use node_monitor.Pipeline.Usage.{Interval, new_interval, add_rows}

-- The averages of a cell.
pub record Share (F : Type 0) : Type 0 where
  pub count : F
  pub cpu_s : F
  pub rss_kb : F

-- A map that the row omits is `none`.
pub record Columns (F : Type 0) : Type 0 where
  pub interval_start : ℕ
  pub process_count_avg : F
  pub process_count_max : ℕ
  pub cpu_seconds : F
  pub rss_kb_avg : F
  pub rss_kb_max : ℕ
  pub gpu_mem_mb_avg : Option F
  pub gpu_mem_mb_max : Option F
  pub threads_avg : F
  pub d_state_fraction : F
  pub interactive_fraction : F
  pub by_category : Option (Dict String (Share F))
  pub by_activity : Option (Dict String (Share F))
  pub by_dormancy : Option (Dict String (Share F))
  pub by_category_dormancy : Dict String (Dict String (Share F))
  pub sample_count : ℕ
  pub expected_count : ℕ
  pub unmeasured_count : ℕ

pub record NodeUsage (F : Type 0) : Type 0 where
  pub columns : Columns F
  pub user_count_avg : F
  pub user_count_max : ℕ
  pub active_user_count_avg : F

-- `("user_usage_5m", row)` and `("node_usage_5m", row)`
pub data Summary (F : Type 0) : Type 0 where
  user_usage : String → Columns F → Summary F
  node_usage : NodeUsage F → Summary F

-- `UsageAggregator`; the interval is in microseconds.
pub record Aggregator (F : Type 0) : Type 0 where
  pub interval : ℕ
  pub expected : ℕ
  pub open_interval : Option (Interval F)

abbrev pub user_derived_maps : List String
user_derived_maps = "by_category" ∷ "by_dormancy" ∷ []

-- `_floor`
unfoldable pub floor_interval : ℕ → ℕ → ℕ
floor_interval interval recv = recv - recv % interval

-- `gpu_status == "ok"`
unfoldable pub is_ok : Option String → Bool
is_ok none = false
is_ok (some status) = status == "ok"

module _ {F : Type 0} ⦃floats : Floats F⦄ (text_less : String → String → Bool) where
  unfoldable pub share : ℕ → Cell F → Share F
  share samples c = record {
    count = floats.ratio c.count samples;
    cpu_s = c.cpu_s;
    rss_kb = floats.ratio c.rss samples;
  }

  unfoldable pub shares : ℕ → Dict String (Cell F) → Dict String (Share F)
  shares samples table =
      map (λ e. (e.0, share samples e.1)) (sort_by (λ a b. text_less a.0 b.0) table)

  unfoldable pub shares_by_category :
      ℕ → Dict String (Dict String (Cell F)) → Dict String (Dict String (Share F))
  shares_by_category samples tables =
      map (λ e. (e.0, shares samples e.1)) (sort_by (λ a b. text_less a.0 b.0) tables)

  unfoldable pub unless_omitted :
      String → List String → Dict String (Share F) → Option (Dict String (Share F))
  unless_omitted name omit table = if contains name omit then none else some table

  -- `d / n if n else 0.0`
  unfoldable pub fraction : ℕ → ℕ → F
  fraction d n = if n == 0 then floats.zero_float else floats.ratio d n

  -- None unless the GPUs were measured in some census.
  unfoldable pub if_measured : ℕ → F → Option F
  if_measured gpu_samples value = if gpu_samples == 0 then none else some value

  -- `_Tally.row`
  unfoldable pub columns_of : Tally F → ℕ → ℕ → ℕ → ℕ → List String → Columns F
  columns_of t start samples expected gpu_samples omit = record {
    interval_start = start;
    process_count_avg = floats.ratio t.n samples;
    process_count_max = t.n_max;
    cpu_seconds = t.cpu;
    rss_kb_avg = floats.ratio t.rss samples;
    rss_kb_max = t.rss_max;
    gpu_mem_mb_avg = if_measured gpu_samples (floats.over t.gpu gpu_samples);
    gpu_mem_mb_max = if_measured gpu_samples t.gpu_max;
    threads_avg = floats.ratio t.threads samples;
    d_state_fraction = fraction t.d t.n;
    interactive_fraction = fraction t.inter t.n;
    by_category = unless_omitted "by_category" omit (shares samples t.by_category);
    by_activity = unless_omitted "by_activity" omit (shares samples t.by_activity);
    by_dormancy = unless_omitted "by_dormancy" omit (shares samples t.by_dormancy);
    by_category_dormancy = shares_by_category samples t.cat_dorm;
    sample_count = samples;
    expected_count = expected;
    unmeasured_count = t.unmeasured;
  }

  unfoldable pub user_rows : Interval F → ℕ → Dict String (Tally F) → List (Summary F)
  user_rows iv expected [] = []
  user_rows iv expected ((name, t) ∷ more) =
      user_usage name (columns_of t iv.start iv.samples expected iv.gpu_samples user_derived_maps)
      ∷ user_rows iv expected more

  unfoldable pub node_row : Interval F → ℕ → Summary F
  node_row iv expected = node_usage (record {
    columns = columns_of iv.node iv.start iv.samples expected iv.gpu_samples [];
    user_count_avg = floats.ratio iv.user_sum iv.samples;
    user_count_max = iv.user_max;
    active_user_count_avg = floats.ratio iv.active_user_sum iv.samples;
  })

  unfoldable pub rows_of : Option (Interval F) → ℕ → List (Summary F)
  rows_of none expected = []
  rows_of (some iv) expected =
      user_rows iv expected (sort_by (λ a b. text_less a.0 b.0) iv.users)
      ++ node_row iv expected ∷ []

  unfoldable pub flush : Aggregator F → List (Summary F) × Aggregator F
  flush a = (rows_of a.open_interval a.expected, record a { open_interval = none })

  unfoldable pub is_later : ℕ → Option (Interval F) → Bool
  is_later start none = false
  is_later start (some iv) = ltb iv.start start

  unfoldable pub open_or_new : ℕ → Option (Interval F) → Interval F
  open_or_new start none = new_interval start
  open_or_new start (some iv) = iv

  unfoldable pub flush_if : Bool → Aggregator F → List (Summary F) × Aggregator F
  flush_if true a = flush a
  flush_if false a = ([], a)

  -- `add_census`, for an aware time
  unfoldable pub add_census :
      List (Process F) → ℕ → Option String → Aggregator F → List (Summary F) × Aggregator F
  add_census rows recv gpu_status a =
      let start = floor_interval a.interval recv in
      let (out, b) = flush_if (is_later start a.open_interval) a in
      let iv = open_or_new start b.open_interval in
      (out, record b { open_interval = some (add_rows rows (is_ok gpu_status) iv) })
