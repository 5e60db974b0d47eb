-- ===== src/Pipeline/Usage/Tallies.antt =====
-- pipeline/usage.py: `_bump`, `_merge`, `_Tally` and `_CensusTally`.
use node_monitor.Common.{
  ℕ, ◌+◌, max, String, Bool, true, false, Option, none, some, [], ◌∷◌, if◌then◌else◌, ◌==◌, text_eq,
}
use node_monitor.Common.Dict.{Dict, lookup, put}
use Prim.Native.String.{◌++◌ as ◌&◌}

-- The arithmetic of the floats, and of a number by a count.
pub record Floats (F : Type 0) : Type 0 where
  pub zero_float : F
  pub add_float : F → F → F
  pub max_float : F → F → F
  pub ratio : ℕ → ℕ → F
  pub over : F → ℕ → F

-- An enriched row of a census.
pub record Process (F : Type 0) : Type 0 where
  pub username : String
  pub is_user_process : Bool
  pub cpu_seconds : Option F
  pub rss_kb : ℕ
  pub gpu_mem_mb : Option F
  pub threads : ℕ
  pub state : String
  pub interactive : Bool
  pub cpu_state : String
  pub idle_bucket : String
  pub owner_presence : String
  pub category : String
  pub activity : Option String

-- `[count, cpu_s, rss_kb]`
pub record Cell (F : Type 0) : Type 0 where
  pub count : ℕ
  pub cpu_s : F
  pub rss : ℕ

pub record Tally (F : Type 0) : Type 0 where
  pub n : ℕ
  pub unmeasured : ℕ
  pub rss : ℕ
  pub threads : ℕ
  pub d : ℕ
  pub inter : ℕ
  pub cpu : F
  pub gpu : F
  pub n_max : ℕ
  pub rss_max : ℕ
  pub gpu_max : F
  pub by_category : Dict String (Cell F)
  pub by_activity : Dict String (Cell F)
  pub by_dormancy : Dict String (Cell F)
  pub cat_dorm : Dict String (Dict String (Cell F))

-- `p["activity"] or "unknown"`
unfoldable pub activity_key : Option String → String
activity_key none = "unknown"
activity_key (some activity) = if activity == "" then "unknown" else activity

unfoldable pub dormancy : {F : Type 0} → Process F → String
dormancy p = p.cpu_state & ("|" & (p.idle_bucket & ("|" & p.owner_presence)))

unfoldable pub is_blocked : {F : Type 0} → Process F → Bool
is_blocked p = p.state == "D"

unfoldable pub is_unmeasured : {F : Type 0} → Option F → Bool
is_unmeasured none = true
is_unmeasured (some cpu) = false

unfoldable pub one_if : Bool → ℕ
one_if b = if b then 1 else 0

-- The table of a category, empty if there is none yet.
unfoldable pub table_or_new : {F : Type 0} → Option (Dict String (Cell F)) → Dict String (Cell F)
table_or_new none = []
table_or_new (some table) = table

module _ {F : Type 0} ⦃floats : Floats F⦄ where
  unfoldable pub cell_or_new : Option (Cell F) → Cell F
  cell_or_new none = record { count = 0; cpu_s = floats.zero_float; rss = 0 }
  cell_or_new (some c) = c

  unfoldable pub grow : Cell F → ℕ → F → ℕ → Cell F
  grow c count cpu_s rss = record {
    count = c.count + count;
    cpu_s = floats.add_float c.cpu_s cpu_s;
    rss = c.rss + rss;
  }

  unfoldable pub grow_at : Dict String (Cell F) → String → ℕ → F → ℕ → Dict String (Cell F)
  grow_at table key count cpu_s rss =
      put key (grow (cell_or_new (lookup key table)) count cpu_s rss) table

  -- `_bump`
  unfoldable pub bump : Dict String (Cell F) → String → F → ℕ → Dict String (Cell F)
  bump table key cpu_s rss = grow_at table key 1 cpu_s rss

  -- `_merge`
  unfoldable pub merge_cells : Dict String (Cell F) → Dict String (Cell F) → Dict String (Cell F)
  merge_cells into [] = into
  merge_cells into ((key, c) ∷ more) = merge_cells (grow_at into key c.count c.cpu_s c.rss) more

  unfoldable pub merge_tables :
      Dict String (Dict String (Cell F))
      → Dict String (Dict String (Cell F))
      → Dict String (Dict String (Cell F))
  merge_tables into [] = into
  merge_tables into ((category, table) ∷ more) =
      let merged = merge_cells (table_or_new (lookup category into)) table in
      merge_tables (put category merged into) more

  unfoldable pub new_tally : Tally F
  new_tally = record {
    n = 0;
    unmeasured = 0;
    rss = 0;
    threads = 0;
    d = 0;
    inter = 0;
    cpu = floats.zero_float;
    gpu = floats.zero_float;
    n_max = 0;
    rss_max = 0;
    gpu_max = floats.zero_float;
    by_category = [];
    by_activity = [];
    by_dormancy = [];
    cat_dorm = [];
  }

  -- `setdefault(name, _Tally())`
  unfoldable pub or_new : Option (Tally F) → Tally F
  or_new none = new_tally
  or_new (some t) = t

  -- `_Tally.fold`
  unfoldable pub fold : Tally F → Tally F → Tally F
  fold t census = record {
    n = t.n + census.n;
    unmeasured = t.unmeasured + census.unmeasured;
    rss = t.rss + census.rss;
    threads = t.threads + census.threads;
    d = t.d + census.d;
    inter = t.inter + census.inter;
    cpu = floats.add_float t.cpu census.cpu;
    gpu = floats.add_float t.gpu census.gpu;
    n_max = max t.n_max census.n;
    rss_max = max t.rss_max census.rss;
    gpu_max = floats.max_float t.gpu_max census.gpu;
    by_category = merge_cells t.by_category census.by_category;
    by_activity = merge_cells t.by_activity census.by_activity;
    by_dormancy = merge_cells t.by_dormancy census.by_dormancy;
    cat_dorm = merge_tables t.cat_dorm census.cat_dorm;
  }

  unfoldable pub or_zero : Option F → F
  or_zero none = floats.zero_float
  or_zero (some cpu) = cpu

  -- The GPU memory counts if the query succeeded and the row has it.
  unfoldable pub add_gpu : Bool → Option F → F → F
  add_gpu true (some mem) gpu = floats.add_float gpu mem
  add_gpu true none gpu = gpu
  add_gpu false mem gpu = gpu

  -- `_CensusTally.add`
  unfoldable pub add : Bool → Process F → Tally F → Tally F
  add gpu_measured p t =
      let cpu = or_zero p.cpu_seconds in
      let rss = p.rss_kb in
      let table = bump (table_or_new (lookup p.category t.cat_dorm)) (dormancy p) cpu rss in
      record t {
        n = t.n + 1;
        unmeasured = t.unmeasured + one_if (is_unmeasured p.cpu_seconds);
        rss = t.rss + rss;
        threads = t.threads + p.threads;
        d = t.d + one_if (is_blocked p);
        inter = t.inter + one_if p.interactive;
        cpu = floats.add_float t.cpu cpu;
        gpu = add_gpu gpu_measured p.gpu_mem_mb t.gpu;
        by_category = bump t.by_category p.category cpu rss;
        by_activity = bump t.by_activity (activity_key p.activity) cpu rss;
        by_dormancy = bump t.by_dormancy (dormancy p) cpu rss;
        cat_dorm = put p.category table t.cat_dorm;
      }
