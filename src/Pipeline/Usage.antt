-- ===== src/Pipeline/Usage.antt =====
-- pipeline/usage.py: the censuses of an interval rolled up into summaries per user and per node.
-- Floats (CPU seconds, GPU memory, averages) are an opaque type with the arithmetic that the code
-- uses; times are microseconds. The tallies are in the child `Tallies`, the rows in `Rows`.
pub mod Tallies
pub mod Totals
pub mod Derived
pub mod Rows
mod Tests
use node_monitor.Common.{
  ℕ, ◌+◌, max, String, Bool, Option, none, some, List, [], ◌∷◌, if◌then◌else◌, ◌==◌, text_eq,
  length, keep,
}
use node_monitor.Common.Dict.{Dict, lookup, put}
use node_monitor.Pipeline.Usage.Tallies.{Floats, Process, Tally, new_tally, add, fold, or_new}

-- `_Interval`
pub record Interval (F : Type 0) : Type 0 where
  pub start : ℕ
  pub samples : ℕ
  pub gpu_samples : ℕ
  pub node : Tally F
  pub users : Dict String (Tally F)
  pub user_sum : ℕ
  pub user_max : ℕ
  pub active_user_sum : ℕ

-- `if not p["is_user_process"]: continue`
unfoldable pub user_processes : {F : Type 0} → List (Process F) → List (Process F)
user_processes rows = keep (λ p. p.is_user_process) rows

module _ {F : Type 0} ⦃floats : Floats F⦄ where
  unfoldable pub new_interval : ℕ → Interval F
  new_interval start = record {
    start = start;
    samples = 0;
    gpu_samples = 0;
    node = new_tally;
    users = [];
    user_sum = 0;
    user_max = 0;
    active_user_sum = 0;
  }

  -- The loop over the user processes of one census makes the tally of the node, those of the
  -- users, and the names of the active users.
  unfoldable pub node_tally : Bool → List (Process F) → Tally F → Tally F
  node_tally gpu_measured [] node = node
  node_tally gpu_measured (p ∷ ps) node = node_tally gpu_measured ps (add gpu_measured p node)

  unfoldable pub add_user : Bool → Process F → Dict String (Tally F) → Dict String (Tally F)
  add_user gpu_measured p users =
      put p.username (add gpu_measured p (or_new (lookup p.username users))) users

  unfoldable pub user_tallies :
      Bool → List (Process F) → Dict String (Tally F) → Dict String (Tally F)
  user_tallies gpu_measured [] users = users
  user_tallies gpu_measured (p ∷ ps) users =
      user_tallies gpu_measured ps (add_user gpu_measured p users)

  -- `active.add(name)`: a set, as a dict of its names.
  unfoldable pub active_names : List (Process F) → Dict {0, 0} String Unit → Dict {0, 0} String Unit
  active_names [] active = active
  active_names (p ∷ ps) active =
      active_names ps (if p.cpu_state == "active" then put p.username tt active else active)

  -- `self.users.setdefault(name, _Tally()).fold(tally)` for each user of the census.
  unfoldable pub fold_users : Dict String (Tally F) → Dict String (Tally F) → Dict String (Tally F)
  fold_users [] users = users
  fold_users ((name, census) ∷ more) users =
      fold_users more (put name (fold (or_new (lookup name users)) census) users)

  -- `_Interval.add`
  unfoldable pub add_rows : List (Process F) → Bool → Interval F → Interval F
  add_rows rows gpu_measured iv =
      let processes = user_processes rows in
      let users = user_tallies gpu_measured processes [] in
      record iv {
        samples = iv.samples + 1;
        gpu_samples = iv.gpu_samples + (if gpu_measured then 1 else 0);
        node = fold iv.node (node_tally gpu_measured processes new_tally);
        users = fold_users users iv.users;
        user_sum = iv.user_sum + length users;
        user_max = max iv.user_max (length users);
        active_user_sum = iv.active_user_sum + length (active_names processes []);
      }
