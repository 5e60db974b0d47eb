-- ===== src/Database/Writer/Planned.antt =====
-- database/writer.py, `_plan`: where the records of a batch go.
use node_monitor.Common.{
  ℕ, ◌+◌, String, ◌≡◌, refl, ap, Bool, true, false, Option, none, some, List, [], ◌∷◌, ◌++◌,
  if◌then◌else◌, ◌==◌, text_eq, pair_eq, length, length-append, sum_by, arith, Bool-cases, inl, inr,
  IfSome, IfSome-bind, IfSome-some, IfSome-map, ltb, all, ◌>>=◌,
}
use node_monitor.Common.Dict.{lookup, put, sum_by-put, weight_at}
use mathlib.Core.Path.{subst, subst⁻¹}
use node_monitor.Records.{live_processes}
use node_monitor.Values.{DateTime, Value, Record}
use node_monitor.Database.Maintenance.{Retention, span_of}
use node_monitor.Database.Writer.{
  Row, tables, partition_keys, Plan, Group, snapshot, live, hardware_row, event, summary,
  empty_plan, get, as_text, as_time, aware_micros, is_known, count_or_zero, group_of, or_no_params,
  add_beyond, add_month, newer, add_snapshot, has_required, event_params, add_event, summary_params,
  add_summary, add_to, add_timed, add_row, add_record, add_records, plan_at, plan,
}

abbrev size : {P : Type 0} → String → List (List P) → ℕ
size table rows = length rows

abbrev number : String → ℕ → ℕ
number table n = n

-- The rows planned for all tables but that of the snapshots, and those beyond retention.
unfoldable pub accounted : {P : Type 0} → Plan P → ℕ
accounted p =
    length p.live_nodes
    + length p.hardware
    + length p.events
    + sum_by (λ entry. size entry.0 entry.1) p.summaries
    + sum_by (λ entry. number entry.0 entry.1) p.beyond

unfoldable pub is_snapshot : Group → ℕ
is_snapshot snapshot = 1
is_snapshot live = 0
is_snapshot hardware_row = 0
is_snapshot event = 0
is_snapshot summary = 0

-- The snapshots of a batch, which are counted apart: the plan keeps some of them.
unfoldable pub snapshots_in : List Record → ℕ
snapshots_in records = sum_by (λ r. is_snapshot (group_of r.kind)) records

unpartitioned_lem :
    (table column : String)
    → lookup live_processes tables ≡ some table
    → lookup table partition_keys ≡ some column
    → ⊥
unfolding lookup
unpartitioned_lem table column h k =
    let e : "live_processes" ≡ table = ap (or_text) h in
    let found : none ≡ some column = subst⁻¹ (λ t. lookup t partition_keys ≡ some column) e k in
    ground (arith, found)
  where
    or_text : Option String → String
    or_text none = ""
    or_text (some t) = t

-- Only the other kinds have a partitioned table.
partitioned_lem :
    (kind table column : String)
    → lookup kind tables ≡ some table
    → lookup table partition_keys ≡ some column
    → is_snapshot (group_of kind) ≡ 0
unfolding lookup group_of is_snapshot
partitioned_lem kind table column h k = elim (Bool-cases (kind == live_processes)) [
  | inl same ↦ absurd (
      unpartitioned_lem table column
        (subst (λ name. lookup name tables ≡ some table)
          ((text_eq.equals_iff kind live_processes).0 same) h)
        k)
  | inr other ↦ rw other (ground arith)
]

module _ {P : Type 0} (to_db_value : Value → P) (summary_columns : String → List String)
    (partition_name : String → ℕ → String) (retention : Retention) where
  abbrev beyond : String → Plan P → Plan P
  beyond = add_beyond to_db_value summary_columns partition_name retention

  number_lem : (table : String) (o : Option ℕ) → weight_at number table o ≡ count_or_zero o
  unfolding count_or_zero
  number_lem table none = refl
  number_lem table (some n) = refl

  size_lem :
      (table : String) (o : Option (List (List P)))
      → weight_at size table o ≡ length (or_no_params o)
  unfolding or_no_params
  size_lem table none = refl
  size_lem table (some rows) = refl

  accounted-beyond : (table : String) (p : Plan P) → accounted (beyond table p) ≡ accounted p + 1
  unfolding add_beyond accounted
  accounted-beyond table p =
      let old = count_or_zero (lookup table p.beyond) in
      omega (
        arith,
        sum_by-put number table (old + 1) p.beyond,
        number_lem table (lookup table p.beyond),
      )

  accounted-month :
      (table : String) (ts : ℕ) (p : Plan P)
      → accounted (add_month to_db_value summary_columns partition_name retention table ts p)
        ≡ accounted p
  unfolding add_month accounted
  accounted-month table ts p = refl

  accounted-summary :
      (table : String) (row : Row) (p : Plan P)
      → accounted (add_summary to_db_value summary_columns partition_name retention table row p)
        ≡ accounted p + 1
  unfolding add_summary accounted
  accounted-summary table row p =
      let before = or_no_params (lookup table p.summaries) in
      let params = summary_params to_db_value summary_columns partition_name retention table row in
      omega (
        arith,
        sum_by-put size table (before ++ params ∷ []) p.summaries,
        size_lem table (lookup table p.summaries),
        length-append before (params ∷ []),
      )

  -- A step that plans a record of a group.
  abbrev Adds : Group → Plan P → Option (Plan P) → Type 0
  Adds g p result = IfSome (λ q. accounted q + is_snapshot g ≡ accounted p + 1) result

  snapshot-Adds :
      (row : Row) (p : Plan P)
      → Adds snapshot p (add_snapshot to_db_value summary_columns partition_name retention row p)
  unfolding add_snapshot accounted is_snapshot
  snapshot-Adds row p =
      IfSome-bind Q (as_text (get "system" row))
        (λ system. as_text (get "node" row) >>= λ node. chosen system node >>= next system node)
        (λ system.
          IfSome-bind Q (as_text (get "node" row)) (λ node. chosen system node >>= next system node)
            (λ node. IfSome-bind Q (chosen system node) (next system node) (λ c. refl)))
    where
      Q : Plan P → Type 0
      Q q = accounted q + is_snapshot snapshot ≡ accounted p + 1

      chosen : String → String → Option Row
      chosen system node =
          newer to_db_value summary_columns partition_name retention row
            (lookup (system, node) p.snapshots)

      next : String → String → Row → Option (Plan P)
      next system node c = some (record p { snapshots = put (system, node) c p.snapshots })

  event-Adds :
      (row : Row) (p : Plan P)
      → Adds event p (add_event to_db_value summary_columns partition_name retention row p)
  unfolding add_event accounted is_snapshot
  event-Adds row p =
      IfSome-bind (λ q. accounted q + 0 ≡ accounted p + 1)
        (event_params to_db_value summary_columns partition_name retention row)
        (λ params. some (record p { events = p.events ++ params ∷ [] }))
        (λ params. omega (arith, length-append p.events (params ∷ [])))

  live-Adds :
      (row : Row) (p : Plan P) (complete : Bool)
      → Adds live p
          (if complete then some (record p { live_nodes = p.live_nodes ++ row ∷ [] }) else none)
  unfolding accounted is_snapshot
  live-Adds row p true = omega (arith, length-append p.live_nodes (row ∷ []))
  live-Adds row p false = tt

  add_to-Adds :
      (g : Group) (table : String) (row : Row) (p : Plan P)
      → Adds g p (add_to to_db_value summary_columns partition_name retention g table row p)
  unfolding add_to accounted is_snapshot
  add_to-Adds snapshot table row p = snapshot-Adds row p
  add_to-Adds live table row p =
      live-Adds row p (has_required to_db_value summary_columns partition_name retention row)
  add_to-Adds hardware_row table row p = omega (arith, length-append p.hardware (row ∷ []))
  add_to-Adds event table row p = event-Adds row p
  add_to-Adds summary table row p = omega (arith, accounted-summary table row p)

  timed-Adds :
      (now : ℕ) (g : Group) (table : String) (row : Row) (ts : Option ℕ) (p : Plan P)
      → is_snapshot g ≡ 0
      → Adds g p
          (add_timed to_db_value summary_columns partition_name retention now g table row ts p)
  unfolding add_timed add_month accounted
  timed-Adds now g table row none p h = tt
  timed-Adds now g table row (some ts) p h =
      elim (Bool-cases (ltb (ts + span_of retention table) now)) [
        | inl old ↦ rw old (omega (arith, accounted-beyond table p))
        | inr fresh ↦ rw fresh (
            add_to-Adds g table row
              (add_month to_db_value summary_columns partition_name retention table ts p))
      ]

  row-Adds :
      (now : ℕ) (g : Group) (table : String) (row : Row) (column : Option String) (p : Plan P)
      → ((name : String) → column ≡ some name → is_snapshot g ≡ 0)
      → Adds g p
          (add_row to_db_value summary_columns partition_name retention now g table row column p)
  unfolding add_row
  row-Adds now g table row none p h = add_to-Adds g table row p
  row-Adds now g table row (some column) p h =
      timed-Adds now g table row (as_time (get column row)) p (h column refl)

  record-Adds :
      (now : ℕ) (r : Record) (table : Option String) (p : Plan P)
      → lookup r.kind tables ≡ table
      → Adds
          (group_of r.kind)
          p
          (add_record to_db_value summary_columns partition_name retention now r table p)
  unfolding add_record
  record-Adds now r none p h = tt
  record-Adds now r (some table) p h =
      row-Adds now (group_of r.kind) table r.row (lookup table partition_keys) p
        (λ column. partitioned_lem r.kind table column h)

  records-accounted :
      (now : ℕ) (records : List Record) (p : Plan P)
      → IfSome
          (λ q. accounted q + snapshots_in records ≡ accounted p + length records)
          (add_records to_db_value summary_columns partition_name retention now records p)
  unfolding add_records snapshots_in
  records-accounted now [] p = omega arith
  records-accounted now (r ∷ rs) p =
      go
        (add_record to_db_value summary_columns partition_name retention now r
          (lookup r.kind tables) p)
        (record-Adds now r (lookup r.kind tables) p refl) (λ q. records-accounted now rs q)
    where
      go :
          (o : Option (Plan P))
          → Adds (group_of r.kind) p o
          → ((q : Plan P)
              → IfSome
                  (λ z. accounted z + snapshots_in rs ≡ accounted q + length rs)
                  (add_records to_db_value summary_columns partition_name retention now rs q))
          → IfSome
              (λ z.
                accounted z + (is_snapshot (group_of r.kind) + snapshots_in rs)
                ≡ accounted p + length (r ∷ rs))
              (o >>= add_records to_db_value summary_columns partition_name retention now rs)
      go none h k = tt
      go (some q) h k =
          IfSome-map (λ z. accounted z + snapshots_in rs ≡ accounted q + length rs)
            (λ z.
              accounted z + (is_snapshot (group_of r.kind) + snapshots_in rs)
              ≡ accounted p + length (r ∷ rs))
            (add_records to_db_value summary_columns partition_name retention now rs q)
            (λ z later. omega (arith, later, h)) (k q)

  -- Every record of a planned batch is one of the rows to write, one of the rows counted as beyond
  -- retention, or a snapshot.
  pub plan-accounts :
      (records : List Record) (now : DateTime) (p : Plan P)
      → plan to_db_value summary_columns partition_name retention records now ≡ some p
      → accounted p + snapshots_in records ≡ length records
  unfolding plan plan_at accounted empty_plan
  plan-accounts records now p h =
      IfSome-some Counted (plan to_db_value summary_columns partition_name retention records now) p
        h (go (aware_micros now))
    where
      Counted : Plan P → Type 0
      Counted q = accounted q + snapshots_in records ≡ length records

      counted :
          (known : Bool) (t : ℕ)
          → IfSome Counted (
              if known
              then add_records to_db_value summary_columns partition_name retention t records
                  empty_plan
              else none)
      counted false t = tt
      counted true t =
          IfSome-map
            (λ q.
              accounted q + snapshots_in records ≡ accounted {P = P} empty_plan + length records)
            Counted
            (add_records to_db_value summary_columns partition_name retention t records empty_plan)
            (λ q later. omega (arith, later)) (records-accounted t records empty_plan)

      go :
          (t : Option ℕ)
          → IfSome Counted (plan_at to_db_value summary_columns partition_name retention records t)
      go none = tt
      go (some t) = counted (all (λ r. is_known (lookup r.kind tables)) records) t
