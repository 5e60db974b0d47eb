-- ===== src/Database/Maintenance/Retained.antt =====
-- database/maintenance.py: which rows a run of maintenance keeps.
use node_monitor.Common.{
  ℕ, ◌+◌, ◌≤◌, ◌<◌, String, ◌≡◌, refl, sym, ap, ◌∙◌, Bool, true, false, Option, none, some, List,
  [], ◌∷◌, ◌++◌, if◌then◌else◌, ◌==◌, text_eq, leb, keep, keep-append, All, append-nil,
  append_assoc, All-append, arith, Bool-cases, inl, inr,
}
use node_monitor.Common.Dict.{put, lookup-put}
use node_monitor.Database.Maintenance.{
  Month, next_month, Calendar, Name, monthly, other_name, Partition, Database, Retention,
  partitioned, span_of, or_no_parts, attached, has_month, create_if, ensure_partition, after_one,
  ensure_all, all_pairs, months_from, ensure_partitions, is_expired, stays, swept, retain,
  apply_retention, after_ensure, run,
}

-- All rows of some partitions, in order.
unfoldable pub all_rows : List Partition → List ℕ
all_rows [] = []
all_rows (p ∷ ps) = p.rows ++ all_rows ps

-- Not older than `now - span`.
unfoldable pub recent : ℕ → ℕ → List ℕ → List ℕ
recent now span rows = keep (λ t. leb now (t + span)) rows

attached-put :
    (T table : String) (parts : List Partition) (db : Database)
    → attached T (put table parts db) ≡ (if table == T then parts else attached T db)
unfolding attached or_no_parts
attached-put T table parts db = elim (Bool-cases (table == T)) [
  | inl same ↦ rw (lookup-put table T parts db, same) refl
  | inr other ↦ rw (lookup-put table T parts db, other) refl
]

module _ (cal : Calendar) where
  -- The bounds of a partition's rows, which the database keeps.
  unfoldable pub IsIn : Name → List ℕ → Type 0
  IsIn (monthly m) rows = All (λ t. (cal.start_of m ≤ t) × (t < cal.start_of (next_month m))) rows
  IsIn (other_name name) rows = Unit

  unfoldable pub IsPlaced : List Partition → Type 0
  IsPlaced parts = All (λ p. IsIn p.name p.rows) parts

  -- A change of the database that keeps the recent rows of a table and their bounds.
  abbrev Keeps : ℕ → ℕ → String → Database → Database → Type 0
  Keeps now span T before after =
      IsPlaced (attached T after)
      × (recent now span (all_rows (attached T after))
          ≡ recent now span (all_rows (attached T before)))

  old_rows :
      (now span : ℕ) (m : Month) (rows : List ℕ)
      → cal.start_of (next_month m) + span ≤ now
      → All (λ t. (cal.start_of m ≤ t) × (t < cal.start_of (next_month m))) rows
      → recent now span rows ≡ []
  unfolding recent
  old_rows now span m [] h k = refl
  old_rows now span m (t ∷ rows) h k = ground (arith, old_rows now span m rows h k.1, k.0.1)

  all_rows-append : (ps qs : List Partition) → all_rows (ps ++ qs) ≡ all_rows ps ++ all_rows qs
  unfolding all_rows
  all_rows-append [] qs = refl
  all_rows-append (p ∷ ps) qs =
      rw (all_rows-append ps qs) (sym (append_assoc p.rows (all_rows ps) (all_rows qs)))

  put-Keeps :
      (now span : ℕ) (T table : String) (parts : List Partition) (db : Database)
      → IsPlaced (attached T db)
      → (table ≡ T
          → IsPlaced parts
            × (recent now span (all_rows parts) ≡ recent now span (all_rows (attached T db))))
      → Keeps now span T db (put table parts db)
  put-Keeps now span T table parts db h changed = elim (Bool-cases (table == T)) [
    | inl same ↦
        rw (attached-put T table parts db, same) (changed ((text_eq.equals_iff table T).0 same))
    | inr other ↦ rw (attached-put T table parts db, other) (h, refl)
  ]

  created :
      (now span : ℕ) (m : Month) (parts : List Partition)
      → IsPlaced parts
      → IsPlaced (parts ++ record { name = monthly m; rows = [] } ∷ [])
        × (recent now span (all_rows (parts ++ record { name = monthly m; rows = [] } ∷ []))
            ≡ recent now span (all_rows parts))
  unfolding IsPlaced all_rows IsIn
  created now span m parts h = (
    All-append (λ p. IsIn p.name p.rows) parts (record { name = monthly m; rows = [] } ∷ []) h
        (tt, tt),
    ap (recent now span) (
        all_rows-append parts (record { name = monthly m; rows = [] } ∷ [])
        ∙ append-nil (all_rows parts)),
  )

  ensure_partition-Keeps :
      (can_create : String → Month → Bool) (now span : ℕ) (T table : String) (m : Month)
      (db : Database)
      → IsPlaced (attached T db)
      → Keeps now span T db (ensure_partition can_create table m db).1
  unfolding ensure_partition create_if
  ensure_partition-Keeps can_create now span T table m db h =
      go (has_month m (attached table db)) (can_create table m)
    where
      go : (there lock : Bool) → Keeps now span T db (create_if can_create there lock table m db).1
      go true lock = (h, refl)
      go false false = (h, refl)
      go false true =
          put-Keeps now span T table
            (attached table db ++ record { name = monthly m; rows = [] } ∷ []) db h
            (λ same. rw same (created now span m (attached T db) h))

  ensure_all-Keeps :
      (can_create : String → Month → Bool) (now span : ℕ) (T : String)
      (pairs : List (String × Month)) (db : Database)
      → IsPlaced (attached T db)
      → Keeps now span T db (ensure_all can_create pairs db).1
  unfolding ensure_all after_one
  ensure_all-Keeps can_create now span T [] db h = (h, refl)
  ensure_all-Keeps can_create now span T ((table, m) ∷ more) db h =
      let next = ensure_partition can_create table m db in
      let one = ensure_partition-Keeps can_create now span T table m db h in
      go next.0 one (ensure_all-Keeps can_create now span T more next.1 one.0)
    where
      next : Option Bool × Database
      next = ensure_partition can_create table m db

      rest : Option (List (String × Month)) × Database
      rest = ensure_all can_create more next.1

      go :
          (new : Option Bool)
          → Keeps now span T db next.1
          → Keeps now span T next.1 rest.1
          → Keeps now span T db (after_one can_create new table m rest next.1).1
      go none one more_kept = one
      go (some new) one more_kept = (more_kept.0, more_kept.1 ∙ one.1)

  module _ (can_create can_drop : String → Month → Bool) where
    gone_rows :
        (table : String) (now span : ℕ) (name : Name) (rows : List ℕ)
        → stays cal can_create can_drop table now span name ≡ false
        → IsIn name rows
        → recent now span rows ≡ []
    unfolding stays is_expired IsIn
    gone_rows table now span (other_name name) rows gone h = absurd (ground (arith, gone))
    gone_rows table now span (monthly m) rows gone h = old_rows now span m rows (ground arith) h

    recent-append :
        (now span : ℕ) (xs ys : List ℕ)
        → recent now span (xs ++ ys) ≡ recent now span xs ++ recent now span ys
    unfolding recent
    recent-append now span xs ys = keep-append (λ t. leb now (t + span)) xs ys

    swept-Keeps :
        (table : String) (now span : ℕ) (parts : List Partition)
        → IsPlaced parts
        → IsPlaced (swept cal can_create can_drop table now span parts)
          × (recent now span (all_rows (swept cal can_create can_drop table now span parts))
              ≡ recent now span (all_rows parts))
    unfolding swept IsPlaced all_rows
    swept-Keeps table now span [] h = (tt, refl)
    swept-Keeps table now span (p ∷ ps) h =
        let rest = swept-Keeps table now span ps h.1 in
        elim (Bool-cases (stays cal can_create can_drop table now span p.name)) [
          | inl stayed ↦ rw stayed (
            (h.0, rest.0),
            recent-append now span p.rows
                  (all_rows (swept cal can_create can_drop table now span ps))
                ∙ ap (λ rows. recent now span p.rows ++ rows) rest.1
                ∙ sym (recent-append now span p.rows (all_rows ps)),
          )
          | inr gone ↦ rw gone (
            rest.0,
            rest.1
                ∙ ap (λ rows. rows ++ recent now span (all_rows ps))
                    (sym (gone_rows table now span p.name p.rows gone h.0))
                ∙ sym (recent-append now span p.rows (all_rows ps)),
          )
        ]

    retain-Keeps :
        (now : ℕ) (r : Retention) (T : String) (tables : List String) (db : Database)
        → IsPlaced (attached T db)
        → Keeps now (span_of r T) T db (retain cal can_create can_drop now r tables db).db
    unfolding retain
    retain-Keeps now r T [] db h = (h, refl)
    retain-Keeps now r T (table ∷ tables) db h =
        let span = span_of r table in
        let parts = swept cal can_create can_drop table now span (attached table db) in
        let one =
          put-Keeps now (span_of r T) T table parts db h
            (λ same. rw same (swept-Keeps T now (span_of r T) (attached T db) h)) in
        let rest = retain-Keeps now r T tables (put table parts db) one.0 in
        (rest.0, rest.1 ∙ one.1)

    -- Maintenance keeps every row of every table that is not older than the table's retention,
    -- in order, whatever locks can be had and also if it raises, provided that the rows of each
    -- monthly partition lie in their month.
    pub run-retains :
        (now : ℕ) (r : Retention) (table : String) (db : Database)
        → IsPlaced (attached table db)
        → recent now
            (span_of r table)
            (all_rows (attached table (run cal can_create can_drop now r db).1))
          ≡ recent now (span_of r table) (all_rows (attached table db))
    unfolding run after_ensure ensure_partitions apply_retention
    run-retains now r table db h =
        let span = span_of r table in
        let pairs = all_pairs partitioned (months_from 2 (cal.month_of now)) in
        let ensured = ensure_all can_create pairs db in
        let one = ensure_all-Keeps can_create now span table pairs db h in
        go ensured.0 one (retain-Keeps now r table partitioned ensured.1 one.0)
      where
        span : ℕ
        span = span_of r table

        ensured : Database
        ensured = (ensure_partitions cal can_create can_drop now 2 db).1

        go :
            (created : Option (List (String × Month)))
            → Keeps now span table db ensured
            → Keeps now span table ensured
                (apply_retention cal can_create can_drop now r ensured).db
            → recent now span (
                all_rows (
                  attached table (after_ensure cal can_create can_drop now r (created, ensured)).1))
              ≡ recent now span (all_rows (attached table db))
        go none one two = one.1
        go (some names) one two = two.1 ∙ one.1
