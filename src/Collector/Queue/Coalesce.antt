-- ===== src/Collector/Queue/Coalesce.antt =====
-- collector/record_queue.py: the snapshots and the partial rows that wait for each node.
use mathlib.Core.Option
use text.Mathlib.TextEquality.{eq_iff}
use node_monitor.Common.{
  String, Bool, false, ◌&&◌, ◌≡◌, refl, ◌∙◌, true, Bool-cases, Option, none, some, List, [], ◌∷◌,
  ◌==◌, Eq, text_eq, if◌then◌else◌, All, IsDistinct, arith, Option-cases, inl, inr, ◌≢◌,
}
use node_monitor.Common.Dict.{
  Dict, values, put, All-put, lookup, keys, or_else, lookup-put, lookup-merge, put-IsDistinct,
}
use node_monitor.Records.{Record, live_processes, live_node}
use node_monitor.Collector.Queue.{
  runtime_error, returned, RecordQueue, is_live_kind, merged, add_live, put_one, put_all,
  put_records, close, act, act_all, Action, put_batch, close_queue,
}

kinds_differ : live_processes ≢ live_node
kinds_differ = ground (arith, eq_iff live_processes live_node)

module _ {ℓ} {V : Type ℓ} ⦃e : Eq V⦄ where
  -- A live record of this kind for this node.
  unfoldable pub is_for : String → V → Record V → Bool
  is_for kind n r = elim (lookup "node" r.row) [ none ↦ false | some m ↦ r.kind == kind && m == n ]

  -- The newest snapshot of a node among the records, or the one that waited before.
  unfoldable pub newest : V → List (Record V) → Option (Record V) → Option (Record V)
  newest n [] before = before
  newest n (r ∷ rs) before = newest n rs (if is_for live_processes n r then some r else before)

  -- The newest value of a column of a node's partial rows, or the one that waited before.
  unfoldable pub latest : V → String → List (Record V) → Option V → Option V
  latest n column [] before = before
  latest n column (r ∷ rs) before =
      latest n column rs
        (if is_for live_node n r then or_else (lookup column r.row) before else before)

  -- A column of the partial row that waits for a node.
  unfoldable pub waiting : V → String → RecordQueue V → Option V
  waiting n column q = Option.bind (lookup n q.nodes) (λ r. lookup column r.row)

  -- Rows are dicts: no key twice.
  abbrev pub AreRows : List (Record V) → Type 0
  AreRows = All (λ r. IsDistinct (keys r.row))

  put_one-newest :
      (n : V) (r : Record V) (q q' : RecordQueue V)
      → put_one r q ≡ some q'
      → lookup n q'.processes ≡ (if is_for live_processes n r then some r else lookup n q.processes)
  unfolding put_one add_live is_for is_live_kind Option.map
  put_one-newest n r q q' h = elim (Option-cases (lookup "node" r.row)) [
    | inl missing ↦ ground arith
    | inr (m, found) ↦ ground (arith, lookup-put m n r q.processes)
  ]

  lookup-merged :
      (o : Option (Record V)) (r : Record V) (column : String)
      → IsDistinct (keys r.row)
      → lookup column (merged o r).row
        ≡ or_else (lookup column r.row) (Option.bind o (λ p. lookup column p.row))
  unfolding merged Option.bind
  lookup-merged none r column d = rw (lookup-merge column [] r.row d) (unfold lookup in refl)
  lookup-merged (some p) r column d = lookup-merge column p.row r.row d

  put_one-waiting :
      (n : V) (column : String) (r : Record V) (q q' : RecordQueue V)
      → IsDistinct (keys r.row)
      → put_one r q ≡ some q'
      → waiting n column q' ≡ (
          if is_for live_node n r
          then or_else (lookup column r.row) (waiting n column q)
          else waiting n column q)
  unfolding put_one add_live is_for is_live_kind waiting Option.map Option.bind
  put_one-waiting n column r q q' d h = elim (Option-cases (lookup "node" r.row)) [
    | inl missing ↦ ground arith
    | inr (m, found) ↦ ground (
      arith,
      kinds_differ,
      eq_iff r.kind live_processes,
      eq_iff r.kind live_node,
      e.equals_iff m n,
      lookup-put m n (merged (lookup m q.nodes) r) q.nodes,
      lookup-merged (lookup m q.nodes) r column d,
    )
  ]

  -- After a `put` that returns, the snapshot that waits for a node is the newest of the batch's
  -- snapshots of that node, or the one that waited before if the batch has none.
  put_all-newest :
      (n : V) (rs : List (Record V)) (q : RecordQueue V)
      → (put_all rs q).0 ≡ returned
      → lookup n (put_all rs q).1.processes ≡ newest n rs (lookup n q.processes)
  unfolding put_all newest
  put_all-newest n [] q h = refl
  put_all-newest n (r ∷ rs) q h = elim (Option-cases (put_one r q)) [
    | inl bad ↦ absurd (ground arith)
    | inr (q', good) ↦ ground (arith, put_one-newest n r q q' good, put_all-newest n rs q')
  ]

  -- After a `put` that returns, each column of the partial row that waits for a node has its
  -- newest value in the batch; a column that the batch does not give keeps the value it had.
  put_all-waiting :
      (n : V) (column : String) (rs : List (Record V)) (q : RecordQueue V)
      → AreRows rs
      → (put_all rs q).0 ≡ returned
      → waiting n column (put_all rs q).1 ≡ latest n column rs (waiting n column q)
  unfolding put_all latest
  put_all-waiting n column [] q rows h = refl
  put_all-waiting n column (r ∷ rs) q rows h = elim (Option-cases (put_one r q)) [
    | inl bad ↦ absurd (ground arith)
    | inr (q', good) ↦
        ground (
          arith,
          put_one-waiting n column r q q' rows.0 good,
          put_all-waiting n column rs q' rows.1,
        )
  ]

  -- After a `put` that returns, the snapshot that waits for a node is the newest of the batch's
  -- snapshots of that node, or the one that waited before if the batch has none; and each column of
  -- the partial row that waits for it has its newest value in the batch, or the value it had.
  pub put_all-coalesces :
      (n : V) (column : String) (rs : List (Record V)) (q : RecordQueue V)
      → AreRows rs
      → (put_all rs q).0 ≡ returned
      → (lookup n (put_all rs q).1.processes ≡ newest n rs (lookup n q.processes))
        × (waiting n column (put_all rs q).1 ≡ latest n column rs (waiting n column q))
  put_all-coalesces n column rs q rows h =
      (put_all-newest n rs q h, put_all-waiting n column rs q rows h)

  -- Each entry is a record of the node that it is filed under.
  abbrev pub AreFiled : Dict V (Record V) → Type ℓ
  AreFiled = All (λ entry. lookup "node" entry.1.row ≡ some entry.0)

  -- At most one snapshot and one partial row wait for each node, filed under that node.
  pub record IsCoalesced (q : RecordQueue V) : Type ℓ where
    pub processes : IsDistinct (keys q.processes)
    pub nodes : IsDistinct (keys q.nodes)
    pub filed_processes : AreFiled q.processes
    pub snapshots : All (λ r. r.kind ≡ live_processes) (values q.processes)
    pub filed_nodes : AreFiled q.nodes

  put-AreFiled :
      (n : V) (r : Record V) (d : Dict V (Record V))
      → lookup "node" r.row ≡ some n
      → AreFiled d
      → AreFiled (put n r d)
  unfolding put
  put-AreFiled n r [] found h = (found, tt)
  put-AreFiled n r ((m, s) ∷ d) found h = elim (Bool-cases (m == n)) [
    | inl same ↦ rw same (found, h.1)
    | inr other ↦ rw other (h.0, put-AreFiled n r d found h.1)
  ]

  add_live-IsCoalesced :
      (n : V) (r : Record V) (q : RecordQueue V)
      → lookup "node" r.row ≡ some n
      → IsDistinct (keys r.row)
      → IsCoalesced q
      → IsCoalesced (add_live n r q)
  unfolding add_live
  add_live-IsCoalesced n r q found row c = elim (Bool-cases (r.kind == live_processes)) [
    | inl snapshot ↦ rw snapshot (record {
      processes = put-IsDistinct n r q.processes c.processes;
      nodes = c.nodes;
      filed_processes = put-AreFiled n r q.processes found c.filed_processes;
      snapshots =
          All-put (λ s. s.kind ≡ live_processes) n r q.processes c.snapshots
            ((text_eq.equals_iff r.kind live_processes).0 snapshot);
      filed_nodes = c.filed_nodes;
    })
    | inr partial ↦
        let row' = merged (lookup n q.nodes) r in
        let kept : lookup "node" row'.row ≡ some n =
          lookup-merged (lookup n q.nodes) r "node" row ∙ rw found refl in
        rw partial (record {
          processes = c.processes;
          nodes = put-IsDistinct n row' q.nodes c.nodes;
          filed_processes = c.filed_processes;
          snapshots = c.snapshots;
          filed_nodes = put-AreFiled n row' q.nodes kept c.filed_nodes;
        })
  ]

  put_one-IsCoalesced :
      (r : Record V) (q q' : RecordQueue V)
      → IsDistinct (keys r.row)
      → IsCoalesced q
      → put_one r q ≡ some q'
      → IsCoalesced q'
  unfolding put_one Option.map
  put_one-IsCoalesced r q q' row c h = elim (Option-cases (lookup "node" r.row)) [
    | inl missing ↦ ground arith
    | inr (n, found) ↦ ground (arith, add_live-IsCoalesced n r q found row c)
  ]

  put_all-IsCoalesced :
      (rs : List (Record V)) (q : RecordQueue V)
      → AreRows rs
      → IsCoalesced q
      → IsCoalesced (put_all rs q).1
  unfolding put_all
  put_all-IsCoalesced [] q rows c = c
  put_all-IsCoalesced (r ∷ rs) q rows c = elim (Option-cases (put_one r q)) [
    | inl bad ↦ rw (bad, put_all) c
    | inr (q', good) ↦
        rw (good, put_all)
          (put_all-IsCoalesced rs q' rows.1 (put_one-IsCoalesced r q q' rows.0 c good))
  ]

  -- The rows that a call puts are dicts.
  abbrev pub PutsRows : Action V → Type 0
  PutsRows (put_batch rs) = AreRows rs
  PutsRows close_queue = Unit

  close-IsCoalesced : (q : RecordQueue V) → IsCoalesced q → IsCoalesced (close q)
  unfolding close
  close-IsCoalesced q c = record {
    processes = c.processes;
    nodes = c.nodes;
    filed_processes = c.filed_processes;
    snapshots = c.snapshots;
    filed_nodes = c.filed_nodes;
  }

  act-IsCoalesced :
      (a : Action V) (q : RecordQueue V) → PutsRows a → IsCoalesced q → IsCoalesced (act a q)
  unfolding act put_records
  act-IsCoalesced (put_batch []) q rows c = c
  act-IsCoalesced (put_batch (r ∷ rs)) q rows c = unless q.closed
    where
      unless :
          (closed : Bool)
          → IsCoalesced (if closed then (runtime_error, q) else put_all (r ∷ rs) q).1
      unless true = c
      unless false = put_all-IsCoalesced (r ∷ rs) q rows c
  act-IsCoalesced close_queue q rows c = close-IsCoalesced q c

  -- Whatever calls are made with rows that are dicts, and whether or not one raises: if at most one
  -- snapshot and one partial row wait for each node, each under the node that its row names and the
  -- snapshots of the kind of a snapshot, so it is after the calls.
  pub act_all-IsCoalesced :
      (calls : List (Action V)) (q : RecordQueue V)
      → All PutsRows calls
      → IsCoalesced q
      → IsCoalesced (act_all calls q)
  unfolding act_all
  act_all-IsCoalesced [] q rows c = c
  act_all-IsCoalesced (a ∷ rest) q rows c =
      act_all-IsCoalesced rest (act a q) rows.1 (act-IsCoalesced a q rows.0 c)
