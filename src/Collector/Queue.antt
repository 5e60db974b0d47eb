-- ===== src/Collector/Queue.antt =====
-- collector/record_queue.py: the hand-off from the pipelines to the writer thread. Durable records
-- wait in put order; live records are coalesced for each node while they wait.
pub mod Coalesce
pub mod Conserve
mod Tests
use node_monitor.Common.{
  ℕ, ◌+◌, ◌-◌, String, Bool, true, false, not, ◌||◌, Option, none, some, List, [], ◌∷◌, ◌++◌,
  if◌then◌else◌, Eq, ◌==◌, nat_eq, text_eq, length,
}
use mathlib.Core.Option
use node_monitor.Common.Dict.{Dict, lookup, put, merge, values}
use node_monitor.Records.{Record, live_processes, live_node}

-- What a call of `put` ends in: it returns, or it raises.
pub data Outcome : Type 0 where
  returned runtime_error key_error : Outcome

unfoldable pub is_empty {ℓ} : {A : Type ℓ} → List A → Bool
is_empty [] = true
is_empty (x ∷ xs) = false

pub record RecordQueue {ℓ} (V : Type ℓ) : Type ℓ where
  pub durable : List (Record V)
  pub processes : Dict V (Record V)
  pub nodes : Dict V (Record V)
  pub closed : Bool

abbrev pub empty {ℓ} : {V : Type ℓ} → RecordQueue V
empty = record { durable = []; processes = []; nodes = []; closed = false }

module _ {ℓ} {V : Type ℓ} ⦃e : Eq V⦄ where
  -- The row that waits for a node after one more partial row: later keys win.
  unfoldable pub merged : Option (Record V) → Record V → Record V
  merged (some previous) r = record { kind = live_node; row = merge previous.row r.row }
  merged none r = record { kind = live_node; row = merge [] r.row }

  -- The body of the loop in `put`, for a live record of the node `n`.
  unfoldable pub add_live : V → Record V → RecordQueue V → RecordQueue V
  add_live n r q =
      if r.kind == live_processes
      then record q { processes = put n r q.processes }
      else record q { nodes = put n (merged (lookup n q.nodes) r) q.nodes }

  unfoldable pub is_live_kind : Record V → Bool
  is_live_kind r = r.kind == live_processes || r.kind == live_node

  -- The body of the loop in `put`; `none` is the KeyError of a live row without "node".
  unfoldable pub put_one : Record V → RecordQueue V → Option (RecordQueue V)
  put_one r q =
      if is_live_kind r
      then Option.map (λ n. add_live n r q) (lookup "node" r.row)
      else some (record q { durable = q.durable ++ r ∷ [] })

  -- The loop in `put`: what came before a KeyError stays in the queue.
  unfoldable pub put_all : List (Record V) → RecordQueue V → Outcome × RecordQueue V
  put_all [] q = (returned, q)
  put_all (r ∷ rs) q = elim (put_one r q) [ none ↦ (key_error, q) | some q' ↦ put_all rs q' ]

  unfoldable pub put_records : List (Record V) → RecordQueue V → Outcome × RecordQueue V
  put_records [] q = (returned, q)
  put_records (r ∷ rs) q = if q.closed then (runtime_error, q) else put_all (r ∷ rs) q

  unfoldable pub close : RecordQueue V → RecordQueue V
  close q = record q { closed = true }

  unfoldable pub depth : RecordQueue V → ℕ × ℕ
  depth q = (length q.durable, length q.processes + length q.nodes)

  unfoldable pub has_records : RecordQueue V → Bool
  unfolding is_empty
  has_records q = not (is_empty q.durable) || not (is_empty q.processes) || not (is_empty q.nodes)

  -- What `take` does once it stops waiting: the durable and the live records, and the rest.
  unfoldable pub drain : RecordQueue V → (List (Record V) × List (Record V)) × RecordQueue V
  drain q = (
    (q.durable, values q.processes ++ values q.nodes),
    record q { durable = []; processes = []; nodes = [] },
  )

-- What other threads do to the queue while `take` waits.
pub data Action {ℓ} (V : Type ℓ) : Type ℓ where
  put_batch : List (Record V) → Action V
  close_queue : Action V

-- One return of `Condition.wait`: the time it took, and the calls made meanwhile.
pub record Wake {ℓ} (V : Type ℓ) : Type ℓ where
  pub elapsed : ℕ
  pub calls : List (Action V)

module _ {ℓ} {V : Type ℓ} ⦃e : Eq V⦄ where
  unfoldable pub act : Action V → RecordQueue V → RecordQueue V
  act (put_batch rs) q = (put_records rs q).1
  act close_queue q = close q

  unfoldable pub act_all : List (Action V) → RecordQueue V → RecordQueue V
  act_all [] q = q
  act_all (a ∷ rest) q = act_all rest (act a q)

  -- `take`: `remaining` is the time to the deadline. With no wake-up left the wait times out.
  unfoldable pub take :
      ℕ → List (Wake V) → RecordQueue V → (List (Record V) × List (Record V)) × RecordQueue V
  take remaining [] q = drain q
  take remaining (w ∷ wakes) q =
      let later = take (remaining - w.elapsed) wakes (act_all w.calls q) in
      if has_records q || q.closed || remaining == 0 then drain q else later
