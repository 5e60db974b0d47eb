-- ===== src/Collector/Queue/Tests.antt =====
-- Tests of the record queue on small inputs, and instances of its theorems.
use mathlib.Core.Option
use native.Mathlib.Omega.{arith}
use node_monitor.Common.{String, false, ◌≡◌, refl, List, [], ◌∷◌, ◌++◌, text_eq, none}
use node_monitor.Common.Dict.{lookup, put, merge}
use node_monitor.Records.{Record, live_processes, live_node, collection_event}
use node_monitor.Collector.Queue.{
  empty, returned, key_error, runtime_error, put_records, put_all, put_one, merged, add_live,
  is_live_kind, close, drain, act_all, act, put_batch, close_queue, take, Wake,
}
use node_monitor.Collector.Queue.Conserve
use node_monitor.Collector.Queue.Conserve.{
  run, called, drained, accepted, History, Event, calls_of, StopsAt,
}
use node_monitor.Collector.Queue.Coalesce
use node_monitor.Collector.Queue.Coalesce.{newest, latest, waiting, IsCoalesced}

abbrev event : String → Record String
event t = record { kind = collection_event; row = ("event_type", t) ∷ [] }

abbrev snapshot : String → String → Record String
snapshot n t = record { kind = live_processes; row = ("node", n) ∷ ("ts", t) ∷ [] }

abbrev partial : String → String → String → Record String
partial n column v = record { kind = live_node; row = ("node", n) ∷ (column, v) ∷ [] }

abbrev nodeless : Record String
nodeless = record { kind = live_node; row = [] }

program : Unit {0}
unfolding put_records put_all put_one merged add_live is_live_kind close drain act_all act take
    lookup put merge Option.map Option.bind run Conserve.step accepted newest latest waiting
program = tt

abbrev batch : List (Record String)
batch =
    event "a"
    ∷ snapshot "n" "1"
    ∷ partial "n" "load1" "2"
    ∷ snapshot "n" "2"
    ∷ partial "n" "state" "up"
    ∷ []

waits : drain (put_records batch empty).1 ≡ (
  (
    event "a" ∷ [],
    snapshot "n" "2"
        ∷ record { kind = live_node; row = ("node", "n") ∷ ("load1", "2") ∷ ("state", "up") ∷ [] }
        ∷ [],
  ),
  empty,
)
unfolding program
waits = refl

-- A live row without a node raises KeyError, and what came before it is kept.
nodeless_kept :
    put_records (event "a" ∷ nodeless ∷ event "b" ∷ []) empty
    ≡ (key_error, record empty { durable = event "a" ∷ [] })
unfolding program
nodeless_kept = refl

abbrev calls : List (Event String)
calls =
    called (put_batch batch)
    ∷ drained
    ∷ called (put_batch (event "b" ∷ []))
    ∷ called close_queue
    ∷ called (put_batch (event "c" ∷ []))
    ∷ []

abbrev start : History String
start = record { queue = empty; taken = [] }

run_calls : (run calls start).taken ++ (run calls start).queue.durable ≡ event "a" ∷ event "b" ∷ []
unfolding program
run_calls = refl

run-conserves_durable_example :
    (run calls start).taken ++ (run calls start).queue.durable ≡ ([] ++ []) ++ accepted false calls
run-conserves_durable_example = Conserve.run-conserves_durable calls start

put_records-closed_example :
    put_records (event "a" ∷ []) (close empty) ≡ (runtime_error, close (empty {V = String}))
put_records-closed_example =
    Conserve.put_records-closed (event "a") [] (close empty) (unfold close in refl)

abbrev wakes : List (Wake String)
wakes = record { elapsed = 2; calls = put_batch batch ∷ [] } ∷ []

take-drains_example :
    (before : List (Wake String)) × (after : List (Wake String)) × (wakes ≡ before ++ after)
    × (take 5 wakes empty ≡ drain (act_all (calls_of before) empty))
    × StopsAt 5 before after (act_all (calls_of before) empty)
take-drains_example = Conserve.take-drains 5 wakes empty

batch_returns : (put_all batch empty).0 ≡ returned
unfolding program
batch_returns = refl

put_all-coalesces_example :
    (lookup "n" (put_all batch empty).1.processes ≡ newest "n" batch none)
    × (waiting "n" "load1" (put_all batch empty).1
        ≡ latest "n" "load1" batch (waiting "n" "load1" empty))
unfolding lookup
put_all-coalesces_example =
    Coalesce.put_all-coalesces "n" "load1" batch empty (ground arith) batch_returns

act_all-IsCoalesced_example : IsCoalesced (act_all (put_batch batch ∷ []) empty)
act_all-IsCoalesced_example =
    Coalesce.act_all-IsCoalesced (put_batch batch ∷ []) empty (ground arith, tt)
      (record {
        processes = tt;
        nodes = tt;
        filed_processes = tt;
        snapshots = tt;
        filed_nodes = tt;
      })
