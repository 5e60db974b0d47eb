-- ===== src/Collector/Daemon/Tests.antt =====
-- An example for the theorem on the daemon: two callbacks, one of which makes a pipeline fail.
use node_monitor.Common.{ℕ, suc, ◌≡◌, refl, ap, String, true, List, [], ◌∷◌, ◌++◌, text_eq}
use node_monitor.Common.Dict.{Dict}
use node_monitor.Records.{collection_event}
use node_monitor.Collector.Queue.{Action, empty, is_live_kind}
use node_monitor.Collector.Queue.Conserve.{Event, called, drained, run, durables, is_stored}
use node_monitor.Collector.Daemon.{
  Cells, Produced, records, raised, Pipelines, Callback, message, event, run_checked,
  collector_event, delivered, flushed, call, call_all, on_message, on_event, deliver, tap,
  pipeline_error, event_row, session_state_after, set_pipeline,
}
use node_monitor.Collector.Daemon.Lifecycle.{
  produced, batch_of, calls_in, IsNamed, served, fresh, run-delivers,
}

abbrev cells : Cells String
cells = record {
  text_cell = λ s. s;
  time_cell = λ n. "time";
  null_cell = "";
  dict_cell = λ d. "detail";
}

abbrev fails : String → ℕ → ℕ → Produced String × ℕ
fails text recv n = (raised (record { name = "ValueError"; message = text }), suc n)

abbrev noted : String → Dict String String → ℕ → ℕ → Produced String × ℕ
noted kind detail recv n =
    (records (record { kind = collection_event; row = ("event_type", kind) ∷ [] } ∷ []), suc n)

abbrev flush : ℕ → Produced String × ℕ
flush n = (records [], n)

abbrev pipelines : Pipelines String
pipelines = record {
  State = ℕ;
  Message = String;
  on_message = fails;
  on_event = noted;
  flush = flush;
}

abbrev callbacks : List (Callback String String)
callbacks = event "n1" "session_started" [] 2 ∷ message "n1" "bad" 3 ∷ []

abbrev host_of : String → String
host_of label = label

abbrev at_zero : String → ℕ
at_zero label = 0

abbrev states : Dict String String
states = ("n1", "starting") ∷ []

abbrev calls : List (Action String)
calls =
    (run_checked cells "sys" host_of true pipelines ("n1" ∷ []) [] 1 callbacks 4
      (fresh cells "sys" host_of true pipelines at_zero states)).calls

-- The daemon's calls, with a drain by the writer first.
abbrev events_of : List (Action String) → List (Event String)
events_of [] = []
events_of (a ∷ rest) = called a ∷ events_of rest

calls_in-events_of : (actions : List (Action String)) → calls_in (events_of actions) ≡ actions
unfolding calls_in
calls_in-events_of [] = refl
calls_in-events_of (a ∷ rest) = ap (λ more. a ∷ more) (calls_in-events_of rest)

abbrev es : List (Event String)
es = drained ∷ events_of calls

same_calls : calls_in es ≡ calls
unfolding calls_in
same_calls = calls_in-events_of calls

served-IsNamed :
    IsNamed (served cells "sys" host_of true pipelines ("n1" ∷ []) [] 1 callbacks 4 at_zero states)
unfolding served produced batch_of delivered flushed call call_all on_message on_event deliver tap
    is_stored is_live_kind pipeline_error event_row session_state_after set_pipeline
served-IsNamed = (refl, (refl, tt))

run-delivers_example :
    (run es (record { queue = empty; taken = [] })).taken
      ++ (run es (record { queue = empty; taken = [] })).queue.durable
    ≡ collector_event cells "sys" host_of true pipelines "collector_started" [] 1
        ∷ durables
            (served cells "sys" host_of true pipelines ("n1" ∷ []) [] 1 callbacks 4 at_zero states)
      ++ collector_event cells "sys" host_of true pipelines "collector_stopped" [] 4 ∷ []
run-delivers_example =
    run-delivers cells "sys" host_of true pipelines ("n1" ∷ []) [] 1 callbacks 4 at_zero states es
      same_calls served-IsNamed
