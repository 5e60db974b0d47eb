-- ===== src/Collector/Daemon.antt =====
-- collector/daemon.py, `Daemon`: the callbacks of the sessions, which feed the pipelines and put
-- their records in the queue, and startup and shutdown. The pipelines are an interface; what the
-- sessions do is a list of callbacks. The queue itself, and the writer thread that drains it, are
-- collector/record_queue.py and collector/writer_thread.py; here are the calls made on the queue.
-- At the end of a run the clock is read once, and a callback's tap does not raise.
pub mod Lifecycle
mod Tests
use node_monitor.Common.{
  ℕ, String, Bool, true, false, List, [], ◌∷◌, ◌++◌, if◌then◌else◌, ◌==◌, text_eq, clip,
}
use node_monitor.Common.Dict.{Dict, put}
use node_monitor.Records.{Record, collection_event}
use node_monitor.Database.Storage.{Exc}
use node_monitor.Collector.Queue.{Action, put_batch, close_queue}

abbrev pub error_chars : ℕ
error_chars = 200

-- The values that the daemon itself puts in rows.
pub record Cells (V : Type 0) : Type 0 where
  pub text_cell : String → V
  pub time_cell : ℕ → V
  pub null_cell : V
  pub dict_cell : Dict String V → V

-- What a call of a pipeline ends in.
pub data Produced (V : Type 0) : Type 0 where
  records : List (Record V) → Produced V
  raised : Exc → Produced V

-- `NodePipeline`, with the state of one.
pub record Pipelines (V : Type 0) : Type 1 where
  pub State : Type 0
  pub Message : Type 0
  pub on_message : Message → ℕ → State → Produced V × State
  pub on_event : String → Dict String V → ℕ → State → Produced V × State
  pub flush : State → Produced V × State

-- A call by a session: its label, what it is about, and the time that the daemon reads.
pub data Callback (V : Type 0) (Message : Type 0) : Type 0 where
  message : String → Message → ℕ → Callback V Message
  event : String → String → Dict String V → ℕ → Callback V Message
  crash : String → Exc → ℕ → Callback V Message

-- `check_schema` at startup.
pub data Schema : Type 0 where
  current out_of_date unavailable unknown : Schema

-- `_schema_ok`: false only for a schema known to be out of date.
unfoldable pub schema_ok : Schema → Bool
schema_ok current = true
schema_ok out_of_date = false
schema_ok unavailable = true
schema_ok unknown = true

-- The pipelines by label, the states of the sessions, the calls made on the queue, and the records
-- that the tap has seen.
pub record Daemon (V : Type 0) (State : Type 0) : Type 0 where
  pub pipelines : String → State
  pub session_states : Dict String String
  pub calls : List (Action V)
  pub tapped : List (Record V)

unfoldable pub set_pipeline : {S : Type 0} → String → S → (String → S) → String → S
set_pipeline label s pipelines other = if label == other then s else pipelines other

-- The state of a session after one of its events.
unfoldable pub session_state_after : String → String → Dict String String → Dict String String
session_state_after kind label states =
    if kind == "session_started"
    then put label "up" states
    else if kind == "session_lost"
    then put label "down" states
    else states

unfoldable pub all_stopped : Dict String String → Dict String String
all_stopped [] = []
all_stopped ((label, state) ∷ more) = (label, "stopped") ∷ all_stopped more

module _ {V : Type 0} (cells : Cells V) (system : String) (host_of : String → String)
    (has_tap : Bool) (pl : Pipelines V) where
  unfoldable pub error_detail : Exc → Dict String V
  error_detail exc =
      ("type", cells.text_cell exc.name)
      ∷ ("error", cells.text_cell (clip error_chars exc.message))
      ∷ []

  unfoldable pub event_row : V → ℕ → String → Dict String V → Record V
  event_row node ts event_type detail = record {
    kind = collection_event;
    row =
        ("system", cells.text_cell system)
        ∷ ("node", node)
        ∷ ("ts", cells.time_cell ts)
        ∷ ("event_type", cells.text_cell event_type)
        ∷ ("detail", cells.dict_cell detail)
        ∷ [];
  }

  -- `_pipeline_error` and `_collector_event`
  unfoldable pub pipeline_error : String → Exc → ℕ → Record V
  pipeline_error label exc recv =
      event_row (cells.text_cell (host_of label)) recv "pipeline_error" (error_detail exc)

  unfoldable pub collector_event : String → Dict String V → ℕ → Record V
  collector_event event_type detail now = event_row cells.null_cell now event_type detail

  -- The records of a call, or one error in place of them.
  unfoldable pub delivered : String → ℕ → Produced V → List (Record V)
  delivered label recv (records rs) = rs
  delivered label recv (raised exc) = pipeline_error label exc recv ∷ []

  unfoldable pub tap : List (Record V) → Daemon V pl.State → Daemon V pl.State
  tap rs d = if has_tap then record d { tapped = d.tapped ++ rs } else d

  -- `_deliver`: the records of the call go to the tap, and then to the queue as one batch.
  unfoldable pub deliver :
      String → ℕ → Produced V × pl.State → Daemon V pl.State → Daemon V pl.State
  deliver label recv (produced, state) d =
      let rs = delivered label recv produced in
      let seen = tap rs d in
      record seen {
        pipelines = set_pipeline label state seen.pipelines;
        calls = seen.calls ++ put_batch rs ∷ [];
      }

  -- `_on_message`, `_on_event` and `_on_crash`
  unfoldable pub on_message : String → pl.Message → ℕ → Daemon V pl.State → Daemon V pl.State
  on_message label msg recv d = deliver label recv (pl.on_message msg recv (d.pipelines label)) d

  unfoldable pub on_event :
      String → String → Dict String V → ℕ → Daemon V pl.State → Daemon V pl.State
  on_event label kind detail recv d =
      deliver label recv (pl.on_event kind detail recv (d.pipelines label))
        (record d { session_states = session_state_after kind label d.session_states })

  unfoldable pub on_crash : String → Exc → ℕ → Daemon V pl.State → Daemon V pl.State
  on_crash label exc recv d =
      let after = on_event label "session_crashed" (error_detail exc) recv d in
      record after { session_states = put label "down" after.session_states }

  unfoldable pub call : Callback V pl.Message → Daemon V pl.State → Daemon V pl.State
  call (message label msg recv) d = on_message label msg recv d
  call (event label kind detail recv) d = on_event label kind detail recv d
  call (crash label exc recv) d = on_crash label exc recv d

  unfoldable pub call_all : List (Callback V pl.Message) → Daemon V pl.State → Daemon V pl.State
  call_all [] d = d
  call_all (c ∷ cs) d = call_all cs (call c d)

  -- The last records of each pipeline.
  unfoldable pub flushed : ℕ → List String → (String → pl.State) → List (Record V)
  flushed now [] pipelines = []
  flushed now (label ∷ labels) pipelines =
      delivered label now (pl.flush (pipelines label)).0 ++ flushed now labels pipelines

  -- `_finish_queue`
  unfoldable pub finish_queue : List String → ℕ → Daemon V pl.State → Daemon V pl.State
  finish_queue labels now d =
      let last = flushed now labels d.pipelines in
      let seen = tap last d in
      record seen {
        calls =
            seen.calls
            ++ put_batch (last ++ collector_event "collector_stopped" [] now ∷ [])
              ∷ close_queue
              ∷ [];
      }

  -- `run` once the schema has been checked: the sessions make their callbacks and stop.
  unfoldable pub run_checked :
      List String
      → Dict String V
      → ℕ
      → List (Callback V pl.Message)
      → ℕ
      → Daemon V pl.State
      → Daemon V pl.State
  run_checked labels detail started_at callbacks stopped_at d =
      let started = record d {
        calls =
            d.calls ++ put_batch (collector_event "collector_started" detail started_at ∷ []) ∷ [];
      } in
      let served = call_all callbacks started in
      finish_queue labels stopped_at
        (record served { session_states = all_stopped served.session_states })

  -- `run`: the exit code, and the daemon.
  unfoldable pub run :
      Schema
      → List String
      → Dict String V
      → ℕ
      → List (Callback V pl.Message)
      → ℕ
      → Daemon V pl.State
      → ℕ × Daemon V pl.State
  run schema labels detail started_at callbacks stopped_at d =
      let served = run_checked labels detail started_at callbacks stopped_at d in
      if schema_ok schema then (0, served) else (2, d)
