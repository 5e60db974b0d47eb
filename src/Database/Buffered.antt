-- ===== src/Database/Buffered.antt =====
-- database/buffered.py: writes batches to the database, and to the spool while it is unavailable.
-- The functions take the whole state: the writer's own fields, the world outside, and the lists
-- `events` and `beyond` that `submit` hands down.
pub mod Keeps
pub mod Events
pub mod Outage
pub mod Journal
mod Tests
use mathlib.Core.Option
use Prim.Native.String.append
use node_monitor.Common.{
  ℕ, zero, suc, ◌+◌, ◌-◌, ◌*◌, min, String, Bool, true, false, not, ◌&&◌, ◌||◌, Option, none, some,
  List, [], ◌∷◌, ◌++◌, if◌then◌else◌, Eq, ◌==◌, nat_eq, text_eq, length, keep, all, contains, ltb,
  leb,
}
use node_monitor.Common.Dict.{Dict, lookup, put, discard}
use node_monitor.Records.{collection_event, is_live}
use node_monitor.Values.{
  Value, null, text, time, dict, int, count, negsuc, Fields, end, field, DateTime, later,
  require_aware, Record,
}
use node_monitor.Database.Storage.{Exc, Written, wrote, unavailable, failed, SpoolResult, Storage}

-- The arguments of `BufferedWriter.__init__`; the backoff is in microseconds, the replay budget in
-- the unit of the clock.
pub record Config : Type 0 where
  pub system : String
  pub backoff_low : ℕ
  pub backoff_high : ℕ
  pub max_replay_attempts : ℕ
  pub replay_budget : ℕ

module _ (st : Storage) where
  pub record State : Type 0 where
    pub world : st.World
    pub replay_failures : Dict st.FilePath ℕ
    pub connected : Bool
    pub outage_since : Option DateTime
    pub next_retry : Option DateTime
    pub delay : Option ℕ
    pub replayed_batches : ℕ
    pub replayed_records : ℕ
    pub superseded_batches : ℕ
    pub event_counts : Dict String ℕ
    pub carried : List Record
    pub skip : List st.FilePath
    -- The lists of the `submit` in progress.
    pub events : List Record
    pub beyond : Dict String ℕ

-- `_describe`: the first 200 characters of the message.
unfoldable pub cut : ℕ → String → String
cut zero s = String.[]
cut (suc n) String.[] = String.[]
cut (suc n) (String.◌∷◌ c s) = String.◌∷◌ c (cut n s)

unfoldable pub joined : String → String → String
joined String.[] t = t
joined (String.◌∷◌ c s) t = String.◌∷◌ c (joined s t)

unfoldable pub describe : Exc → String
describe exc = joined exc.name (joined ": " (cut 200 exc.message))

unfoldable pub has_any {ℓ} : {A : Type ℓ} → List A → Bool
has_any [] = false
has_any (x ∷ xs) = true

-- `xs[:-1]`
unfoldable pub all_but_last {ℓ} : {A : Type ℓ} → List A → List A
all_but_last [] = []
all_but_last (x ∷ []) = []
all_but_last (x ∷ y ∷ xs) = x ∷ all_but_last (y ∷ xs)

unfoldable pub is_some {ℓ} : {A : Type ℓ} → Option A → Bool
is_some none = false
is_some (some a) = true

-- `Counter.update`
unfoldable pub add_counts : Dict String ℕ → Dict String ℕ → Dict String ℕ
add_counts into [] = into
add_counts into ((t, n) ∷ more) = add_counts (put t (Option.get_or (lookup t into) 0 + n) into) more

unfoldable pub counts_value : Dict String ℕ → Fields
counts_value [] = end
counts_value ((t, n) ∷ more) = field t (count n) (counts_value more)

unfoldable pub optional_text : Option String → Value
optional_text none = null
optional_text (some s) = text s

-- `(now - since).total_seconds()`, in microseconds.
unfoldable pub elapsed_value : DateTime → DateTime → Value
elapsed_value t since =
    if leb since.micros t.micros
    then count (t.micros - since.micros)
    else int (negsuc (since.micros - t.micros - 1))

-- What one round of the loop in `_replay` ends in.
pub data Turn : Type 0 where
  passed written out_of_time : Turn
  lost : Exc → Turn

-- `_replay` returns (wrote, drained), or raises DatabaseUnavailable.
pub data Replay : Type 0 where
  replayed : Bool → Bool → Replay
  raised : Exc → Replay

-- What `submit` ends in: the events, ValueError for a naive time, or the writer's exception.
pub data Submitted : Type 0 where
  events_of : List Record → Submitted
  naive_time : Submitted
  write_error : Exc → Submitted

module _ (st : Storage) (config : Config) (now : DateTime) where
  unfoldable pub nth : String → State st → ℕ
  nth event_type s = Option.get_or (lookup event_type s.event_counts) 0

  -- `_event`: the i-th event of a type in a submit is stamped i microseconds later.
  unfoldable pub event_record : String → ℕ → Fields → Record
  event_record event_type n detail = record {
    kind = collection_event;
    row =
        ("system", text config.system)
        ∷ ("node", null)
        ∷ ("ts", time (later now n))
        ∷ ("event_type", text event_type)
        ∷ ("detail", dict detail)
        ∷ [];
  }

  -- `events.append(self._event(...))`
  unfoldable pub add_event : String → Fields → State st → State st
  add_event event_type detail s = record s {
    event_counts = put event_type (nth event_type s + 1) s.event_counts;
    events = s.events ++ event_record event_type (nth event_type s) detail ∷ [];
  }

  unfoldable pub error_detail : Exc → Fields
  error_detail exc = field "error" (text (describe exc)) end

  -- The events of `_store`, from the result of `Spool.append`.
  unfoldable pub report_drops : SpoolResult → State st → State st
  report_drops result s =
      if ltb 0 result.dropped_batches
      then add_event "spool_dropped"
          (field "batches" (count result.dropped_batches)
            (field "records" (count result.dropped_records) end))
          s
      else s

  unfoldable pub report_failure : SpoolResult → State st → State st
  report_failure result s =
      if result.stored
      then s
      else add_event "spool_write_failed" (field "error" (optional_text result.error) end) s

  unfoldable pub store : List Record → State st → State st
  store [] s = s
  store (r ∷ rs) s =
      let (result, w) = st.append (r ∷ rs) s.world in
      report_failure result (report_drops result (record s { world = w }))

  -- `_fail`, by whether an outage is going on. While one is, the delay is never None: see
  -- Buffered/Outage.
  unfoldable pub outage_step : Option DateTime → Exc → State st → State st
  outage_step none exc s = add_event "database_unavailable" (error_detail exc) (record s {
    outage_since = some now;
    delay = some (min config.backoff_low config.backoff_high);
  })
  outage_step (some since) exc s = record s {
    delay = Option.map (λ d. min (d * 2) config.backoff_high) s.delay;
  }

  unfoldable pub enter_outage : Exc → State st → State st
  enter_outage exc s = outage_step s.outage_since exc s

  unfoldable pub schedule_retry : State st → State st
  schedule_retry s = record s { next_retry = Option.map (λ d. later now d) s.delay }

  unfoldable pub fail : Exc → List Record → State st → State st
  fail exc records s =
      store records (schedule_retry (enter_outage exc (record s { connected = false })))

  unfoldable pub recovered_detail : State st → Fields
  recovered_detail s =
      field "outage_sec" (elim s.outage_since [ none ↦ null | some t ↦ elapsed_value now t ])
        (field "replayed_batches" (count s.replayed_batches) (
          field "replayed_records" (count s.replayed_records)
            (field "superseded_batches" (count s.superseded_batches) end)))

  unfoldable pub is_recovery : State st → Bool
  is_recovery s = is_some s.outage_since || ltb 0 s.replayed_batches || ltb 0 s.superseded_batches

  unfoldable pub recover : State st → State st
  recover s =
      record (if is_recovery s then add_event "database_recovered" (recovered_detail s) s else s) {
        connected = true;
        outage_since = none;
        next_retry = none;
        delay = none;
        replayed_batches = 0;
        replayed_records = 0;
        superseded_batches = 0;
      }

  -- A file that could be neither removed nor moved away is skipped from now on.
  unfoldable pub skip_left : st.FilePath → State st → State st
  skip_left p s = if st.exists p s.world then record s { skip = p ∷ s.skip } else s

  unfoldable pub forget_failures : st.FilePath → State st → State st
  forget_failures p s = record s { replay_failures = discard ⦃e = st.path_eq⦄ p s.replay_failures }

  unfoldable pub drop_superseded : st.FilePath → State st → State st
  drop_superseded p s =
      let s1 = forget_failures p s in
      let s2 = record s1 { world = st.remove p s1.world } in
      if st.exists p s2.world
      then record s2 { skip = p ∷ s2.skip }
      else record s2 { superseded_batches = s2.superseded_batches + 1 }

  unfoldable pub quarantine_spooled : st.FilePath → Fields → State st → State st
  quarantine_spooled p detail s =
      let s1 = forget_failures p s in
      add_event "spool_batch_quarantined" (field "file" (text (st.name p)) detail)
        (skip_left p (record s1 { world = st.quarantine p s1.world }))

  -- A fresh batch that the database rejected: live state is only reported, the rest is kept.
  unfoldable pub quarantine_fresh : List Record → Exc → State st → State st
  quarantine_fresh [] exc s = s
  quarantine_fresh (r ∷ rs) exc s =
      if all is_live (r ∷ rs)
      then add_event "spool_batch_quarantined"
          (field "file" null (field "reason" (text "live-only batch not kept") (error_detail exc)))
          s
      else (let (name, w) = st.quarantine_records (r ∷ rs) (describe exc) s.world in
          add_event "spool_batch_quarantined" (field "file" (optional_text name) (error_detail exc))
            (record s { world = w }))

  -- A replayed batch that was written.
  unfoldable pub finish_replayed : st.FilePath → List Record → Dict String ℕ → State st → State st
  finish_replayed p batch beyond s =
      let s1 = forget_failures p s in
      let s2 = skip_left p (record s1 { world = st.remove p s1.world }) in
      record s2 {
        replayed_batches = s2.replayed_batches + 1;
        replayed_records = s2.replayed_records + length batch;
        beyond = add_counts s2.beyond beyond;
      }

  -- An outage-class failure of a replayed batch while the database answers: by whether there were
  -- fewer of them than `max_replay_attempts`.
  unfoldable pub blame : Bool → st.FilePath → ℕ → Exc → State st → Turn × State st
  blame true p failures exc s =
      (lost exc, record s { replay_failures = put ⦃e = st.path_eq⦄ p failures s.replay_failures })
  blame false p failures exc s = (
    passed,
    quarantine_spooled p
        (field "error" (text (describe exc)) (
          field "reason" (text "repeated failure while the database answered")
            (field "attempts" (count failures) end)))
        s,
  )

  unfoldable pub failures_of : st.FilePath → State st → ℕ
  failures_of p s = Option.get_or (lookup ⦃e = st.path_eq⦄ p s.replay_failures) 0

  -- By whether the database answers the ping.
  unfoldable pub suspect_if : Bool → st.FilePath → Exc → State st → Turn × State st
  suspect_if false p exc s = (lost exc, s)
  suspect_if true p exc s =
      let failures = failures_of p s + 1 in
      blame (ltb failures config.max_replay_attempts) p failures exc s

  unfoldable pub suspect : st.FilePath → Exc → State st → Turn × State st
  suspect p exc s =
      let (alive, w) = st.ping s.world in suspect_if alive p exc (record s { world = w })

  unfoldable pub after_write : st.FilePath → List Record → Written → State st → Turn × State st
  after_write p batch (wrote beyond) s = (written, finish_replayed p batch beyond s)
  after_write p batch (unavailable exc) s = suspect p exc s
  after_write p batch (failed exc) s = (passed, quarantine_spooled p (error_detail exc) s)

  unfoldable pub write_batch : List Record → State st → Written × State st
  write_batch batch s =
      let (result, w) = st.write batch now s.world in (result, record s { world = w })

  unfoldable pub replay_read : st.FilePath → Option (List Record) → State st → Turn × State st
  replay_read p none s = (passed, s)
  replay_read p (some batch) s =
      let (result, s1) = write_batch batch s in after_write p batch result s1

  -- After one round: go on with the other files, or leave the loop.
  unfoldable pub go_on : Turn → Bool → (Bool → Replay × State st) → State st → Replay × State st
  go_on passed wrote_any rest s = rest wrote_any
  go_on written wrote_any rest s = rest true
  go_on out_of_time wrote_any rest s = (replayed wrote_any false, s)
  go_on (lost exc) wrote_any rest s = (raised exc, s)

  -- One file of the replay, by whether the time is up and whether the file is superseded.
  unfoldable pub replay_if : Bool → Bool → st.FilePath → State st → Turn × State st
  replay_if true superseded p s = (out_of_time, s)
  replay_if false true p s = (passed, drop_superseded p s)
  replay_if false false p s =
      let (batch, w) = st.read p s.world in replay_read p batch (record s { world = w })

  -- The body of the loop in `_replay`.
  unfoldable pub replay_one : ℕ → List st.FilePath → st.FilePath → State st → Turn × State st
  replay_one started superseded p s =
      let (t, w) = st.clock s.world in
      replay_if (leb (started + config.replay_budget) t) (contains ⦃e = st.path_eq⦄ p superseded) p
        (record s { world = w })

  unfoldable pub replay_loop :
      ℕ → List st.FilePath → Bool → List st.FilePath → State st → Replay × State st
  replay_loop started superseded wrote_any [] s = (replayed wrote_any true, s)
  replay_loop started superseded wrote_any (p ∷ ps) s =
      let (turn, s') = replay_one started superseded p s in
      go_on turn wrote_any (λ w. replay_loop started superseded w ps s') s'

  -- The files to replay, and those whose live state a newer file replaces.
  unfoldable pub replay_files : State st → List st.FilePath
  replay_files s = keep (λ p. not (contains ⦃e = st.path_eq⦄ p s.skip)) (st.batch_files s.world)

  unfoldable pub superseded_files : List st.FilePath → List st.FilePath
  superseded_files files = all_but_last (keep st.is_live_only files)

  unfoldable pub replay : State st → Replay × State st
  replay s =
      let (started, w) = st.clock s.world in
      let s1 = record s { world = w } in
      let files = replay_files s1 in replay_loop started (superseded_files files) false files s1

  -- Out of time with batches left: the records go behind them.
  unfoldable pub queue_behind : Bool → List Record → State st → State st
  queue_behind wrote_any records s =
      store records (if wrote_any then record s { connected = true; next_retry = none } else s)

  -- The end of `_attempt`, from the result of the write of the records themselves.
  unfoldable pub settle : Bool → List Record → Written → State st → Option Exc × State st
  settle wrote_any records (wrote beyond) s =
      (none, recover (record s { beyond = add_counts s.beyond beyond }))
  settle wrote_any records (unavailable exc) s = (none, fail exc records s)
  settle wrote_any records (failed exc) s =
      (some exc, quarantine_fresh records exc (if wrote_any then recover s else s))

  -- By whether the records are written at all: with nothing replayed, an empty write still tells
  -- whether the outage is over.
  unfoldable pub write_if : Bool → Bool → List Record → State st → Option Exc × State st
  write_if true wrote_any records s =
      let (result, s1) = write_batch records s in settle wrote_any records result s1
  write_if false true records s = (none, recover s)
  write_if false false records s = (none, s)

  unfoldable pub write_fresh : Bool → List Record → State st → Option Exc × State st
  write_fresh wrote_any records s =
      write_if (has_any records || (is_some s.outage_since && not wrote_any)) wrote_any records s

  unfoldable pub after_replay : List Record → Replay → State st → Option Exc × State st
  after_replay records (raised exc) s = (none, fail exc records s)
  after_replay records (replayed wrote_any false) s = (none, queue_behind wrote_any records s)
  after_replay records (replayed wrote_any true) s = write_fresh wrote_any records s

  unfoldable pub attempt : List Record → State st → Option Exc × State st
  attempt records s = let (result, s1) = replay s in after_replay records result s1

  unfoldable pub quarantine_events : List (String × String) → State st → State st
  quarantine_events [] s = s
  quarantine_events ((name, reason) ∷ more) s = quarantine_events more (
      add_event "spool_batch_quarantined"
        (field "file" (text name) (field "error" (text reason) end)) s)

  unfoldable pub beyond_event : State st → State st
  beyond_event s =
      if has_any s.beyond then add_event "rows_beyond_retention" (counts_value s.beyond) s else s

  unfoldable pub finish : State st → State st
  finish s =
      let (taken, w) = st.take_quarantined s.world in
      beyond_event (quarantine_events taken (record s { world = w }))

  -- The state in which `submit` begins its work.
  unfoldable pub begin : State st → State st
  begin s = record s { event_counts = []; events = s.carried; carried = []; beyond = [] }

  unfoldable pub waits : State st → Bool
  waits s = elim s.next_retry [ none ↦ false | some t ↦ ltb now.micros t.micros ]

  unfoldable pub submit_if : Bool → List Record → State st → Option Exc × State st
  submit_if true records s = (none, store records s)
  submit_if false records s = attempt records s

  unfoldable pub submit_aware : List Record → State st → Option Exc × State st
  submit_aware records s = submit_if (waits s) records s

  unfoldable pub answer : Option Exc → State st → Submitted × State st
  answer none s = (events_of s.events, s)
  answer (some exc) s = (write_error exc, record s { carried = s.events })

  unfoldable pub submit_at : Option DateTime → List Record → State st → Submitted × State st
  submit_at none records s = (naive_time, s)
  submit_at (some aware) records s =
      let (exc, s1) = submit_aware records (begin s) in answer exc (finish s1)

  unfoldable pub submit : List Record → State st → Submitted × State st
  submit records s = submit_at (require_aware now) records s
