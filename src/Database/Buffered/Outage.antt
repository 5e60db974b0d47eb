-- ===== src/Database/Buffered/Outage.antt =====
-- database/buffered.py: the outage state. Its four fields change in `_fail`, `_recover` and the
-- out-of-time branch of `_attempt` only.
use node_monitor.Common.{
  ℕ, ◌≤◌, min, Bool, true, false, ◌≡◌, refl, ◌∙◌, Option, none, some, List, [], ◌∷◌, String, arith,
}
use node_monitor.Values.{DateTime, Record, Fields, require_aware}
use node_monitor.Database.Storage.{Exc, Written, wrote, unavailable, failed, Storage}
use node_monitor.Common.Dict.{Dict}
use node_monitor.Database.Buffered.{
  Config, State, Turn, passed, written, out_of_time, lost, Replay, replayed, raised, add_event,
  report_drops, report_failure, store, outage_step, enter_outage, schedule_retry, fail, recover,
  skip_left, forget_failures, drop_superseded, quarantine_spooled, quarantine_fresh,
  finish_replayed, blame, suspect_if, suspect, after_write, write_batch, replay_read, replay_if,
  replay_one, go_on, replay_loop, replay, queue_behind, settle, write_if, write_fresh, after_replay,
  attempt, quarantine_events, beyond_event, finish, begin, submit_if, submit_aware, answer,
  submit_at, submit,
}

module _ (st : Storage) (config : Config) (now : DateTime) where
  -- The four fields of the outage state.
  abbrev pub outage : State st → Bool × Option DateTime × Option DateTime × Option ℕ
  outage s = (s.connected, s.outage_since, s.next_retry, s.delay)

  outage-add_event :
      (t : String) (d : Fields) (s : State st) → outage (add_event st config now t d s) ≡ outage s
  unfolding add_event
  outage-add_event t d s = refl

  outage-store : (rs : List Record) (s : State st) → outage (store st config now rs s) ≡ outage s
  unfolding store report_drops report_failure add_event
  outage-store [] s = refl
  outage-store (r ∷ rs) s = ground arith

  outage-drop_superseded :
      (p : st.FilePath) (s : State st) → outage (drop_superseded st config now p s) ≡ outage s
  unfolding drop_superseded forget_failures
  outage-drop_superseded p s = ground arith

  outage-quarantine_spooled :
      (p : st.FilePath) (d : Fields) (s : State st)
      → outage (quarantine_spooled st config now p d s) ≡ outage s
  unfolding quarantine_spooled forget_failures skip_left add_event
  outage-quarantine_spooled p d s = ground arith

  outage-quarantine_fresh :
      (rs : List Record) (exc : Exc) (s : State st)
      → outage (quarantine_fresh st config now rs exc s) ≡ outage s
  unfolding quarantine_fresh add_event
  outage-quarantine_fresh [] exc s = refl
  outage-quarantine_fresh (r ∷ rs) exc s = ground arith

  outage-finish_replayed :
      (p : st.FilePath) (rs : List Record) (beyond : Dict String ℕ) (s : State st)
      → outage (finish_replayed st config now p rs beyond s) ≡ outage s
  unfolding finish_replayed forget_failures skip_left
  outage-finish_replayed p rs beyond s = ground arith

  outage-blame :
      (few : Bool) (p : st.FilePath) (n : ℕ) (exc : Exc) (s : State st)
      → outage (blame st config now few p n exc s).1 ≡ outage s
  unfolding blame
  outage-blame true p n exc s = refl
  outage-blame false p n exc s = outage-quarantine_spooled p _ s

  outage-suspect_if :
      (alive : Bool) (p : st.FilePath) (exc : Exc) (s : State st)
      → outage (suspect_if st config now alive p exc s).1 ≡ outage s
  unfolding suspect_if
  outage-suspect_if false p exc s = refl
  outage-suspect_if true p exc s = outage-blame _ p _ exc s

  outage-after_write :
      (p : st.FilePath) (rs : List Record) (r : Written) (s : State st)
      → outage (after_write st config now p rs r s).1 ≡ outage s
  unfolding after_write suspect
  outage-after_write p rs (wrote beyond) s = outage-finish_replayed p rs beyond s
  outage-after_write p rs (unavailable exc) s = outage-suspect_if _ p exc _
  outage-after_write p rs (failed exc) s = outage-quarantine_spooled p _ s

  outage-replay_read :
      (p : st.FilePath) (batch : Option (List Record)) (s : State st)
      → outage (replay_read st config now p batch s).1 ≡ outage s
  unfolding replay_read write_batch
  outage-replay_read p none s = refl
  outage-replay_read p (some rs) s = outage-after_write p rs _ _

  outage-replay_if :
      (spent superseded : Bool) (p : st.FilePath) (s : State st)
      → outage (replay_if st config now spent superseded p s).1 ≡ outage s
  unfolding replay_if
  outage-replay_if true superseded p s = refl
  outage-replay_if false true p s = outage-drop_superseded p s
  outage-replay_if false false p s = outage-replay_read p _ _

  outage-go_on :
      (turn : Turn) (w : Bool) (rest : Bool → Replay × State st) (s : State st)
      → ((v : Bool) → outage (rest v).1 ≡ outage s)
      → outage (go_on st config now turn w rest s).1 ≡ outage s
  unfolding go_on
  outage-go_on passed w rest s h = h w
  outage-go_on written w rest s h = h true
  outage-go_on out_of_time w rest s h = refl
  outage-go_on (lost exc) w rest s h = refl

  -- A replay leaves the outage state alone.
  outage-replay_loop :
      (started : ℕ) (superseded : List st.FilePath) (w : Bool) (ps : List st.FilePath)
      (s : State st)
      → outage (replay_loop st config now started superseded w ps s).1 ≡ outage s
  unfolding replay_loop replay_one
  outage-replay_loop started superseded w [] s = refl
  outage-replay_loop started superseded w (p ∷ ps) s =
      outage-go_on _ w _ _ (λ v. outage-replay_loop started superseded v ps _)
      ∙ outage-replay_if _ _ p _

  outage-quarantine_events :
      (names : List (String × String)) (s : State st)
      → outage (quarantine_events st config now names s) ≡ outage s
  unfolding quarantine_events add_event
  outage-quarantine_events [] s = refl
  outage-quarantine_events ((name, reason) ∷ more) s = outage-quarantine_events more _

  outage-finish : (s : State st) → outage (finish st config now s) ≡ outage s
  unfolding finish beyond_event add_event
  outage-finish s = ground (
    arith,
    outage-quarantine_events (st.take_quarantined s.world).0
        (record s { world = (st.take_quarantined s.world).1 }),
  )

  outage-answer :
      (exc : Option Exc) (s : State st) → outage (answer st config now exc s).1 ≡ outage s
  unfolding answer
  outage-answer none s = refl
  outage-answer (some exc) s = refl

  -- With no outage there is no delay and no time of the next try; in an outage the delay lies
  -- between the smaller of the two backoff times and the larger one.
  abbrev pub Agree : Option DateTime → Option DateTime → Option ℕ → Type 0
  Agree none none none = Unit
  Agree (some since) retry (some d) =
      (min config.backoff_low config.backoff_high ≤ d) × (d ≤ config.backoff_high)
  Agree _ _ _ = ⊥

  -- Nothing waits while the database is connected.
  abbrev pub Ready : Bool → Option DateTime → Type 0
  Ready true (some t) = ⊥
  Ready _ _ = Unit

  pub record IsAgreed (s : State st) : Type 0 where
    pub agree : Agree s.outage_since s.next_retry s.delay
    pub ready : Ready s.connected s.next_retry

  IsAgreed-outage : (s t : State st) → outage s ≡ outage t → IsAgreed t → IsAgreed s
  IsAgreed-outage s t same h = ground arith

  scheduled-IsAgreed :
      (exc : Exc) (s : State st)
      → IsAgreed s
      → IsAgreed (
          schedule_retry st config now
            (enter_outage st config now exc (record s { connected = false })))
  unfolding schedule_retry enter_outage outage_step add_event
  scheduled-IsAgreed exc s h = ground arith

  fail-IsAgreed :
      (exc : Exc) (rs : List Record) (s : State st)
      → IsAgreed s
      → IsAgreed (fail st config now exc rs s)
  unfolding fail
  fail-IsAgreed exc rs s h = IsAgreed-outage _ _ (outage-store rs _) (scheduled-IsAgreed exc s h)

  recover-IsAgreed : (s : State st) → IsAgreed (recover st config now s)
  unfolding recover
  recover-IsAgreed s = ground arith

  settle-IsAgreed :
      (w : Bool) (rs : List Record) (r : Written) (s : State st)
      → IsAgreed s
      → IsAgreed (settle st config now w rs r s).1
  unfolding settle
  settle-IsAgreed w rs (wrote beyond) s h = recover-IsAgreed _
  settle-IsAgreed w rs (unavailable exc) s h = fail-IsAgreed exc rs s h
  settle-IsAgreed true rs (failed exc) s h =
      IsAgreed-outage _ _ (outage-quarantine_fresh rs exc _) (recover-IsAgreed s)
  settle-IsAgreed false rs (failed exc) s h =
      IsAgreed-outage _ _ (outage-quarantine_fresh rs exc s) h

  write_if-IsAgreed :
      (writes w : Bool) (rs : List Record) (s : State st)
      → IsAgreed s
      → IsAgreed (write_if st config now writes w rs s).1
  unfolding write_if write_batch
  write_if-IsAgreed true w rs s h =
      settle-IsAgreed w rs _ _ (record { agree = h.agree; ready = h.ready })
  write_if-IsAgreed false true rs s h = recover-IsAgreed s
  write_if-IsAgreed false false rs s h = h

  resumed-IsAgreed :
      (s : State st) → IsAgreed s → IsAgreed (record s { connected = true; next_retry = none })
  resumed-IsAgreed s h = ground arith

  after_replay-IsAgreed :
      (rs : List Record) (r : Replay) (s : State st)
      → IsAgreed s
      → IsAgreed (after_replay st config now rs r s).1
  unfolding after_replay queue_behind write_fresh
  after_replay-IsAgreed rs (raised exc) s h = fail-IsAgreed exc rs s h
  after_replay-IsAgreed rs (replayed true false) s h =
      IsAgreed-outage _ _ (outage-store rs _) (resumed-IsAgreed s h)
  after_replay-IsAgreed rs (replayed false false) s h = IsAgreed-outage _ _ (outage-store rs s) h
  after_replay-IsAgreed rs (replayed w true) s h = write_if-IsAgreed _ w rs s h

  submit_if-IsAgreed :
      (b : Bool) (rs : List Record) (s : State st)
      → IsAgreed s
      → IsAgreed (submit_if st config now b rs s).1
  unfolding submit_if attempt replay
  submit_if-IsAgreed true rs s h = IsAgreed-outage _ _ (outage-store rs s) h
  submit_if-IsAgreed false rs s h =
      let s1 = record s { world = (st.clock s.world).1 } in
      after_replay-IsAgreed rs _ _ (
        IsAgreed-outage _ s1 (outage-replay_loop _ _ false _ s1)
          (record { agree = h.agree; ready = h.ready }))

  submit_at-IsAgreed :
      (aware : Option DateTime) (rs : List Record) (s : State st)
      → IsAgreed s
      → IsAgreed (submit_at st config now aware rs s).1
  unfolding submit_at submit_aware begin
  submit_at-IsAgreed none rs s h = h
  submit_at-IsAgreed (some aware) rs s h =
      IsAgreed-outage _ _ (outage-answer _ _ ∙ outage-finish _)
        (submit_if-IsAgreed _ rs _ (record { agree = h.agree; ready = h.ready }))

  -- Whatever a `submit` meets and ends in, it keeps the outage state consistent: no outage means
  -- neither a delay nor a time of the next try; during an outage the delay is set and lies between
  -- the smaller backoff time and the larger one; while connected, no write waits for a retry time.
  pub submit-IsAgreed :
      (rs : List Record) (s : State st) → IsAgreed s → IsAgreed (submit st config now rs s).1
  unfolding submit
  submit-IsAgreed rs s h = submit_at-IsAgreed (require_aware now) rs s h
