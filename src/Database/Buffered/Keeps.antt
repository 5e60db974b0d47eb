-- ===== src/Database/Buffered/Keeps.antt =====
-- database/buffered.py: `submit` makes events only through `_event`. Here is
-- what carries a property of the events and their counts through all parts of `submit`.
use node_monitor.Common.{
  ℕ, ◌+◌, min, String, Bool, true, false, Option, none, some, List, [], ◌∷◌, ltb, if◌then◌else◌,
}
use node_monitor.Common.Dict.{Dict}
use node_monitor.Records.{is_live}
use node_monitor.Common.{all}
use node_monitor.Values.{Fields, DateTime, Record}
use node_monitor.Database.Storage.{Exc, Written, wrote, unavailable, failed, Storage}
use node_monitor.Database.Buffered.{
  Config, State, Turn, passed, written, out_of_time, lost, Replay, replayed, raised, add_event,
  report_drops, report_failure, store, enter_outage, outage_step, go_on, schedule_retry, fail,
  recover, is_recovery, skip_left, forget_failures, drop_superseded, quarantine_spooled,
  quarantine_fresh, finish_replayed, suspect, suspect_if, blame, failures_of, after_write,
  write_batch, replay_read, replay_one, replay_loop, replay, queue_behind, settle, write_fresh,
  after_replay, attempt, quarantine_events, beyond_event, finish, replay_if, write_if, submit_if,
  submit_aware, recovered_detail, has_any,
}

module _ (st : Storage) (config : Config) (now : DateTime)
    (P : List Record → Dict String ℕ → Type 0) where
  pub record Holds (s : State st) : Type 0 where
    pub it : P s.events s.event_counts

  -- The same of the state that comes beside a result.
  pub record After {A : Type 0} (r : A × State st) : Type 0 where
    pub at : Holds r.1

  module _
      (keeps : (t : String) (d : Fields) (s : State st)
        → Holds s
        → Holds (add_event st config now t d s)) where
    either : (b : Bool) {x y : State st} → Holds x → Holds y → Holds (if b then x else y)
    either true hx hy = hx
    either false hx hy = hy

    pub store-keeps : (rs : List Record) (s : State st) → Holds s → Holds (store st config now rs s)
    unfolding store report_drops report_failure
    store-keeps [] s h = h
    store-keeps (r ∷ rs) s h =
        let (result, w) = st.append (r ∷ rs) s.world in
        let h' : Holds (report_drops st config now result (record s { world = w })) =
          either (ltb 0 result.dropped_batches)
            (keeps _ _ (record s { world = w }) (record { it = h.it })) (record { it = h.it }) in
        either result.stored h' (keeps _ _ _ h')

    outage_step-keeps :
        (o : Option DateTime) (exc : Exc) (s : State st)
        → Holds s
        → Holds (outage_step st config now o exc s)
    unfolding outage_step
    outage_step-keeps none exc s h =
        keeps _ _
          (record s {
            outage_since = some now;
            delay = some (min config.backoff_low config.backoff_high);
          })
          (record { it = h.it })
    outage_step-keeps (some since) exc s h = (record { it = h.it })

    fail-keeps :
        (exc : Exc) (rs : List Record) (s : State st)
        → Holds s
        → Holds (fail st config now exc rs s)
    unfolding fail schedule_retry enter_outage
    fail-keeps exc rs s h =
        let s1 = record s { connected = false } in
        let h1 = outage_step-keeps s.outage_since exc s1 (record { it = h.it }) in
        store-keeps rs _ (record { it = h1.it })

    recover-keeps : (s : State st) → Holds s → Holds (recover st config now s)
    unfolding recover
    recover-keeps s h =
        let told = keeps "database_recovered" (recovered_detail st config now s) s h in
        record { it = (either (is_recovery st config now s) told h).it }

    skip_left-keeps :
        (p : st.FilePath) (s : State st) → Holds s → Holds (skip_left st config now p s)
    unfolding skip_left
    skip_left-keeps p s h = either (st.exists p s.world) (record { it = h.it }) h

    drop_superseded-keeps :
        (p : st.FilePath) (s : State st) → Holds s → Holds (drop_superseded st config now p s)
    unfolding drop_superseded forget_failures
    drop_superseded-keeps p s h =
        either (st.exists p (st.remove p s.world)) (record { it = h.it }) (record { it = h.it })

    quarantine_spooled-keeps :
        (p : st.FilePath) (d : Fields) (s : State st)
        → Holds s
        → Holds (quarantine_spooled st config now p d s)
    unfolding quarantine_spooled forget_failures
    quarantine_spooled-keeps p d s h = keeps _ _ _ (skip_left-keeps p _ (record { it = h.it }))

    quarantine_fresh-keeps :
        (rs : List Record) (exc : Exc) (s : State st)
        → Holds s
        → Holds (quarantine_fresh st config now rs exc s)
    unfolding quarantine_fresh
    quarantine_fresh-keeps [] exc s h = h
    quarantine_fresh-keeps (r ∷ rs) exc s h =
        either (all is_live (r ∷ rs)) (keeps _ _ s h) (keeps _ _ _ (record { it = h.it }))

    suspect_if-keeps :
        (alive : Bool) (p : st.FilePath) (exc : Exc) (s : State st)
        → Holds s
        → After (suspect_if st config now alive p exc s)
    unfolding suspect_if blame
    suspect_if-keeps false p exc s h = record { at = h }
    suspect_if-keeps true p exc s h = go (ltb _ config.max_replay_attempts)
      where
        go :
            (few : Bool)
            → After (blame st config now few p (failures_of st config now p s + 1) exc s)
        go true = record { at = record { it = h.it } }
        go false = record { at = quarantine_spooled-keeps p _ s h }

    suspect-keeps :
        (p : st.FilePath) (exc : Exc) (s : State st)
        → Holds s
        → After (suspect st config now p exc s)
    unfolding suspect
    suspect-keeps p exc s h = suspect_if-keeps _ p exc _ (record { it = h.it })

    finish_replayed-keeps :
        (p : st.FilePath) (rs : List Record) (beyond : Dict String ℕ) (s : State st)
        → Holds s
        → Holds (finish_replayed st config now p rs beyond s)
    unfolding finish_replayed forget_failures
    finish_replayed-keeps p rs beyond s h =
        let s1 = forget_failures st config now p s in
        let s2 = record s1 { world = st.remove p s1.world } in
        record { it = (skip_left-keeps p s2 (record { it = h.it })).it }

    after_write-keeps :
        (p : st.FilePath) (rs : List Record) (r : Written) (s : State st)
        → Holds s
        → After (after_write st config now p rs r s)
    unfolding after_write
    after_write-keeps p rs (wrote beyond) s h = record {
      at = finish_replayed-keeps p rs beyond s h;
    }
    after_write-keeps p rs (unavailable exc) s h = suspect-keeps p exc s h
    after_write-keeps p rs (failed exc) s h = record { at = quarantine_spooled-keeps p _ s h }

    replay_read-keeps :
        (p : st.FilePath) (batch : Option (List Record)) (s : State st)
        → Holds s
        → After (replay_read st config now p batch s)
    unfolding replay_read write_batch
    replay_read-keeps p none s h = record { at = h }
    replay_read-keeps p (some rs) s h = after_write-keeps p rs _ _ (record { it = h.it })

    replay_if-keeps :
        (spent superseded : Bool) (p : st.FilePath) (s : State st)
        → Holds s
        → After (replay_if st config now spent superseded p s)
    unfolding replay_if
    replay_if-keeps true superseded p s h = record { at = h }
    replay_if-keeps false true p s h = record { at = drop_superseded-keeps p s h }
    replay_if-keeps false false p s h = replay_read-keeps p _ _ (record { it = h.it })

    replay_one-keeps :
        (started : ℕ) (superseded : List st.FilePath) (p : st.FilePath) (s : State st)
        → Holds s
        → After (replay_one st config now started superseded p s)
    unfolding replay_one
    replay_one-keeps started superseded p s h = replay_if-keeps _ _ p _ (record { it = h.it })

    go_on-keeps :
        (turn : Turn) (b : Bool) (rest : Bool → Replay × State st) (s : State st)
        → Holds s
        → ((w : Bool) → After (rest w))
        → After (go_on st config now turn b rest s)
    unfolding go_on
    go_on-keeps passed b rest s h hr = hr b
    go_on-keeps written b rest s h hr = hr true
    go_on-keeps out_of_time b rest s h hr = record { at = h }
    go_on-keeps (lost exc) b rest s h hr = record { at = h }

    replay_loop-keeps :
        (started : ℕ) (superseded : List st.FilePath) (w : Bool) (ps : List st.FilePath)
        (s : State st)
        → Holds s
        → After (replay_loop st config now started superseded w ps s)
    unfolding replay_loop
    replay_loop-keeps started superseded w [] s h = record { at = h }
    replay_loop-keeps started superseded w (p ∷ ps) s h =
        let h' = (replay_one-keeps started superseded p s h).at in
        go_on-keeps _ w _ _ h' (λ v. replay_loop-keeps started superseded v ps _ h')

    settle-keeps :
        (w : Bool) (rs : List Record) (r : Written) (s : State st)
        → Holds s
        → After (settle st config now w rs r s)
    unfolding settle
    settle-keeps w rs (wrote beyond) s h = record { at = recover-keeps _ (record { it = h.it }) }
    settle-keeps w rs (unavailable exc) s h = record { at = fail-keeps exc rs s h }
    settle-keeps w rs (failed exc) s h = record {
      at = quarantine_fresh-keeps rs exc _ (either w (recover-keeps s h) h);
    }

    write_if-keeps :
        (writes w : Bool) (rs : List Record) (s : State st)
        → Holds s
        → After (write_if st config now writes w rs s)
    unfolding write_if write_batch
    write_if-keeps true w rs s h = settle-keeps w rs _ _ (record { it = h.it })
    write_if-keeps false true rs s h = record { at = recover-keeps s h }
    write_if-keeps false false rs s h = record { at = h }

    after_replay-keeps :
        (rs : List Record) (r : Replay) (s : State st)
        → Holds s
        → After (after_replay st config now rs r s)
    unfolding after_replay queue_behind write_fresh
    after_replay-keeps rs (raised exc) s h = record { at = fail-keeps exc rs s h }
    after_replay-keeps rs (replayed w false) s h = record {
      at = store-keeps rs _ (either w (record { it = h.it }) h);
    }
    after_replay-keeps rs (replayed w true) s h = write_if-keeps _ w rs s h

    submit_if-keeps :
        (b : Bool) (rs : List Record) (s : State st)
        → Holds s
        → After (submit_if st config now b rs s)
    unfolding submit_if attempt replay
    submit_if-keeps true rs s h = record { at = store-keeps rs s h }
    submit_if-keeps false rs s h =
        after_replay-keeps rs _ _ (replay_loop-keeps _ _ false _ _ (record { it = h.it })).at

    pub submit_aware-keeps :
        (rs : List Record) (s : State st) → Holds s → After (submit_aware st config now rs s)
    unfolding submit_aware
    submit_aware-keeps rs s h = submit_if-keeps _ rs s h

    quarantine_events-keeps :
        (names : List (String × String)) (s : State st)
        → Holds s
        → Holds (quarantine_events st config now names s)
    unfolding quarantine_events
    quarantine_events-keeps [] s h = h
    quarantine_events-keeps ((name, reason) ∷ more) s h =
        quarantine_events-keeps more _ (keeps _ _ s h)

    pub finish-keeps : (s : State st) → Holds s → Holds (finish st config now s)
    unfolding finish beyond_event
    finish-keeps s h =
        let h' = quarantine_events-keeps (st.take_quarantined s.world).0 _ (record { it = h.it }) in
        either (has_any _) (keeps _ _ _ h') h'
