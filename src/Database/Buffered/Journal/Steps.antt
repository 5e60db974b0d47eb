-- ===== src/Database/Buffered/Journal/Steps.antt =====
-- database/buffered.py: the steps of `BufferedWriter` that keep, remove or move batches.
use node_monitor.Common.{
  ℕ, ◌+◌, Bool, true, false, ◌≡◌, inl, inr, Option, none, some, List, [], ◌∷◌, ltb, if◌then◌else◌,
  all, String,
}
use node_monitor.Common.Dict.{Dict}
use node_monitor.Records.{is_live}
use node_monitor.Values.{DateTime, Record, Fields}
use node_monitor.Database.Storage.{Exc, Storage}
use node_monitor.Database.Buffered.{
  Config, State, add_event, report_drops, report_failure, store, enter_outage, outage_step,
  schedule_retry, fail, recover, is_recovery, skip_left, forget_failures, drop_superseded,
  quarantine_spooled, quarantine_fresh, finish_replayed, suspect_if, blame, failures_of,
  recovered_detail,
}
use node_monitor.Database.Buffered.Journal.{journaled, JustWritten, JustRefused, AreAllowed}

module _ (st : Storage) (config : Config) where
  abbrev js : Storage
  js = journaled st

  -- The journal has only removals that are allowed.
  pub record IsSafe (s : State js) : Type 0 where
    pub it : AreAllowed st.is_live_only s.world.1

  pub record After {A : Type 0} (r : A × State js) : Type 0 where
    pub at : IsSafe r.1

  pub either : (b : Bool) {x y : State js} → IsSafe x → IsSafe y → IsSafe (if b then x else y)
  either true hx hy = hx
  either false hx hy = hy

  module _ (now : DateTime) where
    pub store-IsSafe :
        (rs : List Record) (s : State js) → IsSafe s → IsSafe (store js config now rs s)
    unfolding store report_drops report_failure add_event
    store-IsSafe [] s h = h
    store-IsSafe (r ∷ rs) s h =
        let (result, w) = js.append (r ∷ rs) s.world in
        let h' : IsSafe (report_drops js config now result (record s { world = w })) =
          either (ltb 0 result.dropped_batches) (record { it = (tt, h.it) })
            (record { it = (tt, h.it) }) in
        either result.stored h' (record { it = h'.it })

    outage_step-IsSafe :
        (o : Option DateTime) (exc : Exc) (s : State js)
        → IsSafe s
        → IsSafe (outage_step js config now o exc s)
    unfolding outage_step add_event
    outage_step-IsSafe none exc s h = record { it = h.it }
    outage_step-IsSafe (some since) exc s h = record { it = h.it }

    pub fail-IsSafe :
        (exc : Exc) (rs : List Record) (s : State js)
        → IsSafe s
        → IsSafe (fail js config now exc rs s)
    unfolding fail schedule_retry enter_outage
    fail-IsSafe exc rs s h =
        let s1 = record s { connected = false } in
        let h1 = outage_step-IsSafe s.outage_since exc s1 (record { it = h.it }) in
        store-IsSafe rs _ (record { it = h1.it })

    pub recover-IsSafe : (s : State js) → IsSafe s → IsSafe (recover js config now s)
    unfolding recover add_event
    recover-IsSafe s h = record {
      it =
          (either (is_recovery js config now s)
            {x = add_event js config now "database_recovered" (recovered_detail js config now s) s}
            (record { it = h.it }) h).it;
    }

    skip_left-IsSafe :
        (p : st.FilePath) (s : State js) → IsSafe s → IsSafe (skip_left js config now p s)
    unfolding skip_left
    skip_left-IsSafe p s h = either (js.exists p s.world) (record { it = h.it }) h

    pub drop_superseded-IsSafe :
        (p : st.FilePath) (s : State js)
        → st.is_live_only p ≡ true
        → IsSafe s
        → IsSafe (drop_superseded js config now p s)
    unfolding drop_superseded forget_failures
    drop_superseded-IsSafe p s live h =
        either (js.exists p (js.remove p s.world)) (record { it = (inl live, h.it) })
          (record { it = (inl live, h.it) })

    pub quarantine_spooled-IsSafe :
        (p : st.FilePath) (d : Fields) (s : State js)
        → JustRefused p s.world.1
        → IsSafe s
        → IsSafe (quarantine_spooled js config now p d s)
    unfolding quarantine_spooled forget_failures add_event
    quarantine_spooled-IsSafe p d s why h = record {
      it = (skip_left-IsSafe p _ (record { it = (why, h.it) })).it;
    }

    pub quarantine_fresh-IsSafe :
        (rs : List Record) (exc : Exc) (s : State js)
        → IsSafe s
        → IsSafe (quarantine_fresh js config now rs exc s)
    unfolding quarantine_fresh add_event
    quarantine_fresh-IsSafe [] exc s h = h
    quarantine_fresh-IsSafe (r ∷ rs) exc s h =
        either (all is_live (r ∷ rs)) (record { it = h.it }) (record { it = (tt, h.it) })

    pub suspect_if-IsSafe :
        (alive : Bool) (p : st.FilePath) (exc : Exc) (s : State js)
        → JustRefused p s.world.1
        → IsSafe s
        → After (suspect_if js config now alive p exc s)
    unfolding suspect_if blame
    suspect_if-IsSafe false p exc s why h = record { at = h }
    suspect_if-IsSafe true p exc s why h = go (ltb _ config.max_replay_attempts)
      where
        go :
            (few : Bool)
            → After (blame js config now few p (failures_of js config now p s + 1) exc s)
        go true = record { at = record { it = h.it } }
        go false = record { at = quarantine_spooled-IsSafe p _ s why h }

    pub finish_replayed-IsSafe :
        (p : st.FilePath) (rs : List Record) (beyond : Dict String ℕ) (s : State js)
        → JustWritten p s.world.1
        → IsSafe s
        → IsSafe (finish_replayed js config now p rs beyond s)
    unfolding finish_replayed forget_failures
    finish_replayed-IsSafe p rs beyond s why h =
        let s1 = forget_failures js config now p s in
        let s2 = record s1 { world = js.remove p s1.world } in
        record { it = (skip_left-IsSafe p s2 (record { it = (inr why, h.it) })).it }
