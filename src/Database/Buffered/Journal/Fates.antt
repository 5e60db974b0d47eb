-- ===== src/Database/Buffered/Journal/Fates.antt =====
-- database/buffered.py: what becomes of a submitted batch.
use node_monitor.Common.{
  Bool, true, false, ◌≡◌, refl, Option, none, some, List, [], ◌∷◌, ltb, if◌then◌else◌, all, String,
  Bool-cases, inl, inr,
}
use mathlib.Core.Path.{subst⁻¹}
use node_monitor.Records.{is_live}
use node_monitor.Values.{DateTime, Record, require_aware}
use node_monitor.Database.Storage.{Exc, Written, wrote, unavailable, failed, Storage}
use node_monitor.Database.Buffered.{
  Config, State, Replay, replayed, raised, add_event, report_drops, report_failure, store, fail,
  recover, is_recovery, recovered_detail, quarantine_fresh, write_batch, queue_behind, settle,
  write_fresh, write_if, after_replay, attempt, submit_if, has_any, quarantine_events, beyond_event,
  finish, begin, submit_aware, answer, submit_at, submit,
}
use node_monitor.Database.Buffered.Journal.{
  Journal, refused, kept, write_call, journaled, IsHandled, error_of,
}

module _ (st : Storage) (config : Config) (now : DateTime) where
  abbrev js : Storage
  js = journaled st

  -- What the journal tells of a batch.
  record Ends (rs : List Record) (exc : Option Exc) (s : State js) : Type 0 where
    it : IsHandled rs exc s.world.1

  record After (rs : List Record) (r : Option Exc × State js) : Type 0 where
    at : Ends rs r.0 r.1

  either :
      (b : Bool) {rs : List Record} {exc : Option Exc} {x y : State js}
      → Ends rs exc x
      → Ends rs exc y
      → Ends rs exc (if b then x else y)
  either true hx hy = hx
  either false hx hy = hy

  store-Ends :
      (x : Record) (xs : List Record) (s : State js)
      → Ends (x ∷ xs) none (store js config now (x ∷ xs) s)
  unfolding store report_drops report_failure add_event
  store-Ends x xs s =
      let (result, w) = js.append (x ∷ xs) s.world in
      let h : Ends (x ∷ xs) none (report_drops js config now result (record s { world = w })) =
        either (ltb 0 result.dropped_batches) (record { it = refl }) (record { it = refl }) in
      either result.stored h (record { it = h.it })

  recover-Ends :
      (rs : List Record) (exc : Option Exc) (s : State js)
      → Ends rs exc s
      → Ends rs exc (recover js config now s)
  unfolding recover add_event
  recover-Ends rs exc s h = record {
    it =
        (either (is_recovery js config now s)
          {x = add_event js config now "database_recovered" (recovered_detail js config now s) s}
          (record { it = h.it }) h).it;
  }

  -- The database has refused the batch.
  record IsRefused (rs : List Record) (s : State js) : Type 0 where
    calls : Journal st.FilePath
    newest : s.world.1 ≡ refused rs ∷ calls

  recover-IsRefused :
      (w : Bool) (rs : List Record) (s : State js)
      → IsRefused rs s
      → IsRefused rs (if w then recover js config now s else s)
  unfolding recover add_event
  recover-IsRefused false rs s h = h
  recover-IsRefused true rs s h = record {
    calls = h.calls;
    newest = same (is_recovery js config now s);
  }
    where
      same :
          (b : Bool)
          → (if b
              then add_event js config now "database_recovered" (recovered_detail js config now s) s
              else s).world.1
            ≡ refused rs ∷ h.calls
      same true = h.newest
      same false = h.newest

  quarantine_fresh-Ends :
      (x : Record) (xs : List Record) (exc : Exc) (s : State js)
      → IsRefused (x ∷ xs) s
      → Ends (x ∷ xs) (some exc) (quarantine_fresh js config now (x ∷ xs) exc s)
  unfolding quarantine_fresh add_event
  quarantine_fresh-Ends x xs exc s h = elim (Bool-cases (all is_live (x ∷ xs))) [
    | inl live ↦
        rw (quarantine_fresh, live)
          (record { it = subst⁻¹ (IsHandled (x ∷ xs) (some exc)) h.newest (refl, live) })
    | inr durable ↦
        rw (quarantine_fresh, durable)
          (record {
            it =
                subst⁻¹ (λ calls. IsHandled (x ∷ xs) (some exc) (kept (x ∷ xs) ∷ calls)) h.newest
                  (refl, refl);
          })
  ]

  settle-Ends :
      (w : Bool) (x : Record) (xs : List Record) (r : Written) (s : State js) (world : st.World)
      (calls : Journal st.FilePath)
      → After (x ∷ xs) (
          settle js config now w
            (x ∷ xs)
            r
            (record s { world = (world, write_call (x ∷ xs) r ∷ calls) }))
  unfolding settle write_call fail
  settle-Ends w x xs (wrote beyond) s world calls = record {
    at = recover-Ends (x ∷ xs) none _ (record { it = refl });
  }
  settle-Ends w x xs (unavailable exc) s world calls = record { at = store-Ends x xs _ }
  settle-Ends w x xs (failed exc) s world calls = record {
    at =
        quarantine_fresh-Ends x xs exc _
          (recover-IsRefused w (x ∷ xs) _ (record { calls = calls; newest = refl }));
  }

  after_replay-Ends :
      (x : Record) (xs : List Record) (r : Replay) (s : State js)
      → After (x ∷ xs) (after_replay js config now (x ∷ xs) r s)
  unfolding after_replay fail queue_behind write_fresh has_any write_if write_batch
  after_replay-Ends x xs (raised exc) s = record { at = store-Ends x xs _ }
  after_replay-Ends x xs (replayed w false) s = record { at = store-Ends x xs _ }
  after_replay-Ends x xs (replayed w true) s = settle-Ends w x xs _ s _ s.world.1

  submit_if-Ends :
      (b : Bool) (x : Record) (xs : List Record) (s : State js)
      → After (x ∷ xs) (submit_if js config now b (x ∷ xs) s)
  unfolding submit_if attempt
  submit_if-Ends true x xs s = record { at = store-Ends x xs s }
  submit_if-Ends false x xs s = after_replay-Ends x xs _ _

  quarantine_events-Ends :
      (names : List (String × String)) (rs : List Record) (exc : Option Exc) (s : State js)
      → Ends rs exc s
      → Ends rs exc (quarantine_events js config now names s)
  unfolding quarantine_events add_event
  quarantine_events-Ends [] rs exc s h = h
  quarantine_events-Ends ((name, reason) ∷ more) rs exc s h =
      quarantine_events-Ends more rs exc _ (record { it = h.it })

  finish-Ends :
      (rs : List Record) (exc : Option Exc) (s : State js)
      → Ends rs exc s
      → Ends rs exc (finish js config now s)
  unfolding finish beyond_event add_event
  finish-Ends rs exc s h =
      let h' =
        quarantine_events-Ends (js.take_quarantined s.world).0 rs exc _ (record { it = h.it }) in
      either (has_any _) (record { it = h'.it }) h'

  answer-Ends :
      (rs : List Record) (exc : Option Exc) (s : State js)
      → Ends rs exc s
      → IsHandled rs
          (error_of (answer js config now exc s).0)
          (answer js config now exc s).1.world.1
  unfolding answer
  answer-Ends rs none s h = h.it
  answer-Ends rs (some exc) s h = h.it

  -- Whatever the spool, the database and the clock answer: by the end of a `submit` of records at
  -- an aware time that returns, the newest call in the journal has given these records to the spool
  -- or written them to the database; and if it raises, the database has refused them, and they
  -- have then been given to the spool's quarantine, unless they are of live state only.
  pub submit-IsHandled :
      (x : Record) (xs : List Record) (s : State js)
      → require_aware now ≡ some now
      → IsHandled
          (x ∷ xs)
          (error_of (submit js config now (x ∷ xs) s).0)
          (submit js config now (x ∷ xs) s).1.world.1
  unfolding submit submit_at submit_aware
  submit-IsHandled x xs s aware =
      rw (aware, submit_at)
        (answer-Ends (x ∷ xs) _ _
          (finish-Ends (x ∷ xs) _ _ (submit_if-Ends _ x xs (begin js config now s)).at))
