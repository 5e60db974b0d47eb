-- ===== src/Database/Buffered/Tests.antt =====
-- Examples for the theorems on the buffered writer, on a small storage.
use node_monitor.Common.{
  ℕ, suc, String, Bool, true, false, not, ◌&&◌, ◌≡◌, refl, ◌↔◌, Option, none, some, List, [], ◌∷◌,
  ◌++◌, if◌then◌else◌, ◌==◌, nat_eq, text_eq, all, arith,
}
use node_monitor.Common.Dict.{Dict, keys}
use node_monitor.Records.{is_live, collection_event, live_processes}
use node_monitor.Values.{DateTime, Record, require_aware, text, pos}
use node_monitor.Database.Storage.{Exc, wrote, unavailable, Written, Storage}
use node_monitor.Database.Buffered.{Config, State, submit}
use node_monitor.Database.Buffered.Events
use node_monitor.Database.Buffered.Outage
use node_monitor.Database.Buffered.Journal.{journaled, IsHandled, error_of}
use node_monitor.Database.Buffered.Journal.Removals
use node_monitor.Database.Buffered.Journal.Fates

-- The spool as a queue of batches with a running number; `up` says for each write to come whether
-- the database is there.
record Disk : Type 0 where
  start : ℕ
  batches : List (List Record)
  sent : List (List Record)
  up : List Bool

abbrev Place : Type 0
Place = ℕ × Bool

pair_beq : Place → Place → Bool
pair_beq a b = a.0 == b.0 && (if a.1 then b.1 else not b.1)

pair_beq_iff : (a b : Place) → (pair_beq a b ≡ true) ↔ (a ≡ b)
unfolding pair_beq
pair_beq_iff a b = ground arith

abbrev placed : ℕ → List (List Record) → Dict Place (List Record)
placed n [] = []
placed n (b ∷ bs) = ((n, all is_live b), b) ∷ placed (suc n) bs

abbrev first_batch : ℕ → ℕ → List (List Record) → Option (List Record)
first_batch n start [] = none
first_batch n start (b ∷ bs) = if n == start then some b else none

abbrev remove_first : ℕ → Disk → List (List Record) → Disk
remove_first n d [] = d
remove_first n d (b ∷ bs) =
    if n == d.start then record d { start = suc d.start; batches = bs } else d

abbrev outage_error : Exc
outage_error = record { name = "DatabaseUnavailable"; message = "connection refused" }

write_if_up : List Record → Disk → List Bool → Written × Disk
write_if_up rs d [] = (wrote [], record d { sent = d.sent ++ rs ∷ [] })
write_if_up rs d (true ∷ more) = (wrote [], record d { sent = d.sent ++ rs ∷ []; up = more })
write_if_up rs d (false ∷ more) = (unavailable outage_error, record d { up = more })

abbrev disk : Storage
disk = record {
  World = Disk;
  FilePath = Place;
  path_eq = record { equals = pair_beq; equals_iff = pair_beq_iff };
  name = λ p. "batch";
  is_live_only = λ p. p.1;
  clock = λ d. (0, d);
  batch_files = λ d. keys (placed d.start d.batches);
  read = λ p d. (first_batch p.0 d.start d.batches, d);
  remove = λ p d. remove_first p.0 d d.batches;
  quarantine = λ p d. remove_first p.0 d d.batches;
  exists = λ p d. p.0 == d.start;
  append = λ rs d. (
    record { stored = true; dropped_batches = 0; dropped_records = 0; error = none },
    record d { batches = d.batches ++ rs ∷ [] },
  );
  quarantine_records = λ rs reason d. (none, d);
  take_quarantined = λ d. ([], d);
  write = λ rs now d. write_if_up rs d d.up;
  ping = λ d. (false, d);
}

abbrev config : Config
config = record {
  system = "polaris";
  backoff_low = 5000000;
  backoff_high = 300000000;
  max_replay_attempts = 3;
  replay_budget = 20;
}

abbrev at : ℕ → DateTime
at n = record { micros = n; offset = some (pos 0) }

abbrev event : String → Record
event t = record { kind = collection_event; row = ("event_type", text t) ∷ [] }

abbrev snapshot : Record
snapshot = record { kind = live_processes; row = ("node", text "n") ∷ [] }

-- The state of a new writer.
abbrev new_state : (st : Storage) → st.World → State st
new_state st w = record {
  world = w;
  replay_failures = [];
  connected = false;
  outage_since = none;
  next_retry = none;
  delay = none;
  replayed_batches = 0;
  replayed_records = 0;
  superseded_batches = 0;
  event_counts = [];
  carried = [];
  skip = [];
  events = [];
  beyond = [];
}

-- The first write meets an outage.
abbrev first_world : Disk
first_world = record { start = 0; batches = []; sent = []; up = false ∷ true ∷ [] }

abbrev first : State disk
first = new_state disk first_world

abbrev noted : State (journaled disk)
noted = new_state (journaled disk) (first_world, [])

-- The first call meets an outage, the second waits for the retry time, the third replays.
abbrev calls : List (DateTime × List Record)
calls = (at 0, event "a" ∷ []) ∷ (at 1000000, snapshot ∷ []) ∷ (at 6000000, event "c" ∷ []) ∷ []

submit-IsHandled_example :
    IsHandled
      (event "a" ∷ [])
      (error_of (submit (journaled disk) config (at 0) (event "a" ∷ []) noted).0)
      (submit (journaled disk) config (at 0) (event "a" ∷ []) noted).1.world.1
submit-IsHandled_example =
    Fates.submit-IsHandled disk config (at 0) (event "a") [] noted (unfold require_aware in refl)

submit-separates_events_example :
    (new : List Record) × (Events.events_after disk config
        (at 0)
        (submit disk config (at 0) (event "a" ∷ []) first)
      ≡ [] ++ new)
    × Events.AreDistinguished disk config (at 0) new
submit-separates_events_example =
    Events.submit-separates_events disk config (at 0) (event "a" ∷ []) first

submit-IsAgreed_example :
    Outage.IsAgreed disk config (at 0) (submit disk config (at 0) (event "a" ∷ []) first).1
submit-IsAgreed_example =
    Outage.submit-IsAgreed disk config (at 0) (event "a" ∷ []) first
      (record { agree = tt; ready = tt })
