-- ===== src/Collector/Upkeep.antt =====
-- collector/upkeep.py: the heartbeat and the maintenance of the partitions. Times and intervals are
-- microseconds. What the database does in a tick is given; logging is left out.
pub mod Pace
use node_monitor.Common.{
  ℕ, ◌+◌, ◌≤◌, String, Bool, true, false, not, ◌||◌, Option, none, some, List, [], ◌∷◌, ◌++◌,
  if◌then◌else◌, leb,
}
use node_monitor.Database.Storage.{Exc}

pub record Config : Type 0 where
  pub heartbeat_interval : ℕ
  pub maintenance_interval : ℕ
  pub retry_interval : ℕ

-- The lists in the result of `maintenance.run`.
pub record MaintenanceReport : Type 0 where
  pub created : List String
  pub dropped : List String
  pub skipped : List String

pub data Event : Type 0 where
  maintenance_failed : Exc → Event
  partitions_maintained : MaintenanceReport → Event

-- The calls made: a heartbeat (with the state "stopped" or not), maintenance.
pub data Call : Type 0 where
  heartbeat : ℕ → Bool → Call
  maintain : ℕ → Call

-- `connected` is whether there is a connection; `failing` is `_heartbeat_failing`.
pub record Upkeep : Type 0 where
  pub connected : Bool
  pub last_heartbeat_attempt : Option ℕ
  pub next_maintenance : Option ℕ
  pub failing : Bool
  pub calls : List Call

-- What a tick meets: whether `status` raises, whether the heartbeat does, and what maintenance
-- returns, or raises. An exception of the heartbeat or of maintenance may be that of connecting.
pub record Surroundings : Type 0 where
  pub status_error : Option Exc
  pub heartbeat_error : Option Exc
  pub maintained : MaintenanceReport
  pub maintenance_error : Option Exc

unfoldable pub has_any {ℓ} : {A : Type ℓ} → List A → Bool
has_any [] = false
has_any (x ∷ xs) = true

unfoldable pub call : Call → Upkeep → Upkeep
call c u = record u { calls = u.calls ++ c ∷ [] }

module _ (config : Config) (now : ℕ) (around : Surroundings) where
  unfoldable pub is_heartbeat_due : Option ℕ → Bool
  is_heartbeat_due none = true
  is_heartbeat_due (some last) = leb (last + config.heartbeat_interval) now

  unfoldable pub is_maintenance_due : Option ℕ → Bool
  is_maintenance_due none = true
  is_maintenance_due (some t) = leb t now

  -- The end of `_maintain`, from the result of `maintenance.run`.
  unfoldable pub maintained_events : MaintenanceReport → List Event
  maintained_events r =
      if has_any r.created || has_any r.dropped || has_any r.skipped
      then partitions_maintained r ∷ []
      else []

  unfoldable pub after_maintenance : Option Exc → Upkeep → List Event × Upkeep
  after_maintenance (some exc) u = (
    maintenance_failed exc ∷ [],
    record u { connected = false; next_maintenance = some (now + config.retry_interval) },
  )
  after_maintenance none u = (
    maintained_events around.maintained,
    record u {
      connected = true;
      next_maintenance = some (
          now
          + (if has_any around.maintained.skipped
              then config.retry_interval
              else config.maintenance_interval));
    },
  )

  -- `_maintain`, if it is due.
  unfoldable pub maintain_if : Bool → Upkeep → List Event × Upkeep
  maintain_if false u = ([], u)
  maintain_if true u = after_maintenance around.maintenance_error (call (maintain now) u)

  -- After the heartbeat, by what it raised.
  unfoldable pub after_heartbeat : Option Exc → Bool → Upkeep → List Event × Upkeep
  after_heartbeat (some exc) maintenance_due u = (
    [],
    record u {
      connected = false;
      failing = true;
      next_maintenance =
          if maintenance_due then some (now + config.heartbeat_interval) else u.next_maintenance;
    },
  )
  after_heartbeat none maintenance_due u =
      maintain_if maintenance_due (record u { connected = true; failing = false })

  -- The heartbeat, by what `status` raised: that is caught in `tick`.
  unfoldable pub after_status : Option Exc → Bool → Upkeep → List Event × Upkeep
  after_status (some exc) maintenance_due u = ([], record u { connected = false })
  after_status none maintenance_due u =
      after_heartbeat around.heartbeat_error maintenance_due (call (heartbeat now false) u)

  unfoldable pub heartbeat_if : Bool → Bool → Upkeep → List Event × Upkeep
  heartbeat_if false maintenance_due u = maintain_if maintenance_due u
  heartbeat_if true maintenance_due u =
      after_status around.status_error maintenance_due
        (record u { last_heartbeat_attempt = some now })

  unfoldable pub tick : Upkeep → List Event × Upkeep
  tick u =
      heartbeat_if (is_heartbeat_due u.last_heartbeat_attempt)
        (is_maintenance_due u.next_maintenance) u

-- One attempt of the last heartbeat fails or does not; there are two if there is a connection.
unfoldable pub last_heartbeats : ℕ → List (Option Exc) → Upkeep → Upkeep
last_heartbeats now [] u = u
last_heartbeats now (none ∷ more) u = call (heartbeat now true) u
last_heartbeats now (some exc ∷ more) u =
    last_heartbeats now more (record (call (heartbeat now true) u) { connected = false })

unfoldable pub close : ℕ → Option Exc → Option Exc → Upkeep → Upkeep
close now first second u =
    record (last_heartbeats now (if u.connected then first ∷ second ∷ [] else first ∷ []) u) {
      connected = false;
    }
