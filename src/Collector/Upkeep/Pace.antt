-- ===== src/Collector/Upkeep/Pace.antt =====
-- How often upkeep turns to the database.
use node_monitor.Common.{
  ℕ, ◌+◌, ◌≤◌, ◌≡◌, refl, sym, ◌∙◌, ap, min, append-nil, append_assoc, Bool, true, false, Option,
  none, some, List, [], ◌∷◌, ◌++◌, arith, if◌then◌else◌,
}
use node_monitor.Database.Storage.{Exc}
use node_monitor.Collector.Upkeep.{
  has_any, Config, Surroundings, Upkeep, Call, heartbeat, maintain, call, is_heartbeat_due,
  is_maintenance_due, after_maintenance, maintain_if, after_heartbeat, after_status, heartbeat_if,
  tick,
}

module _ (config : Config) where
  -- From when on a heartbeat, or maintenance, may come.
  pub from_attempt : Option ℕ → ℕ
  from_attempt none = 0
  from_attempt (some last) = last + config.heartbeat_interval

  pub from_maintenance : Option ℕ → ℕ
  from_maintenance none = 0
  from_maintenance (some t) = t

  -- Heartbeats are at least their interval apart, and maintenance the shorter of its intervals;
  -- `h` and `m` are the earliest times for the first ones.
  unfoldable pub IsPaced : ℕ → ℕ → List Call → Type 0
  IsPaced h m [] = Unit
  IsPaced h m (heartbeat t final ∷ calls) =
      (h ≤ t) × IsPaced (t + config.heartbeat_interval) m calls
  IsPaced h m (maintain t ∷ calls) =
      (m ≤ t) × IsPaced h (t + min config.retry_interval config.maintenance_interval) calls

  sooner-IsPaced :
      (h h' m m' : ℕ) (calls : List Call)
      → h' ≤ h
      → m' ≤ m
      → IsPaced h m calls
      → IsPaced h' m' calls
  unfolding IsPaced
  sooner-IsPaced h h' m m' [] a b k = tt
  sooner-IsPaced h h' m m' (heartbeat t final ∷ calls) a b k = (
    omega (arith, a, k.0),
    sooner-IsPaced (t + config.heartbeat_interval) (t + config.heartbeat_interval) m m' calls
        (omega arith) b k.1,
  )
  sooner-IsPaced h h' m m' (maintain t ∷ calls) a b k = (
    omega (arith, b, k.0),
    sooner-IsPaced h h' (t + min config.retry_interval config.maintenance_interval)
        (t + min config.retry_interval config.maintenance_interval) calls a (omega arith) k.1,
  )

  -- The calls made from one state to another, and that calls which may follow the second may, after
  -- these, follow the first.
  pub record Paces (u next : Upkeep) : Type 0 where
    pub made : List Call
    pub calls : next.calls ≡ u.calls ++ made
    pub pace :
        (rest : List Call)
        → IsPaced
            (from_attempt next.last_heartbeat_attempt)
            (from_maintenance next.next_maintenance)
            rest
        → IsPaced
            (from_attempt u.last_heartbeat_attempt)
            (from_maintenance u.next_maintenance)
            (made ++ rest)

  no_calls :
      (u next : Upkeep)
      → next.calls ≡ u.calls
      → from_attempt u.last_heartbeat_attempt ≤ from_attempt next.last_heartbeat_attempt
      → from_maintenance u.next_maintenance ≤ from_maintenance next.next_maintenance
      → Paces u next
  no_calls u next e h m = record {
    made = [];
    calls = e ∙ sym (append-nil u.calls);
    pace = λ rest k.
        sooner-IsPaced (from_attempt next.last_heartbeat_attempt)
          (from_attempt u.last_heartbeat_attempt) (from_maintenance next.next_maintenance)
          (from_maintenance u.next_maintenance) rest h m k;
  }

  then-Paces : (u mid next : Upkeep) → Paces u mid → Paces mid next → Paces u next
  then-Paces u mid next a b = record {
    made = a.made ++ b.made;
    calls = b.calls ∙ ap (λ cs. cs ++ b.made) a.calls ∙ append_assoc u.calls a.made b.made;
    pace = λ rest k. rw (append_assoc a.made b.made rest) (a.pace (b.made ++ rest) (b.pace rest k));
  }

  module _ (now : ℕ) (around : Surroundings) where
    maintenance_due :
        (o : Option ℕ) → is_maintenance_due config now around o ≡ true → from_maintenance o ≤ now
    unfolding is_maintenance_due from_maintenance
    maintenance_due none e = omega arith
    maintenance_due (some t) e = ground arith

    heartbeat_due :
        (o : Option ℕ) → is_heartbeat_due config now around o ≡ true → from_attempt o ≤ now
    unfolding is_heartbeat_due from_attempt
    heartbeat_due none e = omega arith
    heartbeat_due (some t) e = ground arith

    -- Maintenance puts the next one off by one of its intervals.
    record PutsOff (u next : Upkeep) : Type 0 where
      wait : ℕ
      long : min config.retry_interval config.maintenance_interval ≤ wait
      later : next.next_maintenance ≡ some (now + wait)
      attempt : next.last_heartbeat_attempt ≡ u.last_heartbeat_attempt
      calls : next.calls ≡ u.calls

    after-PutsOff :
        (exc : Option Exc) (u : Upkeep) → PutsOff u (after_maintenance config now around exc u).1
    unfolding after_maintenance
    after-PutsOff (some exc) u = record {
      wait = config.retry_interval;
      long = omega arith;
      later = refl;
      attempt = refl;
      calls = refl;
    }
    after-PutsOff none u = record {
      wait =
          if has_any around.maintained.skipped
          then config.retry_interval
          else config.maintenance_interval;
      long = ground arith;
      later = refl;
      attempt = refl;
      calls = refl;
    }

    maintain-Paces :
        (due : Bool) (u : Upkeep)
        → is_maintenance_due config now around u.next_maintenance ≡ due
        → Paces u (maintain_if config now around due u).1
    unfolding maintain_if call IsPaced from_maintenance
    maintain-Paces false u e = no_calls u u refl (omega arith) (omega arith)
    maintain-Paces true u e =
        let next =
          (after_maintenance config now around around.maintenance_error
            (call (maintain now) u)).1 in
        let p = after-PutsOff around.maintenance_error (call (maintain now) u) in
        record {
          made = maintain now ∷ [];
          calls = p.calls;
          pace = λ rest k. (
            maintenance_due u.next_maintenance e,
            sooner-IsPaced (from_attempt next.last_heartbeat_attempt)
                (from_attempt u.last_heartbeat_attempt) (from_maintenance next.next_maintenance)
                (now + min config.retry_interval config.maintenance_interval) rest
                (rw p.attempt (omega arith)) (rw p.later (omega (arith, p.long))) k,
          );
        }

    beat : Upkeep → Upkeep
    beat u = call (heartbeat now false) (record u { last_heartbeat_attempt = some now })

    beat-Paces :
        (u : Upkeep)
        → is_heartbeat_due config now around u.last_heartbeat_attempt ≡ true
        → Paces u (beat u)
    unfolding beat call IsPaced from_attempt
    beat-Paces u e = record {
      made = heartbeat now false ∷ [];
      calls = refl;
      pace = λ rest k. (heartbeat_due u.last_heartbeat_attempt e, k);
    }

    after_heartbeat-Paces :
        (exc : Option Exc) (due : Bool) (u : Upkeep)
        → is_maintenance_due config now around u.next_maintenance ≡ due
        → Paces u (after_heartbeat config now around exc due u).1
    unfolding after_heartbeat from_maintenance
    after_heartbeat-Paces none due u e =
        then-Paces u (record u { connected = true; failing = false })
          (maintain_if config now around due (record u { connected = true; failing = false })).1
          (no_calls u (record u { connected = true; failing = false }) refl (omega arith)
            (omega arith))
          (maintain-Paces due (record u { connected = true; failing = false }) e)
    after_heartbeat-Paces (some exc) true u e =
        no_calls u (after_heartbeat config now around (some exc) true u).1 refl (omega arith)
          (omega (arith, maintenance_due u.next_maintenance e))
    after_heartbeat-Paces (some exc) false u e =
        no_calls u (after_heartbeat config now around (some exc) false u).1 refl (omega arith)
          (omega arith)

    after_status-Paces :
        (o : Option Exc) (due : Bool) (u : Upkeep)
        → is_heartbeat_due config now around u.last_heartbeat_attempt ≡ true
        → is_maintenance_due config now around u.next_maintenance ≡ due
        → Paces u
            (after_status config now around o due
              (record u { last_heartbeat_attempt = some now })).1
    unfolding after_status beat from_attempt call
    after_status-Paces (some exc) due u e d =
        no_calls u (record u { last_heartbeat_attempt = some now; connected = false }) refl
          (omega (arith, heartbeat_due u.last_heartbeat_attempt e)) (omega arith)
    after_status-Paces none due u e d =
        then-Paces u (beat u)
          (after_heartbeat config now around around.heartbeat_error due (beat u)).1 (beat-Paces u e)
          (after_heartbeat-Paces around.heartbeat_error due (beat u) d)

    heartbeat_if-Paces :
        (beats due : Bool) (u : Upkeep)
        → is_heartbeat_due config now around u.last_heartbeat_attempt ≡ beats
        → is_maintenance_due config now around u.next_maintenance ≡ due
        → Paces u (heartbeat_if config now around beats due u).1
    unfolding heartbeat_if
    heartbeat_if-Paces false due u e d = maintain-Paces due u d
    heartbeat_if-Paces true due u e d = after_status-Paces around.status_error due u e d

    tick-Paces : (u : Upkeep) → Paces u (tick config now around u).1
    unfolding tick
    tick-Paces u =
        heartbeat_if-Paces (is_heartbeat_due config now around u.last_heartbeat_attempt)
          (is_maintenance_due config now around u.next_maintenance) u refl refl

  -- Ticks in a row.
  unfoldable pub tick_all : List (ℕ × Surroundings) → Upkeep → Upkeep
  tick_all [] u = u
  tick_all ((now, around) ∷ more) u = tick_all more (tick config now around u).1

  -- Over any ticks, at whatever times, heartbeats are tried at least their interval apart, failed
  -- ones included, and maintenance is run at least the shorter of its two intervals apart.
  pub tick_all-Paces : (ticks : List (ℕ × Surroundings)) (u : Upkeep) → Paces u (tick_all ticks u)
  unfolding tick_all
  tick_all-Paces [] u = no_calls u u refl (omega arith) (omega arith)
  tick_all-Paces ((now, around) ∷ more) u =
      let mid = (tick config now around u).1 in
      then-Paces u mid (tick_all more mid) (tick-Paces now around u) (tick_all-Paces more mid)
