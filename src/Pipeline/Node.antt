-- ===== src/Pipeline/Node.antt =====
-- pipeline/node_pipeline.py, `NodePipeline`: messages of the probe and events of the session in,
-- storage records out. The aggregators and the enrichment are an interface; times are microseconds.
use node_monitor.Common.{
  ℕ, ◌+◌, ◌-◌, ◌%◌, String, Bool, true, false, Option, none, some, List, [], ◌∷◌, ◌++◌,
  if◌then◌else◌, ◌==◌, text_eq, leb,
}
use node_monitor.Values.{ℤ, pos, negsuc}
use node_monitor.Pipeline.Minutes.{floor_minute}

-- MinuteAggregator, UsageAggregator and enrich_census: rows with their minute, or with their kind
-- and the start of their interval.
pub record Aggregators : Type 1 where
  pub State : Type 0
  pub Body : Type 0
  pub Stored : Type 0
  pub Processes : Type 0
  pub enrich : Body → Processes
  pub add_counters : Body → ℕ → ℕ → State → List (ℕ × Stored) × State
  pub add_census : Body → ℕ → State → State
  pub add_usage : Processes → ℕ → State → List (String × ℕ × Stored) × State
  pub flush_minutes : State → List (ℕ × Stored) × State
  pub flush_usage : State → List (String × ℕ × Stored) × State

-- `msg.get("type")`
pub data Kind : Type 0 where
  hello counters census error other : Kind

-- What the pipeline itself reads of a message.
pub record Message (ag : Aggregators) : Type 0 where
  pub kind : Kind
  pub boot_id : Option String
  pub probe_version : Option String
  pub hostname : Option String
  pub mem_total : Option ℕ
  pub mem_available : Option ℕ
  pub has_processes : Bool
  pub body : ag.Body

-- The row of a live node that is up.
pub record Gauges : Type 0 where
  pub boot_id : Option String
  pub probe_version : Option String
  pub mem_used : Option ℤ
  pub mem_total : Option ℕ
  pub last_census_at : Option ℕ

pub data Output (ag : Aggregators) : Type 0 where
  hardware : Message ag → ℕ → Output ag
  hostname_mismatch : String → Option String → ℕ → Output ag
  late_sample : Kind → ℕ → Output ag
  probe_error : Message ag → ℕ → Output ag
  session_event : String → ℕ → Output ag
  node_metrics : ℕ → ag.Stored → Output ag
  usage : String → ℕ → ag.Stored → Output ag
  live_up : Gauges → ℕ → Output ag
  live_down : ℕ → Output ag
  live_processes : ag.Processes → ℕ → Output ag

pub record NodePipeline (ag : Aggregators) : Type 0 where
  pub host : String
  pub summary_interval : ℕ
  pub session_id : ℕ
  pub boot_id : Option String
  pub probe_version : Option String
  pub last_census_at : Option ℕ
  pub last_minute : Option ℕ
  pub last_interval : Option ℕ
  pub aggregators : ag.State

-- `last is not None and t <= last`
unfoldable pub is_at_or_before : ℕ → Option ℕ → Bool
is_at_or_before t none = false
is_at_or_before t (some last) = leb t last

-- `None if total is None or avail is None else total - avail`
unfoldable pub mem_used : Option ℕ → Option ℕ → Option ℤ
mem_used none avail = none
mem_used (some total) none = none
mem_used (some total) (some avail) =
    some (if leb avail total then pos (total - avail) else negsuc (avail - total - 1))

unfoldable pub is_host : String → Option String → Bool
is_host host none = false
is_host host (some name) = name == host

module _ {ag : Aggregators} where
  unfoldable pub minute_records :
      List (ℕ × ag.Stored) → NodePipeline ag → List (Output ag) × NodePipeline ag
  minute_records [] p = ([], p)
  minute_records ((minute, row) ∷ rows) p =
      let (out, next) = minute_records rows (record p { last_minute = some minute }) in
      (node_metrics minute row ∷ out, next)

  unfoldable pub usage_records :
      List (String × ℕ × ag.Stored) → NodePipeline ag → List (Output ag) × NodePipeline ag
  usage_records [] p = ([], p)
  usage_records ((kind, start, row) ∷ items) p =
      let (out, next) = usage_records items (record p { last_interval = some start }) in
      (usage kind start row ∷ out, next)

  unfoldable pub interval_start : NodePipeline ag → ℕ → ℕ
  interval_start p recv = recv - recv % p.summary_interval

  unfoldable pub on_hello : Message ag → ℕ → NodePipeline ag → List (Output ag) × NodePipeline ag
  on_hello msg recv p = (
    hardware msg recv
        ∷ (if is_host p.host msg.hostname
            then []
            else hostname_mismatch p.host msg.hostname recv ∷ []),
    record p { boot_id = msg.boot_id; probe_version = msg.probe_version },
  )

  unfoldable pub gauges : Message ag → NodePipeline ag → Gauges
  gauges msg p = record {
    boot_id = p.boot_id;
    probe_version = p.probe_version;
    mem_used = mem_used msg.mem_total msg.mem_available;
    mem_total = msg.mem_total;
    last_census_at = p.last_census_at;
  }

  unfoldable pub late : Message ag → ℕ → NodePipeline ag → List (Output ag) × NodePipeline ag
  late msg recv p = (late_sample msg.kind recv ∷ [], p)

  -- `_counters`, by whether the sample is late.
  unfoldable pub counters_if :
      Bool → Message ag → ℕ → NodePipeline ag → List (Output ag) × NodePipeline ag
  counters_if true msg recv p = late msg recv p
  counters_if false msg recv p =
      let (rows, aggregators) = ag.add_counters msg.body recv p.session_id p.aggregators in
      let (out, next) = minute_records rows (record p { aggregators = aggregators }) in
      (out ++ live_up (gauges msg next) recv ∷ [], next)

  unfoldable pub on_counters : Message ag → ℕ → NodePipeline ag → List (Output ag) × NodePipeline ag
  on_counters msg recv p =
      counters_if (is_at_or_before (floor_minute recv) p.last_minute) msg recv p

  -- A census without processes.
  unfoldable pub summary_if :
      Bool → Message ag → ℕ → NodePipeline ag → List (Output ag) × NodePipeline ag
  summary_if true msg recv p = late msg recv p
  summary_if false msg recv p = (
    [],
    record p {
      last_census_at = some recv;
      aggregators = ag.add_census msg.body recv p.aggregators;
    },
  )

  unfoldable pub processes_if :
      Bool → Message ag → ℕ → NodePipeline ag → List (Output ag) × NodePipeline ag
  processes_if true msg recv p = late msg recv p
  processes_if false msg recv p =
      let enriched = ag.enrich msg.body in
      let (items, aggregators) = ag.add_usage enriched recv p.aggregators in
      let (out, next) =
        usage_records items (record p { last_census_at = some recv; aggregators = aggregators }) in
      (
        live_processes enriched recv ∷ out,
        record next { aggregators = ag.add_census msg.body recv next.aggregators },
      )

  unfoldable pub census_if :
      Bool → Message ag → ℕ → NodePipeline ag → List (Output ag) × NodePipeline ag
  census_if false msg recv p =
      summary_if (is_at_or_before (floor_minute recv) p.last_minute) msg recv p
  census_if true msg recv p =
      processes_if (is_at_or_before (interval_start p recv) p.last_interval) msg recv p

  unfoldable pub dispatch :
      Kind → Message ag → ℕ → NodePipeline ag → List (Output ag) × NodePipeline ag
  dispatch hello msg recv p = on_hello msg recv p
  dispatch counters msg recv p = on_counters msg recv p
  dispatch census msg recv p = census_if msg.has_processes msg recv p
  dispatch error msg recv p = (probe_error msg recv ∷ [], p)
  dispatch other msg recv p = ([], p)

  unfoldable pub on_message : Message ag → ℕ → NodePipeline ag → List (Output ag) × NodePipeline ag
  on_message msg recv p = dispatch msg.kind msg recv p

  unfoldable pub on_event : String → ℕ → NodePipeline ag → List (Output ag) × NodePipeline ag
  on_event kind recv p = (
    session_event kind recv ∷ (if kind == "session_lost" then live_down recv ∷ [] else []),
    if kind == "session_started" then record p { session_id = p.session_id + 1 } else p,
  )

  unfoldable pub flush_all : NodePipeline ag → List (Output ag) × NodePipeline ag
  flush_all p =
      let (rows, a) = ag.flush_minutes p.aggregators in
      let (minutes, p1) = minute_records rows (record p { aggregators = a }) in
      let (items, a1) = ag.flush_usage p1.aggregators in
      let (usages, p2) = usage_records items (record p1 { aggregators = a1 }) in
      (minutes ++ usages, p2)
