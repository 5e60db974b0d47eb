-- ===== src/Collector/Daemon/Lifecycle.antt =====
-- What the consumer of the queue gets from a run of the daemon.
use node_monitor.Common.{
  ℕ, String, ◌≡◌, refl, sym, ap, ◌∙◌, Bool, true, false, not, List, [], ◌∷◌, ◌++◌, append-nil,
  append_assoc, if◌then◌else◌, Eq, All, All-append, keep-append, Bool-cases, inl, inr,
}
use node_monitor.Common.Dict.{Dict}
use node_monitor.Records.{Record}
use node_monitor.Collector.Queue.{Action, put_batch, close_queue, is_live_kind, empty}
use node_monitor.Collector.Queue.Conserve.{
  Event, called, drained, run, accepted, stored, is_stored, durables, run-conserves_durable,
}
use node_monitor.Collector.Daemon.{
  Cells, Pipelines, Callback, message, event, crash, Daemon, collector_event, delivered, tap,
  deliver, on_message, on_event, on_crash, call, call_all, flushed, finish_queue, run_checked,
  event_row, error_detail,
}

module _ {V : Type 0} ⦃e : Eq V⦄ where
  -- The calls on the queue that are not the consumer's.
  unfoldable pub calls_in : List (Event V) → List (Action V)
  calls_in [] = []
  calls_in (called a ∷ es) = a ∷ calls_in es
  calls_in (drained ∷ es) = calls_in es

  -- The durable records that some calls put while the queue is open.
  of_calls : Bool → List (Action V) → List (Record V)
  of_calls closed [] = []
  of_calls closed (put_batch rs ∷ more) =
      let after = of_calls closed more in if closed then after else durables (stored rs) ++ after
  of_calls closed (close_queue ∷ more) = of_calls true more

  accepted_lem :
      (closed : Bool) (es : List (Event V)) → accepted closed es ≡ of_calls closed (calls_in es)
  unfolding accepted calls_in of_calls
  accepted_lem closed [] = refl
  accepted_lem closed (called (put_batch rs) ∷ es) = rw (accepted_lem closed es) refl
  accepted_lem closed (called close_queue ∷ es) = accepted_lem true es
  accepted_lem closed (drained ∷ es) = accepted_lem closed es

  -- Every live record has its node.
  abbrev pub IsNamed : List (Record V) → Type 0
  IsNamed rs = All (λ r. is_stored r ≡ true) rs

  stored_lem : (rs : List (Record V)) → IsNamed rs → stored rs ≡ rs
  unfolding stored
  stored_lem [] h = refl
  stored_lem (r ∷ rs) h = rw (h.0) (ap (λ more. r ∷ more) (stored_lem rs h.1))

  IsNamed-first : (xs ys : List (Record V)) → IsNamed (xs ++ ys) → IsNamed xs
  IsNamed-first [] ys h = tt
  IsNamed-first (x ∷ xs) ys h = (h.0, IsNamed-first xs ys h.1)

  IsNamed-rest : (xs ys : List (Record V)) → IsNamed (xs ++ ys) → IsNamed ys
  IsNamed-rest [] ys h = h
  IsNamed-rest (x ∷ xs) ys h = IsNamed-rest xs ys h.1

  module _ (cells : Cells V) (system : String) (host_of : String → String) (has_tap : Bool)
      (pl : Pipelines V) where
    abbrev State : Type 0
    State = Daemon V pl.State

    -- The records that a callback delivers.
    unfoldable pub batch_of : Callback V pl.Message → State → List (Record V)
    batch_of (message label msg recv) d =
        delivered cells system host_of has_tap pl label recv
          (pl.on_message msg recv (d.pipelines label)).0
    batch_of (event label kind detail recv) d =
        delivered cells system host_of has_tap pl label recv
          (pl.on_event kind detail recv (d.pipelines label)).0
    batch_of (crash label exc recv) d =
        delivered cells system host_of has_tap pl label recv
          (pl.on_event "session_crashed" (error_detail cells system host_of has_tap pl exc) recv
            (d.pipelines label)).0

    abbrev called_by : Callback V pl.Message → State → State
    called_by = call cells system host_of has_tap pl

    unfoldable pub produced : List (Callback V pl.Message) → State → List (Record V)
    produced [] d = []
    produced (c ∷ cs) d = batch_of c d ++ produced cs (called_by c d)

    puts : List (Callback V pl.Message) → State → List (Action V)
    puts [] d = []
    puts (c ∷ cs) d = put_batch (batch_of c d) ∷ puts cs (called_by c d)

    tap-calls :
        (rs : List (Record V)) (d : State)
        → (tap cells system host_of has_tap pl rs d).calls ≡ d.calls
    unfolding tap
    tap-calls rs d = elim (Bool-cases has_tap) [ inl on ↦ rw on refl | inr off ↦ rw off refl ]

    call-calls :
        (c : Callback V pl.Message) (d : State)
        → (called_by c d).calls ≡ d.calls ++ put_batch (batch_of c d) ∷ []
    unfolding call on_message on_event on_crash deliver batch_of
    call-calls (message label msg recv) d = rw tap-calls refl
    call-calls (event label kind detail recv) d = rw tap-calls refl
    call-calls (crash label exc recv) d = rw tap-calls refl

    call_all-calls :
        (cs : List (Callback V pl.Message)) (d : State)
        → (call_all cells system host_of has_tap pl cs d).calls ≡ d.calls ++ puts cs d
    unfolding call_all puts
    call_all-calls [] d = sym (append-nil d.calls)
    call_all-calls (c ∷ cs) d =
        call_all-calls cs (called_by c d)
        ∙ ap (λ calls. calls ++ puts cs (called_by c d)) (call-calls c d)
        ∙ append_assoc d.calls (put_batch (batch_of c d) ∷ []) (puts cs (called_by c d))

    of_calls-puts :
        (cs : List (Callback V pl.Message)) (d : State) (rest : List (Action V))
        → IsNamed (produced cs d)
        → of_calls false (puts cs d ++ rest) ≡ durables (produced cs d) ++ of_calls false rest
    unfolding of_calls puts produced
    of_calls-puts [] d rest h = refl
    of_calls-puts (c ∷ cs) d rest h =
        let later = produced cs (called_by c d) in
        ap (λ rs. durables rs ++ of_calls false (puts cs (called_by c d) ++ rest))
          (stored_lem (batch_of c d) (IsNamed-first (batch_of c d) later h))
        ∙ ap (λ rs. durables (batch_of c d) ++ rs)
            (of_calls-puts cs (called_by c d) rest (IsNamed-rest (batch_of c d) later h))
        ∙ sym (append_assoc (durables (batch_of c d)) (durables later) (of_calls false rest))
        ∙ ap (λ rs. rs ++ of_calls false rest)
            (sym (keep-append (λ r. not (is_live_kind r)) (batch_of c d) later))

    abbrev started : Dict String V → ℕ → Record V
    started detail at =
        collector_event cells system host_of has_tap pl "collector_started" detail at

    abbrev stopped : ℕ → Record V
    stopped at = collector_event cells system host_of has_tap pl "collector_stopped" [] at

    -- The daemon before it starts.
    abbrev pub fresh : (String → pl.State) → Dict String String → State
    fresh pipelines states = record {
      pipelines = pipelines;
      session_states = states;
      calls = [];
      tapped = [];
    }

    -- The daemon once it has started.
    abbrev ready : Dict String V → ℕ → (String → pl.State) → Dict String String → State
    ready detail started_at pipelines states = record (fresh pipelines states) {
      calls = put_batch (started detail started_at ∷ []) ∷ [];
    }

    -- The records that the sessions' callbacks deliver, and those of the last flush.
    unfoldable pub served :
        List String
        → Dict String V
        → ℕ
        → List (Callback V pl.Message)
        → ℕ
        → (String → pl.State)
        → Dict String String
        → List (Record V)
    served labels detail started_at cs stopped_at pipelines states =
        let d = ready detail started_at pipelines states in
        produced cs d
        ++ flushed cells system host_of has_tap pl stopped_at labels
            (call_all cells system host_of has_tap pl cs d).pipelines

    -- However the writer's drains are interleaved with the daemon's calls, the durable records that
    -- it is given and those that wait are the start of the collector, the durable records of the
    -- callbacks and of the last flush, in order, and the stop of the collector, if every live
    -- record has its node.
    pub run-delivers :
        (labels : List String) (detail : Dict String V) (started_at : ℕ)
        (cs : List (Callback V pl.Message)) (stopped_at : ℕ) (pipelines : String → pl.State)
        (states : Dict String String) (es : List (Event V))
        → calls_in es
          ≡ (run_checked cells system host_of has_tap pl labels detail started_at cs stopped_at
              (fresh pipelines states)).calls
        → IsNamed (served labels detail started_at cs stopped_at pipelines states)
        → (run es (record { queue = empty; taken = [] })).taken
            ++ (run es (record { queue = empty; taken = [] })).queue.durable
          ≡ started detail started_at
              ∷ durables (served labels detail started_at cs stopped_at pipelines states)
            ++ stopped stopped_at ∷ []
    unfolding run_checked finish_queue served of_calls collector_event event_row is_live_kind
        is_stored stored
    run-delivers labels detail started_at cs stopped_at pipelines states es h named =
        run-conserves_durable es (record { queue = empty; taken = [] })
        ∙ accepted_lem false es
        ∙ ap (of_calls false) (h ∙ all_calls)
        ∙ ap (λ rs. started detail started_at ∷ rs)
            (of_calls-puts cs d tail (IsNamed-first (produced cs d) last named)
              ∙ ap (λ rs. durables (produced cs d) ++ rs) at_end
              ∙ sym (
                  append_assoc (durables (produced cs d)) (durables last) (stopped stopped_at ∷ []))
              ∙ ap (λ rs. rs ++ stopped stopped_at ∷ [])
                  (sym (keep-append (λ r. not (is_live_kind r)) (produced cs d) last)))
      where
        d : State
        d = ready detail started_at pipelines states

        last : List (Record V)
        last =
            flushed cells system host_of has_tap pl stopped_at labels
              (call_all cells system host_of has_tap pl cs d).pipelines

        tail : List (Action V)
        tail = put_batch (last ++ stopped stopped_at ∷ []) ∷ close_queue ∷ []

        all_calls :
            (run_checked cells system host_of has_tap pl labels detail started_at cs stopped_at
              (fresh pipelines states)).calls
            ≡ put_batch (started detail started_at ∷ []) ∷ (puts cs d ++ tail)
        all_calls = rw tap-calls (ap (λ calls. calls ++ tail) (call_all-calls cs d))

        at_end : of_calls false tail ≡ durables last ++ stopped stopped_at ∷ []
        at_end =
            append-nil (durables (stored (last ++ stopped stopped_at ∷ [])))
            ∙ ap durables (
                stored_lem (last ++ stopped stopped_at ∷ []) (
                  All-append (λ r. is_stored r ≡ true) last (stopped stopped_at ∷ [])
                    (IsNamed-rest (produced cs d) last named) (refl, tt)))
            ∙ keep-append (λ r. not (is_live_kind r)) last (stopped stopped_at ∷ [])
