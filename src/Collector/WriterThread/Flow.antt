-- ===== src/Collector/WriterThread/Flow.antt =====
-- collector/writer_thread.py: what becomes of the records taken and the events answered.
use node_monitor.Common.{
  ℕ, zero, suc, ◌≡◌, refl, sym, Bool, true, false, Option, none, some, List, [], ◌∷◌, ◌++◌,
  append-nil, append_assoc,
}
use node_monitor.Collector.WriterThread.{
  Entry, taken, submitted, submitted_live, answered, Thread, Turn, trace, add_events, submit_first,
  submit_live, run_tick, round, after_turn, finish_if, final, take_round, run, final_rounds,
}

module _ {R : Type 0} where
  -- The records given to `submit` as durable ones, in order.
  unfoldable pub given : List (Entry R) → List R
  given [] = []
  given (taken durable live ∷ log) = given log
  given (submitted records ∷ log) = records ++ given log
  given (submitted_live records ∷ log) = given log
  given (answered events ∷ log) = given log

  -- The durable records taken and the events answered, in order.
  unfoldable pub due : List (Entry R) → List R
  due [] = []
  due (taken durable live ∷ log) = durable ++ due log
  due (submitted records ∷ log) = due log
  due (submitted_live records ∷ log) = due log
  due (answered events ∷ log) = events ++ due log

  given-append : (xs ys : List (Entry R)) → given (xs ++ ys) ≡ given xs ++ given ys
  unfolding given
  given-append [] ys = refl
  given-append (taken durable live ∷ xs) ys = given-append xs ys
  given-append (submitted records ∷ xs) ys =
      rw (given-append xs ys) (sym (append_assoc records (given xs) (given ys)))
  given-append (submitted_live records ∷ xs) ys = given-append xs ys
  given-append (answered events ∷ xs) ys = given-append xs ys

  due-append : (xs ys : List (Entry R)) → due (xs ++ ys) ≡ due xs ++ due ys
  unfolding due
  due-append [] ys = refl
  due-append (taken durable live ∷ xs) ys =
      rw (due-append xs ys) (sym (append_assoc durable (due xs) (due ys)))
  due-append (submitted records ∷ xs) ys = due-append xs ys
  due-append (submitted_live records ∷ xs) ys = due-append xs ys
  due-append (answered events ∷ xs) ys =
      rw (due-append xs ys) (sym (append_assoc events (due xs) (due ys)))

module _ {World R : Type 0} (submit : List R → World → Option (List R) × World)
    (tick : World → Option (List R) × World) where
  -- Nothing is lost or doubled: what was given, and then what is carried, is what was due.
  unfoldable pub Flows : Thread World R → Type 0
  Flows t = given t.log ++ t.carried ≡ due t.log

  add_events-Flows :
      (events : Option (List R)) (t : Thread World R)
      → Flows t
      → Flows (add_events submit tick events t)
  unfolding add_events trace Flows given due
  add_events-Flows none t h = h
  add_events-Flows (some events) t h =
      rw
        (
          given-append t.log (answered events ∷ []),
          due-append t.log (answered events ∷ []),
          append-nil (given t.log),
          append-nil events,
          sym h,
        )
        (sym (append_assoc (given t.log) t.carried events))

  submit_first-Flows :
      (records : List R) (t : Thread World R)
      → t.carried ≡ []
      → given t.log ++ records ≡ due t.log
      → Flows (submit_first submit tick records t)
  unfolding submit_first trace Flows given due
  submit_first-Flows [] t none_carried h = rw none_carried h
  submit_first-Flows (r ∷ rs) t none_carried h =
      let answer = submit (r ∷ rs) t.world in
      add_events-Flows answer.0
        (trace submit tick (submitted (r ∷ rs)) (record t { world = answer.1 }))
        (rw
          (
            given-append t.log (submitted (r ∷ rs) ∷ []),
            due-append t.log (submitted (r ∷ rs) ∷ []),
            none_carried,
            append-nil rs,
            append-nil (due t.log),
            append-nil (given t.log ++ r ∷ rs),
          )
          h)

  submit_live-Flows :
      (records : List R) (t : Thread World R) → Flows t → Flows (submit_live submit tick records t)
  unfolding submit_live trace Flows given due
  submit_live-Flows [] t h = h
  submit_live-Flows (r ∷ rs) t h =
      let answer = submit (r ∷ rs) t.world in
      add_events-Flows answer.0
        (trace submit tick (submitted_live (r ∷ rs)) (record t { world = answer.1 }))
        (rw
          (
            given-append t.log (submitted_live (r ∷ rs) ∷ []),
            due-append t.log (submitted_live (r ∷ rs) ∷ []),
            append-nil (given t.log),
            append-nil (due t.log),
          )
          h)

  run_tick-Flows :
      (ticks : Bool) (t : Thread World R) → Flows t → Flows (run_tick submit tick ticks t)
  unfolding run_tick Flows
  run_tick-Flows false t h = h
  run_tick-Flows true t h =
      add_events-Flows (tick t.world).0 (record t { world = (tick t.world).1 }) h

  round-Flows :
      (durable live : List R) (ticks : Bool) (t : Thread World R)
      → given t.log ++ (t.carried ++ durable) ≡ due t.log
      → Flows (round submit tick durable live ticks t)
  unfolding round
  round-Flows durable live ticks t h =
      let first = submit_first submit tick (t.carried ++ durable) (record t { carried = [] }) in
      run_tick-Flows ticks (submit_live submit tick live first) (
        submit_live-Flows live first
          (submit_first-Flows (t.carried ++ durable) (record t { carried = [] }) refl h))

  take_round-Flows :
      (turn : Turn R) (t : Thread World R) → Flows t → Flows (take_round submit tick turn t)
  unfolding take_round trace given due Flows
  take_round-Flows turn t h =
      let entry = taken turn.durable turn.live in
      round-Flows turn.durable turn.live true (trace submit tick entry t) (
        rw
          (
            given-append t.log (entry ∷ []),
            due-append t.log (entry ∷ []),
            append-nil (given t.log),
            append-nil turn.durable,
            sym h,
          )
          (sym (append_assoc (given t.log) t.carried turn.durable)))

  finish_if-Flows :
      (rs : List R) (rest : Thread World R → Thread World R) (t : Thread World R)
      → ((t : Thread World R) → Flows t → Flows (rest t))
      → Flows t
      → Flows (finish_if submit tick rs rest t)
  unfolding finish_if
  finish_if-Flows [] rest t k h = h
  finish_if-Flows (r ∷ rs) rest t k h =
      k (round submit tick [] [] false t)
        (round-Flows [] [] false t (unfold Flows in rw (append-nil t.carried) h))

  final-Flows : (n : ℕ) (t : Thread World R) → Flows t → Flows (final submit tick n t)
  unfolding final
  final-Flows zero t h = h
  final-Flows (suc n) t h = finish_if-Flows t.carried (final submit tick n) t (final-Flows n) h

  after_turn-Flows :
      (finished : Bool) (rest : Thread World R → Thread World R) (t : Thread World R)
      → ((t : Thread World R) → Flows t → Flows (rest t))
      → Flows t
      → Flows (after_turn submit tick finished rest t)
  unfolding after_turn
  after_turn-Flows true rest t k h = final-Flows final_rounds t h
  after_turn-Flows false rest t k h = k t h

  -- In any run, whatever the submits and ticks answer: the durable batches submitted, and then what
  -- is still carried at the end, are the durable records taken and the events answered, in order and
  -- without loss.
  pub run-Flows :
      (turns : List (Turn R)) (t : Thread World R) → Flows t → Flows (run submit tick turns t)
  unfolding run
  run-Flows [] t h = h
  run-Flows (turn ∷ turns) t h =
      after_turn-Flows turn.finished (run submit tick turns) (take_round submit tick turn t)
        (run-Flows turns) (take_round-Flows turn t h)
