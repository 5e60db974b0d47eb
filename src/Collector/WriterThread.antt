-- ===== src/Collector/WriterThread.antt =====
-- collector/writer_thread.py: the rounds of the one thread that writes. The buffered writer and the
-- upkeep are given by what they answer: a submit returns events or raises (none), a tick returns
-- events. `Entry` is the trace of the calls.
pub mod Flow
use node_monitor.Common.{
  ℕ, zero, suc, Bool, true, false, Option, none, some, List, [], ◌∷◌, ◌++◌, if◌then◌else◌,
}

-- After shutdown, rounds spent writing the events that the last submits produced.
abbrev pub final_rounds : ℕ
final_rounds = 3

pub data Entry (R : Type 0) : Type 0 where
  taken : List R → List R → Entry R
  submitted : List R → Entry R
  submitted_live : List R → Entry R
  answered : List R → Entry R

pub record Thread (World R : Type 0) : Type 0 where
  pub world : World
  pub carried : List R
  pub log : List (Entry R)

-- One turn of the loop in `run`: what `take` returns, and whether the queue is closed and empty
-- after the round.
pub record Turn (R : Type 0) : Type 0 where
  pub durable : List R
  pub live : List R
  pub finished : Bool

module _ {World R : Type 0} (submit : List R → World → Option (List R) × World)
    (tick : World → Option (List R) × World) where
  unfoldable pub trace : Entry R → Thread World R → Thread World R
  trace entry t = record t { log = t.log ++ entry ∷ [] }

  -- `next_carried += ...`, by what the call returned; a call that raised has been logged.
  unfoldable pub add_events : Option (List R) → Thread World R → Thread World R
  add_events none t = t
  add_events (some events) t = trace (answered events) (record t { carried = t.carried ++ events })

  unfoldable pub submit_first : List R → Thread World R → Thread World R
  submit_first [] t = t
  submit_first (r ∷ rs) t =
      let (events, w) = submit (r ∷ rs) t.world in
      add_events events (trace (submitted (r ∷ rs)) (record t { world = w }))

  unfoldable pub submit_live : List R → Thread World R → Thread World R
  submit_live [] t = t
  submit_live (r ∷ rs) t =
      let (events, w) = submit (r ∷ rs) t.world in
      add_events events (trace (submitted_live (r ∷ rs)) (record t { world = w }))

  unfoldable pub run_tick : Bool → Thread World R → Thread World R
  run_tick false t = t
  run_tick true t = let (events, w) = tick t.world in add_events events (record t { world = w })

  -- `_round`; while it runs `carried` stands for `next_carried`.
  unfoldable pub round : List R → List R → Bool → Thread World R → Thread World R
  round durable live ticks t =
      run_tick ticks
        (submit_live live (submit_first (t.carried ++ durable) (record t { carried = [] })))

  -- The rounds after the queue is closed and empty.
  unfoldable pub finish_if :
      List R → (Thread World R → Thread World R) → Thread World R → Thread World R
  finish_if [] rest t = t
  finish_if (r ∷ rs) rest t = rest (round [] [] false t)

  unfoldable pub final : ℕ → Thread World R → Thread World R
  final zero t = t
  final (suc n) t = finish_if t.carried (final n) t

  unfoldable pub take_round : Turn R → Thread World R → Thread World R
  take_round turn t = round turn.durable turn.live true (trace (taken turn.durable turn.live) t)

  -- After a turn, by whether the queue is closed and empty.
  unfoldable pub after_turn :
      Bool → (Thread World R → Thread World R) → Thread World R → Thread World R
  after_turn true rest t = final final_rounds t
  after_turn false rest t = rest t

  -- `run`, until the turns are used up or the queue is closed and empty.
  unfoldable pub run : List (Turn R) → Thread World R → Thread World R
  run [] t = t
  run (turn ∷ turns) t = after_turn turn.finished (run turns) (take_round turn t)
