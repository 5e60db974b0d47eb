-- ===== src/Collector/Queue/Conserve.antt =====
-- collector/record_queue.py: what the consumer gets of the durable records, whatever the producers
-- and the consumer do and in whatever order.
use node_monitor.Common.{
  ℕ, ◌-◌, Bool, true, false, not, ◌||◌, ◌≡◌, refl, sym, ◌∙◌, ap, none, some, List, [], ◌∷◌, ◌++◌,
  append-nil, append_assoc, if◌then◌else◌, Eq, nat_eq, text_eq, keep, arith, Option-cases, inl, inr,
  ◌⊎◌, ◌≤◌, Bool-cases, sum_by,
}
use native.Mathlib.Decide.{dec_le}
use node_monitor.Common.Dict.{lookup}
use node_monitor.Records.{Record}
use node_monitor.Collector.Queue.{
  runtime_error, RecordQueue, Action, put_batch, close_queue, Wake, is_live_kind, add_live, put_one,
  put_all, put_records, close, drain, act, act_all, take, has_records,
}

-- One call on the queue, by a producer or by the consumer.
pub data Event {ℓ} (V : Type ℓ) : Type ℓ where
  called : Action V → Event V
  drained : Event V

-- The queue, and every durable record that the consumer has been given.
pub record History {ℓ} (V : Type ℓ) : Type ℓ where
  pub queue : RecordQueue V
  pub taken : List (Record V)

abbrev pub IsDone {ℓ} : {A : Type ℓ} → List A → Type 0
IsDone [] = Unit
IsDone (x ∷ xs) = ⊥

module _ {ℓ} {V : Type ℓ} ⦃e : Eq V⦄ where
  unfoldable pub step : Event V → History V → History V
  step (called a) h = record h { queue = act a h.queue }
  step drained h = let (out, q) = drain h.queue in record { queue = q; taken = h.taken ++ out.0 }

  unfoldable pub run : List (Event V) → History V → History V
  run [] h = h
  run (a ∷ rest) h = run rest (step a h)

  -- A live record without a node stops the batch; `stored` is what comes before it.
  unfoldable pub is_stored : Record V → Bool
  is_stored r = not (is_live_kind r) || elim (lookup "node" r.row) [ none ↦ false | some _ ↦ true ]

  unfoldable pub stored : List (Record V) → List (Record V)
  stored [] = []
  stored (r ∷ rs) = let rest = stored rs in if is_stored r then r ∷ rest else []

  abbrev pub durables : List (Record V) → List (Record V)
  durables = keep (λ r. not (is_live_kind r))

  -- The durable records that were put while the queue was open, in order, and in each batch only
  -- those before the first live record without a node.
  unfoldable pub accepted : Bool → List (Event V) → List (Record V)
  accepted closed [] = []
  accepted closed (called (put_batch rs) ∷ rest) =
      let after = accepted closed rest in if closed then after else durables (stored rs) ++ after
  accepted closed (called close_queue ∷ rest) = accepted true rest
  accepted closed (drained ∷ rest) = accepted closed rest

  -- One record stored: a durable one goes last, a live one leaves the durable records alone.
  put_one-some :
      (r : Record V) (q q' : RecordQueue V)
      → put_one r q ≡ some q'
      → (is_stored r ≡ true)
        × (q'.durable ≡ q.durable ++ durables (r ∷ []))
        × (q'.closed ≡ q.closed)
  unfolding put_one is_stored add_live
  put_one-some r q q' h = ground (arith, append-nil q.durable)

  put_one-none : (r : Record V) (q : RecordQueue V) → put_one r q ≡ none → is_stored r ≡ false
  unfolding put_one is_stored
  put_one-none r q h = ground arith

  put_all_lem :
      (rs : List (Record V)) (q : RecordQueue V)
      → ((put_all rs q).1.durable ≡ q.durable ++ durables (stored rs))
        × ((put_all rs q).1.closed ≡ q.closed)
  unfolding put_all stored
  put_all_lem [] q = (sym (append-nil q.durable), refl)
  put_all_lem (r ∷ rs) q = elim (Option-cases (put_one r q)) [
    | inl bad ↦ rw (bad, put_all) (ground (arith, put_one-none r q bad, append-nil q.durable))
    | inr (q', good) ↦
        rw (good, put_all)
          (ground (
            arith,
            put_one-some r q q' good,
            put_all_lem rs q',
            append_assoc q.durable (r ∷ []) (durables (stored rs)),
            append-nil q.durable,
          ))
  ]

  abbrev pub seen : History V → List (Record V)
  seen h = h.taken ++ h.queue.durable

  step_lem :
      (a : Event V) (es : List (Event V)) (h : History V)
      → seen (step a h) ++ accepted (step a h).queue.closed es
        ≡ seen h ++ accepted h.queue.closed (a ∷ es)
  unfolding step act accepted put_records close drain
  step_lem (called (put_batch [])) es h = unfold stored in ground arith
  step_lem (called (put_batch (r ∷ rs))) es h =
      let q = h.queue in
      ground (
        arith,
        put_all_lem (r ∷ rs) q,
        append_assoc h.taken q.durable (durables (stored (r ∷ rs))),
        append_assoc (seen h) (durables (stored (r ∷ rs))) (accepted q.closed es),
      )
  step_lem (called close_queue) es h = refl
  step_lem drained es h = rw append-nil

  -- Whatever calls the producers and the consumer make, in any order: the durable records the
  -- consumer was given, followed by those still waiting, are the ones it had and those waiting at
  -- the start, followed by the durable records put while the queue was open, but for those that come
  -- in their batch after a live record without a node, at which `put` raises. None of these is
  -- lost, doubled or moved.
  pub run-conserves_durable :
      (es : List (Event V)) (h : History V)
      → (run es h).taken ++ (run es h).queue.durable
        ≡ (h.taken ++ h.queue.durable) ++ accepted h.queue.closed es
  unfolding run
  run-conserves_durable [] h = unfold accepted in sym (append-nil (seen h))
  run-conserves_durable (a ∷ es) h = run-conserves_durable es (step a h) ∙ step_lem a es h

  -- `put` after `close` raises RuntimeError and changes nothing, unless the batch is empty.
  pub put_records-closed :
      (r : Record V) (rs : List (Record V)) (q : RecordQueue V)
      → q.closed ≡ true
      → put_records (r ∷ rs) q ≡ (runtime_error, q)
  unfolding put_records
  put_records-closed r rs q h = rw h

  abbrev pub calls_of : List (Wake V) → List (Action V)
  calls_of [] = []
  calls_of (w ∷ wakes) = w.calls ++ calls_of wakes

  -- Why `take` stops waiting: no wake-up came before the deadline, the queue has records or is
  -- closed, or the time is used up.
  abbrev pub StopsAt : ℕ → List (Wake V) → List (Wake V) → RecordQueue V → Type 0
  StopsAt timeout before after q =
      IsDone after
      ⊎ (((has_records q || q.closed) ≡ true) ⊎ (timeout ≤ sum_by (λ w. w.elapsed) before))

  act_all-append :
      (xs ys : List (Action V)) (q : RecordQueue V)
      → act_all (xs ++ ys) q ≡ act_all ys (act_all xs q)
  unfolding act_all
  act_all-append [] ys q = refl
  act_all-append (a ∷ xs) ys q = act_all-append xs ys (act a q)

  -- `take` hands over, in one step, all that waits in the queue at the moment it stops waiting, and
  -- it stops only when there is something to hand over, the queue is closed, or the time is up.
  pub take-drains :
      (timeout : ℕ) (wakes : List (Wake V)) (q : RecordQueue V)
      → (before : List (Wake V)) × (after : List (Wake V)) × (wakes ≡ before ++ after)
        × (take timeout wakes q ≡ drain (act_all (calls_of before) q))
        × StopsAt timeout before after (act_all (calls_of before) q)
  unfolding take act_all
  take-drains timeout [] q = ([], [], refl, refl, inl tt)
  take-drains timeout (w ∷ wakes) q = elim (Bool-cases (has_records q || q.closed)) [
    | inl now ↦ ([], w ∷ wakes, refl, ground arith, inr (inl now))
    | inr not_now ↦ elim (dec_le timeout 0) [
      | yes up ↦ ([], w ∷ wakes, refl, ground arith, inr (inr (omega arith)))
      | no left ↦
          let (before, after, split, result, why) =
            take-drains (timeout - w.elapsed) wakes (act_all w.calls q) in
          (
            w ∷ before,
            after,
            ap (◌∷◌ w) split,
            ground (arith, act_all-append w.calls (calls_of before) q),
            rw act_all-append (elim why [
              | inl quiet ↦ inl quiet
              | inr (inl ready) ↦ inr (inl ready)
              | inr (inr spent) ↦ inr (inr (omega arith))
            ]),
          )
    ]
  ]
