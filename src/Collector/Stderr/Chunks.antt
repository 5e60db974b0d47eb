-- ===== src/Collector/Stderr/Chunks.antt =====
-- collector/session.py, `_StderrLog`: the cutting of the bytes in chunks.
use node_monitor.Common.{
  all, ltb, ℕ, ◌+◌, ◌-◌, ◌≡◌, refl, sym, ap, ◌∙◌, Bool, [], ◌∷◌, ◌++◌, append-nil, append_assoc,
  length, length-append, arith, ◌==◌, nat_eq, Bool-cases, inl, inr,
}
use node_monitor.Common.Slices.{first, last, first-append, last-append, last-last}
use node_monitor.Collector.Stderr.{
  is_space, strip_returns, line_max_chars, lines_per_session, Bytes, Chars, Log, add_part,
  report_line, feed_lines, feed, finish_line, line_max_bytes, tail_bytes, newline,
}

room_left : (n m k : ℕ) → n - (m + k) ≡ (n - m) - k
room_left n m k = omega arith

add_part-append : (p q : Bytes) (log : Log) → add_part q (add_part p log) ≡ add_part (p ++ q) log
unfolding add_part
add_part-append p q log =
    let room = line_max_bytes - length log.line in
    ap (λ bs. record log { line = bs })
      (rw
        (
          append_assoc log.line,
          length-append log.line (first room p),
          room_left line_max_bytes (length log.line) (length (first room p)),
          first-append room p q,
        )
        refl)

module _ (decode : Bytes → Chars) where
  -- A part that has been searched may as well be added to the line at once.
  feed_lines-part :
      (p q chunk : Bytes) (log : Log)
      → feed_lines decode (p ++ q) chunk log ≡ feed_lines decode q chunk (add_part p log)
  unfolding feed_lines
  feed_lines-part p q [] log = sym (add_part-append p q log)
  feed_lines-part p q (b ∷ chunk) log = elim (Bool-cases (b == newline)) [
    | inl end ↦ rw (end, add_part-append p q log) refl
    | inr more ↦ rw (more, append_assoc p) (feed_lines-part p (q ++ b ∷ []) chunk log)
  ]

  feed_lines-append :
      (part xs ys : Bytes) (log : Log)
      → feed_lines decode part (xs ++ ys) log
        ≡ feed_lines decode [] ys (feed_lines decode part xs log)
  unfolding feed_lines
  feed_lines-append part [] ys log =
      ap (λ p. feed_lines decode p ys log) (sym (append-nil part)) ∙ feed_lines-part part [] ys log
  feed_lines-append part (b ∷ xs) ys log = elim (Bool-cases (b == newline)) [
    | inl end ↦ rw end (feed_lines-append [] xs ys (finish_line decode (add_part part log)))
    | inr more ↦ rw more (feed_lines-append (part ++ b ∷ []) xs ys log)
  ]

  finish_line-tail :
      (t : Bytes) (log : Log)
      → finish_line decode (record log { tail = t }) ≡ record (finish_line decode log) { tail = t }
  unfolding finish_line report_line
  finish_line-tail t log = elim (Bool-cases blank) [
    | inl empty ↦ rw empty refl
    | inr printable ↦ elim (Bool-cases room) [
      | inl left ↦ rw (printable, left) refl
      | inr full ↦ rw (printable, full) refl
    ]
  ]
    where
      blank : Bool
      blank = all is_space (first line_max_chars (strip_returns (decode log.line)))

      room : Bool
      room = ltb log.emitted lines_per_session

  feed_lines-tail :
      (part chunk t : Bytes) (log : Log)
      → feed_lines decode part chunk (record log { tail = t })
        ≡ record (feed_lines decode part chunk log) { tail = t }
  unfolding feed_lines add_part
  feed_lines-tail part [] t log = refl
  feed_lines-tail part (b ∷ chunk) t log = elim (Bool-cases (b == newline)) [
    | inl end ↦
        rw (end, finish_line-tail t (add_part part log))
          (feed_lines-tail [] chunk t (finish_line decode (add_part part log)))
    | inr more ↦ rw more (feed_lines-tail (part ++ b ∷ []) chunk t log)
  ]

  tails_lem :
      (n : ℕ) (t xs ys : Bytes)
      → last n (t ++ last n (xs ++ ys)) ≡ last n (last n (t ++ last n xs) ++ last n ys)
  tails_lem n t xs ys =
      last-last n t (xs ++ ys)
      ∙ ap (last n) (sym (append_assoc t xs ys))
      ∙ sym (last-append n (t ++ xs) ys)
      ∙ ap (λ zs. last n (zs ++ ys)) (sym (last-last n t xs))
      ∙ sym (last-last n (last n (t ++ last n xs)) ys)

  with_tail : Bytes → Log → Log
  with_tail t log = record log { tail = t }

  feed_on : (ys t : Bytes) (log : Log) → Log
  feed_on ys t log = feed_lines decode [] ys (record log { tail = last tail_bytes (log.tail ++ t) })

  -- Reading two chunks does what reading their bytes at once does: the same events, counts, line
  -- and tail.
  pub feed-append :
      (xs ys : Bytes) (log : Log) → feed decode (xs ++ ys) log ≡ feed decode ys (feed decode xs log)
  unfolding feed feed_on with_tail
  feed-append xs ys log =
      let t0 = last tail_bytes (log.tail ++ last tail_bytes (xs ++ ys)) in
      let t1 = last tail_bytes (log.tail ++ last tail_bytes xs) in
      let t2 = last tail_bytes (t1 ++ last tail_bytes ys) in
      let l = feed_lines decode [] xs log in
      feed_lines-tail [] (xs ++ ys) t0 log
      ∙ ap (with_tail t0) (feed_lines-append [] xs ys log)
      ∙ ap (λ t. with_tail t (feed_lines decode [] ys l)) (tails_lem tail_bytes log.tail xs ys)
      ∙ sym (feed_lines-tail [] ys t2 l)
      ∙ ap (feed_on ys (last tail_bytes ys)) (sym (feed_lines-tail [] xs t1 log))
