-- ===== src/Collector/Stderr/Bounds.antt =====
-- collector/session.py, `_StderrLog`: the size of the log.
use node_monitor.Common.{
  ◌-◌, ◌≤◌, ◌≡◌, refl, Bool, true, false, [], ◌∷◌, ◌++◌, length, length-append, arith, ◌==◌, nat_eq,
  Bool-cases, inl, inr, all, ltb,
}
use node_monitor.Common.Slices.{first, last, length-first, length-last}
use node_monitor.Collector.Stderr.{
  Bytes, Chars, Log, Detail, add_part, report_line, feed_lines, feed, finish_line, line_max_bytes,
  tail_bytes, newline, is_space, strip_returns, line_max_chars, lines_per_session,
}

-- The buffers are within their limits, and there is an event for each line that counts as emitted,
-- of which there are no more than the limit.
pub record IsBounded (log : Log) : Type 0 where
  pub line : length log.line ≤ line_max_bytes
  pub tail : length log.tail ≤ tail_bytes
  pub emitted : log.emitted ≤ lines_per_session
  pub events : length log.events ≡ log.emitted

add_part-IsBounded : (part : Bytes) (log : Log) → IsBounded log → IsBounded (add_part part log)
unfolding add_part
add_part-IsBounded part log h =
    let room = line_max_bytes - length log.line in
    record {
      line =
          omega (arith, h.line, length-append log.line (first room part), length-first room part);
      tail = h.tail;
      emitted = h.emitted;
      events = h.events;
    }

module _ (decode : Bytes → Chars) where
  report_line-IsBounded :
      (blank room : Bool) (text : Chars) (log : Log)
      → ltb log.emitted lines_per_session ≡ room
      → IsBounded log
      → IsBounded (report_line decode blank room text log)
  unfolding report_line
  report_line-IsBounded true room text log e h = h
  report_line-IsBounded false true text log e h = record {
    line = h.line;
    tail = h.tail;
    emitted = ground arith;
    events = omega (arith, h.events, length-append log.events (Detail.line text ∷ []));
  }
  report_line-IsBounded false false text log e h = record {
    line = h.line;
    tail = h.tail;
    emitted = h.emitted;
    events = h.events;
  }

  finish_line-IsBounded : (log : Log) → IsBounded log → IsBounded (finish_line decode log)
  unfolding finish_line
  finish_line-IsBounded log h =
      let text = first line_max_chars (strip_returns (decode log.line)) in
      report_line-IsBounded (all is_space text) (ltb log.emitted lines_per_session) text
        (record log { line = [] }) refl
        (record { line = omega arith; tail = h.tail; emitted = h.emitted; events = h.events })

  feed_lines-IsBounded :
      (part chunk : Bytes) (log : Log)
      → IsBounded log
      → IsBounded (feed_lines decode part chunk log)
  unfolding feed_lines
  feed_lines-IsBounded part [] log h = add_part-IsBounded part log h
  feed_lines-IsBounded part (b ∷ chunk) log h = elim (Bool-cases (b == newline)) [
    | inl end ↦ rw end (
        feed_lines-IsBounded [] chunk (finish_line decode (add_part part log))
          (finish_line-IsBounded (add_part part log) (add_part-IsBounded part log h)))
    | inr more ↦ rw more (feed_lines-IsBounded (part ++ b ∷ []) chunk log h)
  ]

  -- However long a chunk is, the kept head of the line, the tail and the events stay within their
  -- limits, and the events are as many as are counted.
  pub feed-IsBounded :
      (chunk : Bytes) (log : Log) → IsBounded log → IsBounded (feed decode chunk log)
  unfolding feed
  feed-IsBounded chunk log h =
      feed_lines-IsBounded [] chunk
        (record log { tail = last tail_bytes (log.tail ++ last tail_bytes chunk) })
        (record {
          line = h.line;
          tail = length-last tail_bytes (log.tail ++ last tail_bytes chunk);
          emitted = h.emitted;
          events = h.events;
        })
