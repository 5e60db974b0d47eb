-- ===== src/Collector/Stderr.antt =====
-- collector/session.py, `_StderrLog`: the probe's stderr as capped events and a short tail. Bytes
-- and characters are numbers, `decode` stands for `bytes.decode("utf-8", "replace")`.
pub mod Chunks
pub mod Bounds
use node_monitor.Common.{
  ℕ, zero, suc, ◌+◌, ◌-◌, ◌*◌, Bool, true, false, List, [], ◌∷◌, ◌++◌, if◌then◌else◌, ◌==◌, Eq,
  nat_eq, length, all, contains, ltb,
}
use node_monitor.Common.Slices.{first, last}

abbrev pub Bytes : Type 0
Bytes = List ℕ

abbrev pub Chars : Type 0
Chars = List ℕ

abbrev pub line_max_chars : ℕ
line_max_chars = 500

abbrev pub lines_per_session : ℕ
lines_per_session = 20

abbrev pub tail_bytes : ℕ
tail_bytes = 2048

-- The bytes that are kept of a line.
abbrev pub line_max_bytes : ℕ
line_max_bytes = line_max_chars * 4

abbrev pub newline : ℕ
newline = 10

-- What `emit` is given: `{"line": ...}` or `{"suppressed": ...}`.
pub data Detail : Type 0 where
  line : Chars → Detail
  suppressed : ℕ → Detail

pub record Log : Type 0 where
  pub events : List Detail
  pub line : Bytes
  pub tail : Bytes
  pub emitted : ℕ
  pub suppressed : ℕ

-- `str.isspace` of one character
unfoldable pub is_space : ℕ → Bool
is_space c = contains c (
    9 ∷ 10 ∷ 11 ∷ 12 ∷ 13 ∷ 28 ∷ 29 ∷ 30 ∷ 31 ∷ 32 ∷ 133 ∷ 160 ∷ 5760 ∷ 8192 ∷ 8193 ∷ 8194 ∷ 8195
    ∷ 8196 ∷ 8197 ∷ 8198 ∷ 8199 ∷ 8200 ∷ 8201 ∷ 8202 ∷ 8232 ∷ 8233 ∷ 8239 ∷ 8287 ∷ 12288 ∷ [])

-- `text.rstrip("\r")`
unfoldable pub put_front : ℕ → Chars → Chars
put_front c [] = if c == 13 then [] else c ∷ []
put_front c (d ∷ cs) = c ∷ d ∷ cs

unfoldable pub strip_returns : Chars → Chars
strip_returns [] = []
strip_returns (c ∷ cs) = put_front c (strip_returns cs)

-- `self._line += chunk[start : min(end, start + room)]`
unfoldable pub add_part : Bytes → Log → Log
add_part part log = record log { line = log.line ++ first (line_max_bytes - length log.line) part }

module _ (decode : Bytes → Chars) where
  -- By whether the text is blank and whether there is room for another event.
  unfoldable pub report_line : Bool → Bool → Chars → Log → Log
  report_line true room text log = log
  report_line false true text log = record log {
    emitted = log.emitted + 1;
    events = log.events ++ Detail.line text ∷ [];
  }
  report_line false false text log = record log { suppressed = log.suppressed + 1 }

  unfoldable pub finish_line : Log → Log
  finish_line log =
      let text = first line_max_chars (strip_returns (decode log.line)) in
      report_line (all is_space text) (ltb log.emitted lines_per_session) text
        (record log { line = [] })

  -- The loop of `feed`: `part` is `chunk[start:]` as far as it has been searched for a newline.
  unfoldable pub feed_lines : Bytes → Bytes → Log → Log
  feed_lines part [] log = add_part part log
  feed_lines part (b ∷ chunk) log =
      if b == newline
      then feed_lines [] chunk (finish_line (add_part part log))
      else feed_lines (part ++ b ∷ []) chunk log

  unfoldable pub feed : Bytes → Log → Log
  feed chunk log =
      feed_lines [] chunk
        (record log { tail = last tail_bytes (log.tail ++ last tail_bytes chunk) })

  unfoldable pub report_suppressed : ℕ → Log → Log
  report_suppressed zero log = log
  report_suppressed (suc n) log = record log {
    events = log.events ++ Detail.suppressed (suc n) ∷ [];
  }

  unfoldable pub finish : Log → Log
  finish log = let ended = finish_line log in report_suppressed ended.suppressed ended
