-- ===== src/Collector/Link.antt =====
-- collector/session.py, `NodeSession`: one session's reading of the probe's lines. Times are
-- microseconds of the monotonic clock. The reads are given to `pump` as a list.
pub mod Reading
use node_monitor.Common.{
  ℕ, zero, suc, ◌+◌, ◌-◌, ◌*◌, String, Bool, true, false, Option, none, some, List, [], ◌∷◌, ◌++◌,
  if◌then◌else◌, ◌==◌, Eq, text_eq, nat_eq, length, ltb, leb,
}
use node_monitor.Collector.Stderr.{Bytes, newline}

abbrev pub stream_limit : ℕ
stream_limit = 32 * 1024 * 1024

-- What a line can say, as far as session.py reads it: `kind` and `reason` if they are texts.
pub record Message (BootId Body : Type 0) : Type 0 where
  pub kind : Option String
  pub boot_id : Option BootId
  pub reason : Option String
  pub body : Body

-- `on_event` and `on_message`.
pub data Report (BootId Body : Type 0) : Type 0 where
  malformed_line : ℕ → Bytes → Report BootId Body
  node_rebooted : BootId → BootId → Report BootId Body
  message : Message BootId Body → Report BootId Body

-- `_bye_reason`, `_boot_id`, and what has been reported.
pub record Link (BootId Body : Type 0) : Type 0 where
  pub bye_reason : Option String
  pub boot_id : Option BootId
  pub reports : List (Report BootId Body)

-- What a `readline` within the time given does. No bytes mean the end of the stream.
pub data Read : Type 0 where
  line : Bytes → Read
  too_long : Read
  timed_out : Read

-- What `_pump` returns.
pub data End : Type 0 where
  at_eof at_deadline in_silence : End

-- `raw[:-1] if raw.endswith(b"\n") else raw`
unfoldable pub strip_newline : Bytes → Bytes
strip_newline [] = []
strip_newline (b ∷ []) = if b == newline then [] else b ∷ []
strip_newline (b ∷ c ∷ bs) = b ∷ strip_newline (c ∷ bs)

unfoldable pub reason_or_bye : Option String → String
reason_or_bye none = "bye"
reason_or_bye (some reason) = if reason == "" then "bye" else reason

module _ {BootId Body : Type 0} ⦃same : Eq BootId⦄ where
  unfoldable pub emit : Report BootId Body → Link BootId Body → Link BootId Body
  emit report link = record link { reports = link.reports ++ report ∷ [] }

  unfoldable pub note_reboot : Option BootId → BootId → Link BootId Body → Link BootId Body
  note_reboot none new link = link
  note_reboot (some old) new link = if new == old then link else emit (node_rebooted old new) link

  unfoldable pub note_boot_id : Option BootId → Link BootId Body → Link BootId Body
  note_boot_id none link = link
  note_boot_id (some new) link = record (note_reboot link.boot_id new link) { boot_id = some new }

  unfoldable pub note_bye : Option String → Link BootId Body → Link BootId Body
  note_bye reason link = record link { bye_reason = some (reason_or_bye reason) }

  -- The branches on `msg.get("type")`.
  unfoldable pub note : Option String → Message BootId Body → Link BootId Body → Link BootId Body
  note none msg link = link
  note (some kind) msg link =
      if kind == "hello"
      then note_boot_id msg.boot_id link
      else (if kind == "bye" then note_bye msg.reason link else link)

-- `loads` stands for `json.loads`, `none` for what is no JSON object; `sample` for the decoded
-- beginning of a line, as bytes.
module _ {BootId Body : Type 0} ⦃same : Eq BootId⦄ (loads : Bytes → Option (Message BootId Body))
    (sample : Bytes → Bytes) where
  unfoldable pub handle_parsed :
      Bytes → Option (Message BootId Body) → Link BootId Body → Link BootId Body
  handle_parsed text none link = emit (malformed_line (length text) (sample text)) link
  handle_parsed text (some msg) link = emit (message msg) (note msg.kind msg link)

  unfoldable pub handle_line : Bytes → Link BootId Body → Link BootId Body
  handle_line raw link = let text = strip_newline raw in handle_parsed text (loads text) link

  unfoldable pub by_deadline : ℕ → Option ℕ → Bool
  by_deadline remaining none = true
  by_deadline remaining (some gap) = ltb remaining gap

  -- What a read does: go on (`none`) or end.
  unfoldable pub on_read : Bool → Read → Link BootId Body → Option End × Link BootId Body
  on_read true timed_out link = (some at_deadline, link)
  on_read false timed_out link = (some in_silence, link)
  on_read deadline_first too_long link = (none, emit (malformed_line stream_limit []) link)
  on_read deadline_first (line []) link = (some at_eof, link)
  on_read deadline_first (line (b ∷ raw)) link = (none, handle_line (b ∷ raw) link)

  unfoldable pub pump_on :
      Option End
      → (Link BootId Body → Option End × Link BootId Body)
      → Link BootId Body
      → Option End × Link BootId Body
  pump_on none rest link = rest link
  pump_on (some end) rest link = (some end, link)

  -- `_pump`, by the clock at the start of each turn and the read that follows; it is still going on
  -- (`none`) when the reads are used up.
  unfoldable pub pump :
      ℕ → Option ℕ → List (ℕ × Read) → Link BootId Body → Option End × Link BootId Body
  pump deadline gap [] link = (none, link)
  pump deadline gap ((now, read) ∷ more) link =
      if leb deadline now
      then (some at_deadline, link)
      else (let (end, next) = on_read (by_deadline (deadline - now) gap) read link in
          pump_on end (pump deadline gap more) next)
