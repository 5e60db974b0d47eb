-- ===== src/Collector/Link/Reading.antt =====
-- collector/session.py, `_pump` and `_handle_line`: what one session's reading reports.
use node_monitor.Common.{
  ℕ, ◌+◌, ◌<◌, ◌≡◌, refl, sym, ◌∙◌, ◌++◌, append-nil, append_assoc, if◌then◌else◌, String, false,
  Option, none, some, List, [], ◌∷◌, length, sum_by, sum_by-append, All, arith, ◌==◌, Eq, text_eq,
  Bool-cases, inl, inr, leb,
}
use node_monitor.Collector.Stderr.{Bytes}
use node_monitor.Collector.Link.{
  Link, Message, Report, Read, End, malformed_line, node_rebooted, message, line, too_long,
  timed_out, emit, note_reboot, note_boot_id, note_bye, note, handle_parsed, handle_line, on_read,
  pump_on, pump, stream_limit, strip_newline,
}

-- A line, or one that is too long, that came before the deadline.
unfoldable pub Arrived : ℕ → ℕ × Read → Type 0
Arrived deadline (now, line []) = ⊥
Arrived deadline (now, line (b ∷ bs)) = now < deadline
Arrived deadline (now, too_long) = now < deadline
Arrived deadline (now, timed_out) = ⊥

module _ {BootId : Type 0} where
  -- The boot id of a greeting.
  unfoldable pub id_of : Option BootId → List BootId
  id_of none = []
  id_of (some new) = new ∷ []

  unfoldable pub greeting : Option String → Option BootId → List BootId
  greeting none boot_id = []
  greeting (some kind) boot_id = if kind == "hello" then id_of boot_id else []

module _ {BootId : Type 0} ⦃same : Eq BootId⦄ where
  -- The changes in a sequence of boot ids, after the one known before.
  unfoldable pub changes : Option BootId → List BootId → List (BootId × BootId)
  changes known [] = []
  changes none (new ∷ more) = changes (some new) more
  changes (some old) (new ∷ more) =
      let rest = changes (some new) more in if new == old then rest else (old, new) ∷ rest

module _ {BootId Body : Type 0} ⦃same : Eq BootId⦄ where
  -- One for a report that answers a line: a message or a complaint.
  unfoldable pub reply : Report BootId Body → ℕ
  reply (malformed_line n bs) = 1
  reply (node_rebooted old new) = 0
  reply (message msg) = 1

  unfoldable pub replies : List (Report BootId Body) → ℕ
  replies reports = sum_by reply reports

  -- The pairs of boot ids that the reports tell of.
  unfoldable pub reboot : Report BootId Body → List (BootId × BootId)
  reboot (malformed_line n bs) = []
  reboot (node_rebooted old new) = (old, new) ∷ []
  reboot (message msg) = []

  unfoldable pub reboots : List (Report BootId Body) → List (BootId × BootId)
  reboots [] = []
  reboots (r ∷ rs) = reboot r ++ reboots rs

  unfoldable pub greeting_of : Option (Message BootId Body) → List BootId
  greeting_of none = []
  greeting_of (some msg) = greeting msg.kind msg.boot_id

  -- A step from one link to the next that answers n lines and reads these boot ids.
  record Follows (n : ℕ) (ids : List BootId) (old new : Link BootId Body) : Type 0 where
    counted : replies new.reports ≡ replies old.reports + n
    told :
        (rest : List BootId)
        → reboots new.reports ++ changes new.boot_id rest
          ≡ reboots old.reports ++ changes old.boot_id (ids ++ rest)

  stays :
      (old new : Link BootId Body)
      → new.reports ≡ old.reports
      → new.boot_id ≡ old.boot_id
      → Follows 0 [] old new
  stays old new same id = record {
    counted = rw same (omega arith);
    told = λ rest. rw (same, id) refl;
  }

  reboots-append : (a b : List (Report BootId Body)) → reboots (a ++ b) ≡ reboots a ++ reboots b
  unfolding reboots
  reboots-append [] b = refl
  reboots-append (r ∷ a) b = rw (reboots-append a b, append_assoc) refl

  emit-Follows :
      (report : Report BootId Body) (link : Link BootId Body)
      → reboot report ≡ []
      → Follows (reply report) [] link (emit report link)
  unfolding emit replies reboots
  emit-Follows report link quiet = record {
    counted = omega (arith, sum_by-append reply link.reports (report ∷ []));
    told = λ rest. rw (reboots-append, quiet, append-nil) refl;
  }

  then-Follows :
      (n : ℕ) (ids : List BootId) (a b c : Link BootId Body)
      → Follows 0 ids a b
      → Follows n [] b c
      → Follows n ids a c
  then-Follows n ids a b c h k = record {
    counted = omega (arith, h.counted, k.counted);
    told = λ rest. k.told rest ∙ h.told rest;
  }

  note_new :
      (o : Option BootId) (new : BootId) (link : Link BootId Body)
      → link.boot_id ≡ o
      → Follows 0 (new ∷ []) link (record (note_reboot o new link) { boot_id = some new })
  unfolding note_reboot changes
  note_new none new link e = record { counted = omega arith; told = λ rest. rw e refl }
  note_new (some old) new link e = elim (Bool-cases (new == old)) [
    | inl again ↦
        rw again (record { counted = omega arith; told = λ rest. rw (e, changes, again) refl })
    | inr other ↦ rw other (
        unfold emit replies reply reboots reboot in
        record {
          counted = omega (arith, sum_by-append reply link.reports (node_rebooted old new ∷ []));
          told = λ rest. rw (e, changes, other, reboots-append, append_assoc) refl;
        })
  ]

  note_boot_id-Follows :
      (o : Option BootId) (link : Link BootId Body) → Follows 0 (id_of o) link (note_boot_id o link)
  unfolding note_boot_id id_of
  note_boot_id-Follows none link = stays link link refl refl
  note_boot_id-Follows (some new) link = note_new link.boot_id new link refl

  note-Follows :
      (o : Option String) (msg : Message BootId Body) (link : Link BootId Body)
      → Follows 0 (greeting o msg.boot_id) link (note o msg link)
  unfolding note note_bye greeting
  note-Follows none msg link = stays link link refl refl
  note-Follows (some kind) msg link = elim (Bool-cases (kind == "hello")) [
    | inl hello ↦ rw hello (note_boot_id-Follows msg.boot_id link)
    | inr other ↦ elim (Bool-cases (kind == "bye")) [
      | inl bye ↦ rw (other, bye) (stays link (note_bye msg.reason link) refl refl)
      | inr neither ↦ rw (other, neither) (stays link link refl refl)
    ]
  ]

  module _ (loads : Bytes → Option (Message BootId Body)) (sample : Bytes → Bytes) where
    handle_parsed-Follows :
        (text : Bytes) (o : Option (Message BootId Body)) (link : Link BootId Body)
        → Follows 1 (greeting_of o) link (handle_parsed loads sample text o link)
    unfolding handle_parsed reply reboot greeting_of
    handle_parsed-Follows text none link =
        emit-Follows (malformed_line (length text) (sample text)) link refl
    handle_parsed-Follows text (some msg) link =
        then-Follows 1 (greeting msg.kind msg.boot_id) link (note msg.kind msg link)
          (emit (message msg) (note msg.kind msg link)) (note-Follows msg.kind msg link)
          (emit-Follows (message msg) (note msg.kind msg link) refl)

    -- The boot id that a read brings, if it is a greeting with one, and those of many reads.
    unfoldable pub brought : Read → List BootId
    brought (line raw) = greeting_of (loads (strip_newline raw))
    brought too_long = []
    brought timed_out = []

    unfoldable pub all_brought : List (ℕ × Read) → List BootId
    all_brought [] = []
    all_brought (read ∷ reads) = brought read.1 ++ all_brought reads

    handle_line-Follows :
        (raw : Bytes) (link : Link BootId Body)
        → Follows 1 (brought (line raw)) link (handle_line loads sample raw link)
    unfolding handle_line brought
    handle_line-Follows raw link =
        handle_parsed-Follows (strip_newline raw) (loads (strip_newline raw)) link

    -- After reads that all brought a line in time `_pump` goes on. Each line has been answered
    -- once, by a message or by a complaint, and the reboots that were reported are the changes of
    -- the boot id, from the one known before through those of the greetings, in order.
    pub record IsRead (reads : List (ℕ × Read)) (link : Link BootId Body)
        (result : Option End × Link BootId Body) : Type 0 where
      pub goes_on : result.0 ≡ none
      pub answered : replies result.1.reports ≡ replies link.reports + length reads
      pub rebooted :
          reboots result.1.reports
          ≡ reboots link.reports ++ changes link.boot_id (all_brought reads)

    read_on :
        (read : ℕ × Read) (reads : List (ℕ × Read)) (link next : Link BootId Body)
        (result : Option End × Link BootId Body)
        → Follows 1 (brought read.1) link next
        → IsRead reads next result
        → IsRead (read ∷ reads) link result
    unfolding all_brought
    read_on read reads link next result h k = record {
      goes_on = k.goes_on;
      answered = omega (arith, h.counted, k.answered);
      rebooted = k.rebooted ∙ h.told (all_brought reads);
    }

    pub pump-IsRead :
        (deadline : ℕ) (gap : Option ℕ) (reads : List (ℕ × Read)) (link : Link BootId Body)
        → All (Arrived deadline) reads
        → IsRead reads link (pump loads sample deadline gap reads link)
    unfolding pump on_read pump_on Arrived all_brought changes
    pump-IsRead deadline gap [] link h = record {
      goes_on = refl;
      answered = omega arith;
      rebooted = sym (append-nil (reboots link.reports));
    }
    pump-IsRead deadline gap ((now, line []) ∷ more) link h = absurd h.0
    pump-IsRead deadline gap ((now, timed_out) ∷ more) link h = absurd h.0
    pump-IsRead deadline gap ((now, too_long) ∷ more) link h =
        let early : leb deadline now ≡ false = ground (arith, h.0) in
        let next = emit (malformed_line stream_limit []) link in
        rw early (
          read_on (now, too_long) more link next (pump loads sample deadline gap more next)
            (unfold reply reboot brought in emit-Follows (malformed_line stream_limit []) link refl)
            (pump-IsRead deadline gap more next h.1))
    pump-IsRead deadline gap ((now, line (b ∷ raw)) ∷ more) link h =
        let early : leb deadline now ≡ false = ground (arith, h.0) in
        let next = handle_line loads sample (b ∷ raw) link in
        rw early (
          read_on (now, line (b ∷ raw)) more link next (pump loads sample deadline gap more next)
            (handle_line-Follows (b ∷ raw) link) (pump-IsRead deadline gap more next h.1))
