-- ===== src/Pipeline/Enrich.antt =====
-- pipeline/enrich.py: raw census rows turned into live process rows. The redactor, the match of an
-- sshd title and the digits of a uid are parameters; `F` is the type of the floats, of which a zero
-- is given. Fields that are only copied are one field, `copied`.
pub mod Presence
mod Tests
use node_monitor.Common.{
  ℕ, String, Bool, true, false, not, ◌&&◌, Option, none, some, List, [], ◌∷◌, if◌then◌else◌, ◌==◌,
  text_eq, ltb, leb,
}
use node_monitor.Common.Dict.{Dict, lookup, put}
use node_monitor.Pipeline.Classify.{classify}

pub record RawRow (F C : Type 0) : Type 0 where
  pub copied : C
  pub uid : ℕ
  pub username : Option String
  pub comm : String
  pub argv0 : Option String
  pub cmdline : Option String
  pub gpu_mem_mb : Option F
  pub cpu_state : Option String
  pub idle_for_sec : Option ℕ

pub record LiveRow (F C : Type 0) : Type 0 where
  pub copied : C
  pub uid : ℕ
  pub username : String
  pub comm : String
  pub argv0 : Option String
  pub cmdline : String
  pub gpu_mem_mb : Option F
  pub category : String
  pub activity : Option String
  pub cpu_state : String
  pub idle_bucket : String
  pub owner_presence : String
  pub is_user_process : Bool

-- `s or ""`
unfoldable pub or_empty : Option String → String
or_empty none = ""
or_empty (some s) = s

-- `s or "unknown"`
unfoldable pub or_unknown : Option String → String
or_unknown none = "unknown"
or_unknown (some s) = if s == "" then "unknown" else s

unfoldable pub bucket_of : ℕ → String
bucket_of idle =
    if ltb idle 300
    then "<5m"
    else if ltb idle 3600
    then "5m-1h"
    else if ltb idle 86400
    then "1h-1d"
    else ">1d"

-- `idle_bucket`
unfoldable pub idle_bucket : Option String → Option ℕ → String
idle_bucket none idle = "unknown"
idle_bucket (some state) none = "unknown"
idle_bucket (some state) (some idle) = bucket_of idle

-- `presence.setdefault(user, "connected")`
unfoldable pub connect_if : Option String → String → Dict String String → Dict String String
connect_if none user presence = put user "connected" presence
connect_if (some known) user presence = presence

-- A session without a terminal connects its user, and another makes the user interactive.
unfoldable pub with_session : String → String → Dict String String → Dict String String
with_session tty user presence =
    if tty == "notty"
    then connect_if (lookup user presence) user presence
    else put user "interactive" presence

unfoldable pub or_absent : Option String → String
or_absent none = "absent"
or_absent (some presence) = presence

-- `if new["argv0"]: new["argv0"] = redactor.redact(new["argv0"])`
unfoldable pub redact_if : (String → String) → Option String → Option String
redact_if redact none = none
redact_if redact (some s) = if s == "" then some s else some (redact s)

-- `user_key`

unfoldable pub key_or_uid : (ℕ → String) → ℕ → Option String → String
key_or_uid uid_name uid none = uid_name uid
key_or_uid uid_name uid (some name) = name

unfoldable pub add_session : Option String → String → Dict String String → Dict String String
add_session none user presence = presence
add_session (some tty) user presence = with_session tty user presence

unfoldable pub measured_mem : {F : Type 0} → F → Bool → Option F → Option F
measured_mem zero_float true none = some zero_float
measured_mem zero_float true (some mem) = some mem
measured_mem zero_float false mem = mem

-- `gpu_status == "ok"`
unfoldable pub is_measured : Option String → Bool
is_measured none = false
is_measured (some status) = status == "ok"

module _ {F C : Type 0} (uid_name : ℕ → String) (session_tty : String → Option String) where
  unfoldable pub user_key : RawRow F C → String
  user_key row = key_or_uid uid_name row.uid row.username

  -- `owner_presence_by_user`, from the sessions found so far.
  unfoldable pub presence_of : List (RawRow F C) → Dict String String → Dict String String
  presence_of [] presence = presence
  presence_of (row ∷ rows) presence =
      presence_of rows (add_session (session_tty (or_empty row.cmdline)) (user_key row) presence)

  module _ (search : String → String → Bool) (redact : String → String) (zero_float : F)
      (min_user_uid : ℕ) where
    unfoldable pub enrich_row : Bool → Dict String String → RawRow F C → LiveRow F C
    enrich_row gpu_measured presence row =
        let cmdline = or_empty row.cmdline in
        let cls = classify search row.comm cmdline row.uid min_user_uid in
        record {
          copied = row.copied;
          uid = row.uid;
          username = user_key row;
          comm = row.comm;
          argv0 = redact_if redact row.argv0;
          cmdline = redact cmdline;
          gpu_mem_mb = measured_mem zero_float gpu_measured row.gpu_mem_mb;
          category = cls.category;
          activity = cls.activity;
          cpu_state = or_unknown row.cpu_state;
          idle_bucket = idle_bucket row.cpu_state row.idle_for_sec;
          owner_presence = or_absent (lookup (user_key row) presence);
          is_user_process = leb min_user_uid row.uid && not (cls.category == "system");
        }

    unfoldable pub enrich_rows : Bool → Dict String String → List (RawRow F C) → List (LiveRow F C)
    enrich_rows gpu_measured presence [] = []
    enrich_rows gpu_measured presence (row ∷ rows) =
        enrich_row gpu_measured presence row ∷ enrich_rows gpu_measured presence rows

    -- `enrich_census`
    unfoldable pub enrich_census : List (RawRow F C) → Option String → List (LiveRow F C)
    enrich_census rows gpu_status = enrich_rows (is_measured gpu_status) (presence_of rows []) rows
