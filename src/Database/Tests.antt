-- ===== src/Database/Tests.antt =====
-- Examples for the theorems on the codec and the migrations.
use node_monitor.Common.{
  ℕ, String, Bool, true, false, ◌≡◌, refl, true, Option, none, some, List, [], ◌∷◌, ◌++◌, nat_eq,
  not, keep, if◌then◌else◌, ◌==◌, text_eq,
}
use node_monitor.Common.Dict.{keys}
use node_monitor.Values.{text, time, tuple, item, no_items, float, nan, dict, DateTime, Record, pos}
use node_monitor.Database.Codec.{decode_record, encode_record, row_fields, dt_text, dt_value}
use node_monitor.Database.Codec.RoundTrip.{IsPlain, stored, decode_record-encode_record}
use node_monitor.Database.Spool.{
  Batch, Spool, room, room_loop, candidates, batch_files, insert_file, name_before, size_bytes,
  is_live_only,
}
use node_monitor.Database.Spool.Room.{IsRoom, room-IsRoom}
use node_monitor.Database.Migrate.{
  Migration, Schema, applied, migrate, apply_pending, apply_loop, apply_one, check_schema, discover,
}
use node_monitor.Database.Migrate.Applied.{IsApplied, pending, migrate-IsApplied, migrate_again}
use node_monitor.Database.Migrate.Discovered.{IsOrdered, discover-IsOrdered}

abbrev noon : DateTime
noon = record { micros = 43200000000; offset = some (pos 0) }

abbrev iso : DateTime → String
iso t = "1970-01-01T12:00:00+00:00"

abbrev from_iso : String → Option DateTime
from_iso s = some noon

abbrev reading : Record
reading = record {
  kind = "live_processes";
  row =
      ("ts", time noon) ∷ ("processes", tuple (item (text "sh") (item (float nan) no_items))) ∷ [];
}

reading-IsPlain : IsPlain iso from_iso (dict (row_fields reading.row))
unfolding IsPlain row_fields dt_text dt_value
reading-IsPlain = (refl, (refl, ((tt, (tt, tt)), tt)))

decode_record-encode_record_example :
    decode_record from_iso (encode_record iso reading)
    ≡ some (reading.kind, stored (dict (row_fields reading.row)))
decode_record-encode_record_example =
    decode_record-encode_record iso from_iso reading reading-IsPlain

-- The tables are the files that have been executed.
abbrev execute : String → List String → Option (List String)
execute name tables = some (tables ++ name ∷ [])

abbrev migrations : List Migration
migrations = (1, "0001_start.sql") ∷ (2, "0002_more.sql") ∷ []

abbrev old_schema : Schema (List String)
old_schema = record { versions = (1, "0001_start.sql") ∷ []; tables = "0001_start.sql" ∷ [] }

migrate_ran : (migrate execute true migrations old_schema).0 ≡ applied (2 ∷ [])
unfolding migrate apply_pending apply_loop apply_one
migrate_ran = refl

migrate-IsApplied_example :
    IsApplied execute []
      (pending (keys old_schema.versions) migrations)
      old_schema
      (migrate execute true migrations old_schema)
migrate-IsApplied_example = migrate-IsApplied execute migrations old_schema

migrate_again_example :
    (migrate execute true migrations (migrate execute true migrations old_schema).1
      ≡ (applied [], (migrate execute true migrations old_schema).1))
    × (check_schema execute migrations (migrate execute true migrations old_schema).1 ≡ true)
migrate_again_example = migrate_again execute migrations old_schema (2 ∷ []) migrate_ran

abbrev version_of : String → Option ℕ
version_of name =
    if name == "0002_more.sql" then some 2 else (if name == "0001_start.sql" then some 1 else none)

discover-IsOrdered_example :
    IsOrdered (discover version_of ("0002_more.sql" ∷ "readme" ∷ "0001_start.sql" ∷ []))
discover-IsOrdered_example =
    discover-IsOrdered version_of ("0002_more.sql" ∷ "readme" ∷ "0001_start.sql" ∷ [])

abbrev batch : ℕ → Bool → ℕ → Bool → Batch ℕ
batch n live size deletable = record {
  name = record { stamp = n; seq = n; live_only = live };
  bytes = size;
  lines = 1;
  records = some [];
  deletable = deletable;
  movable = true;
}

abbrev spool : Spool ℕ
spool = record {
  files = batch 2 true 40 true ∷ batch 1 false 50 true ∷ batch 3 true 30 false ∷ [];
  corrupt = [];
  seq = 3;
  quarantined = [];
  stuck = [];
}

room_ran : room 150 70 spool ≡ batch 2 true 40 true ∷ []
unfolding room room_loop candidates batch_files insert_file name_before size_bytes is_live_only
room_ran = refl

room-IsRoom_example :
    IsRoom 150 70
      (size_bytes spool)
      (keep is_live_only (batch_files spool.files)
        ++ keep (λ b. not (is_live_only b)) (batch_files spool.files))
      (room 150 70 spool)
room-IsRoom_example = room-IsRoom 150 70 spool
