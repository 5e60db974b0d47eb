-- ===== src/Database/Spool.antt =====
-- database/spool.py: the batches on disk. A file's name is its time stamp, its number and its mark;
-- what the operating system allows is a part of each file, or is given. Errors are texts.
pub mod Room
use node_monitor.Common.{
  ℕ, zero, suc, ◌+◌, ◌-◌, ◌≤◌, max, String, Bool, true, false, not, ◌&&◌, ◌||◌, Option, none, some,
  List, [], ◌∷◌, ◌++◌, if◌then◌else◌, ◌==◌, Eq, nat_eq, length, keep, all, any, sum_by, ltb, leb,
}
use node_monitor.Records.{Record, is_live}

pub record Name : Type 0 where
  pub stamp : ℕ
  pub seq : ℕ
  pub live_only : Bool

-- A batch: its size, its lines, its records if it can be read, and whether it can be deleted and
-- moved away.
pub record Batch (V : Type 0) : Type 0 where
  pub name : Name
  pub bytes : ℕ
  pub lines : ℕ
  pub records : Option (List (Record V))
  pub deletable : Bool
  pub movable : Bool

pub record Spool (V : Type 0) : Type 0 where
  pub files : List (Batch V)
  pub corrupt : List (Batch V)
  pub seq : ℕ
  pub quarantined : List Name
  pub stuck : List Name

-- What `_write` raises: FileNotFoundError, another OSError, or nothing.
pub data WriteResult : Type 0 where
  stored not_found os_error : WriteResult

-- `SpoolResult`, its error as whether there is one.
pub record Appended : Type 0 where
  pub stored : Bool
  pub dropped_batches : ℕ
  pub dropped_records : ℕ

-- The order of the names as texts: the stamps have one length, the numbers six digits.
unfoldable pub name_before : Name → Name → Bool
name_before a b = ltb a.stamp b.stamp || ((a.stamp == b.stamp) && ltb a.seq b.seq)

unfoldable pub same_name : Name → Name → Bool
same_name a b = (a.stamp == b.stamp) && (a.seq == b.seq)

-- `_NAME_RE` reads numbers of six digits only.
unfoldable pub seq_of : Name → Option ℕ
seq_of n = if ltb n.seq 1000000 then some n.seq else none

module _ {V : Type 0} where
  unfoldable pub insert_file : Batch V → List (Batch V) → List (Batch V)
  insert_file b [] = b ∷ []
  insert_file b (c ∷ cs) =
      let rest = insert_file b cs in if name_before b.name c.name then b ∷ c ∷ cs else c ∷ rest

  -- `_batch_files`: the batches by name, oldest first.
  unfoldable pub batch_files : List (Batch V) → List (Batch V)
  batch_files [] = []
  batch_files (b ∷ bs) = insert_file b (batch_files bs)

  unfoldable pub is_live_only : Batch V → Bool
  is_live_only b = b.name.live_only

  unfoldable pub size_bytes : Spool V → ℕ
  size_bytes s = sum_by Batch.bytes s.files

  unfoldable pub batch_count : Spool V → ℕ
  batch_count s = length s.files

  unfoldable pub seed : ℕ → List (Batch V) → ℕ
  seed seq [] = seq
  seed seq (b ∷ bs) = seed (elim (seq_of b.name) [ none ↦ seq | some n ↦ max seq n ]) bs

  -- `_ensure_directory`, where the directory can be made.
  unfoldable pub ensure_directory : Spool V → Spool V
  ensure_directory s = record s { seq = seed s.seq s.files }

  -- The loop of `_make_room`: the batches it deletes.
  unfoldable pub room_loop : ℕ → ℕ → ℕ → List (Batch V) → List (Batch V)
  room_loop max_bytes needed total [] = []
  room_loop max_bytes needed total (b ∷ bs) =
      let after_drop = room_loop max_bytes needed (total - b.bytes) bs in
      let after_failure = room_loop max_bytes needed total bs in
      if leb (total + needed) max_bytes
      then []
      else (if b.deletable then b ∷ after_drop else after_failure)

  -- The order in which batches are given up.
  unfoldable pub candidates : List (Batch V) → List (Batch V)
  candidates files = keep is_live_only files ++ keep (λ b. not (is_live_only b)) files

  unfoldable pub room : ℕ → ℕ → Spool V → List (Batch V)
  room max_bytes needed s =
      room_loop max_bytes needed (size_bytes s) (candidates (batch_files s.files))

  unfoldable pub is_in : List (Batch V) → Batch V → Bool
  is_in bs b = any (λ c. same_name c.name b.name) bs

  unfoldable pub delete_all : List (Batch V) → Spool V → Spool V
  delete_all dropped s = record s { files = keep (λ b. not (is_in dropped b)) s.files }

  -- `_write`: the number is used up whether or not the file is stored.
  unfoldable pub write : ℕ → ℕ → List (Record V) → WriteResult → Spool V → Spool V
  write stamp bytes records stored s = record s {
    seq = s.seq + 1;
    files =
        s.files
        ++ record {
          name = record { stamp = stamp; seq = s.seq + 1; live_only = all is_live records };
          bytes = bytes;
          lines = length records;
          records = some records;
          deletable = true;
          movable = true;
        }
          ∷ [];
  }
  write stamp bytes records not_found s = record s { seq = s.seq + 1 }
  write stamp bytes records os_error s = record s { seq = s.seq + 1 }

  -- The second attempt, after the directory has been made again if it can be.
  unfoldable pub retry : Bool → ℕ → ℕ → List (Record V) → WriteResult → Spool V → Bool × Spool V
  retry false stamp bytes records second s = (false, s)
  retry true stamp bytes records stored s =
      (true, write stamp bytes records stored (ensure_directory s))
  retry true stamp bytes records not_found s =
      (false, write stamp bytes records not_found (ensure_directory s))
  retry true stamp bytes records os_error s =
      (false, write stamp bytes records os_error (ensure_directory s))

  -- The attempts of `_append`, by what the first write does.
  unfoldable pub attempt_write :
      Bool → ℕ → ℕ → List (Record V) → WriteResult → WriteResult → Spool V → Bool × Spool V
  attempt_write remade stamp bytes records stored second s =
      (true, write stamp bytes records stored s)
  attempt_write remade stamp bytes records os_error second s =
      (false, write stamp bytes records os_error s)
  attempt_write remade stamp bytes records not_found second s =
      retry remade stamp bytes records second (write stamp bytes records not_found s)

  -- `_append`, for `bytes` of payload in a directory that is there; `remade` is whether it can be
  -- made again should it vanish.
  unfoldable pub append_fitting :
      Bool → ℕ → ℕ → ℕ → List (Record V) → WriteResult → WriteResult → Spool V → Appended × Spool V
  append_fitting remade max_bytes stamp bytes records first second s =
      let dropped = room max_bytes bytes s in
      let (written, s1) =
        attempt_write remade stamp bytes records first second (delete_all dropped s) in
      (
        record {
          stored = written;
          dropped_batches = length dropped;
          dropped_records = sum_by Batch.lines dropped;
        },
        s1,
      )

  unfoldable pub append :
      Bool → ℕ → ℕ → ℕ → List (Record V) → WriteResult → WriteResult → Spool V → Appended × Spool V
  append remade max_bytes stamp bytes [] first second s =
      (record { stored = true; dropped_batches = 0; dropped_records = 0 }, s)
  append remade max_bytes stamp bytes (r ∷ rs) first second s =
      if ltb max_bytes bytes
      then (record { stored = false; dropped_batches = 0; dropped_records = 0 }, s)
      else append_fitting remade max_bytes stamp bytes (r ∷ rs) first second s

  -- `quarantine`, by whether the batch is there and can be moved.
  unfoldable pub move_away : Batch V → Spool V → Bool × Spool V
  move_away b s =
      if b.movable
      then (true, record (delete_all (b ∷ []) s) { corrupt = s.corrupt ++ b ∷ [] })
      else (false, s)

  unfoldable pub find_file : Name → List (Batch V) → Option (Batch V)
  find_file n [] = none
  find_file n (b ∷ bs) = if same_name b.name n then some b else find_file n bs

  unfoldable pub quarantine : Name → Spool V → Bool × Spool V
  quarantine n s = elim (find_file n s.files) [ none ↦ (false, s) | some b ↦ move_away b s ]

  -- The end of `read` for a batch that cannot be read, by whether it was moved.
  unfoldable pub report_unreadable : Name → Bool → Spool V → Spool V
  report_unreadable n true s = record s { quarantined = s.quarantined ++ n ∷ [] }
  report_unreadable n false s = record s {
    stuck = n ∷ s.stuck;
    quarantined = s.quarantined ++ n ∷ [];
  }

  unfoldable pub give_up : Name → Spool V → Option (List (Record V)) × Spool V
  give_up n s = let (moved, s1) = quarantine n s in (none, report_unreadable n moved s1)

  unfoldable pub read_file : Name → Option (Batch V) → Spool V → Option (List (Record V)) × Spool V
  read_file n none s = give_up n s
  read_file n (some b) s = elim b.records [ none ↦ give_up n s | some records ↦ (some records, s) ]

  unfoldable pub read : Name → Spool V → Option (List (Record V)) × Spool V
  read n s = if any (same_name n) s.stuck then (none, s) else read_file n (find_file n s.files) s

  unfoldable pub take_quarantined : Spool V → List Name × Spool V
  take_quarantined s = (s.quarantined, record s { quarantined = [] })
