-- ===== src/Database/Buffered/Journal.antt =====
-- database/buffered.py: what `BufferedWriter` does to the spool and the database, in order. Any
-- storage is given a journal of the calls made on it, the newest first; its answers stay the same.
pub mod Steps
pub mod Removals
pub mod Fates
use node_monitor.Common.{ℕ, String, Bool, true, ◌≡◌, ◌⊎◌, Option, none, some, List, [], ◌∷◌, all}
use node_monitor.Records.{is_live}
use node_monitor.Values.{DateTime, Record}
use node_monitor.Database.Storage.{Exc, Written, wrote, unavailable, failed, Storage}
use node_monitor.Database.Buffered.{Submitted, events_of, write_error, naive_time}

-- The calls: `taken` is a `read` that returns a batch, `removed` and `moved` are `remove` and
-- `quarantine`, `stored` and `kept` are `append` and `quarantine_records`, and `went` and `refused`
-- are a `write` that returns and one that raises.
pub data StorageCall (FilePath : Type 0) : Type 0 where
  taken : FilePath → List Record → StorageCall FilePath
  removed : FilePath → StorageCall FilePath
  moved : FilePath → StorageCall FilePath
  stored : List Record → StorageCall FilePath
  kept : List Record → StorageCall FilePath
  went : List Record → StorageCall FilePath
  refused : List Record → StorageCall FilePath

abbrev pub Journal : Type 0 → Type 0
Journal FilePath = List (StorageCall FilePath)

unfoldable pub note_read : {F : Type 0} → F → Option (List Record) → Journal F → Journal F
note_read p none calls = calls
note_read p (some batch) calls = taken p batch ∷ calls

unfoldable pub write_call : {F : Type 0} → List Record → Written → StorageCall F
write_call rs (wrote beyond) = went rs
write_call rs (unavailable exc) = refused rs
write_call rs (failed exc) = refused rs

-- The storage with a journal.
abbrev pub journaled : Storage → Storage
journaled st = record {
  World = st.World × Journal st.FilePath;
  FilePath = st.FilePath;
  path_eq = st.path_eq;
  name = st.name;
  is_live_only = st.is_live_only;
  clock = λ w. ((st.clock w.0).0, ((st.clock w.0).1, w.1));
  batch_files = λ w. st.batch_files w.0;
  read = λ p w. ((st.read p w.0).0, ((st.read p w.0).1, note_read p (st.read p w.0).0 w.1));
  remove = λ p w. (st.remove p w.0, removed p ∷ w.1);
  quarantine = λ p w. (st.quarantine p w.0, moved p ∷ w.1);
  exists = λ p w. st.exists p w.0;
  append = λ rs w. ((st.append rs w.0).0, ((st.append rs w.0).1, stored rs ∷ w.1));
  quarantine_records = λ rs reason w. (
    (st.quarantine_records rs reason w.0).0,
    ((st.quarantine_records rs reason w.0).1, kept rs ∷ w.1),
  );
  take_quarantined = λ w. ((st.take_quarantined w.0).0, ((st.take_quarantined w.0).1, w.1));
  write = λ rs now w. (
    (st.write rs now w.0).0,
    ((st.write rs now w.0).1, write_call rs (st.write rs now w.0).0 ∷ w.1),
  );
  ping = λ w. ((st.ping w.0).0, ((st.ping w.0).1, w.1));
}

-- The newest calls are the read of the file and the write of the batch that was read.
abbrev pub JustWritten : {F : Type 0} → F → Journal F → Type 0
JustWritten p (went b ∷ taken q c ∷ calls) = (p ≡ q) × (b ≡ c)
JustWritten p calls = ⊥

abbrev pub JustRefused : {F : Type 0} → F → Journal F → Type 0
JustRefused p (refused b ∷ taken q c ∷ calls) = (p ≡ q) × (b ≡ c)
JustRefused p calls = ⊥

-- A stored batch goes only after the database has taken it, or as live state only, and it is moved
-- away only after the database has refused it.
module _ {F : Type 0} (is_live_only : F → Bool) where
  abbrev pub IsAllowed : StorageCall F → Journal F → Type 0
  IsAllowed (removed p) calls = (is_live_only p ≡ true) ⊎ JustWritten p calls
  IsAllowed (moved p) calls = JustRefused p calls
  IsAllowed call calls = Unit

  abbrev pub AreAllowed : Journal F → Type 0
  AreAllowed [] = Unit
  AreAllowed (call ∷ calls) = IsAllowed call calls × AreAllowed calls

-- What became of a submitted batch: it was written, or given to the spool, and if `submit` raises,
-- it was refused and then given to the quarantine, unless it is live state only.
abbrev pub IsHandled : {F : Type 0} → List Record → Option Exc → Journal F → Type 0
IsHandled rs none (stored b ∷ calls) = b ≡ rs
IsHandled rs none (went b ∷ calls) = b ≡ rs
IsHandled rs (some exc) (kept b ∷ refused c ∷ calls) = (b ≡ rs) × (c ≡ rs)
IsHandled rs (some exc) (refused c ∷ calls) = (c ≡ rs) × (all is_live rs ≡ true)
IsHandled rs exc calls = ⊥

abbrev pub error_of : Submitted → Option Exc
error_of (events_of es) = none
error_of (write_error exc) = some exc
error_of naive_time = none
