-- ===== src/Database/Buffered/Journal/Removals.antt =====
-- database/buffered.py: when stored batches are removed.
use node_monitor.Common.{List, [], ◌∷◌}
use node_monitor.Values.{DateTime, Record}
use node_monitor.Database.Storage.{Storage}
use node_monitor.Database.Buffered.{Config, State, submit}
use node_monitor.Database.Buffered.Journal.{Journal, journaled}

module _ (st : Storage) (config : Config) where
  abbrev js : Storage
  js = journaled st

  -- The calls of one writer thread: each submits a batch at a time of its own.
  unfoldable pub submit_all : List (DateTime × List Record) → State js → State js
  submit_all [] s = s
  submit_all ((now, rs) ∷ more) s = submit_all more (submit js config now rs s).1
