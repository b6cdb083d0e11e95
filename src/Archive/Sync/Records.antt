-- ===== src/Archive/Sync/Records.antt =====
-- deleteSyncedRecords of src/modules/archieveSync/archieveSync.service.ts: the job that deletes the
-- records in state 1.
use push_anode.Prelude.{List, [], ◌∷◌, nat_eq, ◌==◌, Result, ok, err, if◌then◌else◌}
use push_anode.Wire.{Failure}
use push_anode.Archive.Sync.Client.{SyncInfo, SyncTable}

module _ {S : Type 0} (T : SyncTable S) where
  abbrev pub deleted : Result Failure S → S → S
  deleted (err e) table = table
  deleted (ok table') table = table'

  -- The records in state 1 are deleted; one that cannot be deleted does not stop the others.
  unfoldable pub delete_records : List SyncInfo → S → S
  delete_records [] table = table
  delete_records (info ∷ infos) table =
      if info.state == 1
      then delete_records infos (deleted (T.delete table info.id) table)
      else delete_records infos table

  abbrev delete_found : Result Failure (List SyncInfo) → S → S
  delete_found (err e) table = table
  delete_found (ok infos) table = delete_records infos table

  -- The job of deleteSyncedRecords
  unfoldable pub delete_synced_records : S → S
  delete_synced_records table = delete_found (T.find_many table) table
