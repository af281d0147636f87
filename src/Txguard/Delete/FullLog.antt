-- ===== src/Txguard/Delete/FullLog.antt =====
-- A deletion that the script refuses because a log is full.
use ki_db.Base.{ℕ, suc, ◌≡◌, refl, List, [], ◌∷◌, Option, none, some, Bytes, codes, true, ℤ, Score}
use ki_db.Meta.{IndexDef}
use ki_db.Keycodec.Slot.{Table, slot}
use ki_db.Keycodec.Keys.{row_key}
use ki_db.Rowcodec.Member.{Msgp}
use ki_db.Bucketmap.{Doc}
use ki_db.Txguard.Entries.{Undo}
use ki_db.Txguard.Ops.{Ops, build_index_ops}
use ki_db.Txguard.Write.{Pairs, value_of, old_ver_of}
use ki_db.Txguard.Row.{Guard, Server}
use ki_db.Txguard.Delete.{Deletion, finish_delete, delete_found}

module _ (g : Guard) (xxhash crc16 : Bytes → ℕ) (m : Msgp) (stag_table : Table) (sc : Score)
    (log_cap grace_ms : ℤ) (table : Bytes) (indexes : List IndexDef) (shards : ℤ) (pk : Bytes) where
  -- Where the routing does not panic, the script answers `log_full` with the old version 1, and the
  -- pipeline succeeds: the deletion is reported as done.
  pub delete_found-log_full :
      (s : Server g) (old_row : Pairs) (docs : Bytes → Option Doc) (ops : Ops sc)
      (receipts : List Undo)
      → build_index_ops sc xxhash m stag_table table
          (slot crc16 (row_key table pk))
          pk
          (value_of old_row)
          (λ f. none)
          docs
          (old_ver_of old_row)
          (suc (old_ver_of old_row))
          indexes
        ≡ some (ops, receipts)
      → ((keys argv : List Bytes)
          → (g.eval s keys argv).1 ≡ some (codes "log_full" ∷ codes "1" ∷ []))
      → ((t : Server g) (cmds : List _) → (g.pipeline t cmds).1 ≡ true)
      → (delete_found g xxhash crc16 m stag_table sc log_cap grace_ms table indexes shards pk s
          old_row docs).1
        ≡ some Deletion.deleted
  unfolding delete_found finish_delete
  delete_found-log_full s old_row docs ops receipts built full sends =
      rw (built, delete_found) (rw (full _ _, delete_found) (rw (sends _ _) refl))
