-- ===== src/Sweeper/Swept.antt =====
-- What a write adds, the sweep of its row removes.
use ki_db.Base.{
  ℕ, ◌+◌, ◌<◌, length, ◌≡◌, ap, inl, inr, List, [], ◌∷◌, map, Option, some, Bytes, ℤ, In,
  In-append_left, All, All-imp, Free, Score, IsOrdered,
}
use ki_db.Meta.{IndexDef}
use ki_db.Keycodec.Slot.{Table}
use ki_db.Rowcodec.Member.{Msgp}
use ki_db.Bucketmap.{Doc}
use ki_db.Txguard.Entries.{Fields, Undo}
use ki_db.Txguard.Ops.{Ops, build_index_ops}
use ki_db.Txguard.Ops.Routing.{WellRouted, receipt_line}
use ki_db.Txguard.Ops.Entered.{FiniteScore}
use ki_db.Txguard.Ops.Receipts.{build_index_ops-Covered}
use ki_db.Txguard.Write.{Pairs, Command}
use ki_db.Txguard.Write.Script.{Lua, rebuild_calls}
use ki_db.Txguard.Write.Protocol.{lines}
use ki_db.Sweeper.{sweep_commands}
use ki_db.Sweeper.Hashes.{Hashes, IsHashStore, run_calls, printable, PrintsApart}
use ki_db.Sweeper.Lines.{rebuild_calls-HasLine, receipt_undos-In}

map-In : {A B : Type 0} (f : A → B) (x : A) (xs : List A) → In x xs → In (f x) (map f xs)
map-In f x [] h = elim h [ ]
map-In f x (y ∷ ys) (inl e) = inl (ap f e)
map-In f x (y ∷ ys) (inr h) = inr (map-In f x ys h)

All-In : (P : Undo → Type 0) (u : Undo) (us : List Undo) → All P us → In u us → P u
All-In P u [] h m = elim m [ ]
All-In P u (v ∷ us) h (inl e) = rw e h.0
All-In P u (v ∷ us) h (inr m) = All-In P u us h.1 m

-- Where the tables of the indexes are in phases of the protocol and cover all scores, where
-- comparisons of scores obey IEEE 754, where each new score is a number below infinity, where no
-- bucket's key holds the byte \x1f, the receipt has less than 10^14 - 1 lines, Lua prints the
-- numbers up to there apart, and HSET and HGETALL do what Redis documents: whatever the server held,
-- for every member that a write's index commands add, the sweep of the row by the hash that the
-- script's calls have left as its receipt removes that member from that bucket.
pub build_index_ops-swept :
    (s : Score) (o : IsOrdered s) (xxhash crc16 : Bytes → ℕ) (m : Msgp) (stag_table : Table)
    (table : Bytes) (slot : ℕ) (pk : Bytes) (old new : Fields) (docs : Bytes → Option Doc)
    (old_ver new_ver : ℕ) (lua : Lua) (h : Hashes) (server : h.Server) (rcptkey : Bytes)
    (uniqs : Pairs) (shards : ℤ) (indexes : List IndexDef) (ops : Ops s) (receipts : List Undo)
    → IsHashStore h
    → PrintsApart lua
    → All (λ idx. WellRouted s o (docs idx.id)) indexes
    → All
        (λ idx. FiniteScore s o xxhash m stag_table table slot pk old new docs old_ver new_ver idx)
        indexes
    → All (λ u. Free 31 u.bucket) receipts
    → 1 + length receipts < printable
    → build_index_ops s xxhash m stag_table table slot pk old new docs old_ver new_ver indexes
      ≡ some (ops, receipts)
    → All
        (λ r. In (Command.zrem r.bucket r.member) (
          sweep_commands crc16 table shards pk (
            h.hgetall
              (run_calls h (rebuild_calls lua rcptkey (lines receipts) uniqs) server)
              rcptkey)))
        ops.redos
unfolding sweep_commands
build_index_ops-swept s o xxhash crc16 m stag_table table slot pk old new docs old_ver new_ver lua h
      server rcptkey uniqs shards indexes ops receipts law apart routed finite plain room built =
    let covered =
      build_index_ops-Covered s o xxhash m stag_table table slot pk old new docs old_ver new_ver
        indexes ops receipts routed finite built in
    let has = rebuild_calls-HasLine h law lua apart rcptkey receipts uniqs server room in
    All-imp
      (λ r p.
        let u = receipt_line s o r in
        let line = All-In _ u receipts has p in
        let read = receipt_undos-In u _ (All-In _ u receipts plain p) line in
        In-append_left _ _ _ (map-In (λ u. Command.zrem u.bucket u.member) u _ read))
      ops.redos covered
