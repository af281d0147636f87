-- ===== src/Txguard/Row.antt =====
-- txguard/txguard.go: `WriteRow` and `writeAttempt`, over the server's commands as an interface. The
-- table of an index that the check of its bucket loads is the one loaded for the write.
pub mod Keeping
use ki_db.Base.{
  ℕ, zero, suc, ◌+◌, List, [], ◌∷◌, ◌++◌, Option, none, some, Bytes, codes, Bool, true, false, ◌&&◌,
  ◌||◌, not, ℤ, pos, negsuc, has_prefix, same_text, same_int, length, if◌then◌else◌, Score,
}
use ki_db.Meta.{IndexDef, IndexKind}
use ki_db.Keycodec.Slot.{Table, slot}
use ki_db.Keycodec.Keys.{row_key, receipt_key, unique_key}
use ki_db.Rowcodec.Member.{Msgp}
use ki_db.Bucketmap.{Doc}
use ki_db.Bucketmap.Store.{parse_uint64}
use ki_db.Txguard.Entries.{Fields, Undo, leaves}
use ki_db.Txguard.Ops.{Ops, build_index_ops}
use ki_db.Txguard.Keyspace.{Redis}
use ki_db.Txguard.Unique.{Verdict, reserve_unique, release_unique, rollback_reservations}
use ki_db.Txguard.Write.{
  Pairs, value_of, old_ver_of, dropped, ttl_ms, to_int64, Write, write_argv, script_keys, Command,
  exp_commands, index_commands,
}
use ki_db.Sweeper.{merge_receipt_undo}

pub record Guard : Type 1 where
  pub redis : Redis
  pub hgetall : redis.Server → Bytes → redis.Server × Option Pairs
  -- The table of an index, by the cached store of the routing tables.
  pub load : redis.Server → Bytes → redis.Server × Option Doc
  pub invalidate : redis.Server → redis.Server
  -- The script write_row.lua on keys and arguments; its answer's texts.
  pub eval : redis.Server → List Bytes → List Bytes → redis.Server × Option (List Bytes)
  pub pipeline : redis.Server → List Command → redis.Server × Bool

-- `WriteReq`, with the table's name and indexes.
pub record WriteReq : Type 0 where
  pub table : Bytes
  pub indexes : List IndexDef
  pub shards : ℤ
  pub pk : Bytes
  pub fields : Pairs
  pub ttl : ℤ
  pub keep_ttl : Bool
  pub expected_old_ver : Option ℤ

pub data Attempt : Type 0 where
  stale : Attempt
  done : ℕ → ℕ → Attempt
  failed : Attempt
  panicked : Attempt

abbrev pub is_row : Pairs → Bool
is_row [] = false
is_row (_ ∷ _) = true

abbrev pub is_unique : IndexKind → Bool
is_unique IndexKind.unique = true
is_unique IndexKind.eq = false
is_unique IndexKind.range = false

abbrev pub has_key : Bytes → List Bytes → Bool
has_key k [] = false
has_key k (x ∷ xs) = same_text x k || has_key k xs

-- The answer of the script.
unfoldable pub read_answer : List Bytes → Attempt
read_answer [] = Attempt.failed
read_answer (status ∷ rest) =
    if same_text status (codes "stale")
    then Attempt.stale
    else if same_text status (codes "ok")
    then elim rest [
      | [] ↦ Attempt.panicked
      | ◌∷◌ old more ↦ elim more [
        | [] ↦ Attempt.done (parse_uint64 old) 0
        | ◌∷◌ new _ ↦ Attempt.done (parse_uint64 old) (parse_uint64 new)
      ]
    ]
    else Attempt.failed

module _ (g : Guard) where
  abbrev pub Server : Type 0
  Server = g.redis.Server

  -- The tables of the synchronous indexes, whose identifiers differ.
  unfoldable pub load_docs : Server → List IndexDef → Server × Option (Bytes → Option Doc)
  load_docs s [] = (s, some (λ id. none))
  load_docs s (idx ∷ rest) =
      let (s', reply) = g.load s idx.id in
      let (s'', others) = load_docs s' rest in
      let skipped : Server × Option (Bytes → Option Doc) = load_docs s rest in
      let loaded : Server × Option (Bytes → Option Doc) = elim reply [
        | none ↦ (s', none)
        | some d ↦ elim others [
          | none ↦ (s'', none)
          | some docs ↦ (s'', some (λ id. if same_text id idx.id then some d else docs id))
        ]
      ] in
      if idx.is_async then skipped else loaded

  module _ (xxhash : Bytes → ℕ) (m : Msgp) (req : WriteReq) (rowkey : Bytes) where
    -- The loop over the unique indexes: the keys acquired, and what the receipt notes or an error.
    unfoldable pub reserve_all :
        Server
        → ℕ
        → (Bytes → Option Doc)
        → List Bytes
        → List IndexDef
        → Server × List Bytes × Option Pairs
    unfolding reserve_unique unique_key value_of
    reserve_all s now docs acquired [] = (s, acquired, some [])
    reserve_all s now docs acquired (idx ∷ rest) =
        let value : Option Bytes =
          if is_unique idx.kind then value_of req.fields idx.column else none in
        elim value [
          | none ↦ reserve_all s now docs acquired rest
          | some val ↦
              let rkey = unique_key xxhash req.table idx.id val in
              let (s', verdict) =
                reserve_unique g.redis xxhash m req.table idx.id (docs idx.id) s val rowkey now in
              let more : List Bytes =
                if has_key rkey acquired then acquired else acquired ++ (rkey ∷ []) in
              let (s'', all, others) = reserve_all s' now docs more rest in
              elim verdict [
                | Verdict.reserved ↦
                    (s'', all, elim others [ none ↦ none | some us ↦ some ((idx.id, rkey) ∷ us) ])
                | Verdict.conflict ↦ (s', acquired, none)
                | Verdict.failed ↦ (s', acquired, none)
                | Verdict.race ↦ (s', acquired, none)
              ]
        ]

    -- The reservations of the values that the write replaces.
    unfoldable pub release_replaced : Server → Pairs → List IndexDef → Server
    unfolding release_unique leaves value_of unique_key
    release_replaced s old_row [] = s
    release_replaced s old_row (idx ∷ rest) =
        let value : Option Bytes =
          if is_unique idx.kind
            && leaves (value_of old_row idx.column) (value_of req.fields idx.column)
          then value_of old_row idx.column
          else none in
        elim value [
          | none ↦ release_replaced s old_row rest
          | some v ↦
              release_replaced
                (release_unique g.redis s (unique_key xxhash req.table idx.id v) rowkey) old_row
                rest
        ]

    -- The reservations that the receipt of an expired row notes, less those acquired now.
    unfoldable pub release_noted : Server → List Bytes → Pairs → Server
    unfolding release_unique
    release_noted s acquired [] = s
    release_noted s acquired ((f, v) ∷ rest) =
        release_noted
          (if has_prefix f (codes "__uniq:") && not (has_key v acquired)
            then release_unique g.redis s v rowkey
            else s)
          acquired rest

    module _ (sc : Score) (crc16 : Bytes → ℕ) (stag_table : Table) (log_cap grace_ms : ℤ) where
      -- The part of `writeAttempt` behind the script's answer `ok`.
      unfoldable pub finish :
          Server → ℕ → List Bytes → Pairs → Pairs → Ops sc → ℤ → Attempt → Server × Attempt
      unfolding index_commands exp_commands release_replaced release_noted
      finish s now acquired old_row old_rcpt ops ttl answer =
          let (s', sent) = g.pipeline s (
            index_commands sc crc16 ops
              (exp_commands sc crc16 req.table req.shards req.pk ttl (is_row old_row) now)) in
          let released : Server = release_replaced s' old_row req.indexes in
          let noted : Server =
            if is_row old_row then released else release_noted released acquired old_rcpt in
          if sent then (noted, answer) else (s', Attempt.failed)

      -- The part of `writeAttempt` behind the reservations.
      unfoldable pub commit_attempt :
          Server → ℕ → List Bytes → Pairs → Pairs → Ops sc → List Undo → Pairs → Server × Attempt
      unfolding finish old_ver_of to_int64 ttl_ms dropped write_argv read_answer receipt_key
      commit_attempt s now acquired old_row old_rcpt ops receipts uniqs =
          let observed : ℤ = to_int64 (old_ver_of old_row) in
          let w : Write = record {
            pk = req.pk;
            ttlms = ttl_ms req.keep_ttl req.ttl;
            observed = observed;
            log_cap = log_cap;
            grace_ms = grace_ms;
            asyncs = ops.asyncs;
            receipts = receipts;
            fields = req.fields;
            iv_updates = ops.iv_updates;
            drops = dropped old_row req.fields;
            uniqs = uniqs;
          } in
          let (s', reply) =
            g.eval s (script_keys rowkey (receipt_key req.table req.pk) w) (write_argv w) in
          let answered : Server × Attempt = elim reply [
            | none ↦ (s', Attempt.failed)
            | some texts ↦ elim (read_answer texts) [
              | Attempt.stale ↦ (s', Attempt.stale)
              | Attempt.failed ↦ (s', Attempt.failed)
              | Attempt.panicked ↦ (s', Attempt.panicked)
              | Attempt.done old new ↦
                  finish s' now acquired old_row old_rcpt ops (ttl_ms req.keep_ttl req.ttl)
                    (Attempt.done old new)
            ]
          ] in
          elim req.expected_old_ver [
            | none ↦ answered
            | some v ↦ if same_int v observed then answered else (s, Attempt.failed)
          ]

      -- The part of `writeAttempt` behind the reading of the row and its receipt.
      unfoldable pub prepared_attempt :
          Server → ℕ → List Bytes → Pairs → Pairs → Server × List Bytes × Attempt
      unfolding load_docs build_index_ops merge_receipt_undo reserve_all commit_attempt value_of
      prepared_attempt s now acquired old_row old_rcpt =
          let (s1, loaded) = load_docs s req.indexes in
          elim loaded [
            | none ↦ (s1, acquired, Attempt.failed)
            | some docs ↦
                let old_ver : ℕ = old_ver_of old_row in
                elim (build_index_ops sc xxhash m stag_table req.table (slot crc16 rowkey) req.pk
                  (value_of old_row) (value_of req.fields) docs old_ver (suc old_ver) req.indexes) [
                    | none ↦ (s1, acquired, Attempt.panicked)
                    | some (ops, receipts) ↦
                        let merged : Ops sc =
                          if is_row old_row
                          then ops
                          else record ops { undos = merge_receipt_undo ops.undos old_rcpt } in
                        let (s2, all, reserved) = reserve_all s1 now docs acquired req.indexes in
                        elim reserved [
                          | none ↦ (s2, all, Attempt.failed)
                          | some uniqs ↦
                              let (s3, result) =
                                commit_attempt s2 now all old_row old_rcpt merged receipts uniqs in
                              (s3, all, result)
                        ]
                  ]
          ]

      unfoldable pub write_attempt : Server → ℕ → List Bytes → Server × List Bytes × Attempt
      unfolding prepared_attempt receipt_key
      write_attempt s now acquired =
          let (s1, row) = g.hgetall s rowkey in
          elim row [
            | none ↦ (s1, acquired, Attempt.failed)
            | some old_row ↦
                let (s2, rcpt) = g.hgetall s1 (receipt_key req.table req.pk) in
                if is_row old_row then prepared_attempt s1 now acquired old_row [] else elim rcpt [
                  | none ↦ (s2, acquired, Attempt.failed)
                  | some old_rcpt ↦ prepared_attempt s2 now acquired old_row old_rcpt
                ]
          ]

      -- The attempts of `WriteRow`, with the time of each; the cached tables are dropped in between.
      unfoldable pub write_attempts : Server → (ℕ → ℕ) → List Bytes → ℕ → Server × Attempt
      unfolding write_attempt rollback_reservations
      write_attempts s now acquired zero =
          (rollback_reservations g.redis s acquired rowkey, Attempt.failed)
      write_attempts s now acquired (suc left) =
          let (s', all, result) = write_attempt s (now left) acquired in
          let again = write_attempts (g.invalidate s') now all left in
          elim result [
            | Attempt.stale ↦ again
            | Attempt.done old new ↦ (s', Attempt.done old new)
            | Attempt.failed ↦ (rollback_reservations g.redis s' all rowkey, Attempt.failed)
            | Attempt.panicked ↦ (s', Attempt.panicked)
          ]
