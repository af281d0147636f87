-- ===== src/Txguard/Delete.antt =====
-- txguard/txguard.go: the checks of `WriteRow` in front of its attempts, `DeleteRow`, and
-- `NextAutoID`. `equal_fold` is `strings.EqualFold`.
pub mod FullLog
use ki_db.Base.{
  ℕ, zero, suc, ◌+◌, List, [], ◌∷◌, ◌++◌, map, Option, none, some, Bytes, codes, Bool, true, false,
  ◌&&◌, ◌||◌, not, ℤ, pos, same_text, parse_uint, if◌then◌else◌, Score,
}
use ki_db.Meta.{IndexDef, validate_reserved}
use ki_db.Keycodec.Slot.{Table, slot}
use ki_db.Keycodec.Keys.{row_key, receipt_key, unique_key, exp_key_n, exp_shard_for, seq_key}
use ki_db.Rowcodec.Member.{Msgp}
use ki_db.Bucketmap.{Doc}
use ki_db.Txguard.Entries.{Fields}
use ki_db.Txguard.Ops.{Ops, build_index_ops}
use ki_db.Txguard.Unique.{release_unique}
use ki_db.Txguard.Write.{Pairs, value_of, old_ver_of, Write, delete_argv, script_keys, Command}
use ki_db.Txguard.Row.{
  Guard, WriteReq, Attempt, Server, is_row, is_unique, load_docs, write_attempts,
}

-- No field is reserved or the primary key's column.
unfoldable pub accepts_fields : (Bytes → Bytes → Bool) → Bytes → Pairs → Bool
unfolding validate_reserved
accepts_fields equal_fold pk_column [] = true
accepts_fields equal_fold pk_column ((f, v) ∷ rest) =
    if validate_reserved f && not (equal_fold f pk_column)
    then accepts_fields equal_fold pk_column rest
    else false

unfoldable pub accepts : (Bytes → Bytes → Bool) → Bytes → WriteReq → Bool
unfolding accepts_fields
accepts equal_fold pk_column req = elim req.pk [
  | [] ↦ false
  | ◌∷◌ _ _ ↦ accepts_fields equal_fold pk_column req.fields
]

-- What `DeleteRow` returns.
pub data Deletion : Type 0 where
  deleted absent : Deletion
  failed : Deletion
  panicked : Deletion

-- The answer's second text is 1.
abbrev pub existed : List Bytes → Bool
existed [] = false
existed (_ ∷ []) = false
existed (_ ∷ x ∷ _) = same_text x (codes "1")

abbrev pub is_stale : List Bytes → Bool
is_stale [] = false
is_stale (x ∷ _) = same_text x (codes "stale")

module _ (g : Guard) (xxhash crc16 : Bytes → ℕ) (m : Msgp) (stag_table : Table) (sc : Score)
    (log_cap grace_ms : ℤ) where
  -- `WriteRow`, with the number of its attempts.
  unfoldable pub write_row_req :
      (Bytes → Bytes → Bool) → Bytes → WriteReq → Server g → (ℕ → ℕ) → ℕ → Server g × Attempt
  unfolding accepts write_attempts row_key
  write_row_req equal_fold pk_column req s now retries =
      if accepts equal_fold pk_column req
      then write_attempts g xxhash m req (row_key req.table req.pk) sc crc16 stag_table log_cap
          grace_ms s now [] retries
      else (s, Attempt.failed)

  module _ (table : Bytes) (indexes : List IndexDef) (shards : ℤ) (pk : Bytes) where
    -- The reservations of the deleted row.
    unfoldable pub release_all : Server g → Pairs → List IndexDef → Server g
    unfolding release_unique value_of unique_key row_key
    release_all s old_row [] = s
    release_all s old_row (idx ∷ rest) =
        let value : Option Bytes =
          if is_unique idx.kind then value_of old_row idx.column else none in
        elim value [
          | none ↦ release_all s old_row rest
          | some v ↦
              release_all
                (release_unique g.redis s (unique_key xxhash table idx.id v) (row_key table pk))
                old_row rest
        ]

    -- The part behind the script's answer that the row existed.
    unfoldable pub finish_delete : Server g → Pairs → Ops sc → Server g × Deletion
    unfolding release_all
    finish_delete s old_row ops =
        let (s', sent) = g.pipeline s (
          map (λ u. Command.zrem u.bucket u.member) ops.undos
          ++ (Command.zrem (exp_key_n table (pos (exp_shard_for crc16 pk shards)) shards) pk
              ∷ [])) in
        let released : Server g = release_all s' old_row indexes in
        if sent then (released, Deletion.deleted) else (s', Deletion.failed)

    -- `none` asks for another attempt.
    unfoldable pub delete_found :
        Server g → Pairs → (Bytes → Option Doc) → Server g × Option Deletion
    unfolding build_index_ops finish_delete delete_argv old_ver_of value_of row_key receipt_key
    delete_found s old_row docs =
        let ver : ℕ = old_ver_of old_row in
        elim (build_index_ops sc xxhash m stag_table table (slot crc16 (row_key table pk)) pk
          (value_of old_row) (λ f. none) docs ver (suc ver) indexes) [
            | none ↦ (s, some Deletion.panicked)
            | some (ops, receipts) ↦
                let w : Write = record {
                  pk = pk;
                  ttlms = pos 0;
                  observed = pos ver;
                  log_cap = log_cap;
                  grace_ms = grace_ms;
                  asyncs = ops.asyncs;
                  receipts = receipts;
                  fields = [];
                  iv_updates = [];
                  drops = [];
                  uniqs = [];
                } in
                let (s', reply) =
                  g.eval s (script_keys (row_key table pk) (receipt_key table pk) w)
                    (delete_argv w) in
                elim reply [
                  | none ↦ (s', some Deletion.failed)
                  | some texts ↦
                      let (s'', result) = finish_delete s' old_row ops in
                      if is_stale texts
                      then (g.invalidate s', none)
                      else if existed texts
                      then (s'', some result)
                      else (s', some Deletion.absent)
                ]
          ]

    unfoldable pub delete_row : Server g → ℕ → Server g × Deletion
    unfolding delete_found load_docs row_key
    delete_row s zero = (s, Deletion.failed)
    delete_row s (suc left) =
        let (s1, row) = g.hgetall s (row_key table pk) in
        elim row [
          | none ↦ (s1, Deletion.failed)
          | some old_row ↦
              let (s2, loaded) = load_docs g s1 indexes in
              let found : Server g × Deletion = elim loaded [
                | none ↦ (s2, Deletion.failed)
                | some docs ↦
                    let (s3, result) = delete_found s2 old_row docs in
                    let again = delete_row s3 left in
                    elim result [ none ↦ again | some x ↦ (s3, x) ]
              ] in
              if is_row old_row then found else (s1, Deletion.absent)
        ]

-- `NextAutoID`, by the reply of INCR, where `none` is an error.
unfoldable pub next_auto_id : Option Bytes → Option ℕ
next_auto_id none = none
next_auto_id (some reply) = parse_uint reply
