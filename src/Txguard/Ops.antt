-- ===== src/Txguard/Ops.antt =====
-- txguard/txguard.go, `buildIndexOps`: which index members a write of a row removes, adds and notes
-- in the row's receipt.
pub mod Routing
pub mod Entered
pub mod Receipts
pub mod Undos
pub mod Undoing
pub mod Covering
use ki_db.Base.{
  ℕ, List, [], ◌∷◌, ◌++◌, map, Option, none, some, Bytes, codes, Bool, true, false, ◌&&◌, ◌||◌, not,
  pos, ltb, same_text, parse_uint, format_uint, if◌then◌else◌, Score,
}
use ki_db.Meta.{IndexDef, IndexKind}
use ki_db.Keycodec.Slot.{Table}
use ki_db.Keycodec.Keys.{
  eq_bucket_key, range_bucket_key, lex_bucket_key, async_log_key, escape_value, query_escape,
}
use ki_db.Rowcodec.Member.{Msgp, plain_member, lex_member, encode_member}
use ki_db.Bucketmap.{
  Doc, write_targets_eq, read_buckets_eq, write_targets_range, read_buckets_range,
}
use ki_db.Txguard.Entries.{
  Fields, text_of, leaves, enters, Undo, AsyncDesc, iv_field, iv_of, eq_read_set, eq_write_set,
  range_read_set, range_write_set, covering_member, esc_log_field,
}

module _ (s : Score) where
  -- `redoEntry`
  pub record Redo : Type 0 where
    pub bucket : Bytes
    pub member : Bytes
    pub score : s.Float

  -- What `buildIndexOps` returns.
  pub record Ops : Type 0 where
    pub undos : List Undo
    pub redos : List Redo
    pub asyncs : List AsyncDesc
    pub iv_updates : List (Bytes × Bytes)

  abbrev pub no_ops : Ops
  no_ops = record { undos = []; redos = []; asyncs = []; iv_updates = [] }

  abbrev pub append_ops : Ops → Ops → Ops
  append_ops a b = record {
    undos = a.undos ++ b.undos;
    redos = a.redos ++ b.redos;
    asyncs = a.asyncs ++ b.asyncs;
    iv_updates = a.iv_updates ++ b.iv_updates;
  }

  -- The literal 0 of a score.
  abbrev pub zero_score : s.Float
  zero_score = (s.parse (codes "0")).0

  module _ (xxhash : Bytes → ℕ) (m : Msgp) (stag_table : Table) (table : Bytes) (slot : ℕ)
      (pk : Bytes) (old new : Fields) (docs : Bytes → Option Doc) (old_ver new_ver : ℕ) where
    -- The case of an asynchronous index.
    unfoldable pub async_ops : IndexDef → Ops
    unfolding leaves enters iv_of iv_field esc_log_field
    async_ops idx =
        if leaves (old idx.column) (new idx.column) || enters (old idx.column) (new idx.column)
        then record no_ops {
          asyncs =
              record {
                log_key = async_log_key stag_table table idx.id slot;
                redo_member =
                    pk
                    ++ (31
                        ∷ (esc_log_field (text_of (old idx.column))
                            ++ (31 ∷ esc_log_field (text_of (new idx.column)))));
                old_iv = iv_of old idx.id old_ver;
              }
              ∷ [];
          iv_updates = elim (new idx.column) [
            | none ↦ []
            | some v ↦ (iv_field idx.id, format_uint new_ver 10) ∷ []
          ];
        }
        else no_ops

    unfoldable pub range_undos : IndexDef → List Undo
    unfolding leaves range_read_set covering_member iv_of
    range_undos idx =
        let (score, ok) = s.parse (text_of (old idx.column)) in
        if leaves (old idx.column) (new idx.column) && ok
        then map
            (λ b. record {
              bucket = range_bucket_key table idx.id (pos b);
              member = covering_member m pk (iv_of old idx.id old_ver) idx old;
            })
            (range_read_set s (docs idx.id) score)
        else []

    unfoldable pub range_ops : IndexDef → Option Ops
    unfolding range_undos enters range_write_set covering_member iv_field
    range_ops idx =
        let (score, ok) = s.parse (text_of (new idx.column)) in
        if enters (old idx.column) (new idx.column) && ok
        then (elim (range_write_set s (docs idx.id) score) [
          | none ↦ none
          | some bs ↦ some (record no_ops {
            undos = range_undos idx;
            redos =
                map
                  (λ b. record {
                    bucket = range_bucket_key table idx.id (pos b);
                    member = covering_member m pk new_ver idx new;
                    score = score;
                  })
                  bs;
            iv_updates = (iv_field idx.id, format_uint new_ver 10) ∷ [];
          })
        ])
        else some (record no_ops { undos = range_undos idx })

    -- An equality or unique index.
    unfoldable pub eq_undos : IndexDef → List Undo
    unfolding leaves eq_read_set covering_member iv_of
    eq_undos idx =
        if leaves (old idx.column) (new idx.column)
        then map
            (λ b. record {
              bucket = eq_bucket_key xxhash table idx.id (text_of (old idx.column)) (pos b);
              member = covering_member m pk (iv_of old idx.id old_ver) idx old;
            })
            (eq_read_set (docs idx.id) (escape_value xxhash (text_of (old idx.column))))
        else []

    unfoldable pub eq_ops : IndexDef → Option Ops
    unfolding eq_undos enters eq_write_set covering_member iv_field
    eq_ops idx =
        if enters (old idx.column) (new idx.column)
        then (elim (eq_write_set xxhash (docs idx.id)
            (escape_value xxhash (text_of (new idx.column))) pk) [
              | none ↦ none
              | some bs ↦ some (record no_ops {
                undos = eq_undos idx;
                redos =
                    map
                      (λ b. record {
                        bucket =
                            eq_bucket_key xxhash table idx.id (text_of (new idx.column)) (pos b);
                        member = covering_member m pk new_ver idx new;
                        score = zero_score;
                      })
                      bs;
                iv_updates = (iv_field idx.id, format_uint new_ver 10) ∷ [];
              })
            ])
        else some (record no_ops { undos = eq_undos idx })

    -- The dictionary copy of an equality index.
    unfoldable pub lex_undos : IndexDef → List Undo
    unfolding leaves eq_read_set iv_of
    lex_undos idx =
        if leaves (old idx.column) (new idx.column)
        then map
            (λ b. record {
              bucket = lex_bucket_key table idx.id (pos b);
              member = lex_member (text_of (old idx.column)) pk (iv_of old idx.id old_ver);
            })
            (eq_read_set (docs idx.id) (codes "l"))
        else []

    unfoldable pub lex_ops : IndexDef → Option Ops
    unfolding lex_undos enters eq_write_set
    lex_ops idx =
        if enters (old idx.column) (new idx.column)
        then (elim (eq_write_set xxhash (docs idx.id) (codes "l") pk) [
          | none ↦ none
          | some bs ↦ some (record no_ops {
            undos = lex_undos idx;
            redos =
                map
                  (λ b. record {
                    bucket = lex_bucket_key table idx.id (pos b);
                    member = lex_member (text_of (new idx.column)) pk new_ver;
                    score = zero_score;
                  })
                  bs;
          })
        ])
        else some (record no_ops { undos = lex_undos idx })

    -- The `default` case of the switch.
    unfoldable pub eq_and_lex_ops : IndexDef → Option Ops
    unfolding eq_ops lex_ops
    eq_and_lex_ops idx = elim (eq_ops idx) [
      | none ↦ none
      | some a ↦
          let both : Option Ops = elim (lex_ops idx) [
            | none ↦ none
            | some b ↦ some (append_ops a b)
          ] in
          if idx.prefix_copy then both else some a
    ]

    -- One round of the first loop.
    unfoldable pub index_ops : IndexDef → Option Ops
    unfolding async_ops range_ops eq_and_lex_ops
    index_ops idx = if idx.is_async then some (async_ops idx) else elim idx.kind [
      | IndexKind.range ↦ range_ops idx
      | IndexKind.eq ↦ eq_and_lex_ops idx
      | IndexKind.unique ↦ eq_and_lex_ops idx
    ]

    unfoldable pub all_ops : List IndexDef → Option Ops
    unfolding index_ops
    all_ops [] = some no_ops
    all_ops (idx ∷ rest) = elim (index_ops idx) [
      | none ↦ none
      | some a ↦ elim (all_ops rest) [ none ↦ none | some b ↦ some (append_ops a b) ]
    ]

    -- The second loop: what the receipt notes of an index, with the version of its live member.
    unfoldable pub live_ver : List (Bytes × Bytes) → IndexDef → ℕ
    unfolding iv_of iv_field
    live_ver [] idx = iv_of old idx.id old_ver
    live_ver ((f, v) ∷ rest) idx =
        if same_text f (iv_field idx.id) then new_ver else live_ver rest idx

    unfoldable pub eq_receipts : ℕ → IndexDef → Bytes → List Undo
    unfolding eq_read_set covering_member
    eq_receipts ver idx value =
        map
          (λ b. record {
            bucket = eq_bucket_key xxhash table idx.id value (pos b);
            member = covering_member m pk ver idx new;
          })
          (eq_read_set (docs idx.id) (escape_value xxhash value))
        ++ (if idx.prefix_copy
            then map
                (λ b. record {
                  bucket = lex_bucket_key table idx.id (pos b);
                  member = lex_member value pk ver;
                })
                (eq_read_set (docs idx.id) (codes "l"))
            else [])

    unfoldable pub range_receipts : ℕ → IndexDef → Bytes → List Undo
    unfolding range_read_set covering_member
    range_receipts ver idx value =
        let (score, ok) = s.parse value in
        if ok
        then map
            (λ b. record {
              bucket = range_bucket_key table idx.id (pos b);
              member = covering_member m pk ver idx new;
            })
            (range_read_set s (docs idx.id) score)
        else []

    unfoldable pub index_receipts : List (Bytes × Bytes) → IndexDef → List Undo
    unfolding live_ver eq_receipts range_receipts
    index_receipts ivs idx =
        let noted : List Undo = elim (new idx.column) [
          | none ↦ []
          | some value ↦ elim idx.kind [
            | IndexKind.range ↦ range_receipts (live_ver ivs idx) idx value
            | IndexKind.eq ↦ eq_receipts (live_ver ivs idx) idx value
            | IndexKind.unique ↦ eq_receipts (live_ver ivs idx) idx value
          ]
        ] in
        if idx.is_async then [] else noted

    unfoldable pub all_receipts : List (Bytes × Bytes) → List IndexDef → List Undo
    unfolding index_receipts
    all_receipts ivs [] = []
    all_receipts ivs (idx ∷ rest) = index_receipts ivs idx ++ all_receipts ivs rest

    -- `buildIndexOps`; `none` is a panic of the routing. A receipt is a bucket and a member.
    unfoldable pub build_index_ops : List IndexDef → Option (Ops × List Undo)
    unfolding all_ops all_receipts
    build_index_ops indexes = elim (all_ops indexes) [
      | none ↦ none
      | some ops ↦ some (ops, all_receipts ops.iv_updates indexes)
    ]
