-- ===== src/Txguard/Ops/Undos.antt =====
-- The removals of an index's operations.
use ki_db.Base.{
  some_same, ℕ, ◌≡◌, inl, inr, refl, arith, Option, some, Bytes, codes, ◌&&◌, Bool-cases,
  Option-cases, Score,
}
use ki_db.Meta.{IndexDef}
use ki_db.Keycodec.Slot.{Table}
use ki_db.Keycodec.Keys.{escape_value}
use ki_db.Rowcodec.Member.{Msgp}
use ki_db.Bucketmap.{Doc}
use ki_db.Txguard.Entries.{Fields, text_of, enters, eq_write_set, range_write_set}
use ki_db.Txguard.Ops.{Ops, range_undos, range_ops, eq_undos, eq_ops, lex_undos, lex_ops}
use ki_db.Txguard.Ops.Routing.{}

module _ (s : Score) (xxhash : Bytes → ℕ) (m : Msgp) (stag_table : Table) (table : Bytes) (slot : ℕ)
    (pk : Bytes) (old new : Fields) (docs : Bytes → Option Doc) (old_ver new_ver : ℕ)
    (idx : IndexDef) where
  -- The members to remove do not depend on whether the write also adds some.
  pub eq_ops_undos :
      (b : Ops s)
      → eq_ops s xxhash m stag_table table slot pk old new docs old_ver new_ver idx ≡ some b
      → b.undos ≡ eq_undos s xxhash m stag_table table slot pk old new docs old_ver new_ver idx
  unfolding eq_ops
  eq_ops_undos b h = elim (Bool-cases (enters (old idx.column) (new idx.column))) [
    | inr stays ↦ rw (some_same (rw stays at h)) refl
    | inl comes ↦
        elim (Option-cases
          (eq_write_set xxhash (docs idx.id) (escape_value xxhash (text_of (new idx.column))) pk)) [
            | inl panic ↦ absurd (ground (arith, (rw panic at (rw comes at h))))
            | inr (bs, targets) ↦ rw (some_same (rw targets at (rw comes at h))) refl
          ]
  ]

  pub lex_ops_undos :
      (b : Ops s)
      → lex_ops s xxhash m stag_table table slot pk old new docs old_ver new_ver idx ≡ some b
      → b.undos ≡ lex_undos s xxhash m stag_table table slot pk old new docs old_ver new_ver idx
  unfolding lex_ops
  lex_ops_undos b h = elim (Bool-cases (enters (old idx.column) (new idx.column))) [
    | inr stays ↦ rw (some_same (rw stays at h)) refl
    | inl comes ↦ elim (Option-cases (eq_write_set xxhash (docs idx.id) (codes "l") pk)) [
      | inl panic ↦ absurd (ground (arith, (rw panic at (rw comes at h))))
      | inr (bs, targets) ↦ rw (some_same (rw targets at (rw comes at h))) refl
    ]
  ]

  pub range_ops_undos :
      (b : Ops s)
      → range_ops s xxhash m stag_table table slot pk old new docs old_ver new_ver idx ≡ some b
      → b.undos ≡ range_undos s xxhash m stag_table table slot pk old new docs old_ver new_ver idx
  unfolding range_ops
  range_ops_undos b h =
      elim (Bool-cases
        (enters (old idx.column) (new idx.column) && (s.parse (text_of (new idx.column))).1)) [
          | inr stays ↦ rw (some_same (rw stays at h)) refl
          | inl comes ↦
              elim (Option-cases
                (range_write_set s (docs idx.id) (s.parse (text_of (new idx.column))).0)) [
                  | inl panic ↦ absurd (ground (arith, (rw panic at (rw comes at h))))
                  | inr (bs, targets) ↦ rw (some_same (rw targets at (rw comes at h))) refl
                ]
        ]
