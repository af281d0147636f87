-- ===== src/Txguard/Ops/Entered.antt =====
-- The receipt's lines of one index cover what the write adds to it.
use ki_db.Base.{
  some_same, ℕ, ◌≡◌, inl, inr, refl, sym, ap, List, [], ◌∷◌, arith, Option, some, Bytes, codes,
  true, ◌&&◌, In, All, All-append, Bool-cases, Option-cases, same_text, same_text_refl, format_uint,
  Score, IsOrdered,
}
use ki_db.Meta.{IndexDef}
use ki_db.Keycodec.Slot.{Table}
use ki_db.Keycodec.Keys.{escape_value}
use ki_db.Rowcodec.Member.{Msgp}
use ki_db.Bucketmap.{Doc}
use ki_db.Txguard.Entries.{Fields, text_of, enters, Undo, iv_field, eq_write_set, range_write_set}
use ki_db.Txguard.Ops.{
  Ops, range_ops, eq_ops, lex_ops, eq_and_lex_ops, live_ver, eq_receipts, range_receipts,
  index_receipts, all_receipts,
}
use ki_db.Txguard.Ops.Routing.{
  All-unappend, WellRouted, eq_write-In-read, range_write-In-read, map-Covered, Covered,
  Covered-left, Covered-right,
}

module _ (s : Score) (o : IsOrdered s) where
  module _ (xxhash : Bytes → ℕ) (m : Msgp) (stag_table : Table) (table : Bytes) (slot : ℕ)
      (pk : Bytes) (old new : Fields) (docs : Bytes → Option Doc) (old_ver new_ver : ℕ) where
    -- The new score of an index's column, where it has one, is a number below infinity.
    abbrev pub FiniteScore : IndexDef → Type 0
    FiniteScore idx =
        (s.parse (text_of (new idx.column))).1 ≡ true
        → o.IsNumber (s.parse (text_of (new idx.column))).0
          × (s.lt (s.parse (text_of (new idx.column))).0 s.pos_inf ≡ true)

    abbrev pub IsNoted : IndexDef → List (Bytes × Bytes) → Type 0
    IsNoted idx ivs = In (iv_field idx.id, format_uint new_ver 10) ivs

    -- The definitions at the row and the write of this section.
    abbrev pub live : List (Bytes × Bytes) → IndexDef → ℕ
    live = live_ver s xxhash m stag_table table slot pk old new docs old_ver new_ver

    abbrev pub eq_lines : ℕ → IndexDef → Bytes → List Undo
    eq_lines = eq_receipts s xxhash m stag_table table slot pk old new docs old_ver new_ver

    abbrev pub lines : List (Bytes × Bytes) → IndexDef → List Undo
    lines = index_receipts s xxhash m stag_table table slot pk old new docs old_ver new_ver

    abbrev pub all_lines : List (Bytes × Bytes) → List IndexDef → List Undo
    all_lines = all_receipts s xxhash m stag_table table slot pk old new docs old_ver new_ver

    noted-live_ver :
        (idx : IndexDef) (ivs : List (Bytes × Bytes)) → IsNoted idx ivs → live ivs idx ≡ new_ver
    unfolding live_ver
    noted-live_ver idx [] h = elim h [ ]
    noted-live_ver idx ((f, v) ∷ rest) h = elim (Bool-cases (same_text f (iv_field idx.id))) [
      | inl e ↦ rw e refl
      | inr e ↦ elim h [
        | inl p ↦
            let names : f ≡ iv_field idx.id = sym (ap (λ q. q.0) p) in
            let same : same_text f (iv_field idx.id) ≡ true =
              rw names (same_text_refl (iv_field idx.id)) in
            absurd (ground (arith, e, same))
        | inr later ↦ rw e (noted-live_ver idx rest later)
      ]
    ]

    pub eq_ops-Covered :
        (idx : IndexDef) (a : Ops s) (value : Bytes) (ivs : List (Bytes × Bytes))
        → WellRouted s o (docs idx.id)
        → new idx.column ≡ some value
        → eq_ops s xxhash m stag_table table slot pk old new docs old_ver new_ver idx ≡ some a
        → All (λ p. In p ivs) a.iv_updates
        → Covered s o a.redos (eq_lines (live ivs idx) idx value)
    unfolding eq_ops eq_receipts iv_field
    eq_ops-Covered idx a value ivs w e h noted =
        elim (Bool-cases (enters (old idx.column) (new idx.column))) [
          | inr stays ↦ rw (some_same (rw stays at h)) tt
          | inl comes ↦
              elim (Option-cases (
                eq_write_set xxhash (docs idx.id) (escape_value xxhash (text_of (new idx.column)))
                  pk)) [
                    | inl panic ↦ absurd (ground (arith, (rw panic at (rw comes at h))))
                    | inr (bs, targets) ↦
                        let same = some_same (rw targets at (rw comes at h)) in
                        let ver = noted-live_ver idx ivs (rw same at noted).0 in
                        let reads =
                          eq_write-In-read s o xxhash (docs idx.id)
                            (escape_value xxhash (text_of (new idx.column))) pk bs w targets in
                        rw (same, ver, e)
                          (Covered-left s o _ _ _
                            (map-Covered s o _ _ bs _ (λ b. refl) (rw e at reads)))
                  ]
        ]

    -- A value that enters the index is noted with the version of the write.
    eq_ops_notes :
        (idx : IndexDef) (a : Ops s) (ivs : List (Bytes × Bytes))
        → eq_ops s xxhash m stag_table table slot pk old new docs old_ver new_ver idx ≡ some a
        → All (λ p. In p ivs) a.iv_updates
        → enters (old idx.column) (new idx.column) ≡ true
        → IsNoted idx ivs
    unfolding eq_ops iv_field
    eq_ops_notes idx a ivs h noted comes =
        elim (Option-cases
          (eq_write_set xxhash (docs idx.id) (escape_value xxhash (text_of (new idx.column))) pk)) [
            | inl panic ↦ absurd (ground (arith, (rw panic at (rw comes at h))))
            | inr (bs, targets) ↦ (rw (some_same (rw targets at (rw comes at h))) at noted).0
          ]

    lex_ops-Covered :
        (idx : IndexDef) (a : Ops s) (value : Bytes) (ivs : List (Bytes × Bytes))
        → WellRouted s o (docs idx.id)
        → new idx.column ≡ some value
        → idx.prefix_copy ≡ true
        → lex_ops s xxhash m stag_table table slot pk old new docs old_ver new_ver idx ≡ some a
        → (enters (old idx.column) (new idx.column) ≡ true → IsNoted idx ivs)
        → Covered s o a.redos (eq_lines (live ivs idx) idx value)
    unfolding lex_ops eq_receipts
    lex_ops-Covered idx a value ivs w e copy h noted =
        elim (Bool-cases (enters (old idx.column) (new idx.column))) [
          | inr stays ↦ rw (some_same (rw stays at h)) tt
          | inl comes ↦ elim (Option-cases (eq_write_set xxhash (docs idx.id) (codes "l") pk)) [
            | inl panic ↦ absurd (ground (arith, (rw panic at (rw comes at h))))
            | inr (bs, targets) ↦
                let same = some_same (rw targets at (rw comes at h)) in
                let ver = noted-live_ver idx ivs (noted comes) in
                let reads = eq_write-In-read s o xxhash (docs idx.id) (codes "l") pk bs w targets in
                rw (same, ver, e, copy)
                  (Covered-right s o _ _ _ (map-Covered s o _ _ bs _ (λ b. refl) reads))
          ]
        ]

    pub eq_and_lex_ops-Covered :
        (idx : IndexDef) (a : Ops s) (value : Bytes) (ivs : List (Bytes × Bytes))
        → WellRouted s o (docs idx.id)
        → new idx.column ≡ some value
        → eq_and_lex_ops s xxhash m stag_table table slot pk old new docs old_ver new_ver idx
          ≡ some a
        → All (λ p. In p ivs) a.iv_updates
        → Covered s o a.redos (eq_lines (live ivs idx) idx value)
    unfolding eq_and_lex_ops
    eq_and_lex_ops-Covered idx a value ivs w e h noted =
        elim (Option-cases
          (eq_ops s xxhash m stag_table table slot pk old new docs old_ver new_ver idx)) [
            | inl panic ↦ absurd (ground (arith, (rw (panic, eq_and_lex_ops) at h)))
            | inr (x, hx) ↦ elim (Bool-cases idx.prefix_copy) [
              | inr plain ↦
                  let same = some_same (rw plain at (rw (hx, eq_and_lex_ops) at h)) in
                  rw same (eq_ops-Covered idx x value ivs w e hx (rw same at noted))
              | inl copy ↦
                  elim (Option-cases (
                    lex_ops s xxhash m stag_table table slot pk old new docs old_ver new_ver idx)) [
                      | inl panic ↦ absurd (
                          ground (
                            arith,
                            (rw (panic, eq_and_lex_ops) at
                                (rw copy at (rw (hx, eq_and_lex_ops) at h))),
                          ))
                      | inr (y, hy) ↦
                          let same = some_same (
                            rw (hy, eq_and_lex_ops) at
                              (rw copy at (rw (hx, eq_and_lex_ops) at h))) in
                          let parts = All-unappend _ x.iv_updates y.iv_updates (rw same at noted) in
                          rw same (
                            All-append _ x.redos y.redos
                              (eq_ops-Covered idx x value ivs w e hx parts.0)
                              (lex_ops-Covered idx y value ivs w e copy hy
                                (eq_ops_notes idx x ivs hx parts.0)))
                    ]
            ]
          ]

    pub range_ops-Covered :
        (idx : IndexDef) (a : Ops s) (value : Bytes) (ivs : List (Bytes × Bytes))
        → WellRouted s o (docs idx.id)
        → FiniteScore idx
        → new idx.column ≡ some value
        → range_ops s xxhash m stag_table table slot pk old new docs old_ver new_ver idx ≡ some a
        → All (λ p. In p ivs) a.iv_updates
        → Covered s o a.redos (
            range_receipts s xxhash m stag_table table slot pk old new docs old_ver new_ver
              (live ivs idx)
              idx
              value)
    unfolding range_ops range_receipts iv_field
    range_ops-Covered idx a value ivs w finite e h noted =
        let score = (s.parse (text_of (new idx.column))).0 in
        let ok = (s.parse (text_of (new idx.column))).1 in
        elim (Bool-cases (enters (old idx.column) (new idx.column) && ok)) [
          | inr stays ↦ rw (some_same (rw stays at h)) tt
          | inl comes ↦ elim (Option-cases (range_write_set s (docs idx.id) score)) [
            | inl panic ↦ absurd (ground (arith, (rw panic at (rw comes at h))))
            | inr (bs, targets) ↦
                let same = some_same (rw targets at (rw comes at h)) in
                let ver = noted-live_ver idx ivs (rw same at noted).0 in
                let readable : ok ≡ true = ground (arith, comes) in
                let (n, below) = finite readable in
                let reads = range_write-In-read s o (docs idx.id) score bs w n below targets in
                rw (same, ver)
                  (rw (rw e at readable) (map-Covered s o _ _ bs _ (λ b. refl) (rw e at reads)))
          ]
        ]
