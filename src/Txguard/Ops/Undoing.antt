-- ===== src/Txguard/Ops/Undoing.antt =====
-- The members that one write of a row adds are those that the next removes.
use ki_db.Base.{
  some_same, ℕ, ◌^◌, ◌<◌, ◌≡◌, inl, inr, refl, sym, List, [], ◌∷◌, arith, map, Option, some, Bytes,
  codes, true, false, ◌&&◌, ◌||◌, All, All-append, Bool-cases, Option-cases, format_uint,
  parse_uint-format, Score, IsOrdered,
}
use ki_db.Meta.{IndexDef, IndexKind}
use ki_db.Keycodec.Slot.{Table}
use ki_db.Keycodec.Keys.{escape_value}
use ki_db.Rowcodec.Member.{Msgp}
use ki_db.Bucketmap.{Doc}
use ki_db.Txguard.Entries.{
  Fields, text_of, leaves, enters, iv_field, iv_of, eq_write_set, range_write_set, covering_member,
}
use ki_db.Txguard.Ops.Undos.{eq_ops_undos, lex_ops_undos, range_ops_undos}
use ki_db.Txguard.Ops.{
  Ops, range_undos, range_ops, eq_undos, eq_ops, lex_undos, lex_ops, async_ops, eq_and_lex_ops,
  index_ops,
}
use ki_db.Txguard.Ops.Entered.{FiniteScore}
use ki_db.Txguard.Ops.Routing.{
  WellRouted, eq_write-In-read, range_write-In-read, map-Covered, Covered, Covered-left,
  Covered-right,
}

-- The columns in the member have the same values.
covers_same :
    (f g : Fields) (names : List Bytes)
    → All (λ c. f c ≡ g c) names
    → map (λ c. text_of (f c)) names ≡ map (λ c. text_of (g c)) names
covers_same f g [] h = refl
covers_same f g (c ∷ cs) h = rw (h.0, covers_same f g cs h.1) refl

covering_member_same :
    (m : Msgp) (pk : Bytes) (ver : ℕ) (idx : IndexDef) (f g : Fields)
    → All (λ c. f c ≡ g c) idx.covering
    → covering_member m pk ver idx f ≡ covering_member m pk ver idx g
unfolding covering_member
covering_member_same m pk ver idx f g h = go idx.covering h
  where
    go :
        (cs : List Bytes)
        → All (λ c. f c ≡ g c) cs
        → covering_member m pk ver (record idx { covering = cs }) f
          ≡ covering_member m pk ver (record idx { covering = cs }) g
    go [] h = refl
    go (c ∷ cs) h = rw (h.0, covers_same f g cs h.1) refl

-- The version noted with a write is the one that the next write reads.
iv_of-noted :
    (row : Fields) (id : Bytes) (ver other : ℕ)
    → 0 < ver
    → ver < 2 ^ 64
    → row (iv_field id) ≡ some (format_uint ver 10)
    → iv_of row id other ≡ ver
unfolding iv_of
iv_of-noted row id ver other low high h =
    let back = parse_uint-format ver high in rw (h, iv_of) (rw (back, iv_of) (ground (arith, low)))

module _ (s : Score) (o : IsOrdered s) (xxhash : Bytes → ℕ) (m : Msgp) (stag_table : Table)
    (table : Bytes) (slot : ℕ) (pk : Bytes) (old new row next : Fields) (docs : Bytes → Option Doc)
    (old_ver ver next_ver : ℕ) where
  -- The operations of the first write, and the removals of the next.
  abbrev pub first_ops : IndexDef → Option (Ops s)
  first_ops = index_ops s xxhash m stag_table table slot pk old new docs old_ver ver

  abbrev pub second_ops : IndexDef → Option (Ops s)
  second_ops = index_ops s xxhash m stag_table table slot pk row next docs ver next_ver

  -- The row after the first write, as an index sees it: its column and its covered columns are
  -- those of the write, and the version of the write is noted.
  abbrev pub HoldsWrite : IndexDef → Type 0
  HoldsWrite idx =
      (row idx.column ≡ new idx.column)
      × All (λ c. row c ≡ new c) idx.covering
      × (row (iv_field idx.id) ≡ some (format_uint ver 10))

  module _ (idx : IndexDef) (w : WellRouted s o (docs idx.id)) (low : 0 < ver) (high : ver < 2 ^ 64)
      (holds : HoldsWrite idx) (goes : leaves (row idx.column) (next idx.column) ≡ true) where
    same_member :
        covering_member m pk ver idx new ≡ covering_member m pk (iv_of row idx.id ver) idx row
    same_member =
        rw (iv_of-noted row idx.id ver ver low high holds.2)
          (sym (covering_member_same m pk ver idx row new holds.1))

    eq_undone :
        (a : Ops s)
        → eq_ops s xxhash m stag_table table slot pk old new docs old_ver ver idx ≡ some a
        → Covered s o a.redos
            (eq_undos s xxhash m stag_table table slot pk row next docs ver next_ver idx)
    unfolding eq_ops eq_undos
    eq_undone a h = elim (Bool-cases (enters (old idx.column) (new idx.column))) [
      | inr stays ↦ rw (some_same (rw stays at h)) tt
      | inl comes ↦
          elim (Option-cases (
            eq_write_set xxhash (docs idx.id) (escape_value xxhash (text_of (new idx.column)))
              pk)) [
                | inl panic ↦ absurd (ground (arith, (rw panic at (rw comes at h))))
                | inr (bs, targets) ↦
                    let same = some_same (rw targets at (rw comes at h)) in
                    let reads =
                      eq_write-In-read s o xxhash (docs idx.id)
                        (escape_value xxhash (text_of (new idx.column))) pk bs w targets in
                    rw (same, goes)
                      (rw (sym holds.0) (
                        map-Covered s o _ _ bs _ (λ b. rw (same_member, holds.0) refl)
                          (rw (sym holds.0) at reads)))
              ]
    ]

    lex_undone :
        (a : Ops s)
        → lex_ops s xxhash m stag_table table slot pk old new docs old_ver ver idx ≡ some a
        → Covered s o a.redos
            (lex_undos s xxhash m stag_table table slot pk row next docs ver next_ver idx)
    unfolding lex_ops lex_undos
    lex_undone a h = elim (Bool-cases (enters (old idx.column) (new idx.column))) [
      | inr stays ↦ rw (some_same (rw stays at h)) tt
      | inl comes ↦ elim (Option-cases (eq_write_set xxhash (docs idx.id) (codes "l") pk)) [
        | inl panic ↦ absurd (ground (arith, (rw panic at (rw comes at h))))
        | inr (bs, targets) ↦
            let same = some_same (rw targets at (rw comes at h)) in
            let reads = eq_write-In-read s o xxhash (docs idx.id) (codes "l") pk bs w targets in
            rw (same, goes)
              (rw (holds.0, iv_of-noted row idx.id ver ver low high holds.2)
                (map-Covered s o _ _ bs _ (λ b. refl) reads))
      ]
    ]

    range_undone :
        (a : Ops s)
        → FiniteScore s o xxhash m stag_table table slot pk old new docs old_ver ver idx
        → range_ops s xxhash m stag_table table slot pk old new docs old_ver ver idx ≡ some a
        → Covered s o a.redos
            (range_undos s xxhash m stag_table table slot pk row next docs ver next_ver idx)
    unfolding range_ops range_undos
    range_undone a finite h =
        let score = (s.parse (text_of (new idx.column))).0 in
        let ok = (s.parse (text_of (new idx.column))).1 in
        elim (Bool-cases (enters (old idx.column) (new idx.column) && ok)) [
          | inr stays ↦ rw (some_same (rw stays at h)) tt
          | inl comes ↦ elim (Option-cases (range_write_set s (docs idx.id) score)) [
            | inl panic ↦ absurd (ground (arith, (rw panic at (rw comes at h))))
            | inr (bs, targets) ↦
                let same = some_same (rw targets at (rw comes at h)) in
                let readable : ok ≡ true = ground (arith, comes) in
                let (n, below) = finite readable in
                let reads = range_write-In-read s o (docs idx.id) score bs w n below targets in
                rw (same, goes)
                  (rw holds.0
                    (rw readable (map-Covered s o _ _ bs _ (λ b. rw same_member refl) reads)))
          ]
        ]

    eq_and_lex_undone :
        (a b : Ops s)
        → eq_and_lex_ops s xxhash m stag_table table slot pk old new docs old_ver ver idx ≡ some a
        → eq_and_lex_ops s xxhash m stag_table table slot pk row next docs ver next_ver idx ≡ some b
        → Covered s o a.redos b.undos
    unfolding eq_and_lex_ops
    eq_and_lex_undone a b h k =
        elim (Option-cases
          (eq_ops s xxhash m stag_table table slot pk old new docs old_ver ver idx)) [
            | inl panic ↦ absurd (ground (arith, (rw (panic, eq_and_lex_ops) at h)))
            | inr (x, hx) ↦
                elim (Option-cases
                  (eq_ops s xxhash m stag_table table slot pk row next docs ver next_ver idx)) [
                    | inl panic ↦ absurd (ground (arith, (rw (panic, eq_and_lex_ops) at k)))
                    | inr (u, hu) ↦ elim (Bool-cases idx.prefix_copy) [
                      | inr plain ↦
                          rw
                            (
                              some_same (rw plain at (rw (hx, eq_and_lex_ops) at h)),
                              some_same (rw plain at (rw (hu, eq_and_lex_ops) at k)),
                            )
                            (rw
                              (eq_ops_undos s xxhash m stag_table table slot pk row next docs ver
                                next_ver idx u hu)
                              (eq_undone x hx))
                      | inl copy ↦
                          elim (Option-cases (
                            lex_ops s xxhash m stag_table table slot pk old new docs old_ver ver
                              idx)) [
                                | inl panic ↦ absurd (
                                    ground (
                                      arith,
                                      (rw (panic, eq_and_lex_ops) at
                                          (rw copy at (rw (hx, eq_and_lex_ops) at h))),
                                    ))
                                | inr (y, hy) ↦
                                    elim (Option-cases (
                                      lex_ops s xxhash m stag_table table slot pk row next docs ver
                                        next_ver idx)) [
                                          | inl panic ↦ absurd (
                                              ground (
                                                arith,
                                                (rw (panic, eq_and_lex_ops) at
                                                    (rw copy at (rw (hu, eq_and_lex_ops) at k))),
                                              ))
                                          | inr (v, hv) ↦
                                              rw
                                                (
                                                  some_same (
                                                      rw (hy, eq_and_lex_ops) at
                                                        (rw copy at
                                                          (rw (hx, eq_and_lex_ops) at h))),
                                                  some_same (
                                                      rw (hv, eq_and_lex_ops) at
                                                        (rw copy at
                                                          (rw (hu, eq_and_lex_ops) at k))),
                                                )
                                                (rw
                                                  (
                                                    eq_ops_undos s xxhash m stag_table table slot pk
                                                        row next docs ver next_ver idx u hu,
                                                    lex_ops_undos s xxhash m stag_table table slot
                                                        pk row next docs ver next_ver idx v hv,
                                                  )
                                                  (All-append _ x.redos y.redos
                                                    (Covered-left s o _ _ _ (eq_undone x hx))
                                                    (Covered-right s o _ _ _ (lex_undone y hy))))
                                        ]
                              ]
                    ]
                  ]
          ]

    kind_undone :
        (k : IndexKind) (a b : Ops s)
        → idx.kind ≡ k
        → FiniteScore s o xxhash m stag_table table slot pk old new docs old_ver ver idx
        → idx.is_async ≡ false
        → first_ops idx ≡ some a
        → second_ops idx ≡ some b
        → Covered s o a.redos b.undos
    unfolding index_ops
    kind_undone IndexKind.range a b e finite sync h k =
        rw
          (range_ops_undos s xxhash m stag_table table slot pk row next docs ver next_ver idx b
            (rw e at (rw sync at k)))
          (range_undone a finite (rw e at (rw sync at h)))
    kind_undone IndexKind.eq a b e finite sync h k =
        eq_and_lex_undone a b (rw e at (rw sync at h)) (rw e at (rw sync at k))
    kind_undone IndexKind.unique a b e finite sync h k =
        eq_and_lex_undone a b (rw e at (rw sync at h)) (rw e at (rw sync at k))

  -- Of two writes of a row, with the same tables, which are in phases of the protocol and cover all
  -- scores, and with versions between 1 and 2^64 - 1: where the row that the second one reads holds
  -- the column and the covered columns of the first and the first's version, where the first's new
  -- score is a number below infinity, and where the value leaves the column: every bucket and
  -- member that the first write adds to the index is among those that the second removes from it.
  pub index_ops-undone :
      (idx : IndexDef) (a b : Ops s)
      → WellRouted s o (docs idx.id)
      → FiniteScore s o xxhash m stag_table table slot pk old new docs old_ver ver idx
      → 0 < ver
      → ver < 2 ^ 64
      → HoldsWrite idx
      → leaves (row idx.column) (next idx.column) ≡ true
      → first_ops idx ≡ some a
      → second_ops idx ≡ some b
      → Covered s o a.redos b.undos
  unfolding index_ops async_ops
  index_ops-undone idx a b w finite low high holds goes h k = elim (Bool-cases idx.is_async) [
    | inr sync ↦ kind_undone idx w low high holds goes idx.kind a b refl finite sync h k
    | inl later ↦
        elim (Bool-cases
          (leaves (old idx.column) (new idx.column) || enters (old idx.column) (new idx.column))) [
            | inl e ↦ rw (some_same (rw e at (rw later at h))) tt
            | inr e ↦ rw (some_same (rw e at (rw later at h))) tt
          ]
  ]
