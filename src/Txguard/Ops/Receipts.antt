-- ===== src/Txguard/Ops/Receipts.antt =====
-- A receipt covers what its write adds: the sweeper can remove all of it when the row has expired.
use ki_db.Base.{
  some_same, ℕ, ◌≡◌, inl, inr, refl, ap, append_assoc, List, [], ◌∷◌, ◌++◌, arith, Option, none,
  some, Bytes, false, ◌||◌, In, In-append_right, All, All-append, Bool-cases, Option-cases, Score,
  IsOrdered,
}
use ki_db.Meta.{IndexDef, IndexKind}
use ki_db.Keycodec.Slot.{Table}
use ki_db.Rowcodec.Member.{Msgp}
use ki_db.Bucketmap.{Doc}
use ki_db.Txguard.Entries.{Fields, leaves, enters, Undo}
use ki_db.Txguard.Ops.{
  Ops, async_ops, eq_undos, lex_undos, range_ops, eq_ops, lex_ops, eq_and_lex_ops, index_ops,
  all_ops, index_receipts, all_receipts, build_index_ops,
}
use ki_db.Txguard.Ops.Routing.{
  All-unappend, WellRouted, receipt_line, Covered, Covered-left, Covered-right,
}
use ki_db.Txguard.Ops.Entered.{
  FiniteScore, lines, all_lines, eq_and_lex_ops-Covered, range_ops-Covered,
}

module _ (s : Score) (o : IsOrdered s) where
  module _ (xxhash : Bytes → ℕ) (m : Msgp) (stag_table : Table) (table : Bytes) (slot : ℕ)
      (pk : Bytes) (old new : Fields) (docs : Bytes → Option Doc) (old_ver new_ver : ℕ) where
    -- Without a new value nothing is added.
    absent_stays : (v : Option Bytes) → enters v none ≡ false
    unfolding enters
    absent_stays none = refl
    absent_stays (some v) = refl

    range_ops_idle :
        (idx : IndexDef) (a : Ops s)
        → new idx.column ≡ none
        → range_ops s xxhash m stag_table table slot pk old new docs old_ver new_ver idx ≡ some a
        → a.redos ≡ []
    unfolding range_ops
    range_ops_idle idx a e h =
        let stays : enters (old idx.column) (new idx.column) ≡ false =
          rw e (absent_stays (old idx.column)) in
        rw (some_same (rw stays at h)) refl

    eq_ops_stays :
        (idx : IndexDef)
        → enters (old idx.column) (new idx.column) ≡ false
        → (us : List Undo) × (eq_ops s xxhash m stag_table table slot pk old new docs old_ver
              new_ver idx
            ≡ some (record { undos = us; redos = []; asyncs = []; iv_updates = [] }))
    unfolding eq_ops
    eq_ops_stays idx stays = (
      eq_undos s xxhash m stag_table table slot pk old new docs old_ver new_ver idx,
      rw stays refl,
    )

    lex_ops_stays :
        (idx : IndexDef)
        → enters (old idx.column) (new idx.column) ≡ false
        → (us : List Undo) × (lex_ops s xxhash m stag_table table slot pk old new docs old_ver
              new_ver idx
            ≡ some (record { undos = us; redos = []; asyncs = []; iv_updates = [] }))
    unfolding lex_ops
    lex_ops_stays idx stays = (
      lex_undos s xxhash m stag_table table slot pk old new docs old_ver new_ver idx,
      rw stays refl,
    )

    eq_and_lex_ops_idle :
        (idx : IndexDef) (a : Ops s)
        → new idx.column ≡ none
        → eq_and_lex_ops s xxhash m stag_table table slot pk old new docs old_ver new_ver idx
          ≡ some a
        → a.redos ≡ []
    unfolding eq_and_lex_ops
    eq_and_lex_ops_idle idx a e h =
        let stays : enters (old idx.column) (new idx.column) ≡ false =
          rw e (absent_stays (old idx.column)) in
        let (us, x) = eq_ops_stays idx stays in
        let (vs, y) = lex_ops_stays idx stays in
        elim (Bool-cases idx.prefix_copy) [
          | inl copy ↦
              rw (some_same (rw copy at (rw (y, eq_and_lex_ops) at (rw (x, eq_and_lex_ops) at h))))
                refl
          | inr plain ↦ rw (some_same (rw plain at (rw (x, eq_and_lex_ops) at h))) refl
        ]

    -- An index of each kind that is not asynchronous, with and without a new value.
    kind-Covered :
        (k : IndexKind) (idx : IndexDef) (a : Ops s) (ivs : List (Bytes × Bytes))
        → idx.kind ≡ k
        → idx.is_async ≡ false
        → WellRouted s o (docs idx.id)
        → FiniteScore s o xxhash m stag_table table slot pk old new docs old_ver new_ver idx
        → index_ops s xxhash m stag_table table slot pk old new docs old_ver new_ver idx ≡ some a
        → All (λ p. In p ivs) a.iv_updates
        → Covered s o a.redos
            (lines s o xxhash m stag_table table slot pk old new docs old_ver new_ver ivs idx)
    unfolding index_ops index_receipts
    kind-Covered IndexKind.range idx a ivs k sync w finite h noted =
        let made = rw k at (rw sync at h) in
        elim (Option-cases (new idx.column)) [
          | inl e ↦ rw (range_ops_idle idx a e made) tt
          | inr (value, e) ↦ rw sync (
              rw e (
                rw k (
                  range_ops-Covered s o xxhash m stag_table table slot pk old new docs old_ver
                    new_ver idx a value ivs w finite e made noted)))
        ]
    kind-Covered IndexKind.eq idx a ivs k sync w finite h noted =
        let made = rw k at (rw sync at h) in
        elim (Option-cases (new idx.column)) [
          | inl e ↦ rw (eq_and_lex_ops_idle idx a e made) tt
          | inr (value, e) ↦ rw sync (
              rw e (
                rw k (
                  eq_and_lex_ops-Covered s o xxhash m stag_table table slot pk old new docs old_ver
                    new_ver idx a value ivs w e made noted)))
        ]
    kind-Covered IndexKind.unique idx a ivs k sync w finite h noted =
        let made = rw k at (rw sync at h) in
        elim (Option-cases (new idx.column)) [
          | inl e ↦ rw (eq_and_lex_ops_idle idx a e made) tt
          | inr (value, e) ↦ rw sync (
              rw e (
                rw k (
                  eq_and_lex_ops-Covered s o xxhash m stag_table table slot pk old new docs old_ver
                    new_ver idx a value ivs w e made noted)))
        ]

    index_ops-Covered :
        (idx : IndexDef) (a : Ops s) (ivs : List (Bytes × Bytes))
        → WellRouted s o (docs idx.id)
        → FiniteScore s o xxhash m stag_table table slot pk old new docs old_ver new_ver idx
        → index_ops s xxhash m stag_table table slot pk old new docs old_ver new_ver idx ≡ some a
        → All (λ p. In p ivs) a.iv_updates
        → Covered s o a.redos
            (lines s o xxhash m stag_table table slot pk old new docs old_ver new_ver ivs idx)
    unfolding index_ops async_ops
    index_ops-Covered idx a ivs w finite h noted = elim (Bool-cases idx.is_async) [
      | inr sync ↦ kind-Covered idx.kind idx a ivs refl sync w finite h noted
      | inl later ↦
          elim (Bool-cases (
            leaves (old idx.column) (new idx.column) || enters (old idx.column) (new idx.column))) [
              | inl e ↦ rw (some_same (rw e at (rw later at h))) tt
              | inr e ↦ rw (some_same (rw e at (rw later at h))) tt
            ]
    ]

    all_ops-Covered :
        (indexes : List IndexDef) (a : Ops s) (ivs : List (Bytes × Bytes))
        → All (λ idx. WellRouted s o (docs idx.id)) indexes
        → All
            (λ idx.
              FiniteScore s o xxhash m stag_table table slot pk old new docs old_ver new_ver idx)
            indexes
        → all_ops s xxhash m stag_table table slot pk old new docs old_ver new_ver indexes ≡ some a
        → All (λ p. In p ivs) a.iv_updates
        → Covered s o a.redos (
            all_lines s o xxhash m stag_table table slot pk old new docs old_ver new_ver ivs
              indexes)
    unfolding all_ops all_receipts
    all_ops-Covered [] a ivs w finite h noted = rw (some_same h) tt
    all_ops-Covered (idx ∷ rest) a ivs w finite h noted =
        elim (Option-cases
          (index_ops s xxhash m stag_table table slot pk old new docs old_ver new_ver idx)) [
            | inl panic ↦ absurd (ground (arith, (rw (panic, all_ops) at h)))
            | inr (x, hx) ↦
                elim (Option-cases
                  (all_ops s xxhash m stag_table table slot pk old new docs old_ver new_ver rest)) [
                    | inl panic ↦
                        absurd (ground (arith, (rw (panic, all_ops) at (rw (hx, all_ops) at h))))
                    | inr (y, hy) ↦
                        let same = some_same (rw (hy, all_ops) at (rw (hx, all_ops) at h)) in
                        let parts = All-unappend _ x.iv_updates y.iv_updates (rw same at noted) in
                        rw same (
                          All-append _ x.redos y.redos
                            (Covered-left s o _ _ _
                              (index_ops-Covered idx x ivs w.0 finite.0 hx parts.0))
                            (Covered-right s o _ _ _
                              (all_ops-Covered rest y ivs w.1 finite.1 hy parts.1)))
                  ]
          ]

    every_In : (ps qs : List (Bytes × Bytes)) → All (λ p. In p (qs ++ ps)) ps
    every_In [] qs = tt
    every_In (p ∷ ps) qs = (
      In-append_right p qs (p ∷ ps) (inl refl),
      rw (append_assoc qs (p ∷ []) ps) at (every_In ps (qs ++ (p ∷ []))),
    )

    -- Where the tables of the indexes are in phases of the protocol and their intervals cover all
    -- scores, where comparisons of scores obey IEEE 754, and where each new score is a number below
    -- infinity: every bucket and member that a write's index commands add stands in the receipt.
    pub build_index_ops-Covered :
        (indexes : List IndexDef) (ops : Ops s) (receipts : List Undo)
        → All (λ idx. WellRouted s o (docs idx.id)) indexes
        → All
            (λ idx.
              FiniteScore s o xxhash m stag_table table slot pk old new docs old_ver new_ver idx)
            indexes
        → build_index_ops s xxhash m stag_table table slot pk old new docs old_ver new_ver indexes
          ≡ some (ops, receipts)
        → All (λ r. In (receipt_line s o r) receipts) ops.redos
    unfolding build_index_ops
    build_index_ops-Covered indexes ops receipts w finite h =
        elim (Option-cases
          (all_ops s xxhash m stag_table table slot pk old new docs old_ver new_ver indexes)) [
            | inl panic ↦ absurd (ground (arith, (rw (panic, build_index_ops) at h)))
            | inr (x, hx) ↦
                let same = some_same (rw (hx, build_index_ops) at h) in
                rw (ap (λ q. q.0) same, ap (λ q. q.1) same)
                  (all_ops-Covered indexes x x.iv_updates w finite hx (every_In x.iv_updates []))
          ]
