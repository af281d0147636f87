-- ===== src/Txguard/Ops/Covering.antt =====
-- A write that changes a covered column and not the index's own.
use ki_db.Base.{
  ℕ, ◌+◌, ◌^◌, ◌<◌, ◌≡◌, ◌≢◌, refl, sym, ◌∙◌, List, [], ◌∷◌, arith, map, Option, some, Bytes, false,
  All, length, append-nil, same_text_refl, Score,
}
use ki_db.Meta.{IndexDef, IndexKind}
use ki_db.Keycodec.Slot.{Table}
use ki_db.Rowcodec.Member.{Msgp, encode_member}
use ki_db.Rowcodec.RoundTrip.{ReadsBack, IsShort, reads-encode_member}
use ki_db.Bucketmap.{Doc}
use ki_db.Txguard.Entries.{Fields, text_of, leaves, iv_of, covering_member}
use ki_db.Txguard.Ops.{
  no_ops, eq_undos, eq_ops, eq_and_lex_ops, index_ops, live_ver, eq_receipts, index_receipts,
}

abbrev pub covers : IndexDef → Fields → List Bytes
covers idx f = map (λ c. text_of (f c)) idx.covering

covering_member-encode_member :
    (m : Msgp) (pk : Bytes) (ver : ℕ) (idx : IndexDef) (f : Fields)
    → covering_member m pk ver idx f ≡ encode_member m pk ver (covers idx f)
unfolding covering_member encode_member
covering_member-encode_member m pk ver idx f = go idx.covering
  where
    go :
        (cs : List Bytes)
        → covering_member m pk ver (record idx { covering = cs }) f
          ≡ encode_member m pk ver (map (λ c. text_of (f c)) cs)
    go [] = refl
    go (c ∷ cs) = refl

-- Members with different columns differ.
encode_member-apart :
    (m : Msgp) (pk : Bytes) (ver : ℕ) (cs ds : List Bytes)
    → ReadsBack m
    → pk ≢ []
    → ver < 2 ^ 64
    → 2 + length cs < 2 ^ 32
    → length ds ≡ length cs
    → All IsShort (pk ∷ cs)
    → All IsShort (pk ∷ ds)
    → cs ≢ ds
    → encode_member m pk ver cs ≢ encode_member m pk ver ds
encode_member-apart m pk ver [] [] r np hv hn hl short also apart same = apart refl
encode_member-apart m pk ver (c ∷ cs) [] r np hv hn hl short also apart same = ground (arith, hl)
encode_member-apart m pk ver [] (d ∷ ds) r np hv hn hl short also apart same = ground (arith, hl)
encode_member-apart m pk ver (c ∷ cs) (d ∷ ds) r np hv hn hl short also apart same =
    let back = (reads-encode_member m r pk ver (c ∷ cs) np hv hn short).2 in
    let also_back = (reads-encode_member m r pk ver (d ∷ ds) np hv (rw hl hn) also).2 in
    apart (sym back ∙ (rw same also_back))

covers-length :
    (f g : Fields) (cs : List Bytes)
    → length (map (λ c. text_of (g c)) cs) ≡ length (map (λ c. text_of (f c)) cs)
covers-length f g [] = refl
covers-length f g (c ∷ cs) = rw (covers-length f g cs) refl

All-map :
    {A B : Type 0} (P : B → Type 0) (f : A → B) (xs : List A)
    → ((x : A) → P (f x))
    → All P (map f xs)
All-map P f [] h = tt
All-map P f (x ∷ xs) h = (h x, All-map P f xs h)

same_stays : (v : Bytes) → leaves (some v) (some v) ≡ false
unfolding leaves
same_stays v = rw (same_text_refl v) refl

module _ (s : Score) (xxhash : Bytes → ℕ) (m : Msgp) (r : ReadsBack m) (stag_table : Table)
    (table : Bytes) (slot : ℕ) (pk : Bytes) (old new : Fields) (docs : Bytes → Option Doc)
    (old_ver new_ver : ℕ) (idx : IndexDef) (value : Bytes) where
  kept_eq_ops :
      old idx.column ≡ some value
      → new idx.column ≡ some value
      → eq_ops s xxhash m stag_table table slot pk old new docs old_ver new_ver idx
        ≡ some (no_ops s)
  unfolding eq_ops eq_undos
  kept_eq_ops e h = rw (e, h) (rw (same_stays value) refl)

  -- Where msgp reads back what it wrote and all sizes have 32 bits: a write that keeps the value of
  -- an equality index, without a dictionary copy, and changes a covered column neither removes nor
  -- adds a member of the index, and no line of its receipt names the member that stands in the
  -- index.
  pub stale_covers :
      idx.kind ≡ IndexKind.eq
      → idx.is_async ≡ false
      → idx.prefix_copy ≡ false
      → old idx.column ≡ some value
      → new idx.column ≡ some value
      → pk ≢ []
      → iv_of old idx.id old_ver < 2 ^ 64
      → 2 + length (covers idx old) < 2 ^ 32
      → All IsShort (pk ∷ covers idx old)
      → All IsShort (pk ∷ covers idx new)
      → covers idx old ≢ covers idx new
      → (index_ops s xxhash m stag_table table slot pk old new docs old_ver new_ver idx
          ≡ some (no_ops s))
        × All
            (λ line. covering_member m pk (iv_of old idx.id old_ver) idx old ≢ line.member)
            (index_receipts s xxhash m stag_table table slot pk old new docs old_ver new_ver [] idx)
  unfolding index_ops index_receipts eq_receipts live_ver eq_and_lex_ops
  stale_covers kind sync plain e h np low hn short also apart =
      let differ =
        encode_member-apart m pk (iv_of old idx.id old_ver) (covers idx old) (covers idx new) r np
          low hn (covers-length old new idx.covering) short also apart in
      (
        rw (sync, kind) (rw (kept_eq_ops e h, eq_and_lex_ops) (rw plain refl)),
        rw sync (
            rw h (
              rw kind (
                rw plain (
                  rw (append-nil _) (
                    All-map _ _ _ (λ b.
                      rw
                        (
                          covering_member-encode_member m pk (iv_of old idx.id old_ver) idx old,
                          covering_member-encode_member m pk (iv_of old idx.id old_ver) idx new,
                        )
                        differ)))))),
      )
