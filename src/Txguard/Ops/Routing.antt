-- ===== src/Txguard/Ops/Routing.antt =====
-- What one synchronous index writes, it reads.
use ki_db.Base.{
  some_same, ℕ, ◌≡◌, inl, inr, refl, sym, ap, ◌∙◌, List, [], ◌∷◌, ◌++◌, map, Option, none, some,
  Bytes, codes, true, In, In-append_left, In-append_right, All, All-imp, Score, IsOrdered,
}
use ki_db.Bucketmap.{Doc, write_targets_eq, read_buckets_eq, bucket_targets}
use ki_db.Bucketmap.EqProtocol.{Phase, entry_of, HasBuckets, write-In-reads}
use ki_db.Bucketmap.RangeRouting.{Chain, NumberBounds, range_write-In-reads}
use ki_db.Txguard.Entries.{Undo, eq_read_set, eq_write_set, range_read_set, range_write_set}
use ki_db.Txguard.Ops.{Redo}

pub All-unappend :
    {A : Type 0} (P : A → Type 0) (xs ys : List A) → All P (xs ++ ys) → All P xs × All P ys
All-unappend P [] ys h = (tt, h)
All-unappend P (x ∷ xs) ys h = let (a, b) = All-unappend P xs ys h.1 in ((h.0, a), b)

module _ (s : Score) (o : IsOrdered s) where
  -- The table of an index: every entry is in a phase of the protocol, and the intervals cover all
  -- scores.
  abbrev pub WellRouted : Option Doc → Type 0
  WellRouted none = Unit {0}
  WellRouted (some d) =
      ((enc : Bytes) → (p : Phase) × (d.eq enc ≡ entry_of p) × HasBuckets p)
      × Chain (codes "-inf") d.ranges (codes "+inf")
      × NumberBounds s o d.ranges

  pub eq_write-In-read :
      (xxhash : Bytes → ℕ) (d : Option Doc) (enc pk : Bytes) (bs : List ℕ)
      → WellRouted d
      → eq_write_set xxhash d enc pk ≡ some bs
      → All (λ b. In b (eq_read_set d enc)) bs
  unfolding eq_write_set eq_read_set write_targets_eq read_buckets_eq
  eq_write-In-read xxhash none enc pk bs w h = rw (some_same h) (inl refl, tt)
  eq_write-In-read xxhash (some d) enc pk bs (phases, c, n) h =
      let (p, e, has) = phases enc in
      let (ts, targets, more, reads) = write-In-reads xxhash p pk has in
      let same : bs ≡ ts = some_same (sym targets ∙ rw e at h) in rw (same, e) reads

  pub range_write-In-read :
      (d : Option Doc) (score : s.Float) (bs : List ℕ)
      → WellRouted d
      → o.IsNumber score
      → s.lt score s.pos_inf ≡ true
      → range_write_set s d score ≡ some bs
      → All (λ b. In b (range_read_set s d score)) bs
  unfolding range_write_set range_read_set
  range_write-In-read none score bs w n below h = rw (some_same h) (inl refl, tt)
  range_write-In-read (some d) score bs (phases, c, bounds) n below h =
      let (rb, inside, targets, more, reads) = range_write-In-reads s o d score c bounds n below in
      let same : bs ≡ bucket_targets s rb score = some_same (sym targets ∙ h) in rw same reads

  -- A redo as a line of a receipt.
  abbrev pub receipt_line : Redo s → Undo
  receipt_line r = record { bucket = r.bucket; member = r.member }

  abbrev pub Covered : List (Redo s) → List Undo → Type 0
  Covered redos receipts = All (λ r. In (receipt_line r) receipts) redos

  map-In : {A : Type 0} (g : ℕ → A) (b : ℕ) (cs : List ℕ) → In b cs → In (g b) (map g cs)
  map-In g b [] h = elim h [ ]
  map-In g b (c ∷ cs) (inl e) = inl (ap g e)
  map-In g b (c ∷ cs) (inr h) = inr (map-In g b cs h)

  pub map-Covered :
      (f : ℕ → Redo s) (g : ℕ → Undo) (bs cs : List ℕ)
      → ((b : ℕ) → receipt_line (f b) ≡ g b)
      → All (λ b. In b cs) bs
      → Covered (map f bs) (map g cs)
  map-Covered f g [] cs e h = tt
  map-Covered f g (b ∷ bs) cs e h = (rw (e b) (map-In g b cs h.0), map-Covered f g bs cs e h.1)

  pub Covered-left :
      (rs : List (Redo s)) (us vs : List Undo) → Covered rs us → Covered rs (us ++ vs)
  Covered-left rs us vs = All-imp (λ r. In-append_left (receipt_line r) us vs) rs

  pub Covered-right :
      (rs : List (Redo s)) (us vs : List Undo) → Covered rs vs → Covered rs (us ++ vs)
  Covered-right rs us vs = All-imp (λ r. In-append_right (receipt_line r) us vs) rs
