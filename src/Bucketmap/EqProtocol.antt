-- ===== src/Bucketmap/EqProtocol.antt =====
-- The equality buckets under the split and merge protocol: which buckets are written and read in
-- each phase, and across the phases that a stale copy of the table can lag behind.
use ki_db.Base.{
  ℕ, zero, suc, ◌<◌, ◌≡◌, inl, inr, refl, List, [], ◌∷◌, arith, Option, none, some, Bytes, pos,
  get_elem?, length, In, In-append_left, In-append_right, All,
}
use ki_db.Keycodec.Keys.{eq_sub_for}
use ki_db.Bucketmap.{State, EqEntry, pick, entry_write_targets, entry_read_buckets, split_targets}

get_elem?-In :
    (ids : List ℕ) (i : ℕ) → i < length ids → (b : ℕ) × (get_elem? ids i ≡ some b) × In b ids
get_elem?-In [] i h = absurd (omega arith)
get_elem?-In (x ∷ ids) zero h = (x, refl, inl refl)
get_elem?-In (x ∷ ids) (suc i) h = let (b, e, m) = get_elem?-In ids i (omega arith) in (b, e, inr m)

-- A phase of an entry: not registered, or with the bucket sets that its transition names.
pub data Phase : Type 0 where
  absent : Phase
  settled : List ℕ → Phase
  splitting draining merging merge_drain : List ℕ → List ℕ → Phase

abbrev in_transition : List ℕ → State → List ℕ → List ℕ → Option EqEntry
in_transition bs st ps cs =
    some
      (record { buckets = bs; split = some (record { state = st; parents = ps; children = cs }) })

-- The entry that the controller stores in a phase: a split keeps its parents in `buckets`, a merge
-- its children.
abbrev pub entry_of : Phase → Option EqEntry
entry_of absent = none
entry_of (settled bs) = some (record { buckets = bs; split = none })
entry_of (splitting ps cs) = in_transition ps State.splitting ps cs
entry_of (draining ps cs) = in_transition ps State.draining ps cs
entry_of (merging ps cs) = in_transition cs State.merging ps cs
entry_of (merge_drain ps cs) = in_transition cs State.merge_drain ps cs

-- Every bucket set of the phase has a bucket.
abbrev pub HasBuckets : Phase → Type 0
HasBuckets absent = Unit {0}
HasBuckets (settled bs) = 0 < length bs
HasBuckets (splitting ps cs) = (0 < length ps) × (0 < length cs)
HasBuckets (draining ps cs) = (0 < length ps) × (0 < length cs)
HasBuckets (merging ps cs) = (0 < length ps) × (0 < length cs)
HasBuckets (merge_drain ps cs) = (0 < length ps) × (0 < length cs)

-- The steps of `SplitEq` and `MergeEq`, each one compare-and-set on the entry.
pub data Step : Phase → Phase → Type 0 where
  first_split : (cs : List ℕ) → 0 < length cs → Step absent (splitting (0 ∷ []) cs)
  begin_split : (bs cs : List ℕ) → 0 < length cs → Step (settled bs) (splitting bs cs)
  drain_split : (ps cs : List ℕ) → Step (splitting ps cs) (draining ps cs)
  finish_split : (ps cs : List ℕ) → Step (draining ps cs) (settled cs)
  begin_merge : (ps bs : List ℕ) → 0 < length ps → Step (settled bs) (merging ps bs)
  drain_merge : (ps cs : List ℕ) → Step (merging ps cs) (merge_drain ps cs)
  finish_merge : (ps cs : List ℕ) → Step (merge_drain ps cs) (settled ps)

pub Step-HasBuckets : {a b : Phase} → Step a b → HasBuckets a → HasBuckets b
Step-HasBuckets (first_split cs h) v = omega arith
Step-HasBuckets (begin_split bs cs h) v = (v, h)
Step-HasBuckets (drain_split ps cs) v = v
Step-HasBuckets (finish_split ps cs) v = v.1
Step-HasBuckets (begin_merge ps bs h) v = (h, v)
Step-HasBuckets (drain_merge ps cs) v = v
Step-HasBuckets (finish_merge ps cs) v = v.0

-- The two lists have a bucket in common.
abbrev pub Meets : List ℕ → List ℕ → Type 0
Meets ts rs = (t : ℕ) × In t ts × In t rs

module _ (xxhash : Bytes → ℕ) where
  pub pick-In :
      (ids : List ℕ) (pk : Bytes)
      → 0 < length ids
      → (b : ℕ) × (pick xxhash ids pk ≡ some b) × In b ids
  unfolding pick eq_sub_for
  pick-In ids pk h = get_elem?-In ids (eq_sub_for xxhash pk (pos (length ids))) (ground arith)

  -- In each phase whose bucket sets are not empty a write has targets, and each of them is among
  -- the buckets that are read.
  pub write-In-reads :
      (p : Phase) (pk : Bytes)
      → HasBuckets p
      → (ts : List ℕ) × (entry_write_targets xxhash (entry_of p) pk ≡ some ts)
        × (0 < length ts)
        × All (λ t. In t (entry_read_buckets (entry_of p))) ts
  unfolding entry_write_targets entry_read_buckets split_targets
  write-In-reads absent pk h = (0 ∷ [], refl, omega arith, (inl refl, tt))
  write-In-reads (settled bs) pk h =
      let (b, e, m) = pick-In bs pk h in (b ∷ [], ground (arith, e), omega arith, (m, tt))
  write-In-reads (splitting ps cs) pk h =
      let (p, e, m) = pick-In ps pk h.0 in
      let (c, e', m') = pick-In cs pk h.1 in
      (
        p ∷ c ∷ [],
        ground (arith, e, e'),
        omega arith,
        (In-append_left p ps cs m, (In-append_right c ps cs m', tt)),
      )
  write-In-reads (draining ps cs) pk h =
      let (p, e, m) = pick-In ps pk h.0 in
      let (c, e', m') = pick-In cs pk h.1 in
      (c ∷ [], ground (arith, e, e'), omega arith, (In-append_right c ps cs m', tt))
  write-In-reads (merging ps cs) pk h =
      let (p, e, m) = pick-In ps pk h.0 in
      let (c, e', m') = pick-In cs pk h.1 in
      (
        p ∷ c ∷ [],
        ground (arith, e, e'),
        omega arith,
        (In-append_left p ps cs m, (In-append_right c ps cs m', tt)),
      )
  write-In-reads (merge_drain ps cs) pk h =
      let (p, e, m) = pick-In ps pk h.0 in
      let (c, e', m') = pick-In cs pk h.1 in
      (p ∷ [], ground (arith, e, e'), omega arith, (In-append_left p ps cs m, tt))

  -- A primary key's targets in a phase, one of which is known to be read elsewhere.
  abbrev pub SeenBy : Phase → Bytes → List ℕ → Type 0
  SeenBy p pk reads =
      (ts : List ℕ) × (entry_write_targets xxhash (entry_of p) pk ≡ some ts) × Meets ts reads

  settled_seen :
      (bs : List ℕ) (pk : Bytes) (reads : List ℕ)
      → 0 < length bs
      → ((b : ℕ) → In b bs → In b reads)
      → SeenBy (settled bs) pk reads
  unfolding entry_write_targets
  settled_seen bs pk reads h f =
      let (b, e, m) = pick-In bs pk h in (b ∷ [], ground (arith, e), (b, inl refl, f b m))

  module _ (ps cs : List ℕ) (pk : Bytes) (reads : List ℕ) (hp : 0 < length ps)
      (hc : 0 < length cs) where
    splitting_seen : ((c : ℕ) → In c cs → In c reads) → SeenBy (splitting ps cs) pk reads
    unfolding entry_write_targets split_targets
    splitting_seen f =
        let (p, e, m) = pick-In ps pk hp in
        let (c, e', m') = pick-In cs pk hc in
        (p ∷ c ∷ [], ground (arith, e, e'), (c, inr (inl refl), f c m'))

    draining_seen : ((c : ℕ) → In c cs → In c reads) → SeenBy (draining ps cs) pk reads
    unfolding entry_write_targets split_targets
    draining_seen f =
        let (p, e, m) = pick-In ps pk hp in
        let (c, e', m') = pick-In cs pk hc in (c ∷ [], ground (arith, e, e'), (c, inl refl, f c m'))

    merging_seen : ((p : ℕ) → In p ps → In p reads) → SeenBy (merging ps cs) pk reads
    unfolding entry_write_targets split_targets
    merging_seen f =
        let (p, e, m) = pick-In ps pk hp in
        let (c, e', m') = pick-In cs pk hc in
        (p ∷ c ∷ [], ground (arith, e, e'), (p, inl refl, f p m))

    merge_drain_seen : ((p : ℕ) → In p ps → In p reads) → SeenBy (merge_drain ps cs) pk reads
    unfolding entry_write_targets split_targets
    merge_drain_seen f =
        let (p, e, m) = pick-In ps pk hp in
        let (c, e', m') = pick-In cs pk hc in (p ∷ [], ground (arith, e, e'), (p, inl refl, f p m))

  -- A write by a table that is one step of the protocol behind the present one, from a phase
  -- whose bucket sets are not empty, has targets, and one of them is among the buckets that the
  -- present table reads.
  pub stale_write_seen :
      {a b : Phase} (pk : Bytes)
      → Step a b
      → HasBuckets a
      → SeenBy a pk (entry_read_buckets (entry_of b))
  unfolding entry_read_buckets entry_write_targets
  stale_write_seen pk (first_split cs hc) h = (0 ∷ [], refl, (0, inl refl, inl refl))
  stale_write_seen pk (begin_split bs cs hc) h =
      settled_seen bs pk _ h (λ b. In-append_left b bs cs)
  stale_write_seen pk (drain_split ps cs) h =
      splitting_seen ps cs pk _ h.0 h.1 (λ c. In-append_right c ps cs)
  stale_write_seen pk (finish_split ps cs) h = draining_seen ps cs pk _ h.0 h.1 (λ c m. m)
  stale_write_seen pk (begin_merge ps bs hp) h =
      settled_seen bs pk _ h (λ b. In-append_right b ps bs)
  stale_write_seen pk (drain_merge ps cs) h =
      merging_seen ps cs pk _ h.0 h.1 (λ p. In-append_left p ps cs)
  stale_write_seen pk (finish_merge ps cs) h = merge_drain_seen ps cs pk _ h.0 h.1 (λ p m. m)

  -- A write by a table that is two steps of the protocol behind the present one, from a phase
  -- whose bucket sets are not empty, has targets, and one of them is among the buckets that the
  -- present table reads.
  pub staler_write_seen :
      {a b c : Phase} (pk : Bytes)
      → Step a b
      → Step b c
      → HasBuckets a
      → SeenBy a pk (entry_read_buckets (entry_of c))
  unfolding entry_read_buckets entry_write_targets
  staler_write_seen pk (first_split cs hc) (drain_split _ _) h =
      (0 ∷ [], refl, (0, inl refl, inl refl))
  staler_write_seen pk (begin_split bs cs hc) (drain_split _ _) h =
      settled_seen bs pk _ h (λ b. In-append_left b bs cs)
  staler_write_seen pk (drain_split ps cs) (finish_split _ _) h =
      splitting_seen ps cs pk _ h.0 h.1 (λ c m. m)
  staler_write_seen pk (finish_split ps cs) (begin_split _ ds _) h =
      draining_seen ps cs pk _ h.0 h.1 (λ c. In-append_left c cs ds)
  staler_write_seen pk (finish_split ps cs) (begin_merge ds _ _) h =
      draining_seen ps cs pk _ h.0 h.1 (λ c. In-append_right c ds cs)
  staler_write_seen pk (begin_merge ps bs hp) (drain_merge _ _) h =
      settled_seen bs pk _ h (λ b. In-append_right b ps bs)
  staler_write_seen pk (drain_merge ps cs) (finish_merge _ _) h =
      merging_seen ps cs pk _ h.0 h.1 (λ p m. m)
  staler_write_seen pk (finish_merge ps cs) (begin_split _ ds _) h =
      merge_drain_seen ps cs pk _ h.0 h.1 (λ p. In-append_left p ps ds)
  staler_write_seen pk (finish_merge ps cs) (begin_merge ds _ _) h =
      merge_drain_seen ps cs pk _ h.0 h.1 (λ p. In-append_right p ds ps)

  -- A write by the present table has targets, and one of them is among the buckets that a table
  -- one step of the protocol behind reads, if the bucket sets of that one's phase are not empty.
  pub stale_read_sees :
      {a b : Phase} (pk : Bytes)
      → Step a b
      → HasBuckets a
      → SeenBy b pk (entry_read_buckets (entry_of a))
  unfolding entry_read_buckets entry_write_targets split_targets pick eq_sub_for
  stale_read_sees pk (first_split cs hc) h =
      let (c, e, m) = pick-In cs pk hc in (0 ∷ c ∷ [], ground (arith, e), (0, inl refl, inl refl))
  stale_read_sees pk (begin_split bs cs hc) h =
      let (p, e, m) = pick-In bs pk h in
      let (c, e', m') = pick-In cs pk hc in (p ∷ c ∷ [], ground (arith, e, e'), (p, inl refl, m))
  stale_read_sees pk (drain_split ps cs) h =
      draining_seen ps cs pk _ h.0 h.1 (λ c. In-append_right c ps cs)
  stale_read_sees pk (finish_split ps cs) h =
      settled_seen cs pk _ h.1 (λ c. In-append_right c ps cs)
  stale_read_sees pk (begin_merge ps bs hp) h =
      let (p, e, m) = pick-In ps pk hp in
      let (c, e', m') = pick-In bs pk h in
      (p ∷ c ∷ [], ground (arith, e, e'), (c, inr (inl refl), m'))
  stale_read_sees pk (drain_merge ps cs) h =
      merge_drain_seen ps cs pk _ h.0 h.1 (λ p. In-append_left p ps cs)
  stale_read_sees pk (finish_merge ps cs) h = settled_seen ps pk _ h.0 (λ p. In-append_left p ps cs)
