-- ===== src/Bucketmap.antt =====
-- bucketmap/bucketmap.go: the routing table of an index's buckets. An equality index routes by the
-- hash of the primary key, a range index by the interval of the score; both have a state machine
-- for splitting and merging. Bucket numbers are natural numbers: `next` counts up from 1.
pub mod EqProtocol
pub mod RangeRouting
pub mod Store
pub mod Numbers
mod Tests
use ki_db.Base.{
  ℕ, ◌++◌, List, [], ◌∷◌, Option, none, some, Bytes, codes, Bool, true, false, ◌&&◌, ◌||◌, pos,
  get_elem?, length, if◌then◌else◌, same_text, Score,
}
use ki_db.Keycodec.Keys.{eq_sub_for}

pub data State : Type 0 where
  active splitting draining merging merge_drain deleted : State

pub record SplitInfo : Type 0 where
  pub state : State
  pub parents : List ℕ
  pub children : List ℕ

pub record EqEntry : Type 0 where
  pub buckets : List ℕ
  pub split : Option SplitInfo

-- A range bucket holds a list of range buckets, its children in a transition.
mutual
  pub data RangeBucket : Type 0 where
    range_bucket : ℕ → Bytes → Bytes → State → Ranges → RangeBucket

  pub data Ranges : Type 0 where
    nil : Ranges
    cons : RangeBucket → Ranges → Ranges

abbrev pub idx : RangeBucket → ℕ
idx (range_bucket i lo hi st cs) = i

abbrev pub lo : RangeBucket → Bytes
lo (range_bucket i l h st cs) = l

abbrev pub hi : RangeBucket → Bytes
hi (range_bucket i l h st cs) = h

pub record Doc : Type 0 where
  pub version : ℕ
  pub next : ℕ
  pub eq : Bytes → Option EqEntry
  pub ranges : Ranges

unfoldable pub default_doc : Doc
default_doc = record {
  version = 0;
  next = 1;
  eq = λ _. none;
  ranges = cons (range_bucket 0 (codes "-inf") (codes "+inf") State.active nil) nil;
}

module _ (xxhash : Bytes → ℕ) where
  -- `ids[keycodec.EqSubFor(pk, len(ids))]`; `none` is the panic on an empty list.
  unfoldable pub pick : List ℕ → Bytes → Option ℕ
  pick ids pk = get_elem? ids (eq_sub_for xxhash pk (pos (length ids)))

-- The switch of `WriteTargetsEq`; `none` falls through to the entry's buckets.
unfoldable pub split_targets : State → ℕ → ℕ → Option (List ℕ)
split_targets State.splitting parent child = some (parent ∷ child ∷ [])
split_targets State.merging parent child = some (parent ∷ child ∷ [])
split_targets State.draining parent child = some (child ∷ [])
split_targets State.merge_drain parent child = some (parent ∷ [])
split_targets State.active parent child = none
split_targets State.deleted parent child = none

module _ (xxhash : Bytes → ℕ) where
  entry_targets : EqEntry → Bytes → Option (List ℕ)
  entry_targets e pk = elim (pick xxhash e.buckets pk) [ none ↦ none | some b ↦ some (b ∷ []) ]

  -- Both subscripts are evaluated in front of the switch.
  transition_targets : EqEntry → SplitInfo → Bytes → Option (List ℕ)
  transition_targets e sp pk = elim (pick xxhash sp.parents pk) [
    | none ↦ none
    | some parent ↦ elim (pick xxhash sp.children pk) [
      | none ↦ none
      | some child ↦ elim (split_targets sp.state parent child) [
        | some targets ↦ some targets
        | none ↦ entry_targets e pk
      ]
    ]
  ]

  -- What `WriteTargetsEq` does with the entry that it looked up.
  unfoldable pub entry_write_targets : Option EqEntry → Bytes → Option (List ℕ)
  unfolding transition_targets entry_targets
  entry_write_targets none pk = some (0 ∷ [])
  entry_write_targets (some e) pk = elim e.split [
    | none ↦ entry_targets e pk
    | some sp ↦ transition_targets e sp pk
  ]

  -- `WriteTargetsEq`; `none` is a panic.
  unfoldable pub write_targets_eq : Doc → Bytes → Bytes → Option (List ℕ)
  unfolding entry_write_targets
  write_targets_eq d enc_val pk = entry_write_targets (d.eq enc_val) pk

-- What `ReadBucketsEq` does with the entry: its three cases of a transition read the same buckets.
unfoldable pub entry_read_buckets : Option EqEntry → List ℕ
entry_read_buckets none = 0 ∷ []
entry_read_buckets (some e) = elim e.split [
  | none ↦ e.buckets
  | some sp ↦ sp.parents ++ sp.children
]

-- `ReadBucketsEq`
unfoldable pub read_buckets_eq : Doc → Bytes → List ℕ
unfolding entry_read_buckets
read_buckets_eq d enc_val = entry_read_buckets (d.eq enc_val)

module _ (s : Score) where
  unfoldable pub parse_bound : Bytes → s.Float
  parse_bound b =
      if same_text b (codes "-inf")
      then s.neg_inf
      else if same_text b (codes "+inf")
      then s.pos_inf
      else (s.parse b).0

  unfoldable pub range_contains : RangeBucket → s.Float → Bool
  range_contains rb score = s.le (parse_bound (lo rb)) score && s.lt score (parse_bound (hi rb))

  unfoldable pub range_overlaps : RangeBucket → s.Float → s.Float → Bool
  range_overlaps rb low high = s.le (parse_bound (lo rb)) high && s.le low (parse_bound (hi rb))

  -- The child that takes the score: the second if it contains it, else the first.
  unfoldable pub choose_child : RangeBucket → RangeBucket → s.Float → ℕ
  unfolding range_contains
  choose_child first second score = if range_contains second score then idx second else idx first

  -- The switch of `WriteTargetsRange` for a bucket with two children.
  unfoldable pub pair_targets : State → ℕ → RangeBucket → RangeBucket → s.Float → List ℕ
  unfolding choose_child
  pair_targets State.splitting i a b score = i ∷ choose_child a b score ∷ []
  pair_targets State.merging i a b score = idx a ∷ i ∷ []
  pair_targets State.draining i a b score = choose_child a b score ∷ []
  pair_targets State.merge_drain i a b score = idx a ∷ []
  pair_targets State.active i a b score = i ∷ []
  pair_targets State.deleted i a b score = i ∷ []

  -- The targets of a bucket that contains the score.
  unfoldable pub bucket_targets : RangeBucket → s.Float → List ℕ
  unfolding pair_targets
  bucket_targets (range_bucket i l h st (cons a (cons b nil))) score = pair_targets st i a b score
  bucket_targets (range_bucket i l h st cs) score = i ∷ []

  -- The first bucket that contains the score.
  unfoldable pub find_bucket : Ranges → s.Float → Option RangeBucket
  find_bucket nil score = none
  find_bucket (cons rb rest) score =
      if range_contains rb score then some rb else find_bucket rest score

  -- The fallback writes to the first bucket; `none` is its panic on an empty list.
  first_idx : Ranges → Option (List ℕ)
  first_idx nil = none
  first_idx (cons rb rest) = some (idx rb ∷ [])

  -- `WriteTargetsRange`
  unfoldable pub write_targets_range : Doc → s.Float → Option (List ℕ)
  unfolding first_idx find_bucket bucket_targets
  write_targets_range d score = elim (find_bucket d.ranges score) [
    | some rb ↦ some (bucket_targets rb score)
    | none ↦ first_idx d.ranges
  ]

  -- The buckets that one overlapping range bucket adds to a reading.
  unfoldable pub pair_reads : State → ℕ → RangeBucket → RangeBucket → List ℕ
  pair_reads State.merge_drain i a b = i ∷ idx a ∷ []
  pair_reads st i a b = i ∷ idx a ∷ idx b ∷ []

  unfoldable pub bucket_reads : RangeBucket → List ℕ
  unfolding pair_reads
  bucket_reads (range_bucket i l h st (cons a (cons b nil))) = pair_reads st i a b
  bucket_reads (range_bucket i l h st cs) = i ∷ []

  reads_of : Ranges → s.Float → s.Float → List ℕ
  unfolding bucket_reads
  reads_of nil low high = []
  reads_of (cons rb rest) low high =
      (if range_overlaps rb low high then bucket_reads rb else []) ++ reads_of rest low high

  -- `ReadBucketsRange`
  unfoldable pub read_buckets_range : Doc → s.Float → s.Float → List ℕ
  unfolding reads_of
  read_buckets_range d low high = reads_of d.ranges low high
