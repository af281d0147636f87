-- ===== src/Bucketmap/RangeRouting.antt =====
-- The range buckets: the intervals of a table cover every score, writes stay among the reads, and
-- a split or a merge keeps the cover.
use ki_db.Base.{
  ℕ, ◌<◌, length, ◌≡◌, inl, inr, refl, [], ◌∷◌, arith, true, false, some, Bool-cases, Bytes, codes,
  In, In-append_left, In-append_right, All, All-imp, Score, IsOrdered,
}
use ki_db.Bucketmap.{
  State, RangeBucket, range_bucket, Ranges, nil, cons, idx, lo, hi, Doc, parse_bound,
  range_contains, range_overlaps, bucket_targets, bucket_reads, find_bucket, write_targets_range,
  reads_of, read_buckets_range, choose_child, pair_targets, pair_reads,
}

-- Each interval begins where the one in front of it ends, from `start` to `stop`.
abbrev pub Chain : Bytes → Ranges → Bytes → Type 0
Chain start nil stop = start ≡ stop
Chain start (cons rb rest) stop = (lo rb ≡ start) × Chain (hi rb) rest stop

module _ (s : Score) (o : IsOrdered s) where
  -- The upper bounds are numbers.
  abbrev pub NumberBounds : Ranges → Type 0
  NumberBounds nil = Unit {0}
  NumberBounds (cons rb rest) = o.IsNumber (parse_bound s (hi rb)) × NumberBounds rest

  -- A chain covers each number from its start up to its end.
  find-in-Chain :
      (rs : Ranges) (start stop : Bytes) (score : s.Float)
      → Chain start rs stop
      → o.IsNumber score
      → NumberBounds rs
      → s.le (parse_bound s start) score ≡ true
      → s.lt score (parse_bound s stop) ≡ true
      → (rb : RangeBucket) × (find_bucket s rs score ≡ some rb) × (range_contains s rb score ≡ true)
  unfolding find_bucket
  find-in-Chain nil start stop score c n bn above below =
      let contra = o.lt_not_ge score (parse_bound s stop) below in cc (rw c at above)
  find-in-Chain (cons rb rest) start stop score (e, c) n bn above below =
      elim (Bool-cases (range_contains s rb score)) [
        | inl inside ↦ rw inside (rb, refl, inside)
        | inr outside ↦
            let from : s.le (parse_bound s (lo rb)) score ≡ true = rw e above in
            let past : s.lt score (parse_bound s (hi rb)) ≡ false =
              unfold range_contains in ground (arith, from, outside) in
            rw outside (
              find-in-Chain rest (hi rb) stop score c n bn.1
                (o.total score (parse_bound s (hi rb)) n bn.0 past) below)
      ]

  chosen :
      (a b : RangeBucket) (score : s.Float) (i : ℕ)
      → In (choose_child s a b score) (i ∷ idx a ∷ idx b ∷ [])
  unfolding choose_child
  chosen a b score i = elim (Bool-cases (range_contains s b score)) [
    | inl e ↦ rw e (inr (inr (inl refl)))
    | inr e ↦ rw e (inr (inl refl))
  ]

  pair_targets-In-reads :
      (st : State) (i : ℕ) (a b : RangeBucket) (score : s.Float)
      → All (λ t. In t (pair_reads s st i a b)) (pair_targets s st i a b score)
  unfolding pair_targets pair_reads
  pair_targets-In-reads State.splitting i a b score = (inl refl, (chosen a b score i, tt))
  pair_targets-In-reads State.merging i a b score = (inr (inl refl), (inl refl, tt))
  pair_targets-In-reads State.draining i a b score = (chosen a b score i, tt)
  pair_targets-In-reads State.merge_drain i a b score = (inr (inl refl), tt)
  pair_targets-In-reads State.active i a b score = (inl refl, tt)
  pair_targets-In-reads State.deleted i a b score = (inl refl, tt)

  -- In every state, what a bucket has written it has read too.
  targets-In-bucket_reads :
      (rb : RangeBucket) (score : s.Float)
      → All (λ t. In t (bucket_reads s rb)) (bucket_targets s rb score)
  unfolding bucket_targets bucket_reads
  targets-In-bucket_reads (range_bucket i l h st (cons a (cons b nil))) score =
      pair_targets-In-reads st i a b score
  targets-In-bucket_reads (range_bucket i l h st nil) score = (inl refl, tt)
  targets-In-bucket_reads (range_bucket i l h st (cons a nil)) score = (inl refl, tt)
  targets-In-bucket_reads (range_bucket i l h st (cons a (cons b (cons c cs)))) score =
      (inl refl, tt)

  pair_targets-some :
      (st : State) (i : ℕ) (a b : RangeBucket) (score : s.Float)
      → 0 < length (pair_targets s st i a b score)
  unfolding pair_targets
  pair_targets-some State.splitting i a b score = omega arith
  pair_targets-some State.merging i a b score = omega arith
  pair_targets-some State.draining i a b score = omega arith
  pair_targets-some State.merge_drain i a b score = omega arith
  pair_targets-some State.active i a b score = omega arith
  pair_targets-some State.deleted i a b score = omega arith

  -- In no state is a write lost.
  bucket_targets-some :
      (rb : RangeBucket) (score : s.Float) → 0 < length (bucket_targets s rb score)
  unfolding bucket_targets
  bucket_targets-some (range_bucket i l h st (cons a (cons b nil))) score =
      pair_targets-some st i a b score
  bucket_targets-some (range_bucket i l h st nil) score = omega arith
  bucket_targets-some (range_bucket i l h st (cons a nil)) score = omega arith
  bucket_targets-some (range_bucket i l h st (cons a (cons b (cons c cs)))) score = omega arith

  contains-overlaps :
      (rb : RangeBucket) (score : s.Float)
      → range_contains s rb score ≡ true
      → range_overlaps s rb score score ≡ true
  unfolding range_contains range_overlaps
  contains-overlaps rb score h =
      let above : s.le (parse_bound s (lo rb)) score ≡ true = ground arith in
      let below : s.lt score (parse_bound s (hi rb)) ≡ true = ground arith in
      rw (above, o.lt_le score (parse_bound s (hi rb)) below)

  find-reads :
      (rs : Ranges) (score : s.Float) (rb : RangeBucket)
      → find_bucket s rs score ≡ some rb
      → (t : ℕ) → In t (bucket_reads s rb)
      → In t (reads_of s rs score score)
  unfolding find_bucket reads_of
  find-reads nil score rb e t m = cc
  find-reads (cons first rest) score rb e t m = elim (Bool-cases (range_contains s first score)) [
    | inl inside ↦
        let same : first ≡ rb = ground arith in
        rw (contains-overlaps first score inside, same)
          (In-append_left t (bucket_reads s rb) (reads_of s rest score score) m)
    | inr outside ↦
        In-append_right t _ (reads_of s rest score score)
          (find-reads rest score rb (ground arith) t m)
  ]

  -- Over a table whose intervals form a chain of numbers from `-inf` to `+inf`, a write of any
  -- number below infinity has at least one target, its targets are those of the interval that
  -- contains it, and a reading of that score covers each of them, in whatever state the bucket is.
  pub range_write-In-reads :
      (d : Doc) (score : s.Float)
      → Chain (codes "-inf") d.ranges (codes "+inf")
      → NumberBounds d.ranges
      → o.IsNumber score
      → s.lt score s.pos_inf ≡ true
      → (rb : RangeBucket) × (range_contains s rb score ≡ true)
        × (write_targets_range s d score ≡ some (bucket_targets s rb score))
        × (0 < length (bucket_targets s rb score))
        × All (λ t. In t (read_buckets_range s d score score)) (bucket_targets s rb score)
  unfolding write_targets_range read_buckets_range
  range_write-In-reads d score c bn n below =
      let low : s.le (parse_bound s (codes "-inf")) score ≡ true =
        unfold parse_bound in o.neg_inf_least score n in
      let high : s.lt score (parse_bound s (codes "+inf")) ≡ true = unfold parse_bound in below in
      let (rb, found, inside) =
        find-in-Chain d.ranges (codes "-inf") (codes "+inf") score c n bn low high in
      (
        rb,
        inside,
        ground (arith, found),
        bucket_targets-some rb score,
        All-imp (find-reads d.ranges score rb found) _ (targets-In-bucket_reads rb score),
      )

  -- After a first split at a finite bound, a write of the score `+inf` goes to the fallback, the
  -- left bucket, and a reading of that score reads the right bucket alone.
  pub infinite_score_missed :
      (d : Doc) (i j : ℕ) (l h : Bytes)
      → d.ranges
        ≡ cons
            (range_bucket i l h State.active nil)
            (cons (range_bucket j h (codes "+inf") State.active nil) nil)
      → s.lt (parse_bound s h) s.pos_inf ≡ true
      → (write_targets_range s d s.pos_inf ≡ some (i ∷ []))
        × (read_buckets_range s d s.pos_inf s.pos_inf ≡ j ∷ [])
  unfolding write_targets_range read_buckets_range range_contains range_overlaps
  infinite_score_missed d i j l h e finite =
      let right : parse_bound s (codes "+inf") ≡ s.pos_inf = unfold parse_bound in refl in
      (
        rw e (
            ground (
              arith,
              o.pos_inf_greatest (parse_bound s h),
              o.pos_inf_greatest (parse_bound s (codes "+inf")),
            )),
        rw e (
            ground (
              arith,
              right,
              o.lt_not_ge (parse_bound s h) s.pos_inf finite,
              o.lt_le (parse_bound s h) s.pos_inf finite,
              o.le_refl s.pos_inf o.pos_inf_number,
            )),
      )
