-- ===== src/Controller/Migrate/RangePlacement.antt =====
-- The migration of a range bucket puts members where writes put them.
use ki_db.Base.{
  ℕ, ◌<◌, ◌≡◌, ◌≢◌, inl, inr, refl, sym, [], ◌∷◌, Bytes, Bool, true, pos, In, Bool-cases, length,
  Score, IsOrdered, if◌then◌else◌,
}
use ki_db.Keycodec.Keys.{range_bucket_key}
use ki_db.Keycodec.Distinct.{range_bucket_key-injective, row_key-range_bucket_key}
use ki_db.Rowcodec.Member.{Msgp, member_pk}
use ki_db.Bucketmap.{
  RangeBucket, range_bucket, cons, nil, idx, lo, hi, State, bucket_targets, pair_targets,
  range_contains, parse_bound, choose_child,
}
use ki_db.Controller.Redis.{Redis, Entry, IsLawful, IsHealthy, holds}
use ki_db.Controller.Migrate.{Target, Outcome, row_of}
use ki_db.Controller.Migrate.Moves.{range_place, migrate_range}
use ki_db.Controller.Migrate.Drain.{IsPlacement, Emptied, drain_empties}

-- The score of an entry.
abbrev pub score_of : (sc : Score) → Entry → sc.Float
score_of sc e = (sc.parse e.1).0

module _ (sc : Score) (o : IsOrdered sc) (m : Msgp) (table index : Bytes) (covering : Bool)
    (a b : RangeBucket) where
  moved_to : Entry → ℕ
  moved_to e = idx (if sc.lt (score_of sc e) (sc.parse (lo b)).0 then a else b)

  range_target : Entry → Target
  unfolding moved_to
  range_target e = record {
    member = e.0;
    child_key = range_bucket_key table index (pos (moved_to e));
    score = e.1;
  }

  -- A score below the upper bound of the second child goes to the same child as a write.
  moved_to-choose_child :
      (e : Entry)
      → parse_bound sc (lo b) ≡ (sc.parse (lo b)).0
      → o.IsNumber (score_of sc e)
      → o.IsNumber (sc.parse (lo b)).0
      → sc.lt (score_of sc e) (parse_bound sc (hi b)) ≡ true
      → moved_to e ≡ choose_child sc a b (score_of sc e)
  unfolding moved_to choose_child range_contains
  moved_to-choose_child e bound n n' below =
      elim (Bool-cases (sc.lt (score_of sc e) (sc.parse (lo b)).0)) [
        | inl first ↦
            let not_from = o.lt_not_ge (score_of sc e) (sc.parse (lo b)).0 first in
            rw first (rw bound (rw not_from refl))
        | inr second ↦
            let from = o.total (score_of sc e) (sc.parse (lo b)).0 n n' second in
            rw second (rw bound (rw (from, below) refl))
      ]

  moved_to_child : (i : ℕ) (e : Entry) → i ≢ idx a → i ≢ idx b → moved_to e ≢ i
  unfolding moved_to
  moved_to_child i e na nb h = elim (Bool-cases (sc.lt (score_of sc e) (sc.parse (lo b)).0)) [
    | inl first ↦ na (sym (rw first at h))
    | inr second ↦ nb (sym (rw second at h))
  ]

  range_place-IsPlacement :
      (i : ℕ)
      → i ≢ idx a
      → i ≢ idx b
      → IsPlacement m table covering
          (range_bucket_key table index (pos i))
          (range_place sc m table index covering a b)
          range_target
  unfolding range_target moved_to range_place row_of
  range_place-IsPlacement i na nb = record {
    places = λ e. refl;
    same_member = λ e. refl;
    elsewhere =
        λ e h. moved_to_child i e na nb (range_bucket_key-injective table index (moved_to e) i h);
    row_from = λ x. row_key-range_bucket_key table (member_pk m x covering) table index i;
    row_child =
        λ x e. row_key-range_bucket_key table (member_pk m x covering) table index (moved_to e);
  }

  module _ (r : Redis) (l : IsLawful r) (healthy : IsHealthy r) (batch : ℕ) (positive : 0 < batch)
      (fuel i : ℕ) (from to : Bytes) (st : State) (s : r.Server) (na : i ≢ idx a) (nb : i ≢ idx b)
      (enough : length (l.bucket s (range_bucket_key table index (pos i))) < fuel) where
    abbrev pub parent : RangeBucket
    parent = range_bucket i from to st (cons a (cons b nil))

    range-Emptied :
        ((migrate_range sc m table index covering r batch fuel s parent).1 ≡ Outcome.ok)
        × Emptied r l m table covering
            (range_bucket_key table index (pos i))
            (range_place sc m table index covering a b)
            range_target
            (range_place-IsPlacement i na nb)
            s
            (migrate_range sc m table index covering r batch fuel s parent).0
    unfolding migrate_range
    range-Emptied =
        drain_empties r l m table covering (range_bucket_key table index (pos i))
          (range_place sc m table index covering a b) range_target (range_place-IsPlacement i na nb)
          healthy batch positive fuel s enough

    -- `migrateRange` of a bucket with two children of other numbers: with more rounds than the
    -- bucket has members it ends without an error and the bucket is empty. The server obeys its
    -- documentation, no command fails, and a batch holds at least one member.
    pub migrate_range_ends :
        ((migrate_range sc m table index covering r batch fuel s parent).1 ≡ Outcome.ok)
        × (l.bucket
              (migrate_range sc m table index covering r batch fuel s parent).0
              (range_bucket_key table index (pos i))
            ≡ [])
    migrate_range_ends = (range-Emptied.0, range-Emptied.1.0)

    -- `migrateRange` of a bucket with two children of other numbers, with more rounds than the
    -- bucket has members, where comparisons of scores obey IEEE 754 and the second child's lower
    -- bound is a finite number: each member whose row exists and whose score is a number below the
    -- second child's upper bound lies, afterwards, in the bucket to which a write of that score
    -- goes while the parent drains. The server obeys its documentation, no command fails, and a
    -- batch holds at least one member.
    pub migrate_range-bucket_targets :
        (e : Entry)
        → In e (l.bucket s (range_bucket_key table index (pos i)))
        → l.lives s (row_of m table covering e.0) ≡ true
        → parse_bound sc (lo b) ≡ (sc.parse (lo b)).0
        → o.IsNumber (score_of sc e)
        → o.IsNumber (sc.parse (lo b)).0
        → sc.lt (score_of sc e) (parse_bound sc (hi b)) ≡ true
        → (c : ℕ) × (bucket_targets sc
              (range_bucket i from to State.draining (cons a (cons b nil)))
              (score_of sc e)
            ≡ c ∷ [])
          × (holds e.0 (
                l.bucket
                  (migrate_range sc m table index covering r batch fuel s parent).0
                  (range_bucket_key table index (pos c)))
              ≡ true)
    unfolding bucket_targets pair_targets range_target
    migrate_range-bucket_targets e h alive bound n n' below =
        let (done, (none_left, placed, kept)) = range-Emptied in
        let same = moved_to-choose_child e bound n n' below in
        (moved_to e, rw same refl, placed e h alive)
