-- ===== src/Controller/Migrate/Moves.antt =====
-- controller/split.go, `migrateEq`, `migrateEqTo`, `migrateRange` and `migrateRangeTo`: the loop of
-- a migration with each one's choice of targets.
use ki_db.Base.{ℕ, List, [], ◌∷◌, Option, none, some, Bytes, codes, Bool, pos, if◌then◌else◌, Score}
use ki_db.Keycodec.Keys.{eq_bucket_key_esc, range_bucket_key}
use ki_db.Rowcodec.Member.{Msgp, member_pk}
use ki_db.Bucketmap.{pick, RangeBucket, range_bucket, nil, cons, idx, lo}
use ki_db.Controller.Redis.{Redis, Entry}
use ki_db.Controller.Migrate.{Target, Outcome, drain}

-- A step of a sequence that an error ends.
abbrev pub and_then : {S : Type 0} → S × Outcome → (S → S × Outcome) → S × Outcome
and_then (s, Outcome.ok) f = f s
and_then (s, Outcome.failed) f = (s, Outcome.failed)
and_then (s, Outcome.panicked) f = (s, Outcome.panicked)
and_then (s, Outcome.unfinished) f = (s, Outcome.unfinished)

module _ (xxhash : Bytes → ℕ) (m : Msgp) (table index enc_val : Bytes) (covering : Bool) where
  -- The target of a member among the buckets `targets`; `none` is the panic on an empty list.
  unfoldable pub eq_place : List ℕ → Entry → Option Target
  eq_place targets e = elim (pick xxhash targets (member_pk m e.0 covering)) [
    | none ↦ none
    | some b ↦ some (record {
      member = e.0;
      child_key = eq_bucket_key_esc table index enc_val (pos b);
      score = codes "0";
    })
  ]

  module _ (r : Redis) (batch fuel : ℕ) where
    -- `migrateEqTo`, and one parent of `migrateEq`
    unfoldable pub migrate_eq_to : r.Server → ℕ → List ℕ → r.Server × Outcome
    unfolding eq_place drain
    migrate_eq_to s from targets =
        drain r m table covering (eq_place targets) batch
          (eq_bucket_key_esc table index enc_val (pos from)) fuel s

    -- `migrateEq`; with the roles exchanged, the loop over the children in `MergeEq`.
    unfoldable pub migrate_eq : r.Server → List ℕ → List ℕ → r.Server × Outcome
    unfolding migrate_eq_to
    migrate_eq s [] children = (s, Outcome.ok)
    migrate_eq s (p ∷ parents) children =
        and_then (migrate_eq_to s p children) (λ s'. migrate_eq s' parents children)

module _ (sc : Score) (m : Msgp) (table index : Bytes) (covering : Bool) where
  -- The child of a score: the first below the second's lower bound.
  unfoldable pub range_place : RangeBucket → RangeBucket → Entry → Option Target
  range_place a b e =
      let child = if sc.lt (sc.parse e.1).0 (sc.parse (lo b)).0 then a else b in
      some (record {
        member = e.0;
        child_key = range_bucket_key table index (pos (idx child));
        score = e.1;
      })

  unfoldable pub merge_place : RangeBucket → Entry → Option Target
  merge_place to e = some (record {
    member = e.0;
    child_key = range_bucket_key table index (pos (idx to));
    score = e.1;
  })

  module _ (r : Redis) (batch fuel : ℕ) where
    -- `migrateRange`; it panics on a bucket with less than two children.
    unfoldable pub migrate_range : r.Server → RangeBucket → r.Server × Outcome
    unfolding range_place drain
    migrate_range s (range_bucket i l h st (cons a (cons b rest))) =
        drain r m table covering (range_place a b) batch (range_bucket_key table index (pos i)) fuel
          s
    migrate_range s (range_bucket i l h st (cons a nil)) = (s, Outcome.panicked)
    migrate_range s (range_bucket i l h st nil) = (s, Outcome.panicked)

    -- `migrateRangeTo`
    unfoldable pub migrate_range_to : r.Server → ℕ → RangeBucket → r.Server × Outcome
    unfolding merge_place drain
    migrate_range_to s from to =
        drain r m table covering (merge_place to) batch (range_bucket_key table index (pos from))
          fuel s
