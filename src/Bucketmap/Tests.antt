-- ===== src/Bucketmap/Tests.antt =====
-- Runs of the routing rules and of the cached store, and the theorems at concrete inputs.
use ki_db.Base.{
  ℕ, ◌+◌, ◌*◌, ◌<◌, ◌≡◌, refl, List, [], ◌∷◌, arith, true, none, some, Bytes, codes, In, All,
  length, parse_digits,
}
use ki_db.Keycodec.Keys.{eq_sub_for}
use ki_db.Bucketmap.{
  State, RangeBucket, range_bucket, nil, cons, Doc, default_doc, pick, entry_write_targets,
  split_targets, entry_read_buckets, parse_bound, range_contains, bucket_targets,
  write_targets_range, read_buckets_range, range_overlaps,
}
use ki_db.Bucketmap.EqProtocol.{
  Phase, entry_of, Step, SeenBy, write-In-reads, stale_write_seen, staler_write_seen,
  stale_read_sees,
}
use ki_db.Bucketmap.RangeRouting.{range_write-In-reads, infinite_score_missed}
use ki_db.Bucketmap.Numbers.{high, finite, numbers, numbers_laws}
use ki_db.Bucketmap.Store.{Store, new_store, load, registry}
use ki_db.Bucketmap.Store.Staleness.{
  IsReply, Reachable, load_staleness, reloads, registry_outlives_ttl,
}

abbrev hash : Bytes → ℕ
hash s = length s

-- Eight buckets in a split to sixteen would be alike; here two become four.
abbrev splitting : Phase
splitting = Phase.splitting (0 ∷ 1 ∷ []) (2 ∷ 3 ∷ 4 ∷ 5 ∷ [])

splitting_targets : entry_write_targets hash (entry_of splitting) (codes "abc") ≡ some (1 ∷ 5 ∷ [])
unfolding entry_write_targets pick eq_sub_for split_targets
splitting_targets = refl

-- A table in the middle of a range split at 50.
abbrev halved : Doc
halved = record default_doc {
  ranges =
      cons (range_bucket 0 (codes "-inf") (codes "50") State.active nil)
        (cons (range_bucket 1 (codes "50") (codes "+inf") State.active nil) nil);
}

halved_targets :
    (write_targets_range numbers halved (finite 7) ≡ some (0 ∷ []))
    × (write_targets_range numbers halved (finite 50) ≡ some (1 ∷ []))
    × (read_buckets_range numbers halved (finite 7) (finite 60) ≡ 0 ∷ 1 ∷ [])
unfolding write_targets_range read_buckets_range range_contains range_overlaps parse_bound
    parse_digits default_doc
halved_targets = (refl, refl, refl)

abbrev step : Step (Phase.settled (0 ∷ 1 ∷ [])) splitting
step = Step.begin_split (0 ∷ 1 ∷ []) (2 ∷ 3 ∷ 4 ∷ 5 ∷ []) (omega arith)

write-In-reads_example :
    (ts : List ℕ) × (entry_write_targets hash (entry_of splitting) (codes "abc") ≡ some ts)
    × (0 < length ts)
    × All (λ t. In t (entry_read_buckets (entry_of splitting))) ts
write-In-reads_example = write-In-reads hash splitting (codes "abc") (omega arith)

stale_write_seen_example :
    SeenBy hash (Phase.settled (0 ∷ 1 ∷ [])) (codes "abc") (entry_read_buckets (entry_of splitting))
stale_write_seen_example = stale_write_seen hash (codes "abc") step (omega arith)

staler_write_seen_example :
    SeenBy hash
      (Phase.settled (0 ∷ 1 ∷ []))
      (codes "abc")
      (entry_read_buckets (entry_of (Phase.draining (0 ∷ 1 ∷ []) (2 ∷ 3 ∷ 4 ∷ 5 ∷ []))))
staler_write_seen_example =
    staler_write_seen hash (codes "abc") step (Step.drain_split (0 ∷ 1 ∷ []) (2 ∷ 3 ∷ 4 ∷ 5 ∷ []))
      (omega arith)

stale_read_sees_example :
    SeenBy hash splitting (codes "abc") (entry_read_buckets (entry_of (Phase.settled (0 ∷ 1 ∷ []))))
stale_read_sees_example = stale_read_sees hash (codes "abc") step (omega arith)

range_write-In-reads_example :
    (rb : RangeBucket) × (range_contains numbers rb (finite 60) ≡ true)
    × (write_targets_range numbers halved (finite 60)
        ≡ some (bucket_targets numbers rb (finite 60)))
    × (0 < length (bucket_targets numbers rb (finite 60)))
    × All
        (λ t. In t (read_buckets_range numbers halved (finite 60) (finite 60)))
        (bucket_targets numbers rb (finite 60))
range_write-In-reads_example =
    range_write-In-reads numbers numbers_laws halved (finite 60) (refl, (refl, refl)) (tt, (tt, tt))
      tt refl

infinite_score_missed_example :
    (write_targets_range numbers halved high ≡ some (0 ∷ []))
    × (read_buckets_range numbers halved high high ≡ 1 ∷ [])
unfolding parse_bound parse_digits
infinite_score_missed_example =
    infinite_score_missed numbers numbers_laws halved 0 1 (codes "-inf") (codes "50") refl refl

-- The server holds the table of version `t` at time `t`.
abbrev Held : ℕ → Doc → Type 0
Held t d = d.version ≡ t

abbrev doc_at : ℕ → Doc
doc_at t = record default_doc { version = t }

first-IsReply : IsReply Held 10 12 (some (doc_at 15)) 22
first-IsReply d e = (15, ground (arith, e), omega arith, omega arith, omega arith)

load_staleness_example : (t : ℕ) × Held t (doc_at 15) × (900 < t + 10 + 1000)
unfolding load new_store
load_staleness_example =
    load_staleness Held 10 1000 (load (new_store 1000 0) (codes "k") 12 (some (doc_at 15)) 22).0 22
      (codes "k") 900 none 901 (doc_at 15)
      (Reachable.loaded (codes "k") 12 (some (doc_at 15)) 22 (Reachable.new 0) (omega arith)
        (omega arith) first-IsReply)
      (omega arith) (omega arith) (omega arith) (λ d e. cc) refl

abbrev registered : Store
registered = record (new_store 1000 0) { reg_cache = λ _. some (codes "hot" ∷ []) }

registry_outlives_ttl_example :
    (registry
      (reloads 60 registered (codes "k") (doc_at 1))
      (codes "h")
      (0 + 60 * 1000)
      none
      60001).1
    ≡ some (codes "hot" ∷ [])
unfolding new_store
registry_outlives_ttl_example =
    registry_outlives_ttl 60 registered (codes "k") (doc_at 1) (codes "h") (codes "hot" ∷ []) none
      60001 (omega arith) refl
