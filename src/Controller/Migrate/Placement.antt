-- ===== src/Controller/Migrate/Placement.antt =====
-- A migration puts members where writes of the new table put them.
use ki_db.Base.{
  ℕ, ◌<◌, ◌≡◌, refl, List, [], ◌∷◌, arith, some, Bytes, codes, Bool, true, pos, In, length,
}
use ki_db.Keycodec.Keys.{eq_bucket_key_esc}
use ki_db.Keycodec.Distinct.{eq_bucket_key_esc-injective, row_key-eq_bucket_key_esc}
use ki_db.Rowcodec.Member.{Msgp, member_pk}
use ki_db.Bucketmap.{entry_write_targets}
use ki_db.Bucketmap.EqProtocol.{Phase, entry_of, pick-In}
use ki_db.Controller.Redis.{Redis, Entry, IsLawful, IsHealthy, holds}
use ki_db.Controller.Migrate.{Target, Outcome, row_of}
use ki_db.Controller.Migrate.Moves.{eq_place, migrate_eq_to}
use ki_db.Controller.Migrate.Drain.{IsPlacement, Emptied, drain_empties}

module _ (xxhash : Bytes → ℕ) (m : Msgp) (table index enc_val : Bytes) (covering : Bool) where
  module _ (targets : List ℕ) (some_target : 0 < length targets) where
    -- The bucket that a write with these buckets picks for a member.
    picked : Entry → ℕ
    picked e = (pick-In xxhash targets (member_pk m e.0 covering) some_target).0

    eq_target : Entry → Target
    unfolding picked
    eq_target e = record {
      member = e.0;
      child_key = eq_bucket_key_esc table index enc_val (pos (picked e));
      score = codes "0";
    }

    eq_place-IsPlacement :
        (from : ℕ)
        → (In from targets → ⊥)
        → IsPlacement m table covering
            (eq_bucket_key_esc table index enc_val (pos from))
            (eq_place xxhash m table index enc_val covering targets)
            eq_target
    unfolding eq_target picked eq_place row_of
    eq_place-IsPlacement from apart = record {
      places = λ e.
          rw ((pick-In xxhash targets (member_pk m e.0 covering) some_target).1, eq_place) refl;
      same_member = λ e. refl;
      elsewhere = λ e h. apart (
          rw (eq_bucket_key_esc-injective table index enc_val (picked e) from h) at
            ((pick-In xxhash targets (member_pk m e.0 covering) some_target).2));
      row_from =
          λ x. row_key-eq_bucket_key_esc table (member_pk m x covering) table index enc_val from;
      row_child = λ x e.
          row_key-eq_bucket_key_esc table (member_pk m x covering) table index enc_val (picked e);
    }

    module _ (r : Redis) (l : IsLawful r) (healthy : IsHealthy r) (batch : ℕ)
        (positive : 0 < batch) where
      module _ (fuel from : ℕ) (s : r.Server) (apart : In from targets → ⊥)
          (enough : length (l.bucket s (eq_bucket_key_esc table index enc_val (pos from)))
            < fuel) where
        eq-Emptied :
            ((migrate_eq_to xxhash m table index enc_val covering r batch fuel s from targets).1
              ≡ Outcome.ok)
            × Emptied r l m table covering
                (eq_bucket_key_esc table index enc_val (pos from))
                (eq_place xxhash m table index enc_val covering targets)
                eq_target
                (eq_place-IsPlacement from apart)
                s
                (migrate_eq_to xxhash m table index enc_val covering r batch fuel s from targets).0
        unfolding migrate_eq_to
        eq-Emptied =
            drain_empties r l m table covering (eq_bucket_key_esc table index enc_val (pos from))
              (eq_place xxhash m table index enc_val covering targets) eq_target
              (eq_place-IsPlacement from apart) healthy batch positive fuel s enough

        -- `migrateEqTo` of a bucket that is not one of its targets, of which there is one: with
        -- more rounds than the bucket has members it ends without an error and the bucket is
        -- empty. The server obeys its documentation, no command fails, and a batch holds at least
        -- one member.
        pub migrate_eq_to_ends :
            ((migrate_eq_to xxhash m table index enc_val covering r batch fuel s from targets).1
              ≡ Outcome.ok)
            × (l.bucket
                  (migrate_eq_to xxhash m table index enc_val covering r batch fuel s from
                    targets).0
                  (eq_bucket_key_esc table index enc_val (pos from))
                ≡ [])
        migrate_eq_to_ends = (eq-Emptied.0, eq-Emptied.1.0)

        -- `migrateEqTo` of a bucket that is not one of its targets, of which there is one, with more
        -- rounds than the bucket has members: each member of the bucket whose row exists lies,
        -- afterwards, in the one bucket to which a write of its primary key goes once the targets
        -- are the entry's buckets. The server obeys its documentation, no command fails, and a
        -- batch holds at least one member.
        pub migrate_eq_to-entry_write_targets :
            (e : Entry)
            → In e (l.bucket s (eq_bucket_key_esc table index enc_val (pos from)))
            → l.lives s (row_of m table covering e.0) ≡ true
            → (b : ℕ) × (entry_write_targets xxhash
                  (entry_of (Phase.settled targets))
                  (member_pk m e.0 covering)
                ≡ some (b ∷ []))
              × (holds e.0 (
                    l.bucket
                      (migrate_eq_to xxhash m table index enc_val covering r batch fuel s from
                        targets).0
                      (eq_bucket_key_esc table index enc_val (pos b)))
                  ≡ true)
        unfolding entry_write_targets eq_target picked
        migrate_eq_to-entry_write_targets e i h =
            let (done, (none_left, placed, kept)) = eq-Emptied in
            let (b, picks, member) =
              pick-In xxhash targets (member_pk m e.0 covering) some_target in
            (b, ground (arith, picks), placed e i h)
