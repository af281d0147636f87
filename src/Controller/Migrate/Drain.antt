-- ===== src/Controller/Migrate/Drain.antt =====
-- The loop of a migration: with a server whose commands succeed it ends, the bucket is empty and
-- its members lie in their targets.
use ki_db.Base.{
  ℕ, zero, suc, ◌<◌, ◌≡◌, ◌≢◌, inl, inr, refl, sym, ◌∙◌, [], arith, Option, some, Bytes, Bool, true,
  false, map, In, Bool-cases, length, take, ltb, if◌then◌else◌,
}
use ki_db.Rowcodec.Member.{Msgp, is_empty}
use ki_db.Controller.Redis.{Redis, Entry, IsLawful, IsHealthy, holds}
use ki_db.Controller.Migrate.{Target, Outcome, migrate_batch, drain, row_of}
use ki_db.Controller.Migrate.Batch.{
  Moved, remove_all, is_live, migrate_batch-Moved, migrate_batch-keeps, migrate_batch-lives,
  migrate_batch_succeeds,
}
use ki_db.Controller.Migrate.Entries.{
  remove_taken, survives_all, place_all-map, In-take, In-empty, take-nil, take-cases, short_page,
  empty-of_length, All-map, All-at,
}

-- A choice of targets that keeps the member, and keys that are told apart.
pub record IsPlacement (m : Msgp) (table : Bytes) (covering : Bool) (from : Bytes)
    (place : Entry → Option Target) (f : Entry → Target) : Type 0 where
  pub places : (e : Entry) → place e ≡ some (f e)
  pub same_member : (e : Entry) → (f e).member ≡ e.0
  pub elsewhere : (e : Entry) → (f e).child_key ≢ from
  pub row_from : (x : Bytes) → row_of m table covering x ≢ from
  pub row_child : (x : Bytes) (e : Entry) → row_of m table covering x ≢ (f e).child_key

module _ (r : Redis) (l : IsLawful r) (m : Msgp) (table : Bytes) (covering : Bool) (from : Bytes)
    (place : Entry → Option Target) (f : Entry → Target)
    (p : IsPlacement m table covering from place f) where
  -- The row of an entry exists.
  abbrev pub entry_lives : r.Server → Entry → Bool
  entry_lives s e = l.lives s (row_of m table covering e.0)

  -- From `s` to `after`, the bucket `from` was emptied: each entry whose row exists has its member in
  -- its target, and the members of the other buckets are still there.
  abbrev pub Emptied : r.Server → r.Server → Type 0
  Emptied s after =
      (l.bucket after from ≡ [])
      × ((e : Entry)
          → In e (l.bucket s from)
          → entry_lives s e ≡ true
          → holds e.0 (l.bucket after (f e).child_key) ≡ true)
      × ((j x : Bytes)
          → j ≢ from
          → holds x (l.bucket s j) ≡ true
          → holds x (l.bucket after j) ≡ true)

  module _ (healthy : IsHealthy r) (batch : ℕ) (positive : 0 < batch) where
    -- One round of the loop.
    abbrev after_round : r.Server → r.Server
    after_round s =
        (migrate_batch r m table covering (r.zrange s from batch).0 from
          (map f (take batch (l.bucket s from)))).0

    round_Moved :
        (s : r.Server)
        → Moved r l
            (r.zrange s from batch).0
            (after_round s)
            from
            (map f (take batch (l.bucket s from)))
            (is_live r l m table covering (r.zrange s from batch).0)
    round_Moved s =
        let ts = map f (take batch (l.bucket s from)) in
        migrate_batch-Moved r l m table covering from ts (r.zrange s from batch).0
          (All-map (λ t. t.child_key ≢ from) f (take batch (l.bucket s from)) p.elsewhere)
          (migrate_batch_succeeds r l m table covering healthy from ts (r.zrange s from batch).0)

    round_removes :
        (s : r.Server)
        → l.bucket (after_round s) from
          ≡ remove_all (map f (take batch (l.bucket s from))) (l.bucket s from)
    round_removes s = rw (l.zrange_bucket s from batch from) at ((round_Moved s).1)

    round_lives : (s : r.Server) (e : Entry) → entry_lives (after_round s) e ≡ entry_lives s e
    round_lives s e =
        let key = row_of m table covering e.0 in
        let es = take batch (l.bucket s from) in
        migrate_batch-lives r l m table covering from (map f es) (r.zrange s from batch).0 key
          (p.row_from e.0) (All-map (λ t. key ≢ t.child_key) f es (p.row_child e.0))
        ∙ l.zrange_lives s from batch key

    round_places :
        (s : r.Server) (e : Entry)
        → In e (take batch (l.bucket s from))
        → entry_lives s e ≡ true
        → holds e.0 (l.bucket (after_round s) (f e).child_key) ≡ true
    round_places s e i h =
        let es = take batch (l.bucket s from) in
        let s' = (r.zrange s from batch).0 in
        let placed =
          All-at
            (λ t.
              is_live r l m table covering s' t ≡ true
              → holds t.member (l.bucket (after_round s) t.child_key) ≡ true)
            f es (round_Moved s).0 e i in
        rw (p.same_member e) at (
          placed (
            rw (p.same_member e)
              (rw (l.zrange_lives s from batch (row_of m table covering e.0)) h)))

    round_keeps :
        (s : r.Server) (j x : Bytes)
        → j ≢ from
        → holds x (l.bucket s j) ≡ true
        → holds x (l.bucket (after_round s) j) ≡ true
    round_keeps s j x ne h =
        migrate_batch-keeps r l m table covering from (map f (take batch (l.bucket s from)))
          (r.zrange s from batch).0 j x ne (rw (l.zrange_bucket s from batch j) h)

    -- What is left after a round is emptied by the rest of the rounds.
    Emptied-after_round : (s after : r.Server) → Emptied (after_round s) after → Emptied s after
    Emptied-after_round s after (none_left, placed, kept) = (
      none_left,
      (λ e i h.
          elim (survives_all f p.same_member e (take batch (l.bucket s from)) (l.bucket s from) i) [
            | inl (d, taken, same) ↦
                let d_here = In-take batch d (l.bucket s from) taken in
                let is_e = l.distinct s from d e d_here i same in
                kept (f e).child_key e.0 (p.elsewhere e) (round_places s e (rw is_e at taken) h)
            | inr left ↦ placed e (rw (round_removes s) left) (round_lives s e ∙ h)
          ]),
      (λ j x ne h. kept j x ne (round_keeps s j x ne h)),
    )

    empty-Emptied : (s : r.Server) → l.bucket s from ≡ [] → Emptied s (r.zrange s from batch).0
    empty-Emptied s e = (
      l.zrange_bucket s from batch from ∙ e,
      (λ x i h. absurd (In-empty x (l.bucket s from) e i)),
      (λ j x ne h. rw (l.zrange_bucket s from batch j) h),
    )

    -- A round that leaves nothing.
    last_round : (s : r.Server) → l.bucket (after_round s) from ≡ [] → Emptied s (after_round s)
    last_round s e =
        Emptied-after_round s (after_round s)
          (e, (λ x i h. absurd (In-empty x (l.bucket (after_round s) from) e i)), (λ j x ne h. h))

    zrange_is : (s : r.Server) → (r.zrange s from batch).1 ≡ some (take batch (l.bucket s from))
    zrange_is s =
        let (es, e) = healthy.zrange_succeeds s from batch in
        rw (sym (l.zrange_reply s from batch es e)) e

    -- The loop by its rounds.
    drain_empty :
        (fuel : ℕ) (s : r.Server)
        → l.bucket s from ≡ []
        → drain r m table covering place batch from (suc fuel) s
          ≡ ((r.zrange s from batch).0, Outcome.ok)
    unfolding drain
    drain_empty fuel s e =
        let reply : (r.zrange s from batch).1 ≡ some [] =
          zrange_is s ∙ rw e (rw (take-nil batch) refl) in
        rw (reply, drain) refl

    drain_round :
        (fuel : ℕ) (s : r.Server)
        → is_empty (take batch (l.bucket s from)) ≡ false
        → drain r m table covering place batch from (suc fuel) s ≡ (
            if ltb (length (take batch (l.bucket s from))) batch
            then (after_round s, Outcome.ok)
            else drain r m table covering place batch from fuel (after_round s))
    unfolding drain
    drain_round fuel s some_left =
        let page = take batch (l.bucket s from) in
        rw (zrange_is s, drain)
          (rw (some_left, drain)
            (rw (place_all-map f p.same_member place p.places r m table covering page, drain)
              (rw
                (
                  migrate_batch_succeeds r l m table covering healthy from (map f page)
                      (r.zrange s from batch).0,
                  drain,
                )
                refl)))

    -- With more rounds than the bucket has members the loop ends without an error, the bucket is
    -- empty, every member of it whose row exists lies in its target, and no other bucket has lost
    -- a member. The server obeys its documentation, no command fails, a batch holds at least one
    -- member, and the targets are other keys than the bucket and the rows.
    pub drain_empties :
        (fuel : ℕ) (s : r.Server)
        → length (l.bucket s from) < fuel
        → ((drain r m table covering place batch from fuel s).1 ≡ Outcome.ok)
          × Emptied s (drain r m table covering place batch from fuel s).0
    drain_empties zero s h = absurd (omega arith)
    drain_empties (suc fuel) s h = elim (take-cases batch (l.bucket s from) positive) [
      | inl e ↦ rw (drain_empty fuel s e) (refl, empty-Emptied s e)
      | inr (d, ds, q) ↦
          let some_left : is_empty (take batch (l.bucket s from)) ≡ false = rw q refl in
          let fewer = remove_taken f p.same_member batch (l.bucket s from) in
          let taken : length (take batch (l.bucket s from)) ≡ suc (length ds) = rw q refl in
          elim (Bool-cases (ltb (length (take batch (l.bucket s from))) batch)) [
            | inl short ↦
                let all = short_page batch (l.bucket s from) (ground (arith, short)) in
                let none_left = round_removes s ∙ empty-of_length _ (omega (arith, fewer, all)) in
                rw (drain_round fuel s some_left) (rw short (refl, last_round s none_left))
            | inr full ↦
                let (done, emptied) =
                  drain_empties fuel (after_round s)
                    (rw (round_removes s) (omega (arith, fewer, taken))) in
                rw (drain_round fuel s some_left) (rw full (done, Emptied-after_round s _ emptied))
          ]
    ]
