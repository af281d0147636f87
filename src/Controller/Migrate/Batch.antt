-- ===== src/Controller/Migrate/Batch.antt =====
-- One batch of a migration: what its two pipelines do to the buckets.
use ki_db.Base.{
  ◌≡◌, ◌≢◌, inl, inr, refl, sym, ◌∙◌, List, [], ◌∷◌, arith, none, some, Bytes, Bool, true, false,
  ◌&&◌, map, All, Option-cases,
}
use ki_db.Rowcodec.Member.{Msgp}
use ki_db.Controller.Redis.{Redis, Entry, IsLawful, IsHealthy, holds, remove}
use ki_db.Controller.Migrate.{
  Target, Command, commands, row_of, exist_all, send, send_all, row_keys, migrate_batch,
}

unfoldable pub remove_all : List Target → List Entry → List Entry
remove_all [] es = es
remove_all (t ∷ ts) es = remove_all ts (remove t.member es)

abbrev pub GoesElsewhere : Bytes → List Target → Type 0
GoesElsewhere parent = All (λ t. t.child_key ≢ parent)

map_cong : (f g : Bytes → Bool) (xs : List Bytes) → ((x : Bytes) → f x ≡ g x) → map f xs ≡ map g xs
map_cong f g [] h = refl
map_cong f g (x ∷ xs) h = rw (h x, map_cong f g xs h) refl

and_left : (a b : Bool) → (a && b) ≡ true → a ≡ true
and_left a b h = ground (arith, h)

and_right : (a b : Bool) → (a && b) ≡ true → b ≡ true
and_right a b h = ground (arith, h)

abbrev command_key : Command → Bytes
command_key (Command.zadd k sc x) = k
command_key (Command.zrem k x) = k

commands-avoid :
    (parent j : Bytes) (ts : List Target) (bs : List Bool)
    → j ≢ parent
    → All (λ t. j ≢ t.child_key) ts
    → All (λ c. j ≢ command_key c) (commands parent ts bs)
unfolding commands
commands-avoid parent j [] bs np nt = tt
commands-avoid parent j (t ∷ ts) [] np nt = tt
commands-avoid parent j (t ∷ ts) (true ∷ bs) np nt =
    (nt.0, (np, commands-avoid parent j ts bs np nt.1))
commands-avoid parent j (t ∷ ts) (false ∷ bs) np nt = (np, commands-avoid parent j ts bs np nt.1)

module _ (r : Redis) (l : IsLawful r) where
  exist_all-bucket :
      (ks : List Bytes) (s : r.Server) (j : Bytes) → l.bucket (exist_all r s ks).0 j ≡ l.bucket s j
  unfolding exist_all
  exist_all-bucket [] s j = refl
  exist_all-bucket (k ∷ ks) s j = exist_all-bucket ks (r.exists s k).0 j ∙ l.exists_bucket s k j

  exist_all-lives :
      (ks : List Bytes) (s : r.Server) (j : Bytes) → l.lives (exist_all r s ks).0 j ≡ l.lives s j
  unfolding exist_all
  exist_all-lives [] s j = refl
  exist_all-lives (k ∷ ks) s j = exist_all-lives ks (r.exists s k).0 j ∙ l.exists_lives s k j

  exist_all-replies :
      (ks : List Bytes) (s : r.Server) (bs : List Bool)
      → (exist_all r s ks).1 ≡ some bs
      → bs ≡ map (l.lives s) ks
  unfolding exist_all
  exist_all-replies [] s bs h = ground (arith, h)
  exist_all-replies (k ∷ ks) s bs h =
      let s' = (r.exists s k).0 in
      elim (Option-cases (r.exists s k).1) [
        | inl e ↦ absurd (ground (arith, h, e))
        | inr (b, e) ↦ elim (Option-cases (exist_all r s' ks).1) [
          | inl e' ↦ absurd (ground (arith, h, e, e'))
          | inr (rest, e') ↦
              let heads = l.exists_reply s k b e in
              let tails : rest ≡ map (l.lives s) ks =
                exist_all-replies ks s' rest e'
                ∙ map_cong (l.lives s') (l.lives s) ks (l.exists_lives s k) in
              ground (arith, h, e, e', heads, tails)
        ]
      ]

  -- What `ZADD` and `ZREM` on the parent do to a member of another bucket.
  send-keeps :
      (parent : Bytes) (ts : List Target) (bs : List Bool) (s : r.Server) (j x : Bytes)
      → j ≢ parent
      → holds x (l.bucket s j) ≡ true
      → holds x (l.bucket (send_all r s (commands parent ts bs)).0 j) ≡ true
  unfolding send_all commands send
  send-keeps parent [] bs s j x ne h = h
  send-keeps parent (t ∷ ts) [] s j x ne h = h
  send-keeps parent (t ∷ ts) (true ∷ bs) s j x ne h =
      let s' = (r.zadd s t.child_key t.score t.member).0 in
      send-keeps parent ts bs (r.zrem s' parent t.member).0 j x ne (
        rw (l.zrem_other s' parent t.member j ne)
          (l.zadd_keeps s t.child_key t.score t.member j x h))
  send-keeps parent (t ∷ ts) (false ∷ bs) s j x ne h =
      send-keeps parent ts bs (r.zrem s parent t.member).0 j x ne
        (rw (l.zrem_other s parent t.member j ne) h)

  -- From `s` to `after`, every member found alive came into its target, and all of them left the
  -- parent.
  abbrev pub Moved : r.Server → r.Server → Bytes → List Target → (Target → Bool) → Type 0
  Moved s after parent ts live =
      All (λ t. live t ≡ true → holds t.member (l.bucket after t.child_key) ≡ true) ts
      × (l.bucket after parent ≡ remove_all ts (l.bucket s parent))

  send_first :
      (parent : Bytes) (t : Target) (ts : List Target) (live : Target → Bool) (b : Bool)
      → live t ≡ b
      → (s : r.Server) → GoesElsewhere parent (t ∷ ts)
      → ((s' : r.Server)
          → (send_all r s' (commands parent ts (map live ts))).1 ≡ true
          → Moved s' (send_all r s' (commands parent ts (map live ts))).0 parent ts live)
      → (send_all r s (commands parent (t ∷ ts) (b ∷ map live ts))).1 ≡ true
      → Moved s (send_all r s (commands parent (t ∷ ts) (b ∷ map live ts))).0 parent (t ∷ ts) live
  unfolding send_all commands send remove_all
  send_first parent t ts live true e s ne ih h =
      let s1 = (r.zadd s t.child_key t.score t.member).0 in
      let s2 = (r.zrem s1 parent t.member).0 in
      let h1 = and_right (r.zadd s t.child_key t.score t.member).1 _ h in
      let h2 = and_right (r.zrem s1 parent t.member).1 _ h1 in
      let (placed, left) = ih s2 h2 in
      let added = l.zadd_adds s t.child_key t.score t.member (and_left _ _ h) in
      let still : holds t.member (l.bucket s2 t.child_key) ≡ true =
        rw (l.zrem_other s1 parent t.member t.child_key ne.0) added in
      (
        ((λ _. send-keeps parent ts (map live ts) s2 t.child_key t.member ne.0 still), placed),
        rw
            (
              l.zrem_removes s1 parent t.member (and_left _ _ h1),
              l.zadd_other s t.child_key t.score t.member parent (λ p. ne.0 (sym p)),
            )
            at left,
      )
  send_first parent t ts live false e s ne ih h =
      let s2 = (r.zrem s parent t.member).0 in
      let (placed, left) = ih s2 (and_right (r.zrem s parent t.member).1 _ h) in
      (
        ((λ alive. absurd (cc (e, alive))), placed),
        rw (l.zrem_removes s parent t.member (and_left _ _ h)) at left,
      )

  send-moves :
      (parent : Bytes) (ts : List Target) (live : Target → Bool) (s : r.Server)
      → GoesElsewhere parent ts
      → (send_all r s (commands parent ts (map live ts))).1 ≡ true
      → Moved s (send_all r s (commands parent ts (map live ts))).0 parent ts live
  unfolding send_all commands remove_all
  send-moves parent [] live s ne h = (tt, refl)
  send-moves parent (t ∷ ts) live s ne h =
      send_first parent t ts live (live t) refl s ne (λ s'. send-moves parent ts live s' ne.1) h

  module _ (m : Msgp) (table : Bytes) (covering : Bool) where
    -- Whether the row of a target exists.
    abbrev pub is_live : r.Server → Target → Bool
    is_live s t = l.lives s (row_of m table covering t.member)

    row_keys-live :
        (s : r.Server) (ts : List Target)
        → map (l.lives s) (row_keys r m table covering ts) ≡ map (is_live s) ts
    unfolding row_keys
    row_keys-live s [] = refl
    row_keys-live s (t ∷ ts) = rw (row_keys-live s ts) refl

    module _ (parent : Bytes) (ts : List Target) (s : r.Server) where
      batch_sends :
          (bs : List Bool)
          → (exist_all r s (row_keys r m table covering ts)).1 ≡ some bs
          → migrate_batch r m table covering s parent ts
            ≡ send_all r (exist_all r s (row_keys r m table covering ts)).0 (commands parent ts bs)
      unfolding migrate_batch
      batch_sends bs e = rw (e, migrate_batch) refl

      batch_fails :
          (exist_all r s (row_keys r m table covering ts)).1 ≡ none
          → migrate_batch r m table covering s parent ts
            ≡ ((exist_all r s (row_keys r m table covering ts)).0, false)
      unfolding migrate_batch
      batch_fails e = rw (e, migrate_batch) refl

    -- A batch that succeeds, whose targets are other buckets than the parent, puts every member
    -- whose row exists into its target and takes all members of the batch from the parent.
    pub migrate_batch-Moved :
        (parent : Bytes) (ts : List Target) (s : r.Server)
        → GoesElsewhere parent ts
        → (migrate_batch r m table covering s parent ts).1 ≡ true
        → Moved s (migrate_batch r m table covering s parent ts).0 parent ts (is_live s)
    migrate_batch-Moved parent ts s ne h =
        let keys = row_keys r m table covering ts in
        let s' = (exist_all r s keys).0 in
        elim (Option-cases (exist_all r s keys).1) [
          | inl e ↦ absurd (ground (arith, h, batch_fails parent ts s e))
          | inr (bs, e) ↦
              let replies : bs ≡ map (is_live s) ts =
                exist_all-replies keys s bs e ∙ row_keys-live s ts in
              let sends : migrate_batch r m table covering s parent ts
                  ≡ send_all r s' (commands parent ts (map (is_live s) ts)) =
                rw replies at (batch_sends parent ts s bs e) in
              rw sends (
                rw (exist_all-bucket keys s parent) at
                  (send-moves parent ts (is_live s) s' ne (rw sends at h)))
        ]

    -- On a server that obeys its documentation, whether a batch succeeds or not, every member of
    -- another bucket than the parent stays.
    pub migrate_batch-keeps :
        (parent : Bytes) (ts : List Target) (s : r.Server) (j x : Bytes)
        → j ≢ parent
        → holds x (l.bucket s j) ≡ true
        → holds x (l.bucket (migrate_batch r m table covering s parent ts).0 j) ≡ true
    migrate_batch-keeps parent ts s j x ne h =
        let keys = row_keys r m table covering ts in
        let s' = (exist_all r s keys).0 in
        let there : holds x (l.bucket s' j) ≡ true = rw (exist_all-bucket keys s j) h in
        elim (Option-cases (exist_all r s keys).1) [
          | inl e ↦ rw (batch_fails parent ts s e) there
          | inr (bs, e) ↦
              rw (batch_sends parent ts s bs e) (send-keeps parent ts bs s' j x ne there)
        ]

    send-lives :
        (cs : List Command) (s : r.Server) (j : Bytes)
        → All (λ c. j ≢ command_key c) cs
        → l.lives (send_all r s cs).0 j ≡ l.lives s j
    unfolding send_all send
    send-lives [] s j h = refl
    send-lives (Command.zadd k sc x ∷ cs) s j h =
        send-lives cs (r.zadd s k sc x).0 j h.1 ∙ l.zadd_lives s k sc x j h.0
    send-lives (Command.zrem k x ∷ cs) s j h =
        send-lives cs (r.zrem s k x).0 j h.1 ∙ l.zrem_lives s k x j h.0

    -- A key that is neither the parent's nor a target's exists after a batch as it did before.
    pub migrate_batch-lives :
        (parent : Bytes) (ts : List Target) (s : r.Server) (j : Bytes)
        → j ≢ parent
        → All (λ t. j ≢ t.child_key) ts
        → l.lives (migrate_batch r m table covering s parent ts).0 j ≡ l.lives s j
    migrate_batch-lives parent ts s j np nt =
        let keys = row_keys r m table covering ts in
        let s' = (exist_all r s keys).0 in
        elim (Option-cases (exist_all r s keys).1) [
          | inl e ↦ rw (batch_fails parent ts s e) (exist_all-lives keys s j)
          | inr (bs, e) ↦ rw (batch_sends parent ts s bs e) (
              send-lives (commands parent ts bs) s' j (commands-avoid parent j ts bs np nt)
              ∙ exist_all-lives keys s j)
        ]

    module _ (healthy : IsHealthy r) where
      exist_all_succeeds :
          (ks : List Bytes) (s : r.Server) → (bs : List Bool) × ((exist_all r s ks).1 ≡ some bs)
      unfolding exist_all
      exist_all_succeeds [] s = ([], refl)
      exist_all_succeeds (k ∷ ks) s =
          let (b, e) = healthy.exists_succeeds s k in
          let (bs, e') = exist_all_succeeds ks (r.exists s k).0 in (b ∷ bs, ground (arith, e, e'))

      send_all_succeeds : (cs : List Command) (s : r.Server) → (send_all r s cs).1 ≡ true
      unfolding send_all send
      send_all_succeeds [] s = refl
      send_all_succeeds (Command.zadd k sc x ∷ cs) s =
          rw (healthy.zadd_succeeds s k sc x) (send_all_succeeds cs (r.zadd s k sc x).0)
      send_all_succeeds (Command.zrem k x ∷ cs) s =
          rw (healthy.zrem_succeeds s k x) (send_all_succeeds cs (r.zrem s k x).0)

      pub migrate_batch_succeeds :
          (parent : Bytes) (ts : List Target) (s : r.Server)
          → (migrate_batch r m table covering s parent ts).1 ≡ true
      migrate_batch_succeeds parent ts s =
          let (bs, e) = exist_all_succeeds (row_keys r m table covering ts) s in
          rw (batch_sends parent ts s bs e) (send_all_succeeds (commands parent ts bs) _)
