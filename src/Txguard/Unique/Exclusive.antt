-- ===== src/Txguard/Unique/Exclusive.antt =====
-- `verifyBucketExclusive` finds the rows that hold the value.
use ki_db.Base.{
  ℕ, ◌≡◌, refl, ◌∙◌, inl, inr, arith, List, [], ◌∷◌, ◌++◌, map, Option, some, Bytes, Bool, true,
  false, ◌&&◌, not, pos, take, All, same_text, same_text-eq, Bool-cases, Option-cases, some_same,
}
use ki_db.Keycodec.Keys.{row_key, eq_bucket_key_esc}
use ki_db.Rowcodec.Member.{Msgp, member_pk}
use ki_db.Bucketmap.{Doc}
use ki_db.Txguard.Keyspace.{Redis, Keyspace, IsLawful}
use ki_db.Txguard.Unique.{
  Verdict, my_pk, readable_buckets, is_taken, bucket_members, exist_rows, verify_bucket_exclusive,
}

module _ (m : Msgp) where
  -- The row that a member names is dead or this one.
  abbrev pub IsFree : Bytes → Keyspace → Bytes → Bytes → Type 0
  IsFree table w rowkey x =
      w.lives (row_key table (member_pk m x false)) ≡ true → member_pk m x false ≡ my_pk rowkey

  is_taken-IsFree :
      (table : Bytes) (w : Keyspace) (rowkey : Bytes) (xs : List Bytes)
      → is_taken m rowkey xs
          (map (λ k. w.lives k) (map (λ x. row_key table (member_pk m x false)) xs))
        ≡ false
      → All (IsFree table w rowkey) xs
  unfolding is_taken
  is_taken-IsFree table w rowkey [] h = tt
  is_taken-IsFree table w rowkey (x ∷ xs) h =
      elim (Bool-cases (
        w.lives (row_key table (member_pk m x false))
        && not (same_text (member_pk m x false) (my_pk rowkey)))) [
          | inl taken ↦ absurd (ground (arith, (rw taken at h)))
          | inr free ↦ (
            (λ alive.
                same_text-eq (member_pk m x false) (my_pk rowkey) (ground (arith, free, alive))),
            is_taken-IsFree table w rowkey xs (rw free at h),
          )
        ]

module _ (r : Redis) (law : IsLawful r) where
  pub exist_rows-view :
      (s : r.Server) (ks : List Bytes) → law.view (exist_rows r s ks).0 ≡ law.view s
  unfolding exist_rows
  exist_rows-view s [] = refl
  exist_rows-view s (k ∷ ks) = exist_rows-view (r.exists s k).0 ks ∙ law.exists_view s k

  exist_rows-reply :
      (s : r.Server) (ks : List Bytes) (alives : List Bool)
      → (exist_rows r s ks).1 ≡ some alives
      → alives ≡ map (λ k. (law.view s).lives k) ks
  unfolding exist_rows
  exist_rows-reply s [] alives h = some_same h
  exist_rows-reply s (k ∷ ks) alives h = elim (Option-cases (r.exists s k).1) [
    | inl e ↦ absurd (ground (arith, (rw (e, exist_rows) at h)))
    | inr (a, e) ↦ elim (Option-cases (exist_rows r (r.exists s k).0 ks).1) [
      | inl f ↦ absurd (ground (arith, (rw (f, exist_rows) at (rw (e, exist_rows) at h))))
      | inr (bs, f) ↦
          let rest : bs ≡ map (λ j. (law.view s).lives j) ks =
            rw (law.exists_view s k) at (exist_rows-reply (r.exists s k).0 ks bs f) in
          let this = law.exists_reply s k a e in
          some_same (rw (f, exist_rows) at (rw (e, exist_rows) at h)) ∙ rw (this, rest) refl
    ]
  ]

  module _ (table idx enc_val : Bytes) where
    pub bucket_members-view :
        (s : r.Server) (bs : List ℕ)
        → law.view (bucket_members r table idx enc_val s bs).0 ≡ law.view s
    unfolding bucket_members
    bucket_members-view s [] = refl
    bucket_members-view s (b ∷ bs) =
        elim (Option-cases (r.zrange s (eq_bucket_key_esc table idx enc_val (pos b)) 64).1) [
          | inl e ↦
              rw (e, bucket_members)
                (law.zrange_view s (eq_bucket_key_esc table idx enc_val (pos b)) 64)
          | inr (xs, e) ↦
              rw (e, bucket_members)
                (bucket_members-view (r.zrange s (eq_bucket_key_esc table idx enc_val (pos b)) 64).0
                    bs
                  ∙ law.zrange_view s (eq_bucket_key_esc table idx enc_val (pos b)) 64)
        ]

    -- The first 64 members of each bucket.
    abbrev pub firsts : Keyspace → List ℕ → List Bytes
    firsts w [] = []
    firsts w (b ∷ bs) =
        take 64 (w.members (eq_bucket_key_esc table idx enc_val (pos b))) ++ firsts w bs

    bucket_members-reply :
        (s : r.Server) (bs : List ℕ) (xs : List Bytes)
        → (bucket_members r table idx enc_val s bs).1 ≡ some xs
        → xs ≡ firsts (law.view s) bs
    unfolding bucket_members
    bucket_members-reply s [] xs h = some_same h
    bucket_members-reply s (b ∷ bs) xs h =
        let k = eq_bucket_key_esc table idx enc_val (pos b) in
        elim (Option-cases (r.zrange s (eq_bucket_key_esc table idx enc_val (pos b)) 64).1) [
          | inl e ↦ absurd (ground (arith, (rw (e, bucket_members) at h)))
          | inr (ys, e) ↦
              elim (Option-cases (bucket_members r table idx enc_val (r.zrange s k 64).0 bs).1) [
                | inl f ↦
                    absurd
                      (ground (arith, (rw (f, bucket_members) at (rw (e, bucket_members) at h))))
                | inr (zs, f) ↦
                    let rest : zs ≡ firsts (law.view s) bs =
                      rw (law.zrange_view s k 64) at
                        (bucket_members-reply (r.zrange s k 64).0 bs zs f) in
                    let this = law.zrange_reply s k 64 ys e in
                    some_same (rw (f, bucket_members) at (rw (e, bucket_members) at h))
                    ∙ rw (this, rest) refl
              ]
        ]

module _ (r : Redis) (law : IsLawful r) (xxhash : Bytes → ℕ) (m : Msgp) (table idx : Bytes)
    (d : Option Doc) where
  pub verify-reserved :
      (s : r.Server) (enc_val rowkey : Bytes)
      → (verify_bucket_exclusive r xxhash m table idx d s enc_val rowkey).1 ≡ Verdict.reserved
      → (law.view (verify_bucket_exclusive r xxhash m table idx d s enc_val rowkey).0 ≡ law.view s)
        × All
            (IsFree m table (law.view s) rowkey)
            (firsts r law table idx enc_val (law.view s) (readable_buckets d enc_val))
  unfolding verify_bucket_exclusive
  verify-reserved s enc_val rowkey h =
      let bs = readable_buckets d enc_val in
      let s' = (bucket_members r table idx enc_val s bs).0 in
      let seen = bucket_members-view r law table idx enc_val s bs in
      elim (Option-cases (bucket_members r table idx enc_val s (readable_buckets d enc_val)).1) [
        | inl e ↦ absurd (ground (arith, (rw (e, verify_bucket_exclusive) at h)))
        | inr (xs, e) ↦
            let ks = map (λ x. row_key table (member_pk m x false)) xs in
            elim (Option-cases (exist_rows r s' ks).1) [
              | inl f ↦ absurd (
                  ground (
                    arith,
                    (rw (f, verify_bucket_exclusive) at (rw (e, verify_bucket_exclusive) at h)),
                  ))
              | inr (alives, f) ↦ elim (Bool-cases (is_taken m rowkey xs alives)) [
                | inl taken ↦ absurd (
                    ground (
                      arith,
                      (rw (taken, verify_bucket_exclusive) at
                          (rw (f, verify_bucket_exclusive) at
                            (rw (e, verify_bucket_exclusive) at h))),
                    ))
                | inr free ↦
                    let replies : alives ≡ map (λ k. (law.view s).lives k) ks =
                      rw seen at (exist_rows-reply r law s' ks alives f) in
                    let listed = bucket_members-reply r law table idx enc_val s bs xs e in
                    (
                      rw (e, verify_bucket_exclusive)
                          (rw (f, verify_bucket_exclusive)
                            (rw (free, verify_bucket_exclusive)
                              (exist_rows-view r law s' ks ∙ seen))),
                      rw listed at
                          (is_taken-IsFree m table (law.view s) rowkey xs (rw replies at free)),
                    )
              ]
            ]
      ]
