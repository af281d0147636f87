-- ===== src/Txguard/Row/Keeping.antt =====
-- The reservations of a write take none from a row that is alive.
use ki_db.Base.{
  ℕ, ◌≡◌, ◌≢◌, ◌⊎◌, refl, sym, ◌∙◌, inl, inr, arith, List, [], ◌∷◌, ◌++◌, map, Free, Option, none,
  some, Bytes, true, false, same_text, same_text-eq, Bool-cases, Option-cases, some_same,
  if◌then◌else◌,
}
use ki_db.Meta.{IndexDef}
use ki_db.Keycodec.Keys.{row_key, unique_key, escape_value}
use ki_db.Rowcodec.Member.{Msgp, member_pk}
use ki_db.Bucketmap.{Doc}
use ki_db.Txguard.Keyspace.{Redis, Keyspace, IsLawful, put}
use ki_db.Txguard.Unique.{
  Verdict, owner_row, owner_of, unique_resv_ttl, readable_buckets, is_taken, bucket_members,
  exist_rows, release_unique, rollback_reservations, retry_reserve, verify_bucket_exclusive,
  retry_and_verify, contend, reserve_unique,
}
use ki_db.Txguard.Unique.Release.{release_unique-keeps, erase-other, rollback_reservations-keeps}
use ki_db.Txguard.Unique.Exclusive.{exist_rows-view, bucket_members-view}
use ki_db.Txguard.Unique.Reserve.{owner_row-owner_of}
use ki_db.Txguard.Write.{value_of}
use ki_db.Txguard.Row.{Guard, WriteReq, Server, is_unique, has_key, reserve_all}

-- The key is reserved with the value, and the row that the value names is alive.
abbrev pub Stands : Keyspace → Bytes → Bytes → Type 0
Stands w k v = (w.held k ≡ some v) × (w.lives (owner_row v) ≡ true)

put-Stands :
    (w : Keyspace) (key value k v : Bytes)
    → Stands w k v
    → w.held key ≡ none
    → Stands (put key value w) k v
put-Stands w key value k v (h, alive) free = elim (Bool-cases (same_text k key)) [
  | inl e ↦ absurd (ground (arith, h, (rw (sym (same_text-eq k key e)) at free)))
  | inr e ↦ (rw e h, alive)
]

module _ (r : Redis) (law : IsLawful r) (k v : Bytes) where
  -- The reservation stands on a server.
  abbrev pub StandsOn : r.Server → Type 0
  StandsOn s = Stands (law.view s) k v

  set_nx-StandsOn :
      (s : r.Server) (key value : Bytes) (ms : ℕ)
      → StandsOn s
      → StandsOn (r.set_nx s key value ms).0
  set_nx-StandsOn s key value ms h = elim (Option-cases (r.set_nx s key value ms).1) [
    | inl e ↦ elim (law.set_nx_failed s key value ms e) [
      | inl same ↦ rw same h
      | inr (free, placed) ↦ rw placed (put-Stands (law.view s) key value k v h free)
    ]
    | inr (set, e) ↦ elim (Bool-cases set) [
      | inr refused ↦ rw (law.set_nx_refused s key value ms (rw refused at e)) h
      | inl done ↦
          let (free, placed) = law.set_nx_set s key value ms (rw done at e) in
          rw placed (put-Stands (law.view s) key value k v h free)
    ]
  ]

  del-StandsOn : (s : r.Server) (key : Bytes) → k ≢ key → StandsOn s → StandsOn (r.del s key).0
  del-StandsOn s key ne (h, alive) = elim (Bool-cases (r.del s key).1) [
    | inl e ↦ rw (law.del_done s key e) (erase-other (law.view s) key k v h ne, alive)
    | inr e ↦ elim (law.del_failed s key e) [
      | inl same ↦ rw same (h, alive)
      | inr gone ↦ rw gone (erase-other (law.view s) key k v h ne, alive)
    ]
  ]

  del-lives :
      (s : r.Server) (key j : Bytes)
      → (law.view s).lives j ≡ true
      → (law.view (r.del s key).0).lives j ≡ true
  del-lives s key j h = elim (Bool-cases (r.del s key).1) [
    | inl e ↦ rw (law.del_done s key e) h
    | inr e ↦ elim (law.del_failed s key e) [ inl same ↦ rw same h | inr gone ↦ rw gone h ]
  ]

  -- Releases leave the rows as they are.
  release-lives :
      (s : r.Server) (key rowkey j : Bytes)
      → (law.view s).lives j ≡ true
      → (law.view (release_unique r s key rowkey)).lives j ≡ true
  unfolding release_unique
  release-lives s key rowkey j h = elim (Option-cases (r.get s key).1) [
    | inl e ↦ rw (e, release_unique) (rw (law.get_view s key) h)
    | inr (cur, e) ↦ elim (Option-cases cur) [
      | inl free ↦ rw (e, release_unique) (rw (free, release_unique) (rw (law.get_view s key) h))
      | inr (u, has) ↦ elim (Bool-cases (same_text (owner_row u) rowkey)) [
        | inr no_owner ↦
            rw (e, release_unique)
              (rw (has, release_unique) (rw no_owner (rw (law.get_view s key) h)))
        | inl owner ↦
            rw (e, release_unique)
              (rw (has, release_unique)
                (rw owner (del-lives (r.get s key).0 key j (rw (law.get_view s key) h))))
      ]
    ]
  ]

  module _ (rowkey : Bytes) (other : owner_row v ≢ rowkey) where
    release-StandsOn :
        (s : r.Server) (key : Bytes) → StandsOn s → StandsOn (release_unique r s key rowkey)
    unfolding release_unique
    release-StandsOn s key (h, alive) = (
      release_unique-keeps r law s key k v rowkey (h, other),
      release-lives s key rowkey (owner_row v) alive,
    )

    module _ (xxhash : Bytes → ℕ) (m : Msgp) (table idx : Bytes) (d : Option Doc) where
      verify-StandsOn :
          (s : r.Server) (enc_val : Bytes)
          → StandsOn s
          → StandsOn (verify_bucket_exclusive r xxhash m table idx d s enc_val rowkey).0
      unfolding verify_bucket_exclusive
      verify-StandsOn s enc_val h =
          let bs = readable_buckets d enc_val in
          let s' = (bucket_members r table idx enc_val s bs).0 in
          let seen = bucket_members-view r law table idx enc_val s bs in
          elim (Option-cases
            (bucket_members r table idx enc_val s (readable_buckets d enc_val)).1) [
              | inl e ↦ rw (e, verify_bucket_exclusive) (rw seen h)
              | inr (xs, e) ↦
                  let ks = map (λ x. row_key table (member_pk m x false)) xs in
                  let seen2 = exist_rows-view r law s' ks ∙ seen in
                  elim (Option-cases (exist_rows r s' ks).1) [
                    | inl f ↦
                        rw (e, verify_bucket_exclusive)
                          (rw (f, verify_bucket_exclusive) (rw seen2 h))
                    | inr (alives, f) ↦ elim (Bool-cases (is_taken m rowkey xs alives)) [
                      | inl taken ↦
                          rw (e, verify_bucket_exclusive)
                            (rw (f, verify_bucket_exclusive)
                              (rw (taken, verify_bucket_exclusive)
                                (release-StandsOn (exist_rows r s' ks).0
                                  (unique_key xxhash table idx enc_val) (rw seen2 h))))
                      | inr free ↦
                          rw (e, verify_bucket_exclusive)
                            (rw (f, verify_bucket_exclusive)
                              (rw (free, verify_bucket_exclusive) (rw seen2 h)))
                    ]
                  ]
            ]

      retry-StandsOn :
          (s : r.Server) (rkey owner enc_val : Bytes)
          → StandsOn s
          → StandsOn (retry_and_verify r xxhash m table idx d s rkey owner enc_val rowkey).0
      unfolding retry_and_verify retry_reserve
      retry-StandsOn s rkey owner enc_val h =
          let h' = set_nx-StandsOn s rkey owner unique_resv_ttl h in
          elim (Option-cases (r.set_nx s rkey owner unique_resv_ttl).1) [
            | inl e ↦ rw (e, retry_and_verify) h'
            | inr (set, e) ↦ elim (Bool-cases set) [
              | inr refused ↦ rw (e, retry_and_verify) (rw (refused, retry_and_verify) h')
              | inl done ↦
                  rw (e, retry_and_verify)
                    (rw (done, retry_and_verify)
                      (verify-StandsOn (r.set_nx s rkey owner unique_resv_ttl).0 enc_val h'))
            ]
          ]

      contend-StandsOn :
          (s : r.Server) (rkey owner enc_val : Bytes)
          → StandsOn s
          → StandsOn (contend r xxhash m table idx d s rkey owner enc_val rowkey).0
      unfolding contend
      contend-StandsOn s rkey owner enc_val h =
          let s1 = (r.get s rkey).0 in
          let seen = law.get_view s rkey in
          let h1 : StandsOn s1 = rw seen h in
          elim (Option-cases (r.get s rkey).1) [
            | inl e ↦ rw (e, contend) h1
            | inr (cur, e) ↦ elim (Option-cases cur) [
              | inl gone ↦
                  rw (e, contend) (rw (gone, contend) (retry-StandsOn s1 rkey owner enc_val h1))
              | inr (u, has) ↦
                  let s2 = (r.exists s1 (owner_row u)).0 in
                  let seen2 = law.exists_view s1 (owner_row u) ∙ seen in
                  let h2 : StandsOn s2 = rw seen2 h in
                  elim (Bool-cases (same_text (owner_row u) rowkey)) [
                    | inl own ↦ rw (e, contend) (rw (has, contend) (rw (own, contend) h1))
                    | inr stranger ↦ elim (Option-cases (r.exists s1 (owner_row u)).1) [
                      | inl f ↦
                          rw (e, contend)
                            (rw (has, contend) (rw (stranger, contend) (rw (f, contend) h2)))
                      | inr (lives, f) ↦ elim (Bool-cases lives) [
                        | inl alive ↦
                            rw (e, contend)
                              (rw (has, contend)
                                (rw (stranger, contend) (rw (f, contend) (rw (alive, contend) h2))))
                        | inr dead ↦
                            let reply : lives ≡ (law.view s).lives (owner_row u) =
                              law.exists_reply s1 (owner_row u) lives f ∙ rw seen refl in
                            let held : (law.view s).held rkey ≡ some u =
                              rw has at (sym (law.get_reply s rkey cur e)) in
                            let ne : k ≢ rkey = λ same.
                              let eq : u ≡ v = some_same (sym (rw same at h.0) ∙ held) in
                              absurd (ground (arith, h.1, reply, dead, (rw eq at reply))) in
                            let h3 = del-StandsOn s2 rkey ne h2 in
                            elim (Bool-cases (r.del s2 rkey).1) [
                              | inr g ↦
                                  rw (e, contend)
                                    (rw (has, contend)
                                      (rw (stranger, contend)
                                        (rw (f, contend)
                                          (rw (dead, contend) (rw (g, contend) h3)))))
                              | inl g ↦
                                  rw (e, contend)
                                    (rw (has, contend)
                                      (rw (stranger, contend)
                                        (rw (f, contend)
                                          (rw (dead, contend)
                                            (rw (g, contend)
                                              (retry-StandsOn (r.del s2 rkey).0 rkey owner enc_val
                                                h3))))))
                            ]
                      ]
                    ]
                  ]
            ]
          ]

      reserve-StandsOn :
          (s : r.Server) (val : Bytes) (now : ℕ)
          → StandsOn s
          → StandsOn (reserve_unique r xxhash m table idx d s val rowkey now).0
      unfolding reserve_unique
      reserve-StandsOn s val now h =
          let rkey = unique_key xxhash table idx val in
          let enc_val = escape_value xxhash val in
          let owner = owner_of rowkey now in
          let s' = (r.set_nx s rkey owner unique_resv_ttl).0 in
          let h' = set_nx-StandsOn s rkey owner unique_resv_ttl h in
          elim (Option-cases
            (r.set_nx s (unique_key xxhash table idx val) owner unique_resv_ttl).1) [
              | inl e ↦ rw (e, reserve_unique) h'
              | inr (set, e) ↦ elim (Bool-cases set) [
                | inl done ↦
                    rw (e, reserve_unique)
                      (rw (done, reserve_unique) (verify-StandsOn s' enc_val h'))
                | inr refused ↦
                    rw (e, reserve_unique)
                      (rw (refused, reserve_unique) (contend-StandsOn s' rkey owner enc_val h'))
              ]
            ]

Verdict-cases :
    (x : Verdict)
    → (x ≡ Verdict.reserved)
      ⊎ ((x ≡ Verdict.conflict) ⊎ ((x ≡ Verdict.failed) ⊎ (x ≡ Verdict.race)))
Verdict-cases Verdict.reserved = inl refl
Verdict-cases Verdict.conflict = inr (inl refl)
Verdict-cases Verdict.failed = inr (inr (inl refl))
Verdict-cases Verdict.race = inr (inr (inr refl))

module _ (g : Guard) (law : IsLawful g.redis) (xxhash : Bytes → ℕ) (m : Msgp) (req : WriteReq)
    (rowkey k v : Bytes) (other : owner_row v ≢ rowkey) where
  reserve_all-StandsOn :
      (s : Server g) (now : ℕ) (docs : Bytes → Option Doc) (acquired : List Bytes)
      (indexes : List IndexDef)
      → StandsOn g.redis law k v s
      → StandsOn g.redis law k v (reserve_all g xxhash m req rowkey s now docs acquired indexes).0
  unfolding reserve_all
  reserve_all-StandsOn s now docs acquired [] h = h
  reserve_all-StandsOn s now docs acquired (idx ∷ rest) h =
      elim (Option-cases (if is_unique idx.kind then value_of req.fields idx.column else none)) [
        | inl e ↦ rw (e, reserve_all) (reserve_all-StandsOn s now docs acquired rest h)
        | inr (val, e) ↦
            let made =
              reserve_unique g.redis xxhash m req.table idx.id (docs idx.id) s val rowkey now in
            let rkey = unique_key xxhash req.table idx.id val in
            let h' =
              reserve-StandsOn g.redis law k v rowkey other xxhash m req.table idx.id (docs idx.id)
                s val now h in
            let more = if has_key rkey acquired then acquired else acquired ++ (rkey ∷ []) in
            let later = reserve_all-StandsOn made.0 now docs more rest h' in
            elim (Verdict-cases made.1) [
              | inl done ↦ rw (e, reserve_all) (rw (done, reserve_all) later)
              | inr (inl lost) ↦ rw (e, reserve_all) (rw (lost, reserve_all) h')
              | inr (inr (inl broken)) ↦ rw (e, reserve_all) (rw (broken, reserve_all) h')
              | inr (inr (inr raced)) ↦ rw (e, reserve_all) (rw (raced, reserve_all) h')
            ]
      ]

  reserve_all-keeps_value :
      (s : Server g) (now : ℕ) (docs : Bytes → Option Doc) (acquired : List Bytes)
      (indexes : List IndexDef) (keys : List Bytes)
      → (law.view s).held k ≡ some v
      → (law.view s).lives (owner_row v) ≡ true
      → ((law.view (reserve_all g xxhash m req rowkey s now docs acquired indexes).0).held k
          ≡ some v)
        × ((law.view (
                rollback_reservations g.redis
                  (reserve_all g xxhash m req rowkey s now docs acquired indexes).0
                  keys
                  rowkey)).held
              k
            ≡ some v)
  reserve_all-keeps_value s now docs acquired indexes keys held alive =
      let after = reserve_all-StandsOn s now docs acquired indexes (held, alive) in
      (
        after.0,
        rollback_reservations-keeps g.redis law
            (reserve_all g xxhash m req rowkey s now docs acquired indexes).0 keys k v rowkey
            after.0 other,
      )

module _ (g : Guard) (law : IsLawful g.redis) (xxhash : Bytes → ℕ) (m : Msgp) (req : WriteReq)
    (rowkey k other : Bytes) where
  -- With any commands failing: the loop that reserves a write's unique values, and a roll-back after
  -- it, leave in place every reservation that another row made, at any time, if that row is alive
  -- and its key has no bar.
  pub reserve_all-keeps :
      (s : Server g) (since now : ℕ) (docs : Bytes → Option Doc) (acquired : List Bytes)
      (indexes : List IndexDef) (keys : List Bytes)
      → (law.view s).held k ≡ some (owner_of other since)
      → Free 124 other
      → other ≢ rowkey
      → (law.view s).lives other ≡ true
      → ((law.view (reserve_all g xxhash m req rowkey s now docs acquired indexes).0).held k
          ≡ some (owner_of other since))
        × ((law.view (
                rollback_reservations g.redis
                  (reserve_all g xxhash m req rowkey s now docs acquired indexes).0
                  keys
                  rowkey)).held
              k
            ≡ some (owner_of other since))
  reserve_all-keeps s since now docs acquired indexes keys held plain stranger alive =
      let back = owner_row-owner_of other since plain in
      reserve_all-keeps_value g law xxhash m req rowkey k (owner_of other since) (rw back stranger)
        s now docs acquired indexes keys held (rw back alive)
