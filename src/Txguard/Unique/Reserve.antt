-- ===== src/Txguard/Unique/Reserve.antt =====
-- What a reservation that succeeds guarantees, and what a live owner does to it.
use ki_db.Base.{
  ℕ, ◌≡◌, ◌≢◌, ◌⊎◌, refl, sym, ◌∙◌, inl, inr, arith, ◌∷◌, Option, some, Bytes, true, false, All,
  Free, index_byte-first, take-append_length, format_uint, same_text, same_text-eq, same_text_refl,
  Bool-cases, Option-cases,
}
use ki_db.Keycodec.Keys.{unique_key, escape_value}
use ki_db.Rowcodec.Member.{Msgp}
use ki_db.Bucketmap.{Doc}
use ki_db.Txguard.Keyspace.{Redis, Keyspace, IsLawful, put}
use ki_db.Txguard.Unique.{
  Verdict, owner_row, owner_of, unique_resv_ttl, readable_buckets, retry_reserve, retry_and_verify,
  contend, reserve_unique,
}
use ki_db.Txguard.Unique.Exclusive.{IsFree, firsts, verify-reserved}

pub owner_row-owner_of :
    (rowkey : Bytes) (now : ℕ) → Free 124 rowkey → owner_row (owner_of rowkey now) ≡ rowkey
unfolding owner_row owner_of
owner_row-owner_of rowkey now h =
    let first = index_byte-first 124 rowkey (format_uint now 10) h in
    rw (first, owner_row) (take-append_length rowkey (124 ∷ format_uint now 10))

pub put-same : (k v : Bytes) (w : Keyspace) → (put k v w).held k ≡ some v
put-same k v w = rw (same_text_refl k) refl

pub not_same : (a b : Bytes) → a ≢ b → same_text a b ≡ false
not_same a b ne = elim (Bool-cases (same_text a b)) [
  | inl e ↦ elim (ne (same_text-eq a b e)) [ ]
  | inr e ↦ e
]

module _ (r : Redis) (law : IsLawful r) (xxhash : Bytes → ℕ) (m : Msgp) (table idx : Bytes)
    (d : Option Doc) where
  -- The listed members of the readable buckets name dead rows or this one.
  abbrev pub AllFree : Keyspace → Bytes → Bytes → Type 0
  AllFree w enc_val rowkey =
      All (IsFree m table w rowkey) (firsts r law table idx enc_val w (readable_buckets d enc_val))

  retry-reserved :
      (s : r.Server) (rkey owner enc_val rowkey : Bytes)
      → (retry_and_verify r xxhash m table idx d s rkey owner enc_val rowkey).1 ≡ Verdict.reserved
      → ((law.view (retry_and_verify r xxhash m table idx d s rkey owner enc_val rowkey).0).held
            rkey
          ≡ some owner)
        × AllFree (law.view s) enc_val rowkey
  unfolding retry_and_verify retry_reserve
  retry-reserved s rkey owner enc_val rowkey h =
      elim (Option-cases (r.set_nx s rkey owner unique_resv_ttl).1) [
        | inl e ↦ absurd (ground (arith, (rw (e, retry_and_verify) at h)))
        | inr (set, e) ↦ elim (Bool-cases set) [
          | inr refused ↦
              absurd (
                ground (arith, (rw (refused, retry_and_verify) at (rw (e, retry_and_verify) at h))))
          | inl done ↦
              let s' = (r.set_nx s rkey owner unique_resv_ttl).0 in
              let placed = (law.set_nx_set s rkey owner unique_resv_ttl (rw done at e)).1 in
              let (kept, free) =
                verify-reserved r law xxhash m table idx d s' enc_val rowkey
                  (rw (done, retry_and_verify) at (rw (e, retry_and_verify) at h)) in
              (
                rw (e, retry_and_verify)
                    (rw (done, retry_and_verify)
                      (rw (kept, placed) (put-same rkey owner (law.view s)))),
                rw placed at free,
              )
        ]
      ]

-- The reservation stands and is the row's.
abbrev pub IsOwned : Keyspace → Bytes → Bytes → Type 0
IsOwned w k rowkey = (v : Bytes) × (w.held k ≡ some v) × (owner_row v ≡ rowkey)

module _ (r : Redis) (law : IsLawful r) (xxhash : Bytes → ℕ) (m : Msgp) (table idx : Bytes)
    (d : Option Doc) where
  contend-reserved :
      (s : r.Server) (rkey enc_val rowkey : Bytes) (now : ℕ)
      → Free 124 rowkey
      → (contend r xxhash m table idx d s rkey (owner_of rowkey now) enc_val rowkey).1
        ≡ Verdict.reserved
      → IsOwned
          (law.view (contend r xxhash m table idx d s rkey (owner_of rowkey now) enc_val rowkey).0)
          rkey
          rowkey
        × (IsOwned (law.view s) rkey rowkey
            ⊎ AllFree r law xxhash m table idx d (law.view s) enc_val rowkey)
  unfolding contend
  contend-reserved s rkey enc_val rowkey now plain h =
      let s1 = (r.get s rkey).0 in
      let owner = owner_of rowkey now in
      let back = owner_row-owner_of rowkey now plain in
      let seen = law.get_view s rkey in
      elim (Option-cases (r.get s rkey).1) [
        | inl e ↦ absurd (ground (arith, (rw (e, contend) at h)))
        | inr (cur, e) ↦ elim (Option-cases cur) [
          | inl gone ↦
              let (held, free) =
                retry-reserved r law xxhash m table idx d s1 rkey owner enc_val rowkey
                  (rw (gone, contend) at (rw (e, contend) at h)) in
              (rw (e, contend) (rw (gone, contend) (owner, held, back)), inr (rw seen at free))
          | inr (v, has) ↦
              let held : (law.view s).held rkey ≡ some v =
                rw has at (sym (law.get_reply s rkey cur e)) in
              let s2 = (r.exists s1 (owner_row v)).0 in
              let seen2 = law.exists_view s1 (owner_row v) ∙ seen in
              elim (Bool-cases (same_text (owner_row v) rowkey)) [
                | inl own ↦
                    let mine = same_text-eq (owner_row v) rowkey own in
                    (
                      rw (e, contend)
                          (rw (has, contend) (rw (own, contend) (rw seen (v, held, mine)))),
                      inl (v, held, mine),
                    )
                | inr other ↦ elim (Option-cases (r.exists s1 (owner_row v)).1) [
                  | inl f ↦ absurd (
                      ground (
                        arith,
                        (rw (f, contend) at
                            (rw (other, contend) at (rw (has, contend) at (rw (e, contend) at h)))),
                      ))
                  | inr (lives, f) ↦ elim (Bool-cases lives) [
                    | inl alive ↦ absurd (
                        ground (
                          arith,
                          (rw (alive, contend) at
                              (rw (f, contend) at
                                (rw (other, contend) at
                                  (rw (has, contend) at (rw (e, contend) at h))))),
                        ))
                    | inr dead ↦ elim (Bool-cases (r.del s2 rkey).1) [
                      | inr g ↦ absurd (
                          ground (
                            arith,
                            (rw (g, contend) at
                                (rw (dead, contend) at
                                  (rw (f, contend) at
                                    (rw (other, contend) at
                                      (rw (has, contend) at (rw (e, contend) at h)))))),
                          ))
                      | inl g ↦
                          let s3 = (r.del s2 rkey).0 in
                          let erased = law.del_done s2 rkey g in
                          let (now_held, free) =
                            retry-reserved r law xxhash m table idx d s3 rkey owner enc_val rowkey (
                              rw (g, contend) at
                                (rw (dead, contend) at
                                  (rw (f, contend) at
                                    (rw (other, contend) at
                                      (rw (has, contend) at (rw (e, contend) at h)))))) in
                          (
                            rw (e, contend)
                                (rw (has, contend)
                                  (rw (other, contend)
                                    (rw (f, contend)
                                      (rw (dead, contend)
                                        (rw (g, contend) (owner, now_held, back)))))),
                            inr (rw seen2 at (rw erased at free)),
                          )
                    ]
                  ]
                ]
              ]
        ]
      ]

  contend-live_owner :
      (s : r.Server) (k enc_val rowkey v : Bytes) (now : ℕ)
      → (law.view s).held k ≡ some v
      → owner_row v ≢ rowkey
      → (law.view s).lives (owner_row v) ≡ true
      → ((contend r xxhash m table idx d s k (owner_of rowkey now) enc_val rowkey).1
          ≢ Verdict.reserved)
        × (law.view (contend r xxhash m table idx d s k (owner_of rowkey now) enc_val rowkey).0
            ≡ law.view s)
  unfolding contend
  contend-live_owner s k enc_val rowkey v now held other alive =
      let s1 = (r.get s k).0 in
      let seen = law.get_view s k in
      elim (Option-cases (r.get s k).1) [
        | inl e ↦ (rw (e, contend) (λ p. absurd (ground (arith, p))), rw (e, contend) seen)
        | inr (cur, e) ↦
            let has : cur ≡ some v = law.get_reply s k cur e ∙ held in
            let differs : same_text (owner_row v) rowkey ≡ false =
              not_same (owner_row v) rowkey other in
            let seen2 = law.exists_view s1 (owner_row v) ∙ seen in
            elim (Option-cases (r.exists s1 (owner_row v)).1) [
              | inl f ↦ (
                rw (e, contend)
                    (rw (has, contend)
                      (rw (differs, contend) (rw (f, contend) (λ p. absurd (ground (arith, p)))))),
                rw (e, contend) (rw (has, contend) (rw (differs, contend) (rw (f, contend) seen2))),
              )
              | inr (lives, f) ↦
                  let up : lives ≡ true =
                    law.exists_reply s1 (owner_row v) lives f ∙ rw seen alive in
                  (
                    rw (e, contend)
                        (rw (has, contend)
                          (rw (differs, contend)
                            (rw (f, contend)
                              (rw (up, contend) (λ p. absurd (ground (arith, p))))))),
                    rw (e, contend)
                        (rw (has, contend)
                          (rw (differs, contend) (rw (f, contend) (rw (up, contend) seen2)))),
                  )
            ]
      ]

  -- With a row key without a bar, and with any commands failing: a reservation that succeeds leaves
  -- the value reserved for the row, and either it was reserved for the row before or each of the
  -- first 64 members of every readable bucket of the value names a dead row or the row itself.
  pub reserve_unique-reserved :
      (s : r.Server) (val rowkey : Bytes) (now : ℕ)
      → Free 124 rowkey
      → (reserve_unique r xxhash m table idx d s val rowkey now).1 ≡ Verdict.reserved
      → IsOwned
          (law.view (reserve_unique r xxhash m table idx d s val rowkey now).0)
          (unique_key xxhash table idx val)
          rowkey
        × (IsOwned (law.view s) (unique_key xxhash table idx val) rowkey
            ⊎ AllFree r law xxhash m table idx d (law.view s) (escape_value xxhash val) rowkey)
  unfolding reserve_unique
  reserve_unique-reserved s val rowkey now plain h =
      let k = unique_key xxhash table idx val in
      let enc_val = escape_value xxhash val in
      let owner = owner_of rowkey now in
      let s' = (r.set_nx s k owner unique_resv_ttl).0 in
      elim (Option-cases (r.set_nx s (unique_key xxhash table idx val) owner unique_resv_ttl).1) [
        | inl e ↦ absurd (ground (arith, (rw (e, reserve_unique) at h)))
        | inr (set, e) ↦ elim (Bool-cases set) [
          | inr refused ↦
              let same = law.set_nx_refused s k owner unique_resv_ttl (rw refused at e) in
              let both =
                contend-reserved s' k enc_val rowkey now plain
                  (rw (refused, reserve_unique) at (rw (e, reserve_unique) at h)) in
              rw (e, reserve_unique) (rw (refused, reserve_unique) (both.0, rw same at both.1))
          | inl done ↦
              let placed = (law.set_nx_set s k owner unique_resv_ttl (rw done at e)).1 in
              let (kept, free) =
                verify-reserved r law xxhash m table idx d s' enc_val rowkey
                  (rw (done, reserve_unique) at (rw (e, reserve_unique) at h)) in
              (
                rw (e, reserve_unique)
                    (rw (done, reserve_unique)
                      (rw (kept, placed)
                        (
                          owner,
                          put-same k owner (law.view s),
                          owner_row-owner_of rowkey now plain,
                        ))),
                inr (rw placed at free),
              )
        ]
      ]

  reserve-live_value :
      (s : r.Server) (val rowkey v : Bytes) (now : ℕ)
      → (law.view s).held (unique_key xxhash table idx val) ≡ some v
      → owner_row v ≢ rowkey
      → (law.view s).lives (owner_row v) ≡ true
      → ((reserve_unique r xxhash m table idx d s val rowkey now).1 ≢ Verdict.reserved)
        × (law.view (reserve_unique r xxhash m table idx d s val rowkey now).0 ≡ law.view s)
  unfolding reserve_unique
  reserve-live_value s val rowkey v now held other alive =
      let k = unique_key xxhash table idx val in
      let enc_val = escape_value xxhash val in
      let owner = owner_of rowkey now in
      let s0 = (r.set_nx s k owner unique_resv_ttl).0 in
      elim (Option-cases (r.set_nx s (unique_key xxhash table idx val) owner unique_resv_ttl).1) [
        | inl e ↦ elim (law.set_nx_failed s k owner unique_resv_ttl e) [
          | inl same ↦ (
            rw (e, reserve_unique) (λ p. absurd (ground (arith, p))),
            rw (e, reserve_unique) same,
          )
          | inr (free, _) ↦ absurd (ground (arith, (rw held at free)))
        ]
        | inr (set, e) ↦ elim (Bool-cases set) [
          | inl done ↦ absurd (
              ground
                (arith, (rw held at (law.set_nx_set s k owner unique_resv_ttl (rw done at e)).0)))
          | inr refused ↦
              let same = law.set_nx_refused s k owner unique_resv_ttl (rw refused at e) in
              rw (e, reserve_unique)
                (rw (refused, reserve_unique)
                  (rw same at (
                    contend-live_owner s0 k enc_val rowkey v now (rw same held) other
                      (rw same alive))))
        ]
      ]

  -- Where another row that is alive and whose key has no bar made the reservation, at any time: with
  -- any commands failing, the value is not reserved and the reservations stay as they are.
  pub reserve_unique-live_owner :
      (s : r.Server) (val rowkey other : Bytes) (since now : ℕ)
      → (law.view s).held (unique_key xxhash table idx val) ≡ some (owner_of other since)
      → Free 124 other
      → other ≢ rowkey
      → (law.view s).lives other ≡ true
      → ((reserve_unique r xxhash m table idx d s val rowkey now).1 ≢ Verdict.reserved)
        × (law.view (reserve_unique r xxhash m table idx d s val rowkey now).0 ≡ law.view s)
  reserve_unique-live_owner s val rowkey other since now held plain stranger alive =
      let back = owner_row-owner_of other since plain in
      reserve-live_value s val rowkey (owner_of other since) now held (rw back stranger)
        (rw back alive)
