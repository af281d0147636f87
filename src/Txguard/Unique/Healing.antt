-- ===== src/Txguard/Unique/Healing.antt =====
-- The reservation of a row that is dead goes to the next one; so does that of a live row whose
-- primary key holds a bar.
use ki_db.Base.{
  ℕ, ◌≡◌, ◌≢◌, refl, ◌∙◌, inl, inr, List, [], ◌∷◌, ◌++◌, map, Option, none, some, Bytes, false, pos,
  All, Free, index_byte-first, take-append_length, append_assoc, format_uint, same_text_refl,
  Bool-cases,
}
use ki_db.Keycodec.Keys.{row_key, unique_key, escape_value, eq_bucket_key_esc}
use ki_db.Rowcodec.Member.{Msgp, member_pk}
use ki_db.Bucketmap.{Doc}
use ki_db.Txguard.Keyspace.{Redis, Keyspace, IsLawful, IsHealthy, put, erase}
use ki_db.Txguard.Unique.{
  Verdict, my_pk, is_taken, owner_row, owner_of, unique_resv_ttl, readable_buckets, bucket_members,
  exist_rows, retry_reserve, verify_bucket_exclusive, retry_and_verify, contend, reserve_unique,
}
use ki_db.Txguard.Unique.Exclusive.{IsFree, firsts, bucket_members-view, verify-reserved}
use ki_db.Txguard.Unique.Reserve.{AllFree, put-same, not_same}

IsFree-is_taken :
    (m : Msgp) (table : Bytes) (w : Keyspace) (rowkey : Bytes) (xs : List Bytes)
    → All (IsFree m table w rowkey) xs
    → is_taken m rowkey xs
        (map (λ k. w.lives k) (map (λ x. row_key table (member_pk m x false)) xs))
      ≡ false
unfolding is_taken
IsFree-is_taken m table w rowkey [] h = refl
IsFree-is_taken m table w rowkey (x ∷ xs) h =
    let rest = IsFree-is_taken m table w rowkey xs h.1 in
    elim (Bool-cases (w.lives (row_key table (member_pk m x false)))) [
      | inr dead ↦ rw dead rest
      | inl alive ↦ rw alive (rw (h.0 alive, same_text_refl (my_pk rowkey)) rest)
    ]

module _ (r : Redis) (law : IsLawful r) (healthy : IsHealthy r law) where
  exist_rows-healthy :
      (s : r.Server) (ks : List Bytes)
      → (exist_rows r s ks).1 ≡ some (map (λ k. (law.view s).lives k) ks)
  unfolding exist_rows
  exist_rows-healthy s [] = refl
  exist_rows-healthy s (k ∷ ks) =
      let rest : (exist_rows r (r.exists s k).0 ks).1 ≡ some (map (λ j. (law.view s).lives j) ks) =
        rw (law.exists_view s k) at (exist_rows-healthy (r.exists s k).0 ks) in
      rw (healthy.exists_succeeds s k, exist_rows) (rw rest refl)

  bucket_members-healthy :
      (table idx enc_val : Bytes) (s : r.Server) (bs : List ℕ)
      → (bucket_members r table idx enc_val s bs).1
        ≡ some (firsts r law table idx enc_val (law.view s) bs)
  unfolding bucket_members
  bucket_members-healthy table idx enc_val s [] = refl
  bucket_members-healthy table idx enc_val s (b ∷ bs) =
      let k = eq_bucket_key_esc table idx enc_val (pos b) in
      let rest : (bucket_members r table idx enc_val (r.zrange s k 64).0 bs).1
          ≡ some (firsts r law table idx enc_val (law.view s) bs) =
        rw (law.zrange_view s k 64) at
          (bucket_members-healthy table idx enc_val (r.zrange s k 64).0 bs) in
      rw (healthy.zrange_succeeds s k 64, bucket_members) (rw rest refl)

  module _ (xxhash : Bytes → ℕ) (m : Msgp) (table idx : Bytes) (d : Option Doc) where
    verify-healthy :
        (s : r.Server) (enc_val rowkey : Bytes)
        → AllFree r law xxhash m table idx d (law.view s) enc_val rowkey
        → (verify_bucket_exclusive r xxhash m table idx d s enc_val rowkey).1 ≡ Verdict.reserved
    unfolding verify_bucket_exclusive
    verify-healthy s enc_val rowkey free =
        let bs = readable_buckets d enc_val in
        let s' = (bucket_members r table idx enc_val s bs).0 in
        let xs = firsts r law table idx enc_val (law.view s) bs in
        let ks = map (λ x. row_key table (member_pk m x false)) xs in
        let alives : (exist_rows r s' ks).1 ≡ some (map (λ k. (law.view s).lives k) ks) =
          rw (bucket_members-view r law table idx enc_val s bs) at (exist_rows-healthy s' ks) in
        rw (bucket_members-healthy table idx enc_val s bs, verify_bucket_exclusive)
          (rw (alives, verify_bucket_exclusive)
            (rw (IsFree-is_taken m table (law.view s) rowkey xs free, verify_bucket_exclusive)
              refl))

    -- On a server on which no command fails: where the row that holds the reservation is dead, and
    -- the first 64 members of every readable bucket name dead rows or this one, the value is
    -- reserved for this row.
    pub reserve_unique-heals :
        (s : r.Server) (val rowkey v : Bytes) (now : ℕ)
        → (law.view s).held (unique_key xxhash table idx val) ≡ some v
        → owner_row v ≢ rowkey
        → (law.view s).lives (owner_row v) ≡ false
        → AllFree r law xxhash m table idx d (law.view s) (escape_value xxhash val) rowkey
        → ((reserve_unique r xxhash m table idx d s val rowkey now).1 ≡ Verdict.reserved)
          × ((law.view (reserve_unique r xxhash m table idx d s val rowkey now).0).held
                (unique_key xxhash table idx val)
              ≡ some (owner_of rowkey now))
    unfolding reserve_unique contend retry_and_verify retry_reserve
    reserve_unique-heals s val rowkey v now held other dead free =
        let k = unique_key xxhash table idx val in
        let enc_val = escape_value xxhash val in
        let owner = owner_of rowkey now in
        let s0 = (r.set_nx s k owner unique_resv_ttl).0 in
        let refused = healthy.set_nx_refuses s k owner v unique_resv_ttl held in
        let at0 = law.set_nx_refused s k owner unique_resv_ttl refused in
        let s1 = (r.get s0 k).0 in
        let at1 = law.get_view s0 k ∙ at0 in
        let got : (r.get s0 k).1 ≡ some (some v) =
          healthy.get_succeeds s0 k ∙ rw (at0, held) refl in
        let s2 = (r.exists s1 (owner_row v)).0 in
        let at2 = law.exists_view s1 (owner_row v) ∙ at1 in
        let gone : (r.exists s1 (owner_row v)).1 ≡ some false =
          healthy.exists_succeeds s1 (owner_row v) ∙ rw (at1, dead) refl in
        let s3 = (r.del s2 k).0 in
        let deleted = healthy.del_succeeds s2 k in
        let at3 : law.view s3 ≡ erase k (law.view s) = law.del_done s2 k deleted ∙ rw at2 refl in
        let empty : (law.view s3).held k ≡ none = rw at3 (rw (same_text_refl k) refl) in
        let set = healthy.set_nx_succeeds s3 k owner unique_resv_ttl empty in
        let s4 = (r.set_nx s3 k owner unique_resv_ttl).0 in
        let at4 : law.view s4 ≡ put k owner (erase k (law.view s)) =
          (law.set_nx_set s3 k owner unique_resv_ttl set).1 ∙ rw at3 refl in
        let ok = verify-healthy s4 enc_val rowkey (rw at4 free) in
        let kept = (verify-reserved r law xxhash m table idx d s4 enc_val rowkey ok).0 in
        let differs = not_same (owner_row v) rowkey other in
        (
          rw (refused, reserve_unique)
              (rw (got, contend)
                (rw (differs, contend)
                  (rw (gone, contend) (rw (deleted, contend) (rw (set, retry_and_verify) ok))))),
          rw (refused, reserve_unique)
              (rw (got, contend)
                (rw (differs, contend)
                  (rw (gone, contend)
                    (rw (deleted, contend)
                      (rw (set, retry_and_verify)
                        (rw (kept, at4) (put-same k owner (erase k (law.view s))))))))),
        )

    -- On a server on which no command fails: where a row holds the reservation whose key has a bar,
    -- where the part of the key in front of its first bar is neither the key of an existing row nor
    -- this row's, and where no live row of another key is among the first 64 members of a readable
    -- bucket: the value is reserved for this row, although the holder may be alive.
    pub reserve_unique-bar :
        (s : r.Server) (val rowkey before after : Bytes) (since now : ℕ)
        → Free 124 before
        → (law.view s).held (unique_key xxhash table idx val)
          ≡ some (owner_of (before ++ (124 ∷ after)) since)
        → before ≢ rowkey
        → (law.view s).lives before ≡ false
        → AllFree r law xxhash m table idx d (law.view s) (escape_value xxhash val) rowkey
        → ((reserve_unique r xxhash m table idx d s val rowkey now).1 ≡ Verdict.reserved)
          × ((law.view (reserve_unique r xxhash m table idx d s val rowkey now).0).held
                (unique_key xxhash table idx val)
              ≡ some (owner_of rowkey now))
    unfolding owner_row owner_of
    reserve_unique-bar s val rowkey before after since now plain held other dead free =
        let v = owner_of (before ++ (124 ∷ after)) since in
        let cut : owner_row v ≡ before =
          rw (append_assoc before (124 ∷ after) (124 ∷ format_uint since 10)) (
            rw
              (index_byte-first 124 before (after ++ (124 ∷ format_uint since 10)) plain, owner_row)
              (take-append_length before (124 ∷ (after ++ (124 ∷ format_uint since 10))))) in
        reserve_unique-heals s val rowkey v now held (rw cut other) (rw cut dead) free
