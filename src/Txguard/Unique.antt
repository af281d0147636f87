-- ===== src/Txguard/Unique.antt =====
-- txguard/txguard.go: the reservation of a unique value, its check against the index's bucket, its
-- release and its roll-back, and the sweeper's release (sweeper/sweeper.go).
pub mod Release
pub mod Reserve
pub mod Exclusive
pub mod Healing
mod Tests
use ki_db.Base.{
  ℕ, suc, ◌+◌, ◌-◌, List, [], ◌∷◌, ◌++◌, map, Option, none, some, Bytes, codes, Bool, true, false,
  ◌&&◌, not, pos, length, take, drop, index_byte, format_uint, same_text, if◌then◌else◌, parse_uint,
}
use ki_db.Keycodec.Keys.{row_key, unique_key, eq_bucket_key_esc, escape_value}
use ki_db.Rowcodec.Member.{Msgp, member_pk}
use ki_db.Bucketmap.{Doc, read_buckets_eq}
use ki_db.Txguard.Keyspace.{Redis}

-- `strings.SplitN(v, "|", 2)[0]`
unfoldable pub owner_row : Bytes → Bytes
owner_row v = elim (index_byte 124 v) [ none ↦ v | some i ↦ take i v ]

-- The value of a reservation: the row's key and the time in seconds.
unfoldable pub owner_of : Bytes → ℕ → Bytes
owner_of rowkey now = rowkey ++ (124 ∷ format_uint now 10)

-- `uniqueResvTTL` in milliseconds.
abbrev pub unique_resv_ttl : ℕ
unique_resv_ttl = 86400000

pub data Verdict : Type 0 where
  -- `true, nil`
  reserved : Verdict
  -- `false, nil`
  conflict : Verdict
  -- An error of the server.
  failed : Verdict
  -- The error of `retryReserve`.
  race : Verdict

-- `myPK`: the text between the first opening brace and the last byte.
unfoldable pub my_pk : Bytes → Bytes
my_pk rowkey =
    let from : ℕ = elim (index_byte 123 rowkey) [ none ↦ 0 | some i ↦ suc i ] in
    take (length rowkey - 1 - from) (drop from rowkey)

unfoldable pub readable_buckets : Option Doc → Bytes → List ℕ
readable_buckets none enc_val = 0 ∷ []
readable_buckets (some d) enc_val = elim (read_buckets_eq d enc_val) [
  | [] ↦ 0 ∷ []
  | ◌∷◌ b bs ↦ b ∷ bs
]

module _ (m : Msgp) where
  -- The members of other rows that are alive, by the replies of EXISTS; a missing reply panics in
  -- the source and cannot occur.
  unfoldable pub is_taken : Bytes → List Bytes → List Bool → Bool
  unfolding my_pk
  is_taken rowkey [] alives = false
  is_taken rowkey (x ∷ xs) [] = false
  is_taken rowkey (x ∷ xs) (alive ∷ alives) =
      let rest : Bool = is_taken rowkey xs alives in
      if alive && not (same_text (member_pk m x false) (my_pk rowkey)) then true else rest

module _ (r : Redis) where
  unfoldable pub release_unique : r.Server → Bytes → Bytes → r.Server
  unfolding owner_row
  release_unique s rkey rowkey =
      let (s', reply) = r.get s rkey in
      elim reply [
        | none ↦ s'
        | some cur ↦ elim cur [
          | none ↦ s'
          | some v ↦ if same_text (owner_row v) rowkey then (r.del s' rkey).0 else s'
        ]
      ]

  unfoldable pub rollback_reservations : r.Server → List Bytes → Bytes → r.Server
  unfolding release_unique
  rollback_reservations s [] rowkey = s
  rollback_reservations s (k ∷ ks) rowkey =
      rollback_reservations (release_unique s k rowkey) ks rowkey

  unfoldable pub retry_reserve : r.Server → Bytes → Bytes → r.Server × Verdict
  retry_reserve s rkey owner =
      let (s', reply) = r.set_nx s rkey owner unique_resv_ttl in
      (s', elim reply [ none ↦ failed | some set ↦ if set then reserved else race ])

  -- The members of the buckets, 64 of each.
  unfoldable pub bucket_members :
      Bytes → Bytes → Bytes → r.Server → List ℕ → r.Server × Option (List Bytes)
  bucket_members table idx enc_val s [] = (s, some [])
  bucket_members table idx enc_val s (b ∷ bs) =
      let (s', reply) = r.zrange s (eq_bucket_key_esc table idx enc_val (pos b)) 64 in
      let (s'', others) = bucket_members table idx enc_val s' bs in
      elim reply [
        | none ↦ (s', none)
        | some xs ↦ (s'', elim others [ none ↦ none | some ys ↦ some (xs ++ ys) ])
      ]

  -- The pipeline of EXISTS; an error of one is an error of the whole.
  unfoldable pub exist_rows : r.Server → List Bytes → r.Server × Option (List Bool)
  exist_rows s [] = (s, some [])
  exist_rows s (k ∷ ks) =
      let (s', reply) = r.exists s k in
      let (s'', others) = exist_rows s' ks in
      (
        s'',
        elim reply [ none ↦ none | some a ↦ elim others [ none ↦ none | some bs ↦ some (a ∷ bs) ] ],
      )

  module _ (xxhash : Bytes → ℕ) (m : Msgp) (table idx : Bytes) (d : Option Doc) where
    unfoldable pub verify_bucket_exclusive : r.Server → Bytes → Bytes → r.Server × Verdict
    unfolding readable_buckets bucket_members exist_rows is_taken release_unique unique_key row_key
    verify_bucket_exclusive s enc_val rowkey =
        let (s', listed) = bucket_members table idx enc_val s (readable_buckets d enc_val) in
        elim listed [
          | none ↦ (s', failed)
          | some xs ↦
              let (s'', replies) =
                exist_rows s' (map (λ x. row_key table (member_pk m x false)) xs) in
              elim replies [
                | none ↦ (s'', failed)
                | some alives ↦
                    if is_taken m rowkey xs alives
                    then (release_unique s'' (unique_key xxhash table idx enc_val) rowkey, conflict)
                    else (s'', reserved)
              ]
        ]

    -- `retryReserve` and the check of the bucket.
    unfoldable pub retry_and_verify : r.Server → Bytes → Bytes → Bytes → Bytes → r.Server × Verdict
    unfolding retry_reserve verify_bucket_exclusive
    retry_and_verify s rkey owner enc_val rowkey =
        let (s', verdict) = retry_reserve s rkey owner in
        elim verdict [
          | reserved ↦ verify_bucket_exclusive s' enc_val rowkey
          | conflict ↦ (s', conflict)
          | failed ↦ (s', failed)
          | race ↦ (s', race)
        ]

    -- The part of `reserveUnique` behind the answer of SET NX that the key exists.
    unfoldable pub contend : r.Server → Bytes → Bytes → Bytes → Bytes → r.Server × Verdict
    unfolding retry_and_verify owner_row
    contend s rkey owner enc_val rowkey =
        let (s1, got) = r.get s rkey in
        elim got [
          | none ↦ (s1, failed)
          | some cur ↦ elim cur [
            | none ↦ retry_and_verify s1 rkey owner enc_val rowkey
            | some v ↦
                let (s2, alive) = r.exists s1 (owner_row v) in
                let (s3, deleted) = r.del s2 rkey in
                if same_text (owner_row v) rowkey then (s1, reserved) else elim alive [
                  | none ↦ (s2, failed)
                  | some lives ↦
                      if lives
                      then (s2, conflict)
                      else if deleted
                      then retry_and_verify s3 rkey owner enc_val rowkey
                      else (s3, failed)
                ]
          ]
        ]

    unfoldable pub reserve_unique : r.Server → Bytes → Bytes → ℕ → r.Server × Verdict
    unfolding owner_of contend verify_bucket_exclusive escape_value unique_key
    reserve_unique s val rowkey now =
        let enc_val = escape_value xxhash val in
        let rkey = unique_key xxhash table idx val in
        let (s', reply) = r.set_nx s rkey (owner_of rowkey now) unique_resv_ttl in
        elim reply [
          | none ↦ (s', failed)
          | some set ↦
              if set
              then verify_bucket_exclusive s' enc_val rowkey
              else contend s' rkey (owner_of rowkey now) enc_val rowkey
        ]
