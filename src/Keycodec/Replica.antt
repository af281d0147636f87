-- ===== src/Keycodec/Replica.antt =====
-- keycodec/keycodec.go, `ReplicaKey`: the replicas of a hot bucket and their slots.
use ki_db.Base.{
  ℕ, zero, suc, ◌+◌, ◌*◌, ◌%◌, ◌<◌, ◌≤◌, ◌≡◌, ◌≢◌, inl, inr, sym, ◌∙◌, [], ◌∷◌, ◌++◌, arith, some,
  Option-cases, Bool-cases, Bytes, Free, index_byte, index_byte-first, index_byte-found,
  drop-append_length, take, drop, ◌==◌,
}
use ki_db.Keycodec.Slot.{slot, slot_tag, Table, num_slots}
use ki_db.Keycodec.Slot.Fill.{IsComplete, slot-lt}
use ki_db.Keycodec.Keys.{replica_key, replica_slot, stride}
use ki_db.Keycodec.Colocation.{slot-tag}

take-Free : (c i : ℕ) (xs : Bytes) → index_byte c xs ≡ some i → Free c (take i xs)
unfolding index_byte
take-Free c i [] h = cc
take-Free c zero (x ∷ xs) h = tt
take-Free c (suc i) (x ∷ xs) h = elim (Bool-cases (x == c)) [
  | inl p ↦ absurd (ground arith)
  | inr p ↦ (ground arith, take-Free c i xs (ground arith))
]

replica_slot-eq : (s k : ℕ) → s < num_slots → replica_slot s k ≡ (s + k * stride) % num_slots
replica_slot-eq s k h = omega arith

closed_later :
    (body suf : Bytes) → (j : ℕ) × (index_byte b'}' (b'{' ∷ (body ++ (b'}' ∷ suf))) ≡ some (suc j))
unfolding index_byte
closed_later body suf = let (j, e) = index_byte-found b'}' body suf in (j, ground (arith, e))

module _ (crc16 : Bytes → ℕ) (t : Table) (complete : IsComplete crc16 t) where
  -- With a table that holds a tag for every slot, the `k`th replica of a bucket, where its key can
  -- be built, lies `k` strides behind the bucket, modulo the number of slots.
  pub slot-replica_key :
      (bucket replica : Bytes) (k : ℕ)
      → replica_key crc16 t bucket k ≡ some replica
      → slot crc16 replica ≡ (slot crc16 bucket + k * stride) % num_slots
  unfolding replica_key
  slot-replica_key bucket replica k h = elim (Option-cases (index_byte b'{' bucket)) [
    | inl e ↦ absurd (ground arith)
    | inr (i, e) ↦
        let s = replica_slot (slot crc16 bucket) k in
        let free = take-Free b'{' i bucket e in
        elim (Option-cases (index_byte b'}' (drop i bucket))) [
          | inl e' ↦ absurd (ground arith)
          | inr (zero, e') ↦ absurd (ground arith)
          | inr (suc j, e') ↦
              let built : replica ≡ take i bucket ++ (slot_tag t s ++ drop (i + suc j + 1) bucket) =
                ground arith in
              rw built (
                slot-tag crc16 t complete (take i bucket) (drop (i + suc j + 1) bucket) s free
                ∙ omega (arith, slot-lt crc16 bucket))
        ]
  ]

  strides_apart :
      (s j k : ℕ)
      → j ≤ 8
      → k ≤ 8
      → j ≢ k
      → (s + j * stride) % num_slots ≢ (s + k * stride) % num_slots
  strides_apart s j k hj hk h = omega arith

  -- A bucket key with a pair of braces has its replicas.
  pub replica_key_total :
      (pre body suf : Bytes) (k : ℕ)
      → Free b'{' pre
      → (replica : Bytes) × (replica_key crc16 t (pre ++ (b'{' ∷ (body ++ (b'}' ∷ suf)))) k
          ≡ some replica)
  unfolding replica_key
  replica_key_total pre body suf k h =
      let bucket = pre ++ (b'{' ∷ (body ++ (b'}' ∷ suf))) in
      elim (Option-cases (replica_key crc16 t bucket k)) [
        | inr found ↦ found
        | inl e ↦ absurd (
            ground (
              arith,
              index_byte-first b'{' pre (body ++ (b'}' ∷ suf)) h,
              drop-append_length pre (b'{' ∷ (body ++ (b'}' ∷ suf))),
              closed_later body suf,
            ))
      ]

  -- With a table that holds a tag for every slot, two different ones of the first eight replicas of
  -- a bucket lie in different slots, and neither in the slot of the bucket.
  pub replica_key-apart :
      (bucket first second : Bytes) (j k : ℕ)
      → replica_key crc16 t bucket j ≡ some first
      → replica_key crc16 t bucket k ≡ some second
      → 0 < j
      → j ≤ 8
      → 0 < k
      → k ≤ 8
      → j ≢ k
      → (slot crc16 first ≢ slot crc16 second) × (slot crc16 first ≢ slot crc16 bucket)
  replica_key-apart bucket first second j k hf hs pj hj pk hk h =
      let f = slot-replica_key bucket first j hf in
      let g = slot-replica_key bucket second k hs in
      let apart = strides_apart (slot crc16 bucket) j k hj hk h in
      (
        λ e. apart (sym f ∙ e ∙ g),
        λ e. source_apart (slot crc16 bucket) j pj hj (slot-lt crc16 bucket) (sym f ∙ e),
      )
    where
      source_apart : (s j : ℕ) → 0 < j → j ≤ 8 → s < num_slots → (s + j * stride) % num_slots ≢ s
      source_apart s j pos hj lt e = omega arith
