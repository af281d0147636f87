-- ===== src/Keycodec/Slot/Fill.antt =====
-- keycodec/slot.go, `init`: the loop ends, and the table that it leaves is complete and right.
use ki_db.Base.{
  ℕ, zero, suc, ◌+◌, ◌<◌, ◌≤◌, ◌≡◌, ◌≢◌, inl, inr, refl, sym, ap, ◌∙◌, [], arith, true, false, some,
  Bytes, ltb, ◌==◌, if◌then◌else◌, Bool-cases,
}
use ki_db.Keycodec.Slot.{candidate, slot, fill, init, Table, num_slots, is_empty, update}

-- How many of the first `k` entries are set.
count_set : Table → ℕ → ℕ
count_set t zero = 0
count_set t (suc k) = if is_empty (t k) then count_set t k else suc (count_set t k)

count_set-le : (t : Table) (k : ℕ) → count_set t k ≤ k
unfolding count_set
count_set-le t zero = omega arith
count_set-le t (suc k) = ground (arith, count_set-le t k)

-- A full count leaves no entry empty.
count_set-full : (t : Table) (k : ℕ) → count_set t k ≡ k → (s : ℕ) → s < k → is_empty (t s) ≡ false
unfolding count_set
count_set-full t zero h s lt = absurd (omega arith)
count_set-full t (suc k) h s lt = elim (Bool-cases (s == k)) [
  | inl e ↦ ground (arith, count_set-le t k)
  | inr e ↦ ground (
    arith,
    count_set-le t k,
    count_set-full t k (ground (arith, count_set-le t k)) s (ground arith),
  )
]

candidate_set : (n : ℕ) → is_empty (candidate n) ≡ false
unfolding candidate
candidate_set n = refl

count_set-update_out :
    (t : Table) (s n k : ℕ) → k ≤ s → count_set (update t s (candidate n)) k ≡ count_set t k
unfolding count_set
count_set-update_out t s n zero h = refl
count_set-update_out t s n (suc k) h = ground (arith, count_set-update_out t s n k)

-- An empty entry that is set counts once.
count_set-update :
    (t : Table) (s n k : ℕ)
    → s < k
    → is_empty (t s) ≡ true
    → count_set (update t s (candidate n)) k ≡ suc (count_set t k)
unfolding count_set
count_set-update t s n zero h e = absurd (omega arith)
count_set-update t s n (suc k) h e =
    ground (arith, candidate_set n, count_set-update t s n k, count_set-update_out t s n k)

count_set-all : (t : Table) (k : ℕ) → ((s : ℕ) → s < k → is_empty (t s) ≡ false) → count_set t k ≡ k
unfolding count_set
count_set-all t zero h = refl
count_set-all t (suc k) h = ground (arith, h k, count_set-all t k (λ s lt. h s (omega arith)))

count_set-none : (k : ℕ) → count_set (λ _. []) k ≡ 0
unfolding count_set
count_set-none zero = refl
count_set-none (suc k) = count_set-none k

module _ (crc16 : Bytes → ℕ) where
  -- Entry `s` is a candidate tag of slot `s`.
  abbrev pub IsTag : Table → ℕ → Type 0
  IsTag t s = (m : ℕ) × (t s ≡ candidate m) × (slot crc16 (candidate m) ≡ s)

  -- Every slot has its tag.
  abbrev pub IsComplete : Table → Type 0
  IsComplete t = (s : ℕ) → s < num_slots → IsTag t s

  -- The first `bound` candidates reach every slot.
  abbrev pub Covers : ℕ → Type 0
  Covers bound = (s : ℕ) → s < num_slots → (m : ℕ) × (m < bound) × (slot crc16 (candidate m) ≡ s)

  pub slot-lt : (key : Bytes) → slot crc16 key < num_slots
  unfolding slot
  slot-lt key = omega arith

  -- The state of the loop before candidate `n`.
  record IsFilled (n filled : ℕ) (t : Table) : Type 0 where
    counted : filled ≡ count_set t num_slots
    right : (s : ℕ) → is_empty (t s) ≡ false → IsTag t s
    seen : (m : ℕ) → m < n → is_empty (t (slot crc16 (candidate m))) ≡ false

  taken-IsFilled :
      (n filled : ℕ) (t : Table)
      → IsFilled n filled t
      → is_empty (t (slot crc16 (candidate n))) ≡ false
      → IsFilled (n + 1) filled t
  taken-IsFilled n filled t v e = record {
    counted = v.counted;
    right = v.right;
    seen = λ m h. elim (Bool-cases (m == n)) [
      | inl p ↦ let q : m ≡ n = ground arith in rw q e
      | inr p ↦ v.seen m (ground arith)
    ];
  }

  set-IsFilled :
      (n filled : ℕ) (t : Table)
      → IsFilled n filled t
      → is_empty (t (slot crc16 (candidate n))) ≡ true
      → IsFilled (n + 1) (filled + 1) (update t (slot crc16 (candidate n)) (candidate n))
  set-IsFilled n filled t v e = record {
    counted = omega (
      arith,
      v.counted,
      count_set-update t (slot crc16 (candidate n)) n num_slots (slot-lt (candidate n)) e,
    );
    right = λ s h. elim (Bool-cases (slot crc16 (candidate n) == s)) [
      | inl p ↦ (n, rw p, ground arith)
      | inr p ↦ rw p (v.right s (rw p at h))
    ];
    seen = λ m h. elim (Bool-cases (slot crc16 (candidate n) == slot crc16 (candidate m))) [
      | inl p ↦ rw p (candidate_set n)
      | inr p ↦
          let other : m ≢ n = λ q. ground (arith, ap (λ k. slot crc16 (candidate k)) q) in
          rw p (v.seen m (omega (arith, other)))
    ];
  }

  -- Past the last needed candidate the loop ends by its test.
  full_at_bound :
      (bound filled : ℕ) (t : Table) → Covers bound → IsFilled bound filled t → filled ≡ num_slots
  full_at_bound bound filled t covers v = v.counted ∙ count_set-all t num_slots entry
    where
      entry : (s : ℕ) → s < num_slots → is_empty (t s) ≡ false
      entry s h = let (m, lt, e) = covers s h in rw e at (v.seen m lt)

  stopped-IsComplete :
      (n filled : ℕ) (t : Table) → IsFilled n filled t → ltb filled num_slots ≡ false → IsComplete t
  stopped-IsComplete n filled t v e s h =
      v.right s
        (count_set-full t num_slots (omega (arith, v.counted, count_set-le t num_slots, full)) s h)
    where
      full : num_slots ≤ filled
      full = ground arith

  fill_completes :
      (bound fuel n filled : ℕ) (t : Table)
      → Covers bound
      → fuel + n ≡ suc bound
      → n ≤ bound
      → IsFilled n filled t
      → (t' : Table) × (fill crc16 fuel n filled t ≡ some t') × IsComplete t'
  unfolding fill
  fill_completes bound zero n filled t covers f le v = absurd (omega arith)
  fill_completes bound (suc fuel) n filled t covers f le v =
      elim (Bool-cases (ltb filled num_slots)) [
        | inr stop ↦ rw stop (t, refl, stopped-IsComplete n filled t v stop)
        | inl go ↦
            let more : n < bound = below n le go v in
            elim (Bool-cases (is_empty (t (slot crc16 (candidate n))))) [
              | inl e ↦
                  rw (go, e)
                    (fill_completes bound fuel (n + 1) (filled + 1)
                      (update t (slot crc16 (candidate n)) (candidate n)) covers (omega arith)
                      (omega arith) (set-IsFilled n filled t v e))
              | inr e ↦
                  rw (go, e)
                    (fill_completes bound fuel (n + 1) filled t covers (omega arith) (omega arith)
                      (taken-IsFilled n filled t v e))
            ]
      ]
    where
      below : (n : ℕ) → n ≤ bound → ltb filled num_slots ≡ true → IsFilled n filled t → n < bound
      below n le go v = elim (Bool-cases (ltb n bound)) [
        | inl lt ↦ ground arith
        | inr ge ↦
            let last : n ≡ bound = ground arith in
            absurd (ground (arith, full_at_bound bound filled t covers (rw last at v)))
      ]

  -- If the first `bound` candidates reach every slot, `init` ends within `bound + 1` rounds, and
  -- each entry of its table is a tag of that entry's slot.
  pub init-IsComplete :
      (bound : ℕ) → Covers bound → (t : Table) × (init crc16 (suc bound) ≡ some t) × IsComplete t
  unfolding init
  init-IsComplete bound covers =
      fill_completes bound (suc bound) 0 0 (λ _. []) covers (omega arith) (omega arith)
        (record {
          counted = sym (count_set-none num_slots);
          right = λ s h. cc;
          seen = λ m h. absurd (omega arith);
        })
