-- ===== src/Exec/Seeding.antt =====
-- The merge begins with a queue in order whose ways count their items.
use ki_db.Base.{
  ℕ, zero, suc, ◌+◌, ◌≡◌, inl, inr, refl, ap, ◌∙◌, arith, some, Bool, true, false, ◌==◌, Bool-cases,
  Option-cases, Score, IsOrdered, some_same,
}
use ki_db.Exec.Merge.{Item, Merger, Way, Pages, first_pair, push, set_way, seed}
use ki_db.Exec.Order.{InOrder, IsCounted, push-InOrder, count_way-push}

module _ (s : Score) (o : IsOrdered s) (desc : Bool) (page : Pages) where
  -- No way from number `i` on is in the queue yet.
  abbrev AreAbsent : ℕ → Merger s → Type 0
  AreAbsent i m = (k : ℕ) → (m.ways (i + k)).in_heap ≡ 0

  other_way : (i k : ℕ) → ((i + 1 + k) == i) ≡ false
  other_way i k = ground arith

  next_way : (i k : ℕ) → i + 1 + k ≡ i + (1 + k)
  next_way i k = omega arith

  -- A way that gets a new record stays out of those behind it.
  set_way-AreAbsent :
      (m : Merger s) (i : ℕ) (w : Way)
      → AreAbsent i m
      → (k : ℕ) → (set_way m.ways i w (i + 1 + k)).in_heap ≡ 0
  unfolding set_way
  set_way-AreAbsent m i w h k =
      rw (other_way i k) (ap (λ j. (m.ways j).in_heap) (next_way i k) ∙ h (1 + k))

  first_way : (m : Merger s) (i : ℕ) → AreAbsent i m → (m.ways i).in_heap ≡ 0
  first_way m i h = let e : i + 0 ≡ i = omega arith in rw e at (h 0)

  -- Where comparisons of scores obey IEEE 754, seeding keeps the queue in order and its ways counted.
  pub seed-InOrder :
      (i count : ℕ) (m m' : Merger s)
      → InOrder s desc m.queue
      → IsCounted s m
      → AreAbsent i m
      → seed s page desc i count m ≡ some m'
      → InOrder s desc m'.queue × IsCounted s m'
  unfolding seed set_way
  seed-InOrder i zero m m' h c absent e = rw (some_same e) (h, c)
  seed-InOrder i (suc count) m m' h c absent e = elim (Option-cases (page i 0 1)) [
    | inl p ↦ absurd (ground (arith, (rw (p, seed) at e)))
    | inr (reply, p) ↦ elim (Option-cases (first_pair s reply)) [
      | inl q ↦
          seed-InOrder (i + 1) count _ m' h (marked m i c) (set_way-AreAbsent m i _ absent)
            (rw (q, seed) at (rw (p, seed) at e))
      | inr ((x, f), q) ↦
          let item : Item s = record { member = x; way = i; score = f } in
          seed-InOrder (i + 1) count _ m' (push-InOrder s o desc item m.queue h)
            (entered m i item refl c absent) (set_way-AreAbsent m i _ absent)
            (rw (q, seed) at (rw (p, seed) at e))
    ]
  ]
    where
      marked :
          (m : Merger s) (i : ℕ)
          → IsCounted s m
          → IsCounted s
              (record m { ways = set_way m.ways i (record (m.ways i) { is_done = true }) })
      marked m i c j = elim (Bool-cases (j == i)) [
        | inl same ↦
            let here : j ≡ i = ground (arith, same) in
            rw same (omega (arith, c j, ap (λ k. (m.ways k).in_heap) here))
        | inr other ↦ rw other (c j)
      ]

      entered :
          (m : Merger s) (i : ℕ) (item : Item s)
          → item.way ≡ i
          → IsCounted s m
          → AreAbsent i m
          → IsCounted s (record {
            queue = push s desc item m.queue;
            ways = set_way m.ways i (record (m.ways i) { cursor = 1; in_heap = 1 });
          })
      entered m i item named c absent j =
          rw (count_way-push s o desc j item m.queue, named)
            (elim (Bool-cases (j == i)) [
              | inl same ↦
                  let here : j ≡ i = ground (arith, same) in
                  let none_yet = first_way m i absent in
                  rw same (omega (arith, c j, none_yet, ap (λ k. (m.ways k).in_heap) here))
              | inr other ↦ rw other (c j)
            ])
