-- ===== src/Exec/MergeOrder.antt =====
-- The order in which the merge hands items on.
use ki_db.Base.{
  ℕ, suc, ◌≡◌, refl, sym, List, [], ◌∷◌, arith, some, Bytes, Bool, true, false, ◌&&◌, not, ltb,
  ◌==◌, ◌-◌, inl, inr, Bool-cases, Score,
}
use ki_db.Exec.Merge.{
  Item, Merger, Way, Pages, set_way, less, push, score_text, first_pair, push_page, seed,
  refill_way, refill_ways, pop_batch, step, steps, merge,
}

-- No item comes directly in front of one that precedes it by score.
abbrev pub is_sorted : (s : Score) → Bool → List (Item s) → Bool
is_sorted s desc [] = true
is_sorted s desc (x ∷ []) = true
is_sorted s desc (x ∷ y ∷ rest) = not (less s desc y x) && is_sorted s desc (y ∷ rest)

module _ (s : Score) (page : Pages) (room size : ℕ) where
  -- The last two steps: one item is left, of a way that is done.
  last_steps :
      (fuel : ℕ) (z : Item s) (ways : ℕ → Way)
      → (ways z.way).is_done ≡ true
      → steps s page false
          (suc (suc fuel))
          (suc (suc (suc room)))
          (suc (suc size))
          (record { queue = z ∷ []; ways = ways })
        ≡ some (z ∷ [])
  unfolding steps step pop_batch refill_ways
  last_steps fuel z ways d = elim (Bool-cases (((ways z.way).in_heap - 1) == 0)) [
    | inl e ↦ rw (e, steps, step) (rw (d, steps, step) refl)
    | inr e ↦ rw (e, steps, step) refl
  ]

  -- The ways after both buckets were seeded.
  abbrev seeded : ℕ → Way
  seeded =
      set_way
        (set_way (λ i. record { cursor = 0; in_heap = 0; is_done = false }) 0
          (record { cursor = 1; in_heap = 1; is_done = false }))
        1 (record { cursor = 1; in_heap = 1; is_done = false })

  module _ (a b c tc : Bytes) (fa fb fc : s.Float) where
    abbrev seeded_queue : List (Item s)
    seeded_queue =
        record { member = a; way = 0; score = fa } ∷ record { member = b; way = 1; score = fb } ∷ []

    -- What the first step leaves.
    abbrev refilled : Merger s
    refilled = refill_way s page false (suc (suc size)) 1 [] (
        refill_way s page false (suc (suc size)) 0 ((c, tc) ∷ [])
          (pop_batch s page false (suc (suc (suc room))) seeded_queue seeded).2)

    first_step :
        page 0 1 (suc (suc size)) ≡ some ((c, tc) ∷ [])
        → page 1 1 (suc (suc size)) ≡ some []
        → step s page false
            (suc (suc (suc room)))
            (suc (suc size))
            (record { queue = seeded_queue; ways = seeded })
          ≡ some (seeded_queue, false, refilled)
    unfolding step pop_batch refill_ways set_way
    first_step q0 q1 = rw (q0, step, refill_ways) (rw (q1, step, refill_ways) refl)

    refilled-queue :
        score_text s tc ≡ some fc → refilled.queue ≡ record { member = c; way = 0; score = fc } ∷ []
    unfolding pop_batch refill_way push_page push
    refilled-queue sc = rw (sc, refill_way, push_page) refl

    refilled-ways : score_text s tc ≡ some fc → (refilled.ways 0).is_done ≡ true
    unfolding pop_batch refill_way push_page set_way
    refilled-ways sc =
        let full : ltb 1 (suc (suc size)) ≡ true = ground arith in
        rw (sc, refill_way, push_page) (rw full refl)

-- Where an interval has two buckets, the first with the two members `a` and `c` and the second
-- with the member `b` whose score is not below that of `a` and above that of `c`, the ascending
-- merge, with room for three in a batch and two in a page, ends without an error and hands its items on out
-- of order. Every score is readable and no NaN.
pub merge_out_of_order :
    (s : Score) (page : Pages) (a b c ta tb tc : Bytes) (fa fb fc : s.Float) (fuel room size : ℕ)
    → page 0 0 1 ≡ some ((a, ta) ∷ [])
    → page 1 0 1 ≡ some ((b, tb) ∷ [])
    → page 0 1 (suc (suc size)) ≡ some ((c, tc) ∷ [])
    → page 1 1 (suc (suc size)) ≡ some []
    → score_text s ta ≡ some fa
    → score_text s tb ≡ some fb
    → score_text s tc ≡ some fc
    → s.lt fb fa ≡ false
    → s.lt fc fb ≡ true
    → (items : List (Item s)) × (merge s page false
          (suc (suc (suc fuel)))
          2
          (suc (suc (suc room)))
          (suc (suc size))
        ≡ some items)
      × (is_sorted s false items ≡ false)
unfolding merge seed first_pair push less set_way steps step pop_batch refill_ways refill_way
    push_page
merge_out_of_order s page a b c ta tb tc fa fb fc fuel room size p0 p1 q0 q1 sa sb sc ab cb =
    let x : Item s = record { member = a; way = 0; score = fa } in
    let y : Item s = record { member = b; way = 1; score = fb } in
    let z : Item s = record { member = c; way = 0; score = fc } in
    let begun : merge s page false (suc (suc (suc fuel))) 2 (suc (suc (suc room))) (suc (suc size))
        ≡ steps s page false (suc (suc (suc fuel))) (suc (suc (suc room))) (suc (suc size))
            (record { queue = x ∷ y ∷ []; ways = seeded s page room size }) =
      rw (p0, merge) (rw (sa, merge) (rw (p1, merge) (rw (sb, merge) (rw (ab, merge) refl)))) in
    let first = first_step s page room size a b c tc fa fb fc q0 q1 in
    let queue = refilled-queue s page room size a b c tc fa fb fc sc in
    let last =
      last_steps s page room size fuel z (refilled s page room size a b c tc fa fb fc).ways
        (refilled-ways s page room size a b c tc fa fb fc sc) in
    (
      x ∷ y ∷ z ∷ [],
      rw begun (rw (first, steps) (rw (rw (sym queue) at last, steps) (rw queue refl))),
      rw (ab, cb) refl,
    )
