-- ===== src/Exec/Popping.antt =====
-- What a step of the merge pops from its queue, and the ways that it empties.
use ki_db.Base.{
  true, In-append_left, In-append_right, ℕ, zero, suc, ◌+◌, ◌-◌, ◌<◌, ◌≡◌, inl, inr, refl, sym, ◌∙◌,
  List, [], ◌∷◌, ◌++◌, arith, none, some, Bool, false, ◌&&◌, not, take, drop, In, ◌==◌,
  if◌then◌else◌, Bool-cases, Score,
}
use ki_db.Exec.Merge.{Item, Way, Pages, set_way, pop_batch}
use ki_db.Exec.Order.{count_way, IsCounted, readable}

module _ (s : Score) (page : Pages) (desc : Bool) (size : ℕ) where
  -- The items of the page that a way is at; none where the server fails.
  abbrev pub page_items : (ℕ → Way) → ℕ → List (Item s)
  page_items ways i = elim (page i (ways i).cursor size) [ none ↦ [] | some es ↦ readable s i es ]

  -- What the ways of the items have on their next page, for each way that is not done and of which
  -- none is left.
  abbrev pub arrivals : (ℕ → Way) → List (Item s) → List (Item s) → List (Item s)
  arrivals ways [] left = []
  arrivals ways (x ∷ xs) left =
      let more = arrivals ways xs left in
      if (count_way x.way left == 0) && not (ways x.way).is_done
      then page_items ways x.way ++ more
      else more

  pub pop_batch-take :
      (room : ℕ) (queue : List (Item s)) (ways : ℕ → Way)
      → ((pop_batch s page desc room queue ways).0 ≡ take room queue)
        × ((pop_batch s page desc room queue ways).2.queue ≡ drop room queue)
  unfolding pop_batch
  pop_batch-take zero queue ways = (refl, refl)
  pop_batch-take (suc room) [] ways = (refl, refl)
  pop_batch-take (suc room) (x ∷ queue) ways =
      let (items, left) = pop_batch-take room queue _ in (rw items refl, left)

  -- A way without the first item of the queue.
  abbrev without : (ℕ → Way) → ℕ → ℕ → Way
  without ways i = set_way ways i (record (ways i) { in_heap = (ways i).in_heap - 1 })

  -- Popping changes no cursor and no mark.
  without-place :
      (ways : ℕ → Way) (i j : ℕ)
      → ((without ways i j).cursor ≡ (ways j).cursor)
        × ((without ways i j).is_done ≡ (ways j).is_done)
  unfolding set_way
  without-place ways i j = elim (Bool-cases (j == i)) [
    | inl e ↦ (ground (arith, e), ground (arith, e))
    | inr e ↦ rw e (refl, refl)
  ]

  without-IsCounted :
      (x : Item s) (queue : List (Item s)) (ways : ℕ → Way)
      → IsCounted s (record { queue = x ∷ queue; ways = ways })
      → IsCounted s (record { queue = queue; ways = without ways x.way })
  unfolding set_way
  without-IsCounted x queue ways c j = elim (Bool-cases (j == x.way)) [
    | inl e ↦ rw e (ground (arith, c x.way, e))
    | inr e ↦ rw e (rw e at (c j))
  ]

  pub pop_batch-place :
      (room : ℕ) (queue : List (Item s)) (ways : ℕ → Way) (j : ℕ)
      → ((((pop_batch s page desc room queue ways).2).ways j).cursor ≡ (ways j).cursor)
        × ((((pop_batch s page desc room queue ways).2).ways j).is_done ≡ (ways j).is_done)
  unfolding pop_batch
  pop_batch-place zero queue ways j = (refl, refl)
  pop_batch-place (suc room) [] ways j = (refl, refl)
  pop_batch-place (suc room) (x ∷ queue) ways j =
      let (a, b) = pop_batch-place room queue (without ways x.way) j in
      let (a', b') = without-place ways x.way j in (a ∙ a', b ∙ b')

  pub pop_batch-IsCounted :
      (room : ℕ) (queue : List (Item s)) (ways : ℕ → Way)
      → IsCounted s (record { queue = queue; ways = ways })
      → IsCounted s (pop_batch s page desc room queue ways).2
  unfolding pop_batch
  pop_batch-IsCounted zero queue ways c = c
  pop_batch-IsCounted (suc room) [] ways c = c
  pop_batch-IsCounted (suc room) (x ∷ queue) ways c =
      pop_batch-IsCounted room queue (without ways x.way) (without-IsCounted x queue ways c)

  count_way-split :
      (i n : ℕ) (xs : List (Item s))
      → count_way i (take n xs) + count_way i (drop n xs) ≡ count_way i xs
  count_way-split i zero xs = omega arith
  count_way-split i (suc n) [] = refl
  count_way-split i (suc n) (x ∷ xs) = elim (Bool-cases (i == x.way)) [
    | inl e ↦ rw e (omega (arith, count_way-split i n xs))
    | inr e ↦ rw e (count_way-split i n xs)
  ]

  pub In-count_way : (x : Item s) (xs : List (Item s)) → In x xs → 0 < count_way x.way xs
  In-count_way x [] h = elim h [ ]
  In-count_way x (y ∷ ys) (inl e) = rw (sym e) (ground arith)
  In-count_way x (y ∷ ys) (inr h) = elim (Bool-cases (x.way == y.way)) [
    | inl e ↦ rw e (omega arith)
    | inr e ↦ rw e (In-count_way x ys h)
  ]

  -- A way that is not done and of which the last item is popped is to be refilled.
  pub pop_batch-emptied :
      (room : ℕ) (queue : List (Item s)) (ways : ℕ → Way) (i : ℕ)
      → IsCounted s (record { queue = queue; ways = ways })
      → (ways i).is_done ≡ false
      → count_way i (drop room queue) ≡ 0
      → 0 < count_way i (take room queue)
      → In i (pop_batch s page desc room queue ways).1
  unfolding pop_batch
  pop_batch-emptied zero queue ways i c going gone some_of = absurd (omega (arith, some_of))
  pop_batch-emptied (suc room) [] ways i c going gone some_of = absurd (omega (arith, some_of))
  pop_batch-emptied (suc room) (x ∷ queue) ways i c going gone some_of =
      let ways' = without ways x.way in
      let c' = without-IsCounted x queue ways c in
      let going' : (ways' i).is_done ≡ false = (without-place ways x.way i).1 ∙ going in
      elim (Bool-cases (count_way i (take room queue) == 0)) [
        | inr more ↦
            let rest = pop_batch-emptied room queue ways' i c' going' gone (ground (arith, more)) in
            elim (Bool-cases ((((ways x.way).in_heap - 1) == 0) && not (ways x.way).is_done)) [
              | inl e ↦ rw e (inr rest)
              | inr e ↦ rw e rest
            ]
        | inl last ↦
            let here : i ≡ x.way = ground (arith, some_of, last) in
            let count : count_way i queue ≡ 0 =
              ground (arith, last, gone, count_way-split i room queue) in
            let left : (ways' i).in_heap ≡ 0 = c' i ∙ count in
            let empty : (ways x.way).in_heap - 1 ≡ 0 = rw (sym here) (ground (arith, left, here)) in
            let open_way : (ways x.way).is_done ≡ false = rw here at going in
            rw (empty, open_way) (inl here)
      ]

  first_counts :
      (x : Item s) (queue : List (Item s))
      → count_way x.way (x ∷ queue) ≡ suc (count_way x.way queue)
  first_counts x queue = let same : (x.way == x.way) ≡ true = ground arith in rw same refl

  -- Only such ways are to be refilled.
  pub pop_batch-refills :
      (room : ℕ) (queue : List (Item s)) (ways : ℕ → Way) (i : ℕ)
      → IsCounted s (record { queue = queue; ways = ways })
      → In i (pop_batch s page desc room queue ways).1
      → (x : Item s) × In x (take room queue)
        × (x.way ≡ i)
        × ((ways i).is_done ≡ false)
        × (count_way i (drop room queue) ≡ 0)
  unfolding pop_batch
  pop_batch-refills zero queue ways i c m = elim m [ ]
  pop_batch-refills (suc room) [] ways i c m = elim m [ ]
  pop_batch-refills (suc room) (x ∷ queue) ways i c m =
      let ways' = without ways x.way in
      let c' = without-IsCounted x queue ways c in
      let later : In i (pop_batch s page desc room queue ways').1
          → (y : Item s) × In y (take (suc room) (x ∷ queue))
            × (y.way ≡ i)
            × ((ways i).is_done ≡ false)
            × (count_way i (drop room queue) ≡ 0) =
        λ p.
          let (y, inside, named, going, gone) = pop_batch-refills room queue ways' i c' p in
          (y, inr inside, named, sym (without-place ways x.way i).1 ∙ going, gone) in
      elim (Bool-cases ((((ways x.way).in_heap - 1) == 0) && not (ways x.way).is_done)) [
        | inr e ↦ later (rw e at m)
        | inl e ↦ elim (rw e at m) [
          | inr p ↦ later p
          | inl here ↦
              let going : (ways x.way).is_done ≡ false = ground (arith, e) in
              let empty : (ways x.way).in_heap - 1 ≡ 0 = ground (arith, e) in
              let count : (ways x.way).in_heap ≡ suc (count_way x.way queue) =
                c x.way ∙ first_counts x queue in
              (
                x,
                inl refl,
                sym here,
                rw here going,
                rw here (omega (arith, empty, count, count_way-split x.way room queue)),
              )
        ]
      ]

  -- The items of such a way's page are among the arrivals.
  pub In-arrivals :
      (ways : ℕ → Way) (xs left : List (Item s)) (x y : Item s)
      → In x xs
      → (ways x.way).is_done ≡ false
      → count_way x.way left ≡ 0
      → In y (page_items ways x.way)
      → In y (arrivals ways xs left)
  In-arrivals ways [] left x y m going gone p = elim m [ ]
  In-arrivals ways (z ∷ zs) left x y (inl e) going gone p =
      rw (sym e) (rw (going, gone) (In-append_left y (page_items ways x.way) _ p))
  In-arrivals ways (z ∷ zs) left x y (inr m) going gone p =
      let rest = In-arrivals ways zs left x y m going gone p in
      elim (Bool-cases ((count_way z.way left == 0) && not (ways z.way).is_done)) [
        | inl e ↦ rw e (In-append_right y (page_items ways z.way) _ rest)
        | inr e ↦ rw e rest
      ]
