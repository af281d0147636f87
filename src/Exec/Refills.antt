-- ===== src/Exec/Refills.antt =====
-- A round of refills of the merge: the queue gets the items of the pages, and nothing else.
use ki_db.Base.{
  ℕ, ◌≡◌, ◌⊎◌, inl, inr, refl, ap, sym, List, [], ◌∷◌, arith, some, Bytes, Bool, true, In, All,
  All-imp, ◌==◌, Bool-cases, Option-cases, Score, IsOrdered, some_same,
}
use ki_db.Exec.Merge.{Item, Merger, Way, Pages, set_way, push_page, refill_way, refill_ways}
use ki_db.Exec.Order.{InOrder, IsCounted, readable, push_page-grows, In-push_page}
use ki_db.Exec.Popping.{page_items}

module _ (s : Score) (o : IsOrdered s) (desc : Bool) (page : Pages) (size : ℕ) where
  mark-IsCounted :
      (m : Merger s) (i c : ℕ) (d : Bool)
      → IsCounted s m
      → IsCounted s
          (record m { ways = set_way m.ways i (record (m.ways i) { cursor = c; is_done = d }) })
  unfolding set_way
  mark-IsCounted m i c d counted j = elim (Bool-cases (j == i)) [
    | inl e ↦
        let here : j ≡ i = ground (arith, e) in
        rw e (omega (arith, counted j, ap (λ k. (m.ways k).in_heap) here))
    | inr e ↦ rw e (counted j)
  ]

  -- What a round of refills makes of the queue and the ways.
  abbrev IsGrown : Merger s → Merger s → List (Item s) → Type 0
  IsGrown m m' new =
      InOrder s desc m'.queue
      × IsCounted s m'
      × ((y : Item s) → In y m.queue → In y m'.queue)
      × All (λ y. In y m'.queue) new

  refill_way-grows :
      (i : ℕ) (es : List (Bytes × Bytes)) (m : Merger s)
      → InOrder s desc m.queue
      → IsCounted s m
      → IsGrown m (refill_way s page desc size i es m) (readable s i es)
  unfolding refill_way
  refill_way-grows i [] m h c = (h, mark-IsCounted m i (m.ways i).cursor true c, (λ y p. p), tt)
  refill_way-grows i (e ∷ es) m h c =
      let (ordered, counted, keeps, new) = push_page-grows s o desc i (e ∷ es) m h c in
      (ordered, mark-IsCounted (push_page s desc i (e ∷ es) m) i _ _ counted, keeps, new)

  pub refill_ways-grows :
      (before : ℕ → Way) (is : List ℕ) (m m' : Merger s)
      → InOrder s desc m.queue
      → IsCounted s m
      → refill_ways s page desc size before is m ≡ some m'
      → InOrder s desc m'.queue
        × IsCounted s m'
        × ((y : Item s) → In y m.queue → In y m'.queue)
        × All (λ i. All (λ y. In y m'.queue) (page_items s page desc size before i)) is
  unfolding refill_ways
  refill_ways-grows before [] m m' h c e = rw (some_same e) (h, c, (λ y p. p), tt)
  refill_ways-grows before (i ∷ is) m m' h c e =
      elim (Option-cases (page i (before i).cursor size)) [
        | inl p ↦ absurd (ground (arith, (rw (p, refill_ways) at e)))
        | inr (reply, p) ↦
            let m1 = refill_way s page desc size i reply m in
            let (ordered, counted, keeps, new) = refill_way-grows i reply m h c in
            let (ordered', counted', keeps', news) =
              refill_ways-grows before is m1 m' ordered counted (rw (p, refill_ways) at e) in
            (
              ordered',
              counted',
              λ y q. keeps' y (keeps y q),
              (rw (p, page_items) (All-imp keeps' (readable s i reply) new), news),
            )
      ]

  In-refill_way :
      (i : ℕ) (es : List (Bytes × Bytes)) (m : Merger s) (y : Item s)
      → In y (refill_way s page desc size i es m).queue
      → In y m.queue ⊎ In y (readable s i es)
  unfolding refill_way
  In-refill_way i [] m y p = inl p
  In-refill_way i (e ∷ es) m y p = In-push_page s o desc i (e ∷ es) m y p

  -- A round of refills adds nothing but the items of the ways' pages.
  pub In-refill_ways :
      (before : ℕ → Way) (is : List ℕ) (m m' : Merger s) (y : Item s)
      → refill_ways s page desc size before is m ≡ some m'
      → In y m'.queue
      → In y m.queue ⊎ ((i : ℕ) × In i is × In y (page_items s page desc size before i))
  unfolding refill_ways
  In-refill_ways before [] m m' y e p = inl (rw (sym (some_same e)) p)
  In-refill_ways before (i ∷ is) m m' y e p = elim (Option-cases (page i (before i).cursor size)) [
    | inl q ↦ absurd (ground (arith, (rw (q, refill_ways) at e)))
    | inr (reply, q) ↦
        let m1 = refill_way s page desc size i reply m in
        elim (In-refill_ways before is m1 m' y (rw (q, refill_ways) at e) p) [
          | inr (j, named, new) ↦ inr (j, inr named, new)
          | inl old ↦ elim (In-refill_way i reply m y old) [
            | inl there ↦ inl there
            | inr here ↦ inr (i, inl refl, rw (q, page_items) here)
          ]
        ]
  ]
