-- ===== src/Exec/Order.antt =====
-- The merge's queue is in order by score, and its ways count what it holds of them.
use ki_db.Base.{
  ℕ, ◌⊎◌, zero, suc, ◌+◌, ◌≡◌, inl, inr, refl, ap, List, [], ◌∷◌, arith, none, some, Bytes, Bool,
  true, false, take, drop, In, All, ◌==◌, if◌then◌else◌, Bool-cases, Option-cases, Score, IsOrdered,
}
use ki_db.Exec.Merge.{Item, Merger, less, push, set_way, score_text, push_page}

-- The items of a way.
abbrev pub count_way : {s : Score} → ℕ → List (Item s) → ℕ
count_way i [] = 0
count_way i (x ∷ xs) = let rest = count_way i xs in if i == x.way then suc rest else rest

module _ (s : Score) where
  -- The score of the first is not above that of the second, or not below it on the way down.
  abbrev pub Precedes : Bool → Item s → Item s → Type 0
  Precedes true x y = s.lt x.score y.score ≡ false
  Precedes false x y = s.lt y.score x.score ≡ false

  abbrev pub InOrder : Bool → List (Item s) → Type 0
  InOrder desc [] = Unit {0}
  InOrder desc (x ∷ []) = Unit {0}
  InOrder desc (x ∷ y ∷ rest) = Precedes desc x y × InOrder desc (y ∷ rest)

  -- Each way counts its items in the queue.
  abbrev pub IsCounted : Merger s → Type 0
  IsCounted m = (i : ℕ) → (m.ways i).in_heap ≡ count_way i m.queue

  -- The items of a page: those whose score can be read.
  abbrev pub readable : ℕ → List (Bytes × Bytes) → List (Item s)
  readable i [] = []
  readable i ((x, t) ∷ rest) = elim (score_text s t) [
    | none ↦ readable i rest
    | some f ↦ record { member = x; way = i; score = f } ∷ readable i rest
  ]

  pub InOrder-take :
      (desc : Bool) (n : ℕ) (xs : List (Item s)) → InOrder desc xs → InOrder desc (take n xs)
  InOrder-take desc zero xs h = tt
  InOrder-take desc (suc n) [] h = tt
  InOrder-take desc (suc zero) (x ∷ xs) h = tt
  InOrder-take desc (suc (suc n)) (x ∷ []) h = tt
  InOrder-take desc (suc (suc n)) (x ∷ y ∷ ys) h = (h.0, InOrder-take desc (suc n) (y ∷ ys) h.1)

  InOrder-drop_one :
      (desc : Bool) (x : Item s) (xs : List (Item s)) → InOrder desc (x ∷ xs) → InOrder desc xs
  InOrder-drop_one desc x [] h = tt
  InOrder-drop_one desc x (y ∷ ys) h = h.1

  pub InOrder-drop :
      (desc : Bool) (n : ℕ) (xs : List (Item s)) → InOrder desc xs → InOrder desc (drop n xs)
  InOrder-drop desc zero xs h = h
  InOrder-drop desc (suc n) [] h = tt
  InOrder-drop desc (suc n) (x ∷ xs) h = InOrder-drop desc n xs (InOrder-drop_one desc x xs h)

  not_less-Precedes : (desc : Bool) (x y : Item s) → less s desc x y ≡ false → Precedes desc y x
  unfolding less
  not_less-Precedes true x y h = h
  not_less-Precedes false x y h = h

module _ (s : Score) (o : IsOrdered s) (desc : Bool) where
  less-Precedes : (x y : Item s) → less s desc x y ≡ true → Precedes s desc x y
  less-Precedes x y h = before desc h
    where
      apart : (a b : s.Float) → s.lt a b ≡ true → s.lt b a ≡ false
      apart a b h = ground (arith, h, o.lt_not_ge a b, o.lt_le b a)

      before : (d : Bool) → less s d x y ≡ true → Precedes s d x y
      before true h = apart y.score x.score (unfold less in h)
      before false h = apart x.score y.score (unfold less in h)

  pub push-InOrder :
      (x : Item s) (queue : List (Item s))
      → InOrder s desc queue
      → InOrder s desc (push s desc x queue)
  unfolding push
  push-InOrder x [] h = tt
  push-InOrder x (y ∷ []) h = elim (Bool-cases (less s desc x y)) [
    | inl e ↦ rw e (less-Precedes x y e, tt)
    | inr e ↦ rw e (not_less-Precedes s desc x y e, tt)
  ]
  push-InOrder x (y ∷ z ∷ rest) h =
      let ih = push-InOrder x (z ∷ rest) h.1 in
      elim (Bool-cases (less s desc x y)) [
        | inl e ↦ rw e (less-Precedes x y e, h)
        | inr e ↦ rw e (elim (Bool-cases (less s desc x z)) [
          | inl e' ↦ rw e' (not_less-Precedes s desc x y e, (rw e' at ih))
          | inr e' ↦ rw e' (h.0, (rw e' at ih))
        ])
      ]

  push-In : (x : Item s) (queue : List (Item s)) → In x (push s desc x queue)
  unfolding push
  push-In x [] = inl refl
  push-In x (y ∷ ys) = elim (Bool-cases (less s desc x y)) [
    | inl e ↦ rw e (inl refl)
    | inr e ↦ rw e (inr (push-In x ys))
  ]

  push-keeps : (x y : Item s) (queue : List (Item s)) → In y queue → In y (push s desc x queue)
  unfolding push
  push-keeps x y [] m = elim m [ ]
  push-keeps x y (z ∷ zs) m = elim (Bool-cases (less s desc x z)) [
    | inl e ↦ rw e (inr m)
    | inr e ↦ rw e (elim m [ inl here ↦ inl here | inr there ↦ inr (push-keeps x y zs there) ])
  ]

  In-push : (x y : Item s) (queue : List (Item s)) → In y (push s desc x queue) → In y (x ∷ queue)
  unfolding push
  In-push x y [] m = m
  In-push x y (z ∷ zs) m = elim (Bool-cases (less s desc x z)) [
    | inl e ↦ rw e at m
    | inr e ↦ elim (rw e at m) [
      | inl here ↦ inr (inl here)
      | inr there ↦ elim (In-push x y zs there) [ inl new ↦ inl new | inr old ↦ inr (inr old) ]
    ]
  ]

  pub count_way-push :
      (i : ℕ) (x : Item s) (queue : List (Item s))
      → count_way i (push s desc x queue) ≡ count_way i (x ∷ queue)
  unfolding push
  count_way-push i x [] = refl
  count_way-push i x (y ∷ ys) = elim (Bool-cases (less s desc x y)) [
    | inl e ↦ rw e refl
    | inr e ↦ rw e (
        rw (count_way-push i x ys) (elim (Bool-cases (i == y.way)) [
          | inl a ↦ elim (Bool-cases (i == x.way)) [
            | inl b ↦ rw (a, b) refl
            | inr b ↦ rw (a, b) refl
          ]
          | inr a ↦ elim (Bool-cases (i == x.way)) [
            | inl b ↦ rw (a, b) refl
            | inr b ↦ rw (a, b) refl
          ]
        ]))
  ]

  -- The queue keeps its order and its items and gets those of the page, and the ways count them.
  pub push_page-grows :
      (i : ℕ) (es : List (Bytes × Bytes)) (m : Merger s)
      → InOrder s desc m.queue
      → IsCounted s m
      → InOrder s desc (push_page s desc i es m).queue
        × IsCounted s (push_page s desc i es m)
        × ((y : Item s) → In y m.queue → In y (push_page s desc i es m).queue)
        × All (λ y. In y (push_page s desc i es m).queue) (readable s i es)
  unfolding push_page set_way
  push_page-grows i [] m h c = (h, c, (λ y p. p), tt)
  push_page-grows i ((x, t) ∷ rest) m h c = elim (Option-cases (score_text s t)) [
    | inl e ↦ rw (e, push_page, readable) (push_page-grows i rest m h c)
    | inr (f, e) ↦
        let item : Item s = record { member = x; way = i; score = f } in
        let m1 : Merger s = record {
          queue = push s desc item m.queue;
          ways = set_way m.ways i (record (m.ways i) { in_heap = (m.ways i).in_heap + 1 });
        } in
        let counted : IsCounted s m1 = λ j. elim (Bool-cases (j == i)) [
          | inl same ↦
              let here : j ≡ i = ground (arith, same) in
              rw (count_way-push j item m.queue, same)
                (omega (arith, c j, ap (λ k. (m.ways k).in_heap) here))
          | inr other ↦ rw (count_way-push j item m.queue, other) (c j)
        ] in
        let (ordered, more, keeps, new) =
          push_page-grows i rest m1 (push-InOrder item m.queue h) counted in
        rw (e, push_page, readable)
          (
            ordered,
            more,
            λ y p. keeps y (push-keeps item y m.queue p),
            (keeps item (push-In item m.queue), new),
          )
  ]

  -- A page adds nothing but its items.
  pub In-push_page :
      (i : ℕ) (es : List (Bytes × Bytes)) (m : Merger s) (y : Item s)
      → In y (push_page s desc i es m).queue
      → In y m.queue ⊎ In y (readable s i es)
  unfolding push_page
  In-push_page i [] m y p = inl p
  In-push_page i ((x, t) ∷ rest) m y p = elim (Option-cases (score_text s t)) [
    | inl e ↦ rw (e, readable) (In-push_page i rest m y (rw (e, push_page) at p))
    | inr (f, e) ↦
        let item : Item s = record { member = x; way = i; score = f } in
        elim (In-push_page i rest _ y (rw (e, push_page) at p)) [
          | inr new ↦ rw (e, readable) (inr (inr new))
          | inl old ↦ elim (In-push item y m.queue old) [
            | inl here ↦ rw (e, readable) (inr (inl here))
            | inr there ↦ inl there
          ]
        ]
  ]
