-- ===== src/Exec/Merge.antt =====
-- exec/topk.go: the merge of an interval's range buckets by score, with the priority queue of
-- utils/pq.go. `page way offset count` is the reply to the page command on one bucket; an error of
-- the pipeline is `none`. What a step pops is what it hands on to deduplication and look-up.
use ki_db.Base.{
  ℕ, zero, suc, ◌+◌, ◌-◌, List, [], ◌∷◌, ◌++◌, Option, none, some, Bytes, Bool, true, false, ◌&&◌,
  not, length, ltb, ◌==◌, if◌then◌else◌, Score,
}

-- `mergeWay` without its key, which its number stands for.
pub record Way : Type 0 where
  pub cursor : ℕ
  pub in_heap : ℕ
  pub is_done : Bool

abbrev pub Pages : Type 0
Pages = ℕ → ℕ → ℕ → Option (List (Bytes × Bytes))

unfoldable pub set_way : (ℕ → Way) → ℕ → Way → ℕ → Way
set_way ways i w j = if j == i then w else ways j

module _ (s : Score) where
  -- `topkItem` and its priority.
  pub record Item : Type 0 where
    pub member : Bytes
    pub way : ℕ
    pub score : s.Float

  -- `pqItems.Less`
  unfoldable pub less : Bool → Item → Item → Bool
  less desc x y = if desc then s.lt y.score x.score else s.lt x.score y.score

  -- `PriorityQueue.Push`: the queue is the list of its items in the order in which `Pop` takes
  -- them. Equal priorities come in the order of pushing; container/heap leaves it open.
  unfoldable pub push : Bool → Item → List Item → List Item
  unfolding less
  push desc x [] = x ∷ []
  push desc x (y ∷ ys) = if less desc x y then x ∷ y ∷ ys else y ∷ push desc x ys

  -- `orderedMerger`
  pub record Merger : Type 0 where
    pub queue : List Item
    pub ways : ℕ → Way

  -- The score of a member, unless it cannot be read or is a NaN.
  unfoldable pub score_text : Bytes → Option s.Float
  score_text t = let (f, ok) = s.parse t in if ok && s.le f f then some f else none

  -- The first pair of a reply, as `parseWithScores` reads it.
  unfoldable pub first_pair : List (Bytes × Bytes) → Option (Bytes × s.Float)
  unfolding score_text
  first_pair [] = none
  first_pair ((x, t) ∷ rest) = elim (score_text t) [ none ↦ none | some f ↦ some (x, f) ]

  -- The pushes of one page in `refillWays`.
  unfoldable pub push_page : Bool → ℕ → List (Bytes × Bytes) → Merger → Merger
  unfolding score_text push set_way
  push_page desc i [] m = m
  push_page desc i ((x, t) ∷ rest) m = elim (score_text t) [
    | none ↦ push_page desc i rest m
    | some f ↦ push_page desc i rest (record {
      queue = push desc (record { member = x; way = i; score = f }) m.queue;
      ways = set_way m.ways i (record (m.ways i) { in_heap = (m.ways i).in_heap + 1 });
    })
  ]

  module _ (page : Pages) (desc : Bool) where
    -- `seed` on the ways from number `i` on, of which there are `count`.
    unfoldable pub seed : ℕ → ℕ → Merger → Option Merger
    unfolding first_pair push set_way
    seed i zero m = some m
    seed i (suc count) m = elim (page i 0 1) [
      | none ↦ none
      | some reply ↦ elim (first_pair reply) [
        | none ↦
            seed (i + 1) count
              (record m { ways = set_way m.ways i (record (m.ways i) { is_done = true }) })
        | some (x, f) ↦ seed (i + 1) count (record {
          queue = push desc (record { member = x; way = i; score = f }) m.queue;
          ways = set_way m.ways i (record (m.ways i) { cursor = 1; in_heap = 1 });
        })
      ]
    ]

    -- One way of `refillWays`, by its page of at most `page_size` members.
    unfoldable pub refill_way : ℕ → ℕ → List (Bytes × Bytes) → Merger → Merger
    unfolding push_page set_way
    refill_way page_size i [] m = record m {
      ways = set_way m.ways i (record (m.ways i) { is_done = true });
    }
    refill_way page_size i (e ∷ es) m =
        let pushed = push_page desc i (e ∷ es) m in
        let w = pushed.ways i in
        record pushed {
          ways = set_way pushed.ways i (record w {
            cursor = w.cursor + length (e ∷ es);
            is_done = if ltb (length (e ∷ es)) page_size then true else w.is_done;
          });
        }

    -- `refillWays`; the cursors of the page commands are those before the round.
    unfoldable pub refill_ways : ℕ → (ℕ → Way) → List ℕ → Merger → Option Merger
    unfolding refill_way
    refill_ways page_size before [] m = some m
    refill_ways page_size before (i ∷ rest) m = elim (page i (before i).cursor page_size) [
      | none ↦ none
      | some reply ↦ refill_ways page_size before rest (refill_way page_size i reply m)
    ]

    -- The loop of `step` that pops a batch: the items, the ways to refill, and what is left.
    unfoldable pub pop_batch : ℕ → List Item → (ℕ → Way) → List Item × List ℕ × Merger
    unfolding set_way
    pop_batch zero queue ways = ([], [], record { queue = queue; ways = ways })
    pop_batch (suc room) [] ways = ([], [], record { queue = []; ways = ways })
    pop_batch (suc room) (x ∷ queue) ways =
        let w : Way = record (ways x.way) { in_heap = (ways x.way).in_heap - 1 } in
        let (items, refill, left) = pop_batch room queue (set_way ways x.way w) in
        (x ∷ items, if (w.in_heap == 0) && not w.is_done then x.way ∷ refill else refill, left)

    -- `step` from its batch on; the result is an error, the end (no items, nothing left to do), or
    -- the items of the batch.
    unfoldable pub step : ℕ → ℕ → Merger → Option (List Item × Bool × Merger)
    unfolding pop_batch refill_ways
    step batch page_size m =
        let (items, refill, left) = pop_batch batch m.queue m.ways in
        let ended = (length items == 0) && (length refill == 0) in
        elim (refill_ways page_size left.ways refill left) [
          | none ↦ none
          | some m' ↦ some (items, ended, m')
        ]

    -- Steps until the end, as `fillOrderedRange` drives them: the items in the order of the steps.
    unfoldable pub steps : ℕ → ℕ → ℕ → Merger → Option (List Item)
    unfolding step
    steps zero batch page_size m = none
    steps (suc fuel) batch page_size m = elim (step batch page_size m) [
      | none ↦ none
      | some (items, ended, m') ↦
          let rest = steps fuel batch page_size m' in
          if ended then some [] else (elim rest [ none ↦ none | some more ↦ some (items ++ more) ])
    ]

    -- The items of an interval with `count` buckets.
    unfoldable pub merge : ℕ → ℕ → ℕ → ℕ → Option (List Item)
    unfolding seed steps
    merge fuel count batch page_size =
        elim (seed 0 count (record {
          queue = [];
          ways = λ i. record { cursor = 0; in_heap = 0; is_done = false };
        })) [ none ↦ none | some m ↦ steps fuel batch page_size m ]
