-- ===== src/Exec/BatchOrder.antt =====
-- One step of the merge: the order of what it hands on, and that it loses nothing.
use ki_db.Base.{ℕ, ◌≡◌, List, some, Bool, take, drop, Score, IsOrdered}
use ki_db.Exec.Merge.{Item, Merger, Pages, refill_ways, pop_batch}
use ki_db.Exec.Order.{IsCounted}
use ki_db.Exec.Popping.{arrivals}

module _ (s : Score) (o : IsOrdered s) (desc : Bool) (page : Pages) (size : ℕ) where
  -- The refills behind the pops of a batch.
  module _ (batch : ℕ) (m m' : Merger s) (counted : IsCounted s m)
      (e : refill_ways s page desc size
          (pop_batch s page desc batch m.queue m.ways).2.ways
          (pop_batch s page desc batch m.queue m.ways).1
          (pop_batch s page desc batch m.queue m.ways).2
        ≡ some m') where
    abbrev rest_of : List (Item s)
    rest_of = drop batch m.queue

    abbrev next_items : List (Item s)
    next_items = arrivals s page desc size m.ways (take batch m.queue) rest_of

    abbrev popped : List (Item s) × List ℕ × Merger s
    popped = pop_batch s page desc batch m.queue m.ways
