-- ===== src/Exec/Tests.antt =====
-- Runs of the merge.
use ki_db.Base.{
  zero, suc, ◌≡◌, refl, ◌==◌, ◌||◌, if◌then◌else◌, Bool, List, [], ◌∷◌, Option, none, some, map,
  Bytes, codes, true, false, parse_digits,
}
use ki_db.Bucketmap.Numbers.{numbers, finite}
use ki_db.Exec.MergeOrder.{is_sorted, merge_out_of_order}
use ki_db.Exec.Merge.{Item, Merger, Pages, merge, step, score_text}

abbrev merger_of : Option (List (Item numbers) × Bool × Merger numbers) → Merger numbers
merger_of none = record {
  queue = [];
  ways = λ i. record { cursor = 0; in_heap = 0; is_done = true };
}
merger_of (some (items, ended, m)) = m

-- Two buckets: members a (1) and c (2) in one, b (9) in the other.
abbrev two_buckets : Pages
two_buckets zero zero count = some ((codes "a", codes "1") ∷ [])
two_buckets zero (suc off) count = some ((codes "c", codes "2") ∷ [])
two_buckets (suc i) zero count = some ((codes "b", codes "9") ∷ [])
two_buckets (suc i) (suc off) count = some []

abbrev members : Option (List (Item numbers)) → List Bytes
members none = []
members (some items) = map (λ x. x.member) items

merged :
    members (merge numbers two_buckets false 9 2 512 64) ≡ codes "a" ∷ codes "b" ∷ codes "c" ∷ []
unfolding merge parse_digits
merged = refl

merge_out_of_order_example :
    (items : List (Item numbers)) × (merge numbers two_buckets false 3 2 512 64 ≡ some items)
    × (is_sorted numbers false items ≡ false)
unfolding score_text parse_digits
merge_out_of_order_example =
    merge_out_of_order numbers two_buckets (codes "a") (codes "b") (codes "c") (codes "1")
      (codes "9") (codes "2") (finite 1) (finite 9) (finite 2) 0 509 62 refl refl refl refl refl
      refl refl refl refl

-- One item of each bucket in the queue, the way of the first bucket not done.
abbrev seeded_merger : Merger numbers
seeded_merger = record {
  queue =
      record { member = codes "a"; way = 0; score = finite 1 }
      ∷ record { member = codes "b"; way = 1; score = finite 9 }
      ∷ [];
  ways =
      λ i. record { cursor = 1; in_heap = if (i == 0) || (i == 1) then 1 else 0; is_done = i == 1 };
}

abbrev stepped : Merger numbers
stepped = merger_of (step numbers two_buckets false 1 64 seeded_merger)
