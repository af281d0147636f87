-- ===== src/Controller/Tests.antt =====
-- Runs of the migration on a small server, and the theorems at concrete inputs.
use ki_db.Base.{
  ℕ, ◌≡◌, inl, inr, refl, sym, ◌∙◌, [], ◌∷◌, arith, none, some, Bytes, codes, true, false, pos, In,
  parse_digits, same_text, if◌then◌else◌, Bool-cases,
}
use ki_db.Keycodec.Keys.{eq_bucket_key_esc, range_bucket_key}
use ki_db.Rowcodec.Member.{Msgp, member_pk}
use ki_db.Bucketmap.{
  State, RangeBucket, range_bucket, cons, nil, entry_write_targets, bucket_targets, parse_bound,
}
use ki_db.Bucketmap.EqProtocol.{Phase, entry_of}
use ki_db.Bucketmap.Numbers.{numbers, numbers_laws}
use ki_db.Controller.Redis.{Redis, IsLawful, Entry, holds}
use ki_db.Controller.Migrate.{Outcome, Target, migrate_batch}
use ki_db.Controller.Migrate.Moves.{migrate_eq_to, migrate_range}
use ki_db.Controller.Migrate.Batch.{migrate_batch-keeps}
use ki_db.Controller.Migrate.Loss.{member_lost}
use ki_db.Controller.Migrate.Placement.{migrate_eq_to_ends, migrate_eq_to-entry_write_targets}
use ki_db.Controller.Migrate.RangePlacement.{migrate_range_ends, migrate_range-bucket_targets}
use ki_db.Controller.Simple.{Sets, IsOnce, simple, simple_laws, simple-IsHealthy}

-- A codec of texts with their length in front; the members here have no covered columns.
abbrev prefixed : Msgp
prefixed = record {
  header = λ n. n ∷ [];
  text = λ s. s;
  read_header = λ b. none;
  read_text = λ b. none;
}

-- A hash, by the first byte.
abbrev first_byte : Bytes → ℕ
first_byte [] = 0
first_byte (c ∷ _) = c

abbrev first_member : Entry
first_member = (codes "a1", codes "0")

abbrev second_member : Entry
second_member = (codes "b1", codes "0")

pub apart : {A : Type 0} → codes "a1" ≡ codes "b1" → A
apart h = absurd (ground (arith, h))

once_two :
    (d e : Entry)
    → In d (first_member ∷ second_member ∷ [])
    → In e (first_member ∷ second_member ∷ [])
    → d.0 ≡ e.0
    → d ≡ e
once_two d e (inl p) (inl q) r = p ∙ sym q
once_two d e (inl p) (inr (inl q)) r = apart (rw (p, q) at r)
once_two d e (inl p) (inr (inr x)) r = elim x [ ]
once_two d e (inr (inl p)) (inr (inr x)) r = elim x [ ]
once_two d e (inr (inr x)) i r = elim x [ ]
once_two d e (inr (inl p)) (inl q) r = apart (sym (rw (p, q) at r))
once_two d e (inr (inl p)) (inr (inl q)) r = p ∙ sym q

-- A server whose sets all hold the same two members, and whose rows all exist.
abbrev two_members : Sets
two_members = record {
  sets = λ k. first_member ∷ second_member ∷ [];
  rows = λ k. true;
  once = λ k d e i j p. once_two d e i j p;
}

migrate_eq_to_ends_example :
    ((migrate_eq_to first_byte prefixed
        (codes "t")
        (codes "i")
        (codes "v")
        false
        simple
        1
        5
        two_members
        0
        (3 ∷ 4 ∷ [])).1
      ≡ Outcome.ok)
    × (simple_laws.bucket
          (migrate_eq_to first_byte prefixed
            (codes "t")
            (codes "i")
            (codes "v")
            false
            simple
            1
            5
            two_members
            0
            (3 ∷ 4 ∷ [])).0
          (eq_bucket_key_esc (codes "t") (codes "i") (codes "v") (pos 0))
        ≡ [])
migrate_eq_to_ends_example =
    migrate_eq_to_ends first_byte prefixed (codes "t") (codes "i") (codes "v") false (3 ∷ 4 ∷ [])
      (omega arith) simple simple_laws simple-IsHealthy 1 (omega arith) 5 0 two_members
      (λ h. ground (arith, h)) (omega arith)

migrate_eq_to-entry_write_targets_example :
    (b : ℕ) × (entry_write_targets first_byte
        (entry_of (Phase.settled (3 ∷ 4 ∷ [])))
        (member_pk prefixed (codes "b1") false)
      ≡ some (b ∷ []))
    × (holds (codes "b1") (
          simple_laws.bucket
            (migrate_eq_to first_byte prefixed
              (codes "t")
              (codes "i")
              (codes "v")
              false
              simple
              1
              5
              two_members
              0
              (3 ∷ 4 ∷ [])).0
            (eq_bucket_key_esc (codes "t") (codes "i") (codes "v") (pos b)))
        ≡ true)
migrate_eq_to-entry_write_targets_example =
    migrate_eq_to-entry_write_targets first_byte prefixed (codes "t") (codes "i") (codes "v") false
      (3 ∷ 4 ∷ []) (omega arith) simple simple_laws simple-IsHealthy 1 (omega arith) 5 0 two_members
      (λ h. ground (arith, h)) (omega arith) second_member (inr (inl refl)) refl

abbrev left_half : RangeBucket
left_half = range_bucket 1 (codes "-inf") (codes "50") State.active nil

abbrev right_half : RangeBucket
right_half = range_bucket 2 (codes "50") (codes "+inf") State.active nil

abbrev halved_bucket : RangeBucket
halved_bucket =
    range_bucket 0 (codes "-inf") (codes "+inf") State.splitting
      (cons left_half (cons right_half nil))

migrate_range_ends_example :
    ((migrate_range numbers prefixed
        (codes "t")
        (codes "i")
        false
        simple
        1
        5
        two_members
        halved_bucket).1
      ≡ Outcome.ok)
    × (simple_laws.bucket
          (migrate_range numbers prefixed
            (codes "t")
            (codes "i")
            false
            simple
            1
            5
            two_members
            halved_bucket).0
          (range_bucket_key (codes "t") (codes "i") (pos 0))
        ≡ [])
migrate_range_ends_example =
    migrate_range_ends numbers numbers_laws prefixed (codes "t") (codes "i") false left_half
      right_half simple simple_laws simple-IsHealthy 1 (omega arith) 5 0 (codes "-inf")
      (codes "+inf") State.splitting two_members (omega arith) (omega arith) (omega arith)

migrate_range-bucket_targets_example :
    (c : ℕ) × (bucket_targets numbers
        (range_bucket 0
          (codes "-inf")
          (codes "+inf")
          State.draining
          (cons left_half (cons right_half nil)))
        (numbers.parse (codes "0")).0
      ≡ c ∷ [])
    × (holds (codes "b1") (
          simple_laws.bucket
            (migrate_range numbers prefixed
              (codes "t")
              (codes "i")
              false
              simple
              1
              5
              two_members
              halved_bucket).0
            (range_bucket_key (codes "t") (codes "i") (pos c)))
        ≡ true)
unfolding parse_bound parse_digits
migrate_range-bucket_targets_example =
    migrate_range-bucket_targets numbers numbers_laws prefixed (codes "t") (codes "i") false
      left_half right_half simple simple_laws simple-IsHealthy 1 (omega arith) 5 0 (codes "-inf")
      (codes "+inf") State.splitting two_members (omega arith) (omega arith) (omega arith)
      second_member (inr (inl refl)) refl refl tt tt refl

-- The same server without memory for new members: every ZADD fails.
abbrev full : Redis
full = record simple { zadd = λ s k sc m. (s, false) }

pub failure_adds_nothing : {A : Type 0} → false ≡ true → A
failure_adds_nothing h = absurd (cc)

abbrev full_laws : IsLawful full
full_laws = record {
  bucket = simple_laws.bucket;
  lives = simple_laws.lives;
  distinct = simple_laws.distinct;
  zrange_reply = simple_laws.zrange_reply;
  zrange_bucket = simple_laws.zrange_bucket;
  zrange_lives = simple_laws.zrange_lives;
  exists_reply = simple_laws.exists_reply;
  exists_bucket = simple_laws.exists_bucket;
  exists_lives = simple_laws.exists_lives;
  zadd_adds = λ s k sc m h. failure_adds_nothing h;
  zadd_keeps = λ s k sc m j x h. h;
  zadd_other = λ s k sc m j ne. refl;
  zadd_lives = λ s k sc m j ne. refl;
  zrem_removes = simple_laws.zrem_removes;
  zrem_other = simple_laws.zrem_other;
  zrem_lives = simple_laws.zrem_lives;
}

once_one : (d e : Entry) → In d (first_member ∷ []) → In e (first_member ∷ []) → d.0 ≡ e.0 → d ≡ e
once_one d e (inl p) (inl q) r = p ∙ sym q
once_one d e (inl p) (inr x) r = elim x [ ]
once_one d e (inr x) i r = elim x [ ]

only_one : (k : Bytes) → IsOnce (if same_text k (codes "from") then first_member ∷ [] else [])
only_one k = elim (Bool-cases (same_text k (codes "from"))) [
  | inl p ↦ rw p once_one
  | inr p ↦ rw p (λ d e i j r. elim i [ ])
]

-- One member, in one bucket.
abbrev one_member : Sets
one_member = record {
  sets = λ k. if same_text k (codes "from") then first_member ∷ [] else [];
  rows = λ k. true;
  once = λ k. only_one k;
}

abbrev moving : Target
moving = record { member = codes "a1"; child_key = codes "to"; score = codes "0" }

member_lost_example :
    ((migrate_batch full prefixed (codes "t") false one_member (codes "from") (moving ∷ [])).1
      ≡ false)
    × (holds (codes "a1") (
          full_laws.bucket
            (migrate_batch full prefixed
              (codes "t")
              false
              one_member
              (codes "from")
              (moving ∷ [])).0
            (codes "to"))
        ≡ false)
    × (holds (codes "a1") (
          full_laws.bucket
            (migrate_batch full prefixed
              (codes "t")
              false
              one_member
              (codes "from")
              (moving ∷ [])).0
            (codes "from"))
        ≡ false)
unfolding holds
member_lost_example =
    member_lost full full_laws prefixed (codes "t") false (codes "from") moving one_member
      (λ h. ground (arith, h)) refl refl refl refl

migrate_batch-keeps_example :
    holds (codes "b1") (
      full_laws.bucket
        (migrate_batch full prefixed (codes "t") false two_members (codes "from") (moving ∷ [])).0
        (codes "to"))
    ≡ true
unfolding holds
migrate_batch-keeps_example =
    migrate_batch-keeps full full_laws prefixed (codes "t") false (codes "from") (moving ∷ [])
      two_members (codes "to") (codes "b1") (λ h. ground (arith, h)) refl
