-- ===== src/Controller/Migrate.antt =====
-- controller/split.go, `migrateBatch`, `migrateEq`, `migrateEqTo`, `migrateRange` and
-- `migrateRangeTo`: the members of a bucket move to the buckets of a split or a merge. The four
-- have one loop, which `drain` is; `place` is the choice of the target that each makes.
pub mod Batch
pub mod Entries
pub mod Drain
pub mod Moves
pub mod Placement
pub mod RangePlacement
pub mod Loss
use ki_db.Base.{
  ℕ, zero, suc, List, [], ◌∷◌, Option, none, some, Bytes, codes, Bool, true, false, ◌&&◌, ℤ, pos,
  get_elem?, length, ltb, if◌then◌else◌, Score,
}
use ki_db.Keycodec.Keys.{row_key, eq_bucket_key_esc, range_bucket_key, eq_sub_for}
use ki_db.Rowcodec.Member.{Msgp, member_pk, is_empty}
use ki_db.Bucketmap.{pick, RangeBucket, idx, lo}
use ki_db.Controller.Redis.{Redis, Entry}

-- `memberTarget`
pub record Target : Type 0 where
  pub member : Bytes
  pub child_key : Bytes
  pub score : Bytes

pub data Command : Type 0 where
  zadd : Bytes → Bytes → Bytes → Command
  zrem : Bytes → Bytes → Command

pub data Outcome : Type 0 where
  ok : Outcome
  -- A command's error.
  failed : Outcome
  -- A subscript out of range.
  panicked : Outcome
  -- Fuel ran out.
  unfinished : Outcome

module _ (m : Msgp) (table : Bytes) (covering : Bool) where
  -- The key whose existence decides whether a member is alive.
  unfoldable pub row_of : Bytes → Bytes
  row_of member = row_key table (member_pk m member covering)

-- The commands of the second pipeline, by the replies of the first.
unfoldable pub commands : Bytes → List Target → List Bool → List Command
commands parent [] replies = []
commands parent (t ∷ ts) [] = []
commands parent (t ∷ ts) (true ∷ replies) =
    Command.zadd t.child_key t.score t.member
    ∷ Command.zrem parent t.member
    ∷ commands parent ts replies
commands parent (t ∷ ts) (false ∷ replies) =
    Command.zrem parent t.member ∷ commands parent ts replies

module _ (r : Redis) where
  -- The first pipeline: every command is sent; an error of one is an error of the whole.
  unfoldable pub exist_all : r.Server → List Bytes → r.Server × Option (List Bool)
  exist_all s [] = (s, some [])
  exist_all s (k ∷ ks) =
      let (s', reply) = r.exists s k in
      let (s'', replies) = exist_all s' ks in
      (
        s'',
        elim reply [
          | none ↦ none
          | some b ↦ elim replies [ none ↦ none | some bs ↦ some (b ∷ bs) ]
        ],
      )

  unfoldable pub send : r.Server → Command → r.Server × Bool
  send s (Command.zadd k sc x) = r.zadd s k sc x
  send s (Command.zrem k x) = r.zrem s k x

  -- The second pipeline: every command is sent, whether the ones in front of it succeed or not.
  unfoldable pub send_all : r.Server → List Command → r.Server × Bool
  unfolding send
  send_all s [] = (s, true)
  send_all s (c ∷ cs) =
      let (s', done) = send s c in let (s'', rest) = send_all s' cs in (s'', done && rest)

  module _ (m : Msgp) (table : Bytes) (covering : Bool) where
    unfoldable pub row_keys : List Target → List Bytes
    unfolding row_of
    row_keys [] = []
    row_keys (t ∷ ts) = row_of m table covering t.member ∷ row_keys ts

    -- `migrateBatch`; the result is whether it succeeds.
    unfoldable pub migrate_batch : r.Server → Bytes → List Target → r.Server × Bool
    unfolding row_keys exist_all commands send_all
    migrate_batch s parent batch =
        let (s', alive) = exist_all s (row_keys batch) in
        elim alive [ none ↦ (s', false) | some bs ↦ send_all s' (commands parent batch bs) ]

    unfoldable pub place_all : (Entry → Option Target) → List Entry → Option (List Target)
    place_all place [] = some []
    place_all place (e ∷ es) = elim (place e) [
      | none ↦ none
      | some t ↦ elim (place_all place es) [ none ↦ none | some ts ↦ some (t ∷ ts) ]
    ]

    -- The loop: the first `batch` members of a bucket, over and over until it is empty.
    unfoldable pub drain : (Entry → Option Target) → ℕ → Bytes → ℕ → r.Server → r.Server × Outcome
    unfolding place_all migrate_batch
    drain place batch from zero s = (s, unfinished)
    drain place batch from (suc fuel) s =
        let (s', reply) = r.zrange s from batch in
        elim reply [
          | none ↦ (s', failed)
          | some es ↦ if is_empty es then (s', ok) else elim (place_all place es) [
            | none ↦ (s', panicked)
            | some ts ↦
                let moved = migrate_batch s' from ts in
                let rest = drain place batch from fuel moved.0 in
                if moved.1
                then (if ltb (length es) batch then (moved.0, ok) else rest)
                else (moved.0, failed)
          ]
        ]
