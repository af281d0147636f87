-- ===== src/Controller/Migrate/Loss.antt =====
-- The error path of `migrateBatch`: its second pipeline is no transaction.
use ki_db.Base.{
  ◌≡◌, ◌≢◌, inl, inr, refl, List, [], ◌∷◌, some, Bytes, Bool, true, false, Bool-cases, same_text,
}
use ki_db.Rowcodec.Member.{Msgp}
use ki_db.Controller.Redis.{Redis, Entry, IsLawful, holds, remove}
use ki_db.Controller.Migrate.{
  Target, commands, row_of, exist_all, send, send_all, row_keys, migrate_batch,
}

holds-remove_same : (m : Bytes) (es : List Entry) → holds m (remove m es) ≡ false
unfolding holds remove
holds-remove_same m [] = refl
holds-remove_same m ((y, sc) ∷ es) = elim (Bool-cases (same_text y m)) [
  | inl e ↦ rw (e, remove) (holds-remove_same m es)
  | inr e ↦ rw (e, remove) (rw e (holds-remove_same m es))
]

-- On a server that obeys its documentation, a member whose row is reported to exist, whose ZADD
-- fails without effect on a target that did not hold it, and whose ZREM succeeds, is neither in
-- its parent nor in its target after its batch, which reports the error.
pub member_lost :
    (r : Redis) (l : IsLawful r) (m : Msgp) (table : Bytes) (covering : Bool) (parent : Bytes)
    (t : Target) (s : r.Server)
    → t.child_key ≢ parent
    → (r.exists s (row_of m table covering t.member)).1 ≡ some true
    → (r.zadd (r.exists s (row_of m table covering t.member)).0 t.child_key t.score t.member).1
      ≡ false
    → holds t.member (
        l.bucket
          (r.zadd (r.exists s (row_of m table covering t.member)).0 t.child_key t.score t.member).0
          t.child_key)
      ≡ false
    → (r.zrem
        (r.zadd (r.exists s (row_of m table covering t.member)).0 t.child_key t.score t.member).0
        parent
        t.member).1
      ≡ true
    → ((migrate_batch r m table covering s parent (t ∷ [])).1 ≡ false)
      × (holds t.member
            (l.bucket (migrate_batch r m table covering s parent (t ∷ [])).0 t.child_key)
          ≡ false)
      × (holds t.member (l.bucket (migrate_batch r m table covering s parent (t ∷ [])).0 parent)
          ≡ false)
unfolding migrate_batch row_keys exist_all commands send_all send
member_lost r l m table covering parent t s ne alive failed absent removed =
    let s1 = (r.exists s (row_of m table covering t.member)).0 in
    let s2 = (r.zadd s1 t.child_key t.score t.member).0 in
    rw (alive, migrate_batch)
      (
        rw failed refl,
        rw (l.zrem_other s2 parent t.member t.child_key ne) absent,
        rw (l.zrem_removes s2 parent t.member removed)
            (holds-remove_same t.member (l.bucket s2 parent)),
      )
