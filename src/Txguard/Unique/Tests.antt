-- ===== src/Txguard/Unique/Tests.antt =====
-- Reservations at concrete inputs.
use ki_db.Base.{
  ℕ, suc, ◌≡◌, ◌≢◌, ◌⊎◌, refl, inl, inr, sym, arith, List, [], ◌∷◌, ◌++◌, Option, none, some, Bytes,
  codes, Bool, true, false, ℤ, pos, negsuc, All, In, Free, length, take, drop, take-append_length,
  drop-append_length, same_text, itoa, atoi, format_uint, parse_digits, some_same, if◌then◌else◌,
  map,
}
use ki_db.Meta.{IndexDef, IndexKind}
use ki_db.Keycodec.Keys.{unique_key, escape_value, row_key}
use ki_db.Bucketmap.{Doc, default_doc}
use ki_db.Bucketmap.Numbers.{numbers}
use ki_db.Txguard.Keyspace.{Keyspace}
use ki_db.Txguard.Unique.{Verdict, owner_row, owner_of, reserve_unique, rollback_reservations}
use ki_db.Txguard.Row.{WriteReq, Attempt, reserve_all, write_attempts}
use ki_db.Txguard.Row.Keeping.{reserve_all-keeps}
use ki_db.Txguard.Unique.Reserve.{
  IsOwned, AllFree, reserve_unique-reserved, reserve_unique-live_owner,
}
use ki_db.Txguard.Unique.Healing.{reserve_unique-bar}
use ki_db.Txguard.Samples.{
  alone, fresh, hash, key_of, memory, memory_healthy, memory_laws, no_tags, prefixed,
}

reserve_unique-live_owner_example :
    ((reserve_unique memory hash prefixed
        (codes "t")
        (codes "u")
        none
        (alone (codes "d:t:{k1}|9") (codes "d:t:{k1}"))
        (codes "5")
        (codes "d:t:{k2}")
        10).1
      ≢ Verdict.reserved)
    × ((reserve_unique memory hash prefixed
          (codes "t")
          (codes "u")
          none
          (alone (codes "d:t:{k1}|9") (codes "d:t:{k1}"))
          (codes "5")
          (codes "d:t:{k2}")
          10).0
        ≡ alone (codes "d:t:{k1}|9") (codes "d:t:{k1}"))
unfolding owner_row owner_of ki_db.Base.index_byte unique_key escape_value
    ki_db.Keycodec.Keys.query_escape ki_db.Keycodec.Keys.has_structural format_uint
    ki_db.Base.format_onto reserve_unique
reserve_unique-live_owner_example =
    reserve_unique-live_owner memory memory_laws hash prefixed (codes "t") (codes "u") none
      (alone (codes "d:t:{k1}|9") (codes "d:t:{k1}")) (codes "5") (codes "d:t:{k2}")
      (codes "d:t:{k1}") 9 10 refl (ground arith) (λ e. absurd (ground (arith, e))) refl

reserve_unique-reserved_example :
    IsOwned
      (reserve_unique memory hash prefixed
        (codes "t")
        (codes "u")
        none
        (alone (codes "d:t:{k1}|9") [])
        (codes "5")
        (codes "d:t:{k2}")
        10).0
      key_of
      (codes "d:t:{k2}")
    × (IsOwned (alone (codes "d:t:{k1}|9") []) key_of (codes "d:t:{k2}")
        ⊎ AllFree memory memory_laws hash prefixed
            (codes "t")
            (codes "u")
            none
            (alone (codes "d:t:{k1}|9") [])
            (escape_value hash (codes "5"))
            (codes "d:t:{k2}"))
unfolding owner_row owner_of ki_db.Base.index_byte unique_key escape_value
    ki_db.Keycodec.Keys.query_escape ki_db.Keycodec.Keys.has_structural format_uint
    ki_db.Base.format_onto reserve_unique
reserve_unique-reserved_example =
    reserve_unique-reserved memory memory_laws hash prefixed (codes "t") (codes "u") none
      (alone (codes "d:t:{k1}|9") []) (codes "5") (codes "d:t:{k2}") 10 (ground arith) refl

-- The row whose primary key is a|b holds the value and is alive.
abbrev barred : Keyspace
barred = alone (codes "d:t:{a|b}|9") (codes "d:t:{a|b}")

reserve_unique-bar_example :
    ((reserve_unique memory hash prefixed
        (codes "t")
        (codes "u")
        none
        barred
        (codes "5")
        (codes "d:t:{k2}")
        10).1
      ≡ Verdict.reserved)
    × ((reserve_unique memory hash prefixed
            (codes "t")
            (codes "u")
            none
            barred
            (codes "5")
            (codes "d:t:{k2}")
            10).0.held
          key_of
        ≡ some (owner_of (codes "d:t:{k2}") 10))
unfolding owner_row owner_of ki_db.Base.index_byte unique_key escape_value
    ki_db.Keycodec.Keys.query_escape ki_db.Keycodec.Keys.has_structural format_uint
    ki_db.Base.format_onto reserve_unique
reserve_unique-bar_example =
    reserve_unique-bar memory memory_laws memory_healthy hash prefixed (codes "t") (codes "u") none
      barred (codes "5") (codes "d:t:{k2}") (codes "d:t:{a") (codes "b}") 9 10 (ground arith) refl
      (λ e. absurd (ground (arith, e))) refl tt

abbrev by_email : IndexDef
by_email = record {
  id = codes "u";
  column = codes "email";
  kind = IndexKind.unique;
  covering = [];
  is_async = false;
  prefix_copy = false;
}

abbrev email_row : Bytes → WriteReq
email_row pk = record {
  table = codes "t";
  indexes = by_email ∷ [];
  shards = pos 1;
  pk = pk;
  fields = (codes "email", codes "5") ∷ [];
  ttl = pos 0;
  keep_ttl = false;
  expected_old_ver = none;
}

reserve_all-keeps_example :
    ((reserve_all fresh hash prefixed
          (email_row (codes "k2"))
          (codes "d:t:{k2}")
          (alone (codes "d:t:{k1}|9") (codes "d:t:{k1}"))
          10
          (λ id. none)
          []
          (by_email ∷ [])).0.held
        key_of
      ≡ some (codes "d:t:{k1}|9"))
    × ((rollback_reservations memory
            (reserve_all fresh hash prefixed
              (email_row (codes "k2"))
              (codes "d:t:{k2}")
              (alone (codes "d:t:{k1}|9") (codes "d:t:{k1}"))
              10
              (λ id. none)
              []
              (by_email ∷ [])).0
            (key_of ∷ [])
            (codes "d:t:{k2}")).held
          key_of
        ≡ some (codes "d:t:{k1}|9"))
unfolding owner_row owner_of ki_db.Base.index_byte unique_key escape_value
    ki_db.Keycodec.Keys.query_escape ki_db.Keycodec.Keys.has_structural format_uint
    ki_db.Base.format_onto
reserve_all-keeps_example =
    reserve_all-keeps fresh memory_laws hash prefixed (email_row (codes "k2")) (codes "d:t:{k2}")
      key_of (codes "d:t:{k1}") (alone (codes "d:t:{k1}|9") (codes "d:t:{k1}")) 9 10 (λ id. none) []
      (by_email ∷ []) (key_of ∷ []) refl (ground arith) (λ e. absurd (ground (arith, e))) refl

-- The row k2 cannot take the value from the living k1, and takes it where nobody holds it.
attempts_run :
    ((write_attempts fresh hash prefixed
        (email_row (codes "k2"))
        (codes "d:t:{k2}")
        numbers
        hash
        no_tags
        (pos 100)
        (pos 500)
        (alone (codes "d:t:{k1}|9") (codes "d:t:{k1}"))
        (λ n. 10)
        []
        3).1
      ≡ Attempt.failed)
    × ((write_attempts fresh hash prefixed
          (email_row (codes "k2"))
          (codes "d:t:{k2}")
          numbers
          hash
          no_tags
          (pos 100)
          (pos 500)
          (record { held = λ k. none; lives = λ k. false; members = λ k. [] })
          (λ n. 10)
          []
          3).1
        ≡ Attempt.done 0 1)
unfolding write_attempts ki_db.Bucketmap.write_targets_eq default_doc ki_db.Base.index_byte
    ki_db.Bucketmap.read_buckets_eq ki_db.Bucketmap.Store.parse_uint64
attempts_run = (refl, refl)
