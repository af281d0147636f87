-- ===== src/Txguard/Tests.antt =====
-- Runs of the write path, and the theorems at concrete inputs.
use ki_db.Base.{
  ℕ, suc, ◌≡◌, ◌≢◌, ◌⊎◌, refl, inl, inr, sym, arith, List, [], ◌∷◌, ◌++◌, Option, none, some, Bytes,
  codes, Bool, true, false, ℤ, pos, negsuc, All, In, Free, length, take, drop, take-append_length,
  drop-append_length, same_text, itoa, atoi, format_uint, parse_digits, some_same, if◌then◌else◌,
  map,
}
use ki_db.Keycodec.Slot.{slot}
use ki_db.Keycodec.Keys.{unique_key, escape_value, row_key}
use ki_db.Bucketmap.{Doc, default_doc}
use ki_db.Bucketmap.EqProtocol.{Phase}
use ki_db.Bucketmap.Numbers.{numbers, numbers_laws}
use ki_db.Txguard.Entries.{Fields, Undo, AsyncDesc, covering_member, iv_of}
use ki_db.Txguard.Ops.{Ops, no_ops, build_index_ops, index_ops, index_receipts}
use ki_db.Txguard.Ops.Covering.{stale_covers}
use ki_db.Txguard.Ops.Routing.{Covered}
use ki_db.Txguard.Ops.Undoing.{index_ops-undone}
use ki_db.Txguard.Row.{Guard}
use ki_db.Txguard.Delete.{Deletion, delete_found}
use ki_db.Txguard.Delete.FullLog.{delete_found-log_full}
use ki_db.Txguard.Unique.Reserve.{}
use ki_db.Txguard.Write.{Pairs, value_of, old_ver_of, Write, write_argv, delete_argv, script_keys}
use ki_db.Txguard.Write.Script.{Replies, old_version, write_row}
use ki_db.Txguard.Write.Numbers.{decimal, decimal-ReadsNumbers}
use ki_db.Txguard.Write.Protocol.{commit}
use ki_db.Txguard.Write.Protocol.Commit.{write_row-write_argv}
use ki_db.Txguard.Samples.{
  alone, by_city, fresh, hash, moved_zip, no_fields, no_tags, oslo, prefixed, prefixed_reads, rome,
  rome_row, splitting_docs,
}

abbrev ops_at : Fields → Fields → ℕ → Option (Ops numbers)
ops_at old new ver =
    index_ops numbers hash prefixed no_tags (codes "t") 7 (codes "k") old new splitting_docs ver
      (suc ver) by_city

abbrev ops_of : Option (Ops numbers) → Ops numbers
ops_of none = no_ops numbers
ops_of (some a) = a

index_ops-undone_example :
    Covered numbers numbers_laws
      (ops_of (ops_at no_fields rome 0)).redos
      (ops_of (ops_at rome_row oslo 1)).undos
unfolding default_doc parse_digits ki_db.Txguard.Entries.iv_field format_uint ki_db.Base.format_onto
    ki_db.Txguard.Entries.leaves index_ops ki_db.Bucketmap.write_targets_eq ki_db.Bucketmap.pick
    ki_db.Keycodec.Keys.eq_sub_for ki_db.Bucketmap.split_targets
index_ops-undone_example =
    index_ops-undone numbers numbers_laws hash prefixed no_tags (codes "t") 7 (codes "k") no_fields
      rome rome_row oslo splitting_docs 0 1 2 by_city (ops_of (ops_at no_fields rome 0))
      (ops_of (ops_at rome_row oslo 1))
      (
        (λ enc. (Phase.splitting (0 ∷ []) (1 ∷ 2 ∷ []), refl, (omega arith, omega arith))),
        (refl, refl),
        (tt, tt),
      )
      (λ h. (tt, refl)) (omega arith) (omega arith) (refl, (refl, tt), refl) refl refl refl

stale_covers_example :
    (index_ops numbers hash prefixed no_tags
        (codes "t")
        7
        (codes "k")
        rome_row
        moved_zip
        splitting_docs
        1
        2
        by_city
      ≡ some (no_ops numbers))
    × All
        (λ line.
          covering_member prefixed (codes "k") (iv_of rome_row (codes "c") 1) by_city rome_row
          ≢ line.member)
        (index_receipts numbers hash prefixed no_tags
          (codes "t")
          7
          (codes "k")
          rome_row
          moved_zip
          splitting_docs
          1
          2
          []
          by_city)
unfolding iv_of ki_db.Txguard.Entries.iv_field ki_db.Base.parse_uint ki_db.Base.parse_upto
    parse_digits
stale_covers_example =
    stale_covers numbers hash prefixed prefixed_reads no_tags (codes "t") 7 (codes "k") rome_row
      moved_zip splitting_docs 1 2 by_city (codes "rome") refl refl refl refl refl
      (λ e. absurd (ground (arith, e))) (omega arith) (omega arith) (omega arith, (omega arith, tt))
      (omega arith, (omega arith, tt)) (λ e. absurd (ground (arith, e)))

-- A write of one field with an entry for a log and two lines for the receipt.
abbrev sample : Write
sample = record {
  pk = codes "k1";
  ttlms = pos 60000;
  observed = pos 4;
  log_cap = pos 100;
  grace_ms = pos 500;
  asyncs = record { log_key = codes "log:a"; redo_member = codes "k1"; old_iv = 3 } ∷ [];
  receipts =
      record { bucket = codes "b1"; member = codes "m1" }
      ∷ record { bucket = codes "b2"; member = codes "m2" }
      ∷ [];
  fields = (codes "city", codes "rome") ∷ [];
  iv_updates = (codes "_iv:c", codes "5") ∷ [];
  drops = codes "zip" ∷ [];
  uniqs = (codes "u", codes "u:t:u=1") ∷ [];
}

abbrev at_four : Replies
at_four = record {
  old = (codes "_ver", codes "4") ∷ [];
  llen = λ k. 7;
  new_ver = pos 5;
  pttl = pos 60000;
}

write_row-write_argv_example :
    write_row decimal (script_keys (codes "row") (codes "rcpt") sample) (write_argv sample) at_four
    ≡ some (commit decimal at_four (codes "row") (codes "rcpt") sample (pos 4))
unfolding old_version atoi ki_db.Base.parse_upto parse_digits
write_row-write_argv_example =
    write_row-write_argv decimal decimal-ReadsNumbers at_four (codes "row") (codes "rcpt") sample
      (pos 4)
      (
        omega arith,
        omega arith,
        omega arith,
        omega arith,
        omega arith,
        omega arith,
        omega arith,
        omega arith,
        omega arith,
      )
      refl

-- A server whose script finds the log full.
abbrev full_server : Guard
full_server = record fresh { eval = λ w keys argv. (w, some (codes "log_full" ∷ codes "1" ∷ [])) }

abbrev first_version : Pairs
first_version = (codes "_ver", codes "1") ∷ (codes "city", codes "rome") ∷ []

-- The script itself answers so, without a call, where the log of the index is full.
full_answer_run :
    write_row decimal
      (script_keys (codes "row") (codes "rcpt") sample)
      (delete_argv (record sample { observed = pos 1 }))
      (record { old = first_version; llen = λ k. 100; new_ver = pos 2; pttl = pos 1 })
    ≡ some ([], codes "log_full" ∷ codes "1" ∷ [])
unfolding write_row delete_argv atoi itoa format_uint ki_db.Base.format_onto
full_answer_run = refl

-- On an old row whose version is no number the script answers with `nil`, and writes nothing.
nil_answer_run :
    write_row decimal
      (script_keys (codes "row") (codes "rcpt") sample)
      (delete_argv (record sample { observed = pos 1 }))
      (record {
        old = (codes "_ver", codes "x") ∷ [];
        llen = λ k. 0;
        new_ver = pos 2;
        pttl = pos 1;
      })
    ≡ some ([], codes "stale" ∷ codes "nil" ∷ [])
unfolding write_row delete_argv atoi itoa format_uint ki_db.Base.format_onto
nil_answer_run = refl

abbrev made_ops : Option (Ops numbers × List Undo) → Ops numbers × List Undo
made_ops none = (no_ops numbers, [])
made_ops (some p) = p

abbrev deletion_ops : Option (Ops numbers × List Undo)
deletion_ops =
    build_index_ops numbers hash prefixed no_tags (codes "t")
      (slot hash (row_key (codes "t") (codes "k1"))) (codes "k1") (value_of first_version)
      (λ f. none) splitting_docs (old_ver_of first_version) (suc (old_ver_of first_version))
      (by_city ∷ [])

delete_found-log_full_example :
    (delete_found full_server hash hash prefixed no_tags numbers
      (pos 100)
      (pos 500)
      (codes "t")
      (by_city ∷ [])
      (pos 1)
      (codes "k1")
      (alone [] [])
      first_version
      splitting_docs).1
    ≡ some Deletion.deleted
unfolding build_index_ops
delete_found-log_full_example =
    delete_found-log_full full_server hash hash prefixed no_tags numbers (pos 100) (pos 500)
      (codes "t") (by_city ∷ []) (pos 1) (codes "k1") (alone [] []) first_version splitting_docs
      (made_ops deletion_ops).0 (made_ops deletion_ops).1 refl (λ keys argv. refl) (λ t cmds. refl)
