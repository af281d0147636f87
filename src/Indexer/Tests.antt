-- ===== src/Indexer/Tests.antt =====
-- Entries of the log of an asynchronous index at concrete inputs.
use ki_db.Base.{
  ℕ, suc, ◌≡◌, refl, inl, inr, arith, List, [], ◌∷◌, ◌++◌, Option, none, some, Bytes, codes, true,
  false, pos, length, same_text, format_uint, parse_uint, if◌then◌else◌,
}
use ki_db.Meta.{IndexDef, IndexKind}
use ki_db.Keycodec.Slot.{Table}
use ki_db.Rowcodec.Member.{Msgp}
use ki_db.Bucketmap.Numbers.{numbers, write_number}
use ki_db.Txguard.Entries.{Fields, AsyncDesc}
use ki_db.Txguard.Ops.{async_ops}
use ki_db.Txguard.Write.Numbers.{decimal}
use ki_db.Indexer.{parse_entry, entry_commands}
use ki_db.Indexer.ReadBack.{async_ops-read_back}

abbrev hash : Bytes → ℕ
hash s = length s

abbrev plain_members : Msgp
plain_members = record {
  header = λ n. n ∷ [];
  text = λ s. length s ∷ s;
  read_header = λ b. none;
  read_text = λ b. none;
}

abbrev no_tags : Table
no_tags i = []

abbrev no_fields : Fields
no_fields f = none

-- A value with a space and the separator of the entries.
abbrev noted : Fields
noted f = if same_text f (codes "city") then some (codes "new " ++ (31 ∷ codes "york")) else none

abbrev by_city : IndexDef
by_city = record {
  id = codes "c";
  column = codes "city";
  kind = IndexKind.eq;
  covering = [];
  is_async = true;
  prefix_copy = false;
}

abbrev first_entry : List AsyncDesc → AsyncDesc
first_entry [] = record { log_key = []; redo_member = []; old_iv = 0 }
first_entry (a ∷ rest) = a

abbrev desc : AsyncDesc
desc =
    first_entry
      (async_ops numbers hash plain_members no_tags (codes "t") 7 (codes "k1") no_fields noted
        (λ id. none) 4 5 by_city).asyncs

async_ops-read_back_example :
    parse_entry
      (desc.redo_member ++ (31 ∷ (format_uint desc.old_iv 10 ++ (31 ∷ decimal.tostring (pos 5)))))
    ≡ some (record {
      pk = codes "k1";
      old_value = [];
      new_value = codes "new " ++ (31 ∷ codes "york");
      old_iv = 4;
      ver = 5;
    })
unfolding async_ops ki_db.Txguard.Entries.iv_of ki_db.Base.itoa parse_uint
async_ops-read_back_example =
    async_ops-read_back numbers hash plain_members no_tags (codes "t") 7 (codes "k1") no_fields
      noted (λ id. none) 4 5 by_city decimal desc 5 (ground arith) tt (ground arith) refl
      (omega arith) (omega arith) (omega arith) (inl refl)

-- An empty new value is taken for a removal.
empty_value_run :
    entry_commands numbers hash write_number
      (codes "t")
      by_city
      none
      (record { pk = codes "k1"; old_value = []; new_value = []; old_iv = 4; ver = 5 })
    ≡ []
unfolding entry_commands
empty_value_run = refl
