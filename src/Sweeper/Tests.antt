-- ===== src/Sweeper/Tests.antt =====
-- The sweep at concrete inputs.
use ki_db.Base.{
  ℕ, suc, ◌≡◌, ◌≢◌, sym, some_same, same_text_refl, same_text-eq, Bool-cases, itoa, refl, inl, inr,
  arith, List, [], ◌∷◌, map, Option, none, some, Bytes, codes, true, false, ℤ, pos, negsuc, All, In,
  Free, length, take, drop, same_text, format_uint, parse_digits, if◌then◌else◌,
}
use ki_db.Meta.{IndexDef, IndexKind}
use ki_db.Keycodec.Slot.{Table}
use ki_db.Keycodec.Keys.{receipt_key, row_key}
use ki_db.Rowcodec.Member.{Msgp}
use ki_db.Bucketmap.Numbers.{numbers, numbers_laws}
use ki_db.Txguard.Entries.{Fields, Undo}
use ki_db.Txguard.Ops.{Ops, no_ops, build_index_ops}
use ki_db.Txguard.Unique.Reserve.{not_same}
use ki_db.Txguard.Write.{Pairs, Command}
use ki_db.Txguard.Write.Script.{Call, rebuild_calls}
use ki_db.Txguard.Write.Protocol.{lines}
use ki_db.Keycodec.Distinct.{format_uint-injective}
use ki_db.Txguard.Write.Numbers.{decimal, decimal-ReadsNumbers}
use ki_db.Sweeper.{batch_keys, batch_argv, sweep_batch, sweep_commands}
use ki_db.Sweeper.Batch.{dead_rows, sweep_batch-dead_rows}
use ki_db.Sweeper.Hashes.{Hashes, IsHashStore, run_calls, PrintsApart}
use ki_db.Sweeper.Swept.{build_index_ops-swept}

abbrev hash : Bytes → ℕ
hash s = length s

-- The row k2 is alive.
abbrev remaining : Bytes → ℤ
remaining key = if same_text key (row_key (codes "t") (codes "k2")) then pos 900 else negsuc 1

sweep_batch-dead_rows_example :
    sweep_batch decimal remaining
      (batch_keys (codes "t") (codes "k1" ∷ codes "k2" ∷ codes "k3" ∷ []))
      (batch_argv (codes "k1" ∷ codes "k2" ∷ codes "k3" ∷ []))
    ≡ some (
      map
          (λ pk. Call.del (receipt_key (codes "t") pk))
          (dead_rows remaining (codes "t") (codes "k1" ∷ codes "k2" ∷ codes "k3" ∷ [])),
      dead_rows remaining (codes "t") (codes "k1" ∷ codes "k2" ∷ codes "k3" ∷ []),
    )
sweep_batch-dead_rows_example =
    sweep_batch-dead_rows decimal decimal-ReadsNumbers remaining (codes "t")
      (codes "k1" ∷ codes "k2" ∷ codes "k3" ∷ []) (omega arith)

dead_rows_run :
    dead_rows remaining (codes "t") (codes "k1" ∷ codes "k2" ∷ codes "k3" ∷ [])
    ≡ codes "k1" ∷ codes "k3" ∷ []
unfolding dead_rows row_key
dead_rows_run = refl

abbrev plain_members : Msgp
plain_members = record {
  header = λ n. n ∷ [];
  text = λ s. length s ∷ s;
  read_header = λ b. none;
  read_text = λ b. none;
}

abbrev no_tags : Table
no_tags i = []

abbrev no_fields : Fields
no_fields f = none

abbrev aged : Fields
aged f = if same_text f (codes "age") then some (codes "40") else none

abbrev by_age : IndexDef
by_age = record {
  id = codes "a";
  column = codes "age";
  kind = IndexKind.range;
  covering = [];
  is_async = false;
  prefix_copy = false;
}

abbrev built : Option (Ops numbers × List Undo) → Ops numbers × List Undo
built none = (no_ops numbers, [])
built (some p) = p

abbrev first_write : Option (Ops numbers × List Undo)
first_write =
    build_index_ops numbers hash plain_members no_tags (codes "t") 7 (codes "k") no_fields aged
      (λ id. none) 0 1 (by_age ∷ [])

-- A server in memory: the fields of each key, a field set again at its old place.
abbrev put_field : Bytes → Bytes → Pairs → Pairs
put_field f v [] = (f, v) ∷ []
put_field f v ((g, w) ∷ rest) = if same_text f g then (f, v) ∷ rest else (g, w) ∷ put_field f v rest

abbrev field_in : Bytes → Pairs → Option Bytes
field_in f [] = none
field_in f ((g, w) ∷ rest) = if same_text f g then some w else field_in f rest

abbrev run_call : Call → (Bytes → Pairs) → Bytes → Pairs
run_call (Call.hset k f v) s j = if same_text j k then put_field f v (s j) else s j
run_call (Call.del k) s j = if same_text j k then [] else s j
run_call c s j = s j

abbrev stored : Hashes
stored = record {
  Server = Bytes → Pairs;
  call = run_call;
  hget = λ s k f. field_in f (s k);
  hgetall = λ s k. s k;
}

put_field-same : (f v : Bytes) (ps : Pairs) → field_in f (put_field f v ps) ≡ some v
put_field-same f v [] = rw (same_text_refl f) refl
put_field-same f v ((g, w) ∷ rest) = elim (Bool-cases (same_text f g)) [
  | inl e ↦ rw e (rw (same_text_refl f) refl)
  | inr e ↦ rw e (rw e (put_field-same f v rest))
]

put_field-other :
    (f v f' : Bytes) (ps : Pairs) → f' ≢ f → field_in f' (put_field f v ps) ≡ field_in f' ps
put_field-other f v f' [] ne = rw (not_same f' f ne) refl
put_field-other f v f' ((g, w) ∷ rest) ne = elim (Bool-cases (same_text f g)) [
  | inl e ↦
      let other : same_text f' g ≡ false = rw (sym (same_text-eq f g e)) (not_same f' f ne) in
      rw e (rw (not_same f' f ne) (rw other refl))
  | inr e ↦ rw e (elim (Bool-cases (same_text f' g)) [
    | inl e' ↦ rw e' refl
    | inr e' ↦ rw e' (put_field-other f v f' rest ne)
  ])
]

field_in-In : (f v : Bytes) (ps : Pairs) → field_in f ps ≡ some v → In (f, v) ps
field_in-In f v [] e = absurd (ground (arith, e))
field_in-In f v ((g, w) ∷ rest) e = elim (Bool-cases (same_text f g)) [
  | inl same ↦
      let here : v ≡ w = some_same (rw same at e) in inl (rw (same_text-eq f g same, here) refl)
  | inr other ↦ inr (field_in-In f v rest (rw other at e))
]

stored-IsHashStore : IsHashStore stored
stored-IsHashStore = record {
  hset_same = λ s k f v. rw (same_text_refl k) (put_field-same f v (s k));
  hset_other = λ s k f v f' ne. rw (same_text_refl k) (put_field-other f v f' (s k) ne);
  hgetall_all = λ s k f v e. field_in-In f v (s k) e;
}

decimal-PrintsApart : PrintsApart decimal
unfolding itoa
decimal-PrintsApart = record { tostring_apart = λ i j _ _ e. format_uint-injective i j e }

build_index_ops-swept_example :
    All
      (λ r. In (Command.zrem r.bucket r.member) (
        sweep_commands hash (codes "t") (pos 1) (codes "k") (
          run_calls stored
            (rebuild_calls decimal (codes "rcpt") (lines (built first_write).1) [])
            (λ k. [])
            (codes "rcpt"))))
      (built first_write).0.redos
unfolding parse_digits build_index_ops ki_db.Keycodec.Keys.range_bucket_key ki_db.Base.itoa
    format_uint ki_db.Base.format_onto
build_index_ops-swept_example =
    build_index_ops-swept numbers numbers_laws hash hash plain_members no_tags (codes "t") 7
      (codes "k") no_fields aged (λ id. none) 0 1 decimal stored (λ k. []) (codes "rcpt") [] (pos 1)
      (by_age ∷ []) (built first_write).0 (built first_write).1 stored-IsHashStore
      decimal-PrintsApart (tt, tt) ((λ h. (tt, refl)), tt) (ground arith) (omega arith) refl
