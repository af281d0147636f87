-- ===== src/Sweeper/Batch.antt =====
-- sweep_batch.lua on the sweeper's keys and arguments.
use ki_db.Base.{
  ℕ, suc, ◌+◌, ◌^◌, ◌<◌, ◌≡◌, refl, sym, ap, ◌∙◌, inl, inr, arith, List, [], ◌∷◌, ◌++◌, map,
  append_assoc, some, Bytes, ℤ, pos, negsuc, length, length-append, get_elem?, itoa, same_int,
  Bool-cases, if◌then◌else◌,
}
use ki_db.Keycodec.Keys.{row_key, receipt_key}
use ki_db.Txguard.Write.Script.{Lua, Call}
use ki_db.Txguard.Write.Protocol.{ReadsNumbers}
use ki_db.Txguard.Write.Protocol.Reading.{number-itoa}
use ki_db.Sweeper.{batch_keys, entry_args, batch_argv, key_at, sweep_entries, sweep_batch}

get_elem?-map :
    (f : Bytes → Bytes) (pre : List Bytes) (x : Bytes) (post zs : List Bytes)
    → get_elem? (map f (pre ++ (x ∷ post)) ++ zs) (length pre) ≡ some (f x)
get_elem?-map f [] x post zs = refl
get_elem?-map f (y ∷ pre) x post zs = get_elem?-map f pre x post zs

get_elem?-behind :
    (f : Bytes → Bytes) (all zs : List Bytes) (i : ℕ)
    → get_elem? (map f all ++ zs) (length all + i) ≡ get_elem? zs i
get_elem?-behind f [] zs i = ap (get_elem? zs) (omega arith)
get_elem?-behind f (y ∷ all) zs i =
    let place : suc (length all) + i ≡ suc (length all + i) = omega arith in
    rw place (get_elem?-behind f all zs i)

get_elem?-map_end :
    (f : Bytes → Bytes) (pre : List Bytes) (x : Bytes) (post : List Bytes)
    → get_elem? (map f (pre ++ (x ∷ post))) (length pre) ≡ some (f x)
get_elem?-map_end f [] x post = refl
get_elem?-map_end f (y ∷ pre) x post = get_elem?-map_end f pre x post

module _ (pttl : Bytes → ℤ) (table : Bytes) where
  -- The rows of which PTTL says that they do not exist.
  unfoldable pub dead_rows : List Bytes → List Bytes
  dead_rows [] = []
  dead_rows (pk ∷ pks) =
      let rest = dead_rows pks in
      if same_int (pttl (row_key table pk)) (negsuc 1) then pk ∷ rest else rest

module _ (lua : Lua) (reads : ReadsNumbers lua) (pttl : Bytes → ℤ) (table : Bytes) where
  module _ (all : List Bytes) (few : length all < 2 ^ 53) where
    sweep_entries-dead_rows :
        (pre pks : List Bytes)
        → all ≡ pre ++ pks
        → sweep_entries lua pttl
            (length all)
            (batch_keys table all)
            (length pks)
            (entry_args (length pre) pks)
          ≡ some (
            map (λ pk. Call.del (receipt_key table pk)) (dead_rows pttl table pks),
            dead_rows pttl table pks,
          )
    unfolding sweep_entries entry_args batch_keys dead_rows
    sweep_entries-dead_rows pre [] e = refl
    sweep_entries-dead_rows pre (pk ∷ pks) e =
        let j = length pre in
        let later : List Bytes = entry_args (suc j) pks in
        let sizes : length all ≡ length pre + suc (length pks) =
          rw e (length-append pre (pk ∷ pks)) in
        let small : suc j < 2 ^ 53 = omega (arith, sizes, few) in
        let row : get_elem? (batch_keys table all) j ≡ some (row_key table pk) = rw e (
          get_elem?-map (λ x. row_key table x) pre pk pks
            (map (λ x. receipt_key table x) (pre ++ (pk ∷ pks)))) in
        let rcpt : get_elem? (batch_keys table all) (length all + j) ≡ some (receipt_key table pk) =
          get_elem?-behind (λ x. row_key table x) all (map (λ x. receipt_key table x) all) j
          ∙ rw e (get_elem?-map_end (λ x. receipt_key table x) pre pk pks) in
        let place : length all + suc j ≡ suc (length all + j) = omega arith in
        let behind : key_at (batch_keys table all) (pos (length all + suc j))
            ≡ some (receipt_key table pk) =
          rw place rcpt in
        let longer : length (pre ++ (pk ∷ [])) ≡ suc j =
          length-append pre (pk ∷ []) ∙ omega arith in
        let rest = rw longer at (
          sweep_entries-dead_rows (pre ++ (pk ∷ [])) pks
            (e ∙ sym (append_assoc pre (pk ∷ []) pks))) in
        rw (number-itoa lua reads (pos (suc j)) (itoa (pos (suc j)) ∷ later) small) (
          rw (number-itoa lua reads (pos (suc j)) later small) (
            rw row (
              rw rest (elim (Bool-cases (same_int (pttl (row_key table pk)) (negsuc 1))) [
                | inl dead ↦ rw dead (rw behind refl)
                | inr alive ↦ rw alive refl
              ]))))

  -- Where Lua reads decimal numbers and the rows are fewer than 2^53: the script, run on the keys
  -- and arguments that the sweeper writes for rows of one slot, returns the primary keys of exactly
  -- the rows that do not exist, in order, and deletes exactly their receipts.
  pub sweep_batch-dead_rows :
      (pks : List Bytes)
      → length pks < 2 ^ 53
      → sweep_batch lua pttl (batch_keys table pks) (batch_argv pks)
        ≡ some (
          map (λ pk. Call.del (receipt_key table pk)) (dead_rows pttl table pks),
          dead_rows pttl table pks,
        )
  unfolding sweep_batch batch_argv
  sweep_batch-dead_rows pks few =
      rw (number-itoa lua reads (pos (length pks)) (entry_args 0 pks) few)
        (sweep_entries-dead_rows pks few [] pks refl)
