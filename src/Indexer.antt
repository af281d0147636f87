-- ===== src/Indexer.antt =====
-- indexer/indexer.go: the entries of an asynchronous index's log become index commands.
pub mod Unescape
pub mod ReadBack
mod Tests
use ki_db.Base.{
  ℕ, suc, ◌+◌, ◌*◌, ◌-◌, List, [], ◌∷◌, ◌++◌, map, Option, none, some, ◌>>=◌, Bytes, codes, Bool,
  true, false, ◌&&◌, pos, length, take, drop, index_byte, parse_uint, leb, ◌==◌, if◌then◌else◌,
  Score,
}
use ki_db.Meta.{IndexDef, IndexKind, ColumnType}
use ki_db.Keycodec.Keys.{eq_bucket_key, range_bucket_key, lex_bucket_key}
use ki_db.Rowcodec.Member.{plain_member, lex_member}
use ki_db.Txguard.Write.{Command}

-- `url.QueryUnescape`: in plain text, behind a percent sign, and behind one digit.
pub data Reading : Type 0 where
  plain percent : Reading
  half : ℕ → Reading

abbrev pub hex_value : ℕ → Option ℕ
hex_value c =
    if leb b'0' c && leb c b'9'
    then some (c - b'0')
    else if leb b'a' c && leb c b'f'
    then some (c - b'a' + 10)
    else if leb b'A' c && leb c b'F'
    then some (c - b'A' + 10)
    else none

abbrev pub put_byte : ℕ → Option Bytes → Option Bytes
put_byte c none = none
put_byte c (some cs) = some (c ∷ cs)

unfoldable pub unescape_from : Reading → Bytes → Option Bytes
unescape_from Reading.plain [] = some []
unescape_from Reading.plain (c ∷ cs) =
    let literal = put_byte c (unescape_from Reading.plain cs) in
    let space = put_byte b' ' (unescape_from Reading.plain cs) in
    let code = unescape_from Reading.percent cs in
    if c == b'%' then code else if c == b'+' then space else literal
unescape_from Reading.percent [] = none
unescape_from Reading.percent (c ∷ cs) = elim (hex_value c) [
  | none ↦ none
  | some d ↦ unescape_from (Reading.half d) cs
]
unescape_from (Reading.half d) [] = none
unescape_from (Reading.half d) (c ∷ cs) = elim (hex_value c) [
  | none ↦ none
  | some e ↦ put_byte (d * 16 + e) (unescape_from Reading.plain cs)
]

unfoldable pub query_unescape : Bytes → Option Bytes
unfolding unescape_from
query_unescape v = unescape_from Reading.plain v

-- The text in front of the first \x1f and the one behind it.
unfoldable pub cut : Bytes → Option (Bytes × Bytes)
cut v = elim (index_byte 31 v) [ none ↦ none | some i ↦ some (take i v, drop (suc i) v) ]

pub record Entry : Type 0 where
  pub pk : Bytes
  pub old_value : Bytes
  pub new_value : Bytes
  pub old_iv : ℕ
  pub ver : ℕ

-- An entry of five parts; `none` goes to the dead letters.
unfoldable pub parse_entry : Bytes → Option Entry
unfolding cut query_unescape
parse_entry e = do
  (pk, r1) ← cut e
  (old, r2) ← cut r1
  (new, r3) ← cut r2
  (iv, ver) ← cut r3
  old_value ← query_unescape old
  new_value ← query_unescape new
  old_iv ← parse_uint iv
  v ← parse_uint ver
  if v == 0
      then none
      else some (record {
        pk = pk;
        old_value = old_value;
        new_value = new_value;
        old_iv = old_iv;
        ver = v;
      })

-- The command for a value that is not empty.
abbrev pub unless_empty : Bytes → Command → List Command
unless_empty [] c = []
unless_empty (_ ∷ _) c = c ∷ []

abbrev pub is_scored : ColumnType → Bool
is_scored ColumnType.int_type = true
is_scored ColumnType.float_type = true
is_scored ColumnType.timestamp_type = true
is_scored ColumnType.string_type = false
is_scored ColumnType.bytes_type = false
is_scored ColumnType.json_type = false

module _ (s : Score) where
  -- `rowcodec.ScoreOf`
  unfoldable pub score_of : ColumnType → Bytes → Option s.Float
  score_of t encoded =
      let (score, ok) = s.parse encoded in if is_scored t && ok then some score else none

  module _ (xxhash : Bytes → ℕ) (print : s.Float → Bytes) (table : Bytes) (idx : IndexDef)
      (column : Option ColumnType) where
    abbrev pub lex_commands : Entry → List Command
    lex_commands e =
        if idx.prefix_copy
        then unless_empty e.old_value (
            Command.zrem (lex_bucket_key table idx.id (pos 0))
              (lex_member e.old_value e.pk e.old_iv))
          ++ unless_empty e.new_value (
              Command.zadd (lex_bucket_key table idx.id (pos 0)) (codes "0")
                (lex_member e.new_value e.pk e.ver))
        else []

    unfoldable pub eq_commands : Entry → List Command
    eq_commands e =
        unless_empty e.old_value (
          Command.zrem (eq_bucket_key xxhash table idx.id e.old_value (pos 0))
            (plain_member e.pk e.old_iv))
        ++ (unless_empty e.new_value (
              Command.zadd (eq_bucket_key xxhash table idx.id e.new_value (pos 0)) (codes "0")
                (plain_member e.pk e.ver))
            ++ lex_commands e)

    -- A new value without a score ends the round of the loop.
    unfoldable pub range_commands : Entry → List Command
    unfolding score_of
    range_commands e =
        let bucket : Bytes = range_bucket_key table idx.id (pos 0) in
        let removal : List Command =
          unless_empty e.old_value (Command.zrem bucket (plain_member e.pk e.old_iv)) in
        elim column [
          | none ↦ lex_commands e
          | some t ↦ elim e.new_value [
            | [] ↦ removal ++ lex_commands e
            | ◌∷◌ c cs ↦ elim (score_of t (c ∷ cs)) [
              | none ↦ removal
              | some score ↦
                  removal
                  ++ (Command.zadd bucket (print score) (plain_member e.pk e.ver) ∷ lex_commands e)
            ]
          ]
        ]

    unfoldable pub entry_commands : Entry → List Command
    unfolding eq_commands range_commands
    entry_commands e = elim idx.kind [
      | IndexKind.range ↦ range_commands e
      | IndexKind.eq ↦ eq_commands e
      | IndexKind.unique ↦ eq_commands e
    ]

    -- The loop over a batch: the commands, and the entries for the dead letters.
    unfoldable pub batch_commands : List Bytes → List Command × List Bytes
    unfolding parse_entry entry_commands
    batch_commands [] = ([], [])
    batch_commands (e ∷ rest) =
        let (cmds, dead) = batch_commands rest in
        elim (parse_entry e) [ none ↦ (cmds, e ∷ dead) | some x ↦ (entry_commands x ++ cmds, dead) ]

    -- The dead letters of a batch, by whether one of the two tries of the pipeline succeeds.
    unfoldable pub dead_letters : Bool → List Bytes → List Bytes
    unfolding batch_commands
    dead_letters sent entries =
        let (cmds, dead) = batch_commands entries in
        elim cmds [ [] ↦ dead | ◌∷◌ _ _ ↦ if sent then dead else dead ++ entries ]
