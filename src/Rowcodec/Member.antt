-- ===== src/Rowcodec/Member.antt =====
-- rowcodec/rowcodec.go, `PlainMember` to `MemberVer`: the member of an index bucket carries the
-- primary key, the version of the row and, for a covering index, the covered columns.
use ki_db.Base.{
  ℕ, zero, suc, ◌+◌, ◌%◌, ◌^◌, List, [], ◌∷◌, ◌++◌, Option, none, some, Bytes, Bool, true, false,
  ◌&&◌, ◌||◌, not, last_index_byte, index_byte, format_uint, parse_uint, length, take, drop, ltb,
  if◌then◌else◌,
}

-- What the source uses of tinylib/msgp: the bytes that `AppendArrayHeader` and `AppendString`
-- append, and `ReadArrayHeaderBytes` and `ReadStringBytes`, where `none` is an error.
pub record Msgp : Type 0 where
  pub header : ℕ → Bytes
  pub text : Bytes → Bytes
  pub read_header : Bytes → Option (ℕ × Bytes)
  pub read_text : Bytes → Option (Bytes × Bytes)

-- The byte \x1f.
abbrev pub separator : ℕ
separator = 31

unfoldable pub plain_member : Bytes → ℕ → Bytes
plain_member pk ver = pk ++ (separator ∷ format_uint ver 10)

unfoldable pub lex_member : Bytes → Bytes → ℕ → Bytes
lex_member value pk ver = value ++ (0 ∷ (pk ++ (separator ∷ format_uint ver 10)))

abbrev pub is_empty : {A : Type 0} → List A → Bool
is_empty [] = true
is_empty (_ ∷ _) = false

abbrev pub is_some : {A : Type 0} → Option A → Bool
is_some none = false
is_some (some _) = true

module _ (m : Msgp) where
  unfoldable pub texts : List Bytes → Bytes
  texts [] = []
  texts (s ∷ rest) = m.text s ++ texts rest

  -- `EncodeMember`; the number of columns is taken to 32 bits.
  unfoldable pub encode_member : Bytes → ℕ → List Bytes → Bytes
  unfolding plain_member texts
  encode_member pk ver [] = plain_member pk ver
  encode_member pk ver (c ∷ cs) =
      m.header ((2 + length (c ∷ cs)) % 2 ^ 32)
      ++ (m.text pk ++ (m.text (format_uint ver 10) ++ texts (c ∷ cs)))

  -- The loops of the readers: `count` texts and what is left, or an error.
  unfoldable pub read_texts : ℕ → Bytes → Option (List Bytes × Bytes)
  read_texts zero rest = some ([], rest)
  read_texts (suc count) rest = elim (m.read_text rest) [
    | none ↦ none
    | some (v, after) ↦ elim (read_texts count after) [
      | none ↦ none
      | some (vs, left) ↦ some (v ∷ vs, left)
    ]
  ]

  unfoldable pub plain_pk : Bytes → Bytes
  plain_pk member = elim (last_index_byte separator member) [
    | none ↦ member
    | some i ↦
        if ltb 0 i && is_some (parse_uint (drop (suc i) member)) then take i member else member
  ]

  -- The end of `MemberPK`: the first text, if everything was read and it is not empty.
  unfoldable pub first_text : Bytes → List Bytes → Bytes → Bytes
  first_text member [] left = member
  first_text member (pk ∷ vs) left = if not (is_empty left) || is_empty pk then member else pk

  unfoldable pub covering_pk : Bytes → Bytes
  unfolding read_texts first_text
  covering_pk member = elim (m.read_header member) [
    | none ↦ member
    | some (size, rest) ↦ elim (read_texts size rest) [
      | none ↦ member
      | some (vs, left) ↦ first_text member vs left
    ]
  ]

  unfoldable pub member_pk : Bytes → Bool → Bytes
  unfolding plain_pk covering_pk
  member_pk member has_covering = if has_covering then covering_pk member else plain_pk member

  -- `MemberCovers`; a failure is `nil`, the empty slice.
  unfoldable pub member_covers : Bytes → Bool → List Bytes
  unfolding read_texts
  member_covers member false = []
  member_covers member true = elim (m.read_header member) [
    | none ↦ []
    | some (size, rest) ↦ elim (read_texts size rest) [
      | none ↦ []
      | some (vs, left) ↦ if is_empty left then drop 2 vs else []
    ]
  ]

  unfoldable pub plain_ver : Bytes → Option ℕ
  plain_ver member = elim (last_index_byte separator member) [
    | none ↦ none
    | some i ↦ if ltb 0 i then parse_uint (drop (suc i) member) else none
  ]

  unfoldable pub second_ver : List Bytes → Option ℕ
  second_ver [] = none
  second_ver (_ ∷ []) = none
  second_ver (_ ∷ v ∷ _) = parse_uint v

  unfoldable pub covering_ver : Bytes → Option ℕ
  unfolding read_texts second_ver
  covering_ver member = elim (m.read_header member) [
    | none ↦ none
    | some (size, rest) ↦
        if ltb size 2
        then none
        else elim (read_texts 2 rest) [ none ↦ none | some (vs, left) ↦ second_ver vs ]
  ]

  -- `MemberVer`; `none` is the result (0, false).
  unfoldable pub member_ver : Bytes → Bool → Option ℕ
  unfolding plain_ver covering_ver
  member_ver member has_covering = if has_covering then covering_ver member else plain_ver member

  -- exec/prefix.go: the value and the primary key that a reading by prefix takes from a member;
  -- `none` skips it.
  unfoldable pub lex_item : Bytes → Option (Bytes × Bytes)
  unfolding member_pk
  lex_item member = elim (index_byte 0 member) [
    | none ↦ none
    | some cut ↦
        if ltb 0 cut then some (take cut member, member_pk (drop (suc cut) member) false) else none
  ]
