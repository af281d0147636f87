-- ===== src/Keycodec/Slot.antt =====
-- keycodec/slot.go: the hash tag of a key, its slot, and the table of slot tags that `init` fills.
-- The checksum (github.com/sigurn/crc16) is a parameter.
pub mod Tags
pub mod Fill
use ki_db.Base.{
  ℕ, zero, suc, ◌+◌, ◌-◌, ◌%◌, List, [], ◌∷◌, ◌++◌, Option, none, some, Bytes, codes, index_byte,
  Bool, true, false, format_uint, length, take, drop, ltb, ◌==◌, if◌then◌else◌,
}

abbrev pub num_slots : ℕ
num_slots = 16384

-- The text behind the first `{`: its part up to a `}` that does not follow at once is the tag.
unfoldable pub hashtag_in : Bytes → Bytes → Bytes
hashtag_in key rest = elim (index_byte b'}' rest) [
  | none ↦ key
  | some zero ↦ key
  | some (suc j) ↦ take (suc j) rest
]

unfoldable pub hashtag : Bytes → Bytes
hashtag key = elim (index_byte b'{' key) [ none ↦ key | some i ↦ hashtag_in key (drop (suc i) key) ]

unfoldable pub zero_pad : ℕ → Bytes → Bytes
zero_pad zero s = s
zero_pad (suc k) s = b'0' ∷ zero_pad k s

-- `%05d`
unfoldable pub pad_five : ℕ → Bytes
unfolding zero_pad
pad_five n = zero_pad (5 - length (format_uint n 10)) (format_uint n 10)

unfoldable pub candidate : ℕ → Bytes
unfolding pad_five
candidate n = codes "{s:" ++ (pad_five n ++ codes "}")

-- `stagTable`; an entry that is still empty is the empty text.
abbrev pub Table : Type 0
Table = ℕ → Bytes

abbrev pub is_empty : Bytes → Bool
is_empty [] = true
is_empty (_ ∷ _) = false

abbrev pub update : Table → ℕ → Bytes → Table
update t s c i = if s == i then c else t i

module _ (crc16 : Bytes → ℕ) where
  unfoldable pub slot : Bytes → ℕ
  slot key = crc16 (hashtag key) % num_slots

  -- The loop of `init` from candidate `n` on, with `filled` entries set; `none` is fuel run out.
  unfoldable pub fill : ℕ → ℕ → ℕ → Table → Option Table
  fill zero n filled t = none
  fill (suc fuel) n filled t =
      let s = slot (candidate n) in
      let taken = fill fuel (n + 1) filled t in
      let set = fill fuel (n + 1) (filled + 1) (update t s (candidate n)) in
      if ltb filled num_slots then (if is_empty (t s) then set else taken) else some t

  unfoldable pub init : ℕ → Option Table
  init fuel = fill fuel 0 0 (λ _. [])

unfoldable pub slot_tag : Table → ℕ → Bytes
slot_tag stag_table s = stag_table (s % num_slots)
