-- ===== src/Rowcodec/Tests.antt =====
-- Runs of the member codec, and the theorems at concrete inputs.
use ki_db.Base.{
  ◌≡◌, refl, [], ◌∷◌, ◌++◌, none, some, codes, false, not, length, take, drop, arith,
  take-append_length, drop-append_length, last_index_byte, parse_uint,
}
use ki_db.Rowcodec.Member.{Msgp, encode_member, member_pk, member_ver, member_covers, is_empty}
use ki_db.Rowcodec.RoundTrip.{ReadsBack, reads-encode_member}

-- A codec that writes a length in front.
abbrev prefixed : Msgp
prefixed = record {
  header = λ n. n ∷ [];
  text = λ s. length s ∷ s;
  read_header = λ b. elim b [ [] ↦ none | ◌∷◌ n rest ↦ some (n, rest) ];
  read_text = λ b. elim b [ [] ↦ none | ◌∷◌ n rest ↦ some (take n rest, drop n rest) ];
}

prefixed-reads : ReadsBack prefixed
prefixed-reads = record {
  header_back = λ n rest h. refl;
  text_back = λ s rest h. rw (take-append_length s rest, drop-append_length s rest) refl;
}

plain_pk_run : member_pk prefixed (codes "k1" ++ (31 ∷ codes "12")) false ≡ codes "k1"
unfolding member_pk last_index_byte parse_uint
plain_pk_run = refl

reads-encode_member_example :
    (member_pk prefixed
        (encode_member prefixed (codes "u7") 5 (codes "red" ∷ codes "xl" ∷ []))
        (not (is_empty (codes "red" ∷ codes "xl" ∷ [])))
      ≡ codes "u7")
    × (member_ver prefixed
          (encode_member prefixed (codes "u7") 5 (codes "red" ∷ codes "xl" ∷ []))
          (not (is_empty (codes "red" ∷ codes "xl" ∷ [])))
        ≡ some 5)
    × (member_covers prefixed
          (encode_member prefixed (codes "u7") 5 (codes "red" ∷ codes "xl" ∷ []))
          (not (is_empty (codes "red" ∷ codes "xl" ∷ [])))
        ≡ codes "red" ∷ codes "xl" ∷ [])
reads-encode_member_example =
    reads-encode_member prefixed prefixed-reads (codes "u7") 5 (codes "red" ∷ codes "xl" ∷ [])
      (λ e. cc) (omega arith) (omega arith) (omega arith, (omega arith, (omega arith, tt)))
