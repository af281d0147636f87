-- ===== src/Keycodec/Slot/Tags.antt =====
-- Which part of a key is hashed, and keys that end in a slot tag.
use ki_db.Base.{
  ℕ, zero, suc, ◌≡◌, ◌≢◌, refl, ◌∙◌, [], ◌∷◌, ◌++◌, append_assoc, arith, Bytes, codes, Free,
  index_byte-first, IsHexDigit, format_uint-IsHexDigit, take-append_length, drop-append_suc-length,
  All, All-imp,
}
use ki_db.Keycodec.Slot.{hashtag, hashtag_in, zero_pad, pad_five, candidate}

hashtag_in-first :
    (key : Bytes) (c : ℕ) (cs suf : Bytes)
    → Free b'}' (c ∷ cs)
    → hashtag_in key ((c ∷ cs) ++ (b'}' ∷ suf)) ≡ c ∷ cs
unfolding hashtag_in
hashtag_in-first key c cs suf h =
    rw (index_byte-first b'}' (c ∷ cs) suf h, take-append_length (c ∷ cs) (b'}' ∷ suf), hashtag_in)

-- The tag is looked for behind the first brace.
pub hashtag-behind :
    (pre rest : Bytes)
    → Free b'{' pre
    → hashtag (pre ++ (b'{' ∷ rest)) ≡ hashtag_in (pre ++ (b'{' ∷ rest)) rest
unfolding hashtag
hashtag-behind pre rest h =
    rw (index_byte-first b'{' pre rest h, drop-append_suc-length pre b'{' rest, hashtag)

-- The hash tag is what stands between the first brace and the next closing one.
pub hashtag_split :
    (pre : Bytes) (c : ℕ) (cs suf : Bytes)
    → Free b'{' pre
    → Free b'}' (c ∷ cs)
    → hashtag (pre ++ (b'{' ∷ ((c ∷ cs) ++ (b'}' ∷ suf)))) ≡ c ∷ cs
hashtag_split pre c cs suf hp hb =
    hashtag-behind pre ((c ∷ cs) ++ (b'}' ∷ suf)) hp ∙ hashtag_in-first _ c cs suf hb

zero_pad-IsHexDigit : (k : ℕ) (s : Bytes) → All IsHexDigit s → All IsHexDigit (zero_pad k s)
unfolding zero_pad
zero_pad-IsHexDigit zero s h = h
zero_pad-IsHexDigit (suc k) s h = (refl, zero_pad-IsHexDigit k s h)

hex_free : (c : ℕ) → IsHexDigit c → c ≢ b'}'
hex_free c h = ground arith

pad_five-Free : (n : ℕ) → Free b'}' (pad_five n)
unfolding pad_five
pad_five-Free n =
    All-imp hex_free _
      (zero_pad-IsHexDigit _ _ (format_uint-IsHexDigit 10 n (omega arith) (omega arith)))

pub hashtag-candidate :
    (pre : Bytes) (n : ℕ) (suf : Bytes)
    → Free b'{' pre
    → hashtag (pre ++ (candidate n ++ suf)) ≡ codes "s:" ++ pad_five n
unfolding candidate
hashtag-candidate pre n suf h =
    rw (append_assoc (pad_five n) (b'}' ∷ []) suf) (
      hashtag_split pre b's' (b':' ∷ pad_five n) suf h
        (omega arith, (omega arith, pad_five-Free n)))
