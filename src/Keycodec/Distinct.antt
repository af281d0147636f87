-- ===== src/Keycodec/Distinct.antt =====
-- keycodec/keycodec.go: the keys of different buckets of an index, and of a bucket and a row, differ.
use ki_db.Base.{
  ℕ, zero, suc, ◌≡◌, ◌≢◌, refl, sym, ap, ◌∙◌, [], ◌∷◌, ◌++◌, arith, Bytes, codes, pos, Free,
  All-imp, length, drop, drop-append_length, format_uint, format_uint-IsHexDigit, parse_digits,
  parse_digits-format, itoa,
}
use ki_db.Keycodec.Keys.{eq_bucket_key_esc, range_bucket_key, row_key}

cancel : (xs ys zs : Bytes) → xs ++ ys ≡ xs ++ zs → ys ≡ zs
cancel xs ys zs h =
    sym (drop-append_length xs ys) ∙ (ap (drop (length xs)) h ∙ drop-append_length xs zs)

-- Texts without the byte that ends them are told apart.
cancel_end :
    (c : ℕ) (xs ys : Bytes) → Free c xs → Free c ys → xs ++ (c ∷ []) ≡ ys ++ (c ∷ []) → xs ≡ ys
cancel_end c [] [] hx hy h = refl
cancel_end c [] (y ∷ ys) hx hy h = absurd (hy.0 (cc))
cancel_end c (x ∷ xs) [] hx hy h = absurd (hx.0 (cc))
cancel_end c (x ∷ xs) (y ∷ ys) hx hy h = ground (arith, cancel_end c xs ys hx.1 hy.1, h)

digits-Free_of_brace : (n : ℕ) → Free b'}' (format_uint n 10)
digits-Free_of_brace n =
    All-imp (λ c h. ground (arith, h)) (format_uint n 10)
      (format_uint-IsHexDigit 10 n (omega arith) (omega arith))

pub format_uint-injective : (n k : ℕ) → format_uint n 10 ≡ format_uint k 10 → n ≡ k
format_uint-injective n k h =
    ground (arith, sym (parse_digits-format n) ∙ (ap (parse_digits 0) h ∙ parse_digits-format k))

number_text : (n k : ℕ) → format_uint n 10 ++ codes "}" ≡ format_uint k 10 ++ codes "}" → n ≡ k
number_text n k h = format_uint-injective n k (
    cancel_end b'}' (format_uint n 10) (format_uint k 10) (digits-Free_of_brace n)
      (digits-Free_of_brace k) h)

pub range_bucket_key-injective :
    (table idx : Bytes) (n k : ℕ)
    → range_bucket_key table idx (pos n) ≡ range_bucket_key table idx (pos k)
    → n ≡ k
unfolding range_bucket_key itoa
range_bucket_key-injective table idx n k h = number_text n k (
    cancel (codes ":{r") _ _
      (cancel idx _ _ (cancel (codes ":") _ _ (cancel table _ _ (cancel (codes "i:") _ _ h)))))

-- What two keys of one value share is taken off.
eq_bucket_ends :
    (table idx enc xs ys : Bytes)
    → codes "i:" ++ (table ++ (codes ":" ++ (idx ++ (codes "={" ++ (enc ++ xs)))))
      ≡ codes "i:" ++ (table ++ (codes ":" ++ (idx ++ (codes "={" ++ (enc ++ ys)))))
    → xs ≡ ys
eq_bucket_ends table idx enc xs ys h = cancel enc _ _ (
    cancel (codes "={") _ _
      (cancel idx _ _ (cancel (codes ":") _ _ (cancel table _ _ (cancel (codes "i:") _ _ h)))))

-- Buckets of different numbers of one index and value have different keys.
pub eq_bucket_key_esc-injective :
    (table idx enc : Bytes) (n k : ℕ)
    → eq_bucket_key_esc table idx enc (pos n) ≡ eq_bucket_key_esc table idx enc (pos k)
    → n ≡ k
unfolding eq_bucket_key_esc
eq_bucket_key_esc-injective table idx enc zero zero h = refl
eq_bucket_key_esc-injective table idx enc zero (suc k) h =
    absurd (let ends = eq_bucket_ends table idx enc _ _ h in ground (arith, ends))
eq_bucket_key_esc-injective table idx enc (suc n) zero h =
    absurd (let ends = eq_bucket_ends table idx enc _ _ h in ground (arith, ends))
eq_bucket_key_esc-injective table idx enc (suc n) (suc k) h =
    number_text (suc n) (suc k) (cancel (codes "#b") _ _ (eq_bucket_ends table idx enc _ _ h))

pub row_key-eq_bucket_key_esc :
    (table pk table' idx enc : Bytes) (n : ℕ)
    → row_key table pk ≢ eq_bucket_key_esc table' idx enc (pos n)
unfolding row_key eq_bucket_key_esc
row_key-eq_bucket_key_esc table pk table' idx enc zero h = ground (arith, h)
row_key-eq_bucket_key_esc table pk table' idx enc (suc n) h = ground (arith, h)

pub row_key-range_bucket_key :
    (table pk table' idx : Bytes) (n : ℕ) → row_key table pk ≢ range_bucket_key table' idx (pos n)
unfolding row_key range_bucket_key
row_key-range_bucket_key table pk table' idx n h = ground (arith, h)
