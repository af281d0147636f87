-- ===== src/Bucketmap/Numbers.antt =====
-- Scores for the runs and witnesses: natural numbers between two infinities.
use ki_db.Base.{
  ℕ, ◌≡◌, refl, arith, Bool, true, false, Option, none, some, Bytes, codes, leb, ltb, format_uint,
  parse_digits, Score, IsOrdered,
}

-- The scores from 0 on, with the infinities; a text without digits is 0.
pub data Number : Type 0 where
  low high : Number
  finite : ℕ → Number

abbrev pub number_le : Number → Number → Bool
number_le low b = true
number_le high high = true
number_le high low = false
number_le high (finite n) = false
number_le (finite m) low = false
number_le (finite m) high = true
number_le (finite m) (finite n) = leb m n

abbrev pub number_lt : Number → Number → Bool
number_lt low low = false
number_lt low high = true
number_lt low (finite n) = true
number_lt high b = false
number_lt (finite m) low = false
number_lt (finite m) high = true
number_lt (finite m) (finite n) = ltb m n

abbrev pub read_number : Option ℕ → Number × Bool
read_number none = (finite 0, false)
read_number (some n) = (finite n, true)

abbrev pub write_number : Number → Bytes
write_number low = codes "-Inf"
write_number high = codes "+Inf"
write_number (finite n) = format_uint n 10

abbrev pub numbers : Score
numbers = record {
  Float = Number;
  le = number_le;
  lt = number_lt;
  neg_inf = low;
  pos_inf = high;
  parse = λ s. read_number (parse_digits 0 s);
  format = write_number;
}

pub number_le_refl : (a : Number) → number_le a a ≡ true
number_le_refl low = refl
number_le_refl high = refl
number_le_refl (finite n) = ground arith

pub number_lt_le : (a b : Number) → number_lt a b ≡ true → number_le a b ≡ true
number_lt_le a b h = ground arith

pub number_total : (a b : Number) → number_lt a b ≡ false → number_le b a ≡ true
number_total a b h = ground arith

pub number_lt_not_ge : (a b : Number) → number_lt a b ≡ true → number_le b a ≡ false
number_lt_not_ge a b h = ground arith

abbrev pub numbers_laws : IsOrdered numbers
numbers_laws = record {
  IsNumber = λ a. Unit {0};
  neg_inf_least = λ a h. refl;
  pos_inf_greatest = λ a. refl;
  infinities = refl;
  pos_inf_number = tt;
  le_refl = λ a h. number_le_refl a;
  lt_le = number_lt_le;
  total = λ a b ha hb. number_total a b;
  lt_not_ge = number_lt_not_ge;
}
