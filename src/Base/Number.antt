-- ===== src/Base/Number.antt =====
-- The functions of `strconv` that the source uses, on the bytes of a text.
use Prim.Native.Nat.{ℕ, zero, suc, ◌+◌, ◌-◌, ◌*◌, ◌/◌, ◌%◌, ◌^◌, ◌<◌, ◌≤◌}
use mathlib.Core.Path.{◌≡◌, refl, ◌∙◌}
use mathlib.Core.Logic.{inl, inr}
use mathlib.Core.Bool.{Bool, true, ◌&&◌, ◌||◌}
use mathlib.Core.List.{[], ◌∷◌}
use mathlib.Core.Option
use mathlib.Core.Option.{Option, none, some}
use native.Mathlib.Omega.{arith}
use ki_db.Base.Tests.{◌==◌, ltb, leb, if◌then◌else◌, Bool-cases}
use ki_db.Base.Lists.{All}
use ki_db.Base.Text.{Bytes}
use ki_db.Base.Int.{ℤ, pos, negsuc}

-- A digit below 16, in lower case.
abbrev pub digit : ℕ → ℕ
digit d = if ltb d 10 then b'0' + d else b'a' + (d - 10)

-- The digits of `n` in front of `tail`; a round divides by the base, so `n` rounds are enough.
unfoldable pub format_onto : ℕ → ℕ → ℕ → Bytes → Bytes
format_onto base zero n tail = digit n ∷ tail
format_onto base (suc fuel) n tail =
    let more = format_onto base fuel (n / base) (digit (n % base) ∷ tail) in
    if ltb n base then digit n ∷ tail else more

-- `strconv.FormatUint(n, base)` and, at base 10, the verb `%d` for a number from 0 on.
unfoldable pub format_uint : ℕ → ℕ → Bytes
format_uint n base = format_onto base n n []

-- `strconv.Itoa`
unfoldable pub itoa : ℤ → Bytes
itoa (pos n) = format_uint n 10
itoa (negsuc n) = b'-' ∷ format_uint (n + 1) 10

abbrev pub is_digit : ℕ → Bool
is_digit c = leb b'0' c && leb c b'9'

unfoldable pub parse_digits : ℕ → Bytes → Option ℕ
parse_digits acc [] = some acc
parse_digits acc (c ∷ cs) =
    let rest = parse_digits (acc * 10 + (c - b'0')) cs in if is_digit c then rest else none

-- A number in decimal, at most `limit`; an empty text is an error.
unfoldable pub parse_upto : ℕ → Bytes → Option ℕ
unfolding parse_digits
parse_upto limit [] = none
parse_upto limit (c ∷ cs) = elim (parse_digits 0 (c ∷ cs)) [
  | none ↦ none
  | some n ↦ if leb n limit then some n else none
]

-- `strconv.ParseUint(s, 10, 64)`; the error is `none`.
unfoldable pub parse_uint : Bytes → Option ℕ
unfolding parse_upto
parse_uint s = parse_upto (2 ^ 64 - 1) s

abbrev pub negate : ℕ → ℤ
negate zero = pos 0
negate (suc n) = negsuc n

-- `strconv.Atoi`, with its optional sign and the range of a 64-bit `int`; the error is `none`.
unfoldable pub atoi : Bytes → Option ℤ
unfolding parse_upto
atoi [] = none
atoi (c ∷ cs) =
    if c == b'-'
    then Option.map negate (parse_upto (2 ^ 63) cs)
    else if c == b'+'
    then Option.map pos (parse_upto (2 ^ 63 - 1) cs)
    else Option.map pos (parse_upto (2 ^ 63 - 1) (c ∷ cs))

parse_digits-format_onto :
    (fuel n : ℕ) (tail : Bytes)
    → n ≤ fuel
    → parse_digits 0 (format_onto 10 fuel n tail) ≡ parse_digits n tail
unfolding parse_digits format_onto
parse_digits-format_onto zero n tail h = ground arith
parse_digits-format_onto (suc fuel) n tail h =
    ground (arith, parse_digits-format_onto fuel (n / 10) (digit (n % 10) ∷ tail))

-- Every digit of base `b` up to 16 is a decimal digit or a letter from `a` to `f`.
abbrev pub IsHexDigit : ℕ → Type 0
IsHexDigit c = ((is_digit c || (leb b'a' c && leb c b'f')) ≡ true)

digit-IsHexDigit : (d : ℕ) → d < 16 → IsHexDigit (digit d)
digit-IsHexDigit d h = ground arith

mod_small : (base n : ℕ) → 2 ≤ base → base ≤ 16 → n % base < 16
mod_small base n lo hi = grind arith

div_shrinks : (base fuel n : ℕ) → 2 ≤ base → n ≤ suc fuel → n / base ≤ fuel
div_shrinks base fuel n lo h = grind arith

format_onto-IsHexDigit :
    (base fuel n : ℕ) (tail : Bytes)
    → 2 ≤ base
    → base ≤ 16
    → n ≤ fuel
    → All IsHexDigit tail
    → All IsHexDigit (format_onto base fuel n tail)
unfolding format_onto
format_onto-IsHexDigit base zero n tail lo hi h ht = (digit-IsHexDigit n (omega arith), ht)
format_onto-IsHexDigit base (suc fuel) n tail lo hi h ht = elim (Bool-cases (ltb n base)) [
  | inl e ↦ rw e (digit-IsHexDigit n (ground arith), ht)
  | inr e ↦ rw e (
      format_onto-IsHexDigit base fuel (n / base) (digit (n % base) ∷ tail) lo hi
        (div_shrinks base fuel n lo h) (digit-IsHexDigit (n % base) (mod_small base n lo hi), ht))
]

pub format_uint-IsHexDigit :
    (base n : ℕ) → 2 ≤ base → base ≤ 16 → All IsHexDigit (format_uint n base)
unfolding format_uint
format_uint-IsHexDigit base n lo hi = format_onto-IsHexDigit base n n [] lo hi (omega arith) tt

pub parse_digits-format : (n : ℕ) → parse_digits 0 (format_uint n 10) ≡ some n
unfolding format_uint
parse_digits-format n =
    parse_digits-format_onto n n [] (omega arith) ∙ (unfold parse_digits in refl)

digit_decimal : (d : ℕ) → d < 10 → is_digit (digit d) ≡ true
digit_decimal d h = ground arith

-- A number from 0 on is printed with a digit first.
abbrev pub DigitFirst : Bytes → Type 0
DigitFirst s = (c : ℕ) × (cs : Bytes) × (s ≡ c ∷ cs) × (is_digit c ≡ true)

format_onto-DigitFirst :
    (fuel n : ℕ) (tail : Bytes) → n ≤ fuel → DigitFirst (format_onto 10 fuel n tail)
unfolding format_onto
format_onto-DigitFirst zero n tail h = (digit n, tail, refl, digit_decimal n (omega arith))
format_onto-DigitFirst (suc fuel) n tail h = elim (Bool-cases (ltb n 10)) [
  | inl e ↦ rw e (b'0' + n, tail, refl, ground arith)
  | inr e ↦ rw e (format_onto-DigitFirst fuel (n / 10) (digit (n % 10) ∷ tail) (ground arith))
]

pub format_uint-DigitFirst : (n : ℕ) → DigitFirst (format_uint n 10)
unfolding format_uint
format_uint-DigitFirst n = format_onto-DigitFirst n n [] (omega arith)

pub parse_upto-format : (limit n : ℕ) → n ≤ limit → parse_upto limit (format_uint n 10) ≡ some n
unfolding parse_upto
parse_upto-format limit n h =
    let (c, cs, e, d) = format_uint-DigitFirst n in
    let parsed = rw e at (parse_digits-format n) in rw e (rw (parsed, parse_upto) (ground arith))

pub parse_uint-format : (n : ℕ) → n < 2 ^ 64 → parse_uint (format_uint n 10) ≡ some n
unfolding parse_uint
parse_uint-format n h = parse_upto-format (2 ^ 64 - 1) n (omega arith)

pub atoi-format : (n : ℕ) → n < 2 ^ 63 → atoi (format_uint n 10) ≡ some (pos n)
unfolding atoi
atoi-format n h =
    let (c, cs, e, d) = format_uint-DigitFirst n in
    let parsed = rw e at (parse_upto-format (2 ^ 63 - 1) n (omega arith)) in
    rw e (ground (arith, parsed))
