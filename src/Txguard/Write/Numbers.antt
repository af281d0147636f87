-- ===== src/Txguard/Write/Numbers.antt =====
-- Lua's numbers for the runs and witnesses: whole numbers in decimal.
use ki_db.Base.{
  ℕ, suc, ◌+◌, ◌^◌, ◌≡◌, refl, ap, arith, negate, some, ℤ, pos, negsuc, itoa, atoi, atoi-format,
  parse_upto-format,
}
use ki_db.Txguard.Write.Script.{Lua}
use ki_db.Txguard.Write.Protocol.{IsSmall, ReadsNumbers}

abbrev pub decimal : Lua
decimal = record { tonumber = atoi; tostring = itoa }

one_more : (n : ℕ) → negate (n + 1) ≡ negsuc n
one_more n = let e : n + 1 ≡ suc n = omega arith in rw e refl

atoi-itoa : (z : ℤ) → IsSmall z → atoi (itoa z) ≡ some z
unfolding itoa
atoi-itoa (pos n) h = atoi-format n (omega (arith, h))
atoi-itoa (negsuc n) h =
    unfold atoi in rw (parse_upto-format (2 ^ 63) (n + 1) (omega (arith, h))) (ap some (one_more n))

pub decimal-ReadsNumbers : ReadsNumbers decimal
decimal-ReadsNumbers = record { tonumber_itoa = atoi-itoa }
