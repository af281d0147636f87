-- ===== src/Base/Text.antt =====
-- A Go string as the list of its bytes, with the functions of `strings` that the source uses.
use Prim.Native.Nat.{ℕ, suc}
use Prim.Native.Char.{code}
use Prim.Native.String.{String}
use mathlib.Core.Path.{◌≡◌, refl}
use mathlib.Core.Logic.{◌≢◌, inl, inr}
use mathlib.Core.Bool.{Bool, true, false, ◌&&◌}
use mathlib.Core.List.{List, [], ◌∷◌, ◌++◌}
use mathlib.Core.Option
use mathlib.Core.Option.{Option, none, some}
use native.Mathlib.Omega.{arith}
use ki_db.Base.Tests.{Bool-cases, ◌==◌, if◌then◌else◌}
use ki_db.Base.Lists.{length, All, All-append}

abbrev pub Bytes : Type 0
Bytes = List ℕ

-- The bytes of an ASCII text.
abbrev pub codes : String → Bytes
codes String.[] = []
codes (String.◌∷◌ c s) = code c ∷ codes s

-- `strings.IndexByte`: `none` stands for -1.
unfoldable pub index_byte : ℕ → Bytes → Option ℕ
index_byte c [] = none
index_byte c (x ∷ xs) = if x == c then some 0 else Option.map suc (index_byte c xs)

-- `strings.LastIndex` of one byte.
unfoldable pub last_index_byte : ℕ → Bytes → Option ℕ
last_index_byte c [] = none
last_index_byte c (x ∷ xs) = elim (last_index_byte c xs) [
  | some i ↦ some (suc i)
  | none ↦ if x == c then some 0 else none
]

-- `strings.HasPrefix(s, p)`
unfoldable pub has_prefix : Bytes → Bytes → Bool
has_prefix s [] = true
has_prefix [] (p ∷ ps) = false
has_prefix (x ∷ xs) (p ∷ ps) = (x == p) && has_prefix xs ps

-- `strings.Index(s, p)`
unfoldable pub index_of : Bytes → Bytes → Option ℕ
index_of p [] = if has_prefix [] p then some 0 else none
index_of p (x ∷ xs) = if has_prefix (x ∷ xs) p then some 0 else Option.map suc (index_of p xs)

-- `strings.Contains(s, p)`
unfoldable pub contains : Bytes → Bytes → Bool
contains s p = elim (index_of p s) [ none ↦ false | some _ ↦ true ]

-- No byte of the text is `c`.
abbrev pub Free : ℕ → Bytes → Type 0
Free c = All (λ x. x ≢ c)

pub Free-append : (c : ℕ) (xs ys : Bytes) → Free c xs → Free c ys → Free c (xs ++ ys)
Free-append c = All-append (λ x. x ≢ c)

pub index_byte-first :
    (c : ℕ) (xs ys : Bytes) → Free c xs → index_byte c (xs ++ (c ∷ ys)) ≡ some (length xs)
unfolding index_byte
index_byte-first c [] ys h = ground arith
index_byte-first c (x ∷ xs) ys h = ground (arith, index_byte-first c xs ys h.1)

pub index_byte-absent : (c : ℕ) (xs : Bytes) → Free c xs → index_byte c xs ≡ none
unfolding index_byte
index_byte-absent c [] h = refl
index_byte-absent c (x ∷ xs) h = ground (arith, index_byte-absent c xs h.1)

pub last_index_byte-absent : (c : ℕ) (xs : Bytes) → Free c xs → last_index_byte c xs ≡ none
unfolding last_index_byte
last_index_byte-absent c [] h = refl
last_index_byte-absent c (x ∷ xs) h = ground (arith, last_index_byte-absent c xs h.1)

pub last_index_byte-last :
    (c : ℕ) (xs ys : Bytes) → Free c ys → last_index_byte c (xs ++ (c ∷ ys)) ≡ some (length xs)
unfolding last_index_byte
last_index_byte-last c [] ys h = ground (arith, last_index_byte-absent c ys h)
last_index_byte-last c (x ∷ xs) ys h = ground (arith, last_index_byte-last c xs ys h)

-- A text that does not hold the first byte of `p` does not hold `p`.
pub index_of-absent : (c : ℕ) (p xs : Bytes) → Free c xs → index_of (c ∷ p) xs ≡ none
unfolding index_of has_prefix
index_of-absent c p [] h = refl
index_of-absent c p (x ∷ xs) h = ground (arith, index_of-absent c p xs h.1)

pub has_prefix-append : (p ys : Bytes) → has_prefix (p ++ ys) p ≡ true
unfolding has_prefix
has_prefix-append [] [] = refl
has_prefix-append [] (y ∷ ys) = refl
has_prefix-append (x ∷ p) ys = ground (arith, has_prefix-append p ys)

pub index_of-first :
    (c : ℕ) (p xs ys : Bytes)
    → Free c xs
    → index_of (c ∷ p) (xs ++ ((c ∷ p) ++ ys)) ≡ some (length xs)
unfolding index_of has_prefix
index_of-first c p [] ys h = ground (arith, has_prefix-append p ys)
index_of-first c p (x ∷ xs) ys h = ground (arith, index_of-first c p xs ys h.1)

pub contains-byte_absent : (c : ℕ) (xs : Bytes) → Free c xs → contains xs (c ∷ []) ≡ false
unfolding contains
contains-byte_absent c xs h = rw (index_of-absent c [] xs h, contains)

pub index_byte-found : (c : ℕ) (xs ys : Bytes) → (j : ℕ) × (index_byte c (xs ++ (c ∷ ys)) ≡ some j)
unfolding index_byte
index_byte-found c [] ys = (0, ground arith)
index_byte-found c (x ∷ xs) ys =
    let (j, e) = index_byte-found c xs ys in
    elim (Bool-cases (x == c)) [ inl p ↦ (0, rw p) | inr p ↦ (suc j, rw (p, e)) ]

abbrev pub same_text : Bytes → Bytes → Bool
same_text [] [] = true
same_text [] (_ ∷ _) = false
same_text (_ ∷ _) [] = false
same_text (x ∷ xs) (y ∷ ys) = (x == y) && same_text xs ys

pub same_text_refl : (s : Bytes) → same_text s s ≡ true
same_text_refl [] = refl
same_text_refl (x ∷ xs) = ground (arith, same_text_refl xs)

pub same_text-eq : (s t : Bytes) → same_text s t ≡ true → s ≡ t
same_text-eq [] [] h = refl
same_text-eq [] (y ∷ ys) h = cc
same_text-eq (x ∷ xs) [] h = cc
same_text-eq (x ∷ xs) (y ∷ ys) h = ground (arith, same_text-eq xs ys)

-- A map from texts with one more entry.
abbrev pub set_key {ℓ} : {A : Type ℓ} → (Bytes → Option A) → Bytes → A → Bytes → Option A
set_key m k v j = if same_text j k then some v else m j
