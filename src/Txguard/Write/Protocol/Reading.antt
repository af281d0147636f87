-- ===== src/Txguard/Write/Protocol/Reading.antt =====
-- The lists of the arguments are read back, whatever follows them.
use ki_db.Base.{
  ℕ, suc, ◌+◌, ◌^◌, ◌<◌, ◌≡◌, refl, sym, ap, ◌∙◌, inl, inr, arith, List, [], ◌∷◌, ◌++◌, some, Bytes,
  true, ℤ, pos, length, length-append, get_elem?, In, All, itoa, format_uint, same_text,
  same_text-eq, same_text_refl, Bool-cases, at_least,
}
use ki_db.Txguard.Entries.{AsyncDesc, Undo}
use ki_db.Txguard.Write.{Pairs, log_key_from, log_key_idx, async_args, pair_args, receipt_args}
use ki_db.Txguard.Write.Script.{
  Lua, Replies, AsyncArg, number, read_pairs, read_names, read_asyncs, log_key_at, is_full,
  log_calls,
}
use ki_db.Txguard.Write.Protocol.{IsSmall, ReadsNumbers, lines, has_full, entries}

pub read_pairs-pair_args :
    (a : Pairs) (rest : List Bytes) → read_pairs (length a) (pair_args a ++ rest) ≡ some (a, rest)
unfolding read_pairs
read_pairs-pair_args [] rest = refl
read_pairs-pair_args ((x, y) ∷ a) rest = rw (read_pairs-pair_args a rest) refl

pair_args-append :
    (a b : Pairs) (rest : List Bytes)
    → pair_args (a ++ b) ++ rest ≡ pair_args a ++ (pair_args b ++ rest)
pair_args-append [] b rest = refl
pair_args-append ((x, y) ∷ a) b rest = rw (pair_args-append a b rest) refl

pub read_pairs-both :
    (a b : Pairs) (rest : List Bytes)
    → read_pairs (length a + length b) (pair_args a ++ (pair_args b ++ rest)) ≡ some (a ++ b, rest)
read_pairs-both a b rest =
    rw (sym (pair_args-append a b rest), sym (length-append a b))
      (read_pairs-pair_args (a ++ b) rest)

pub read_pairs-receipt_args :
    (us : List Undo) (rest : List Bytes)
    → read_pairs (length us) (receipt_args us ++ rest) ≡ some (lines us, rest)
unfolding read_pairs
read_pairs-receipt_args [] rest = refl
read_pairs-receipt_args (u ∷ us) rest = rw (read_pairs-receipt_args us rest) refl

pub read_names-names :
    (xs rest : List Bytes) → read_names (length xs) (xs ++ rest) ≡ some (xs, rest)
unfolding read_names
read_names-names [] rest = refl
read_names-names (x ∷ xs) rest = rw (read_names-names xs rest) refl

-- The place of a key among the keys of the logs.
log_key_from-place :
    (n : ℕ) (key : Bytes) (keys : List Bytes)
    → In key keys
    → (i : ℕ) × (log_key_from n key keys ≡ format_uint (n + i + 1) 10)
      × (get_elem? keys i ≡ some key)
      × i < length keys
unfolding log_key_from
log_key_from-place n key [] h = elim h [ ]
log_key_from-place n key (k ∷ ks) h = elim (Bool-cases (same_text k key)) [
  | inl e ↦
      let same = same_text-eq k key e in
      (0, rw e (ap (λ j. format_uint j 10) (omega arith)), rw same refl, ground arith)
  | inr e ↦ elim h [
    | inl same ↦
        let this : same_text k key ≡ true = rw same (same_text_refl k) in
        absurd (ground (arith, e, this))
    | inr later ↦
        let (i, named, found, below) = log_key_from-place (suc n) key ks later in
        (
          suc i,
          rw e (named ∙ ap (λ j. format_uint j 10) (omega arith)),
          found,
          ground (arith, below),
        )
  ]
]

-- The script's view of an entry: it names the entry's log and carries its texts.
abbrev pub Matches : Bytes → Bytes → List Bytes → List AsyncDesc → List AsyncArg → Type 0
Matches rowkey rcptkey keys [] [] = Unit {0}
Matches rowkey rcptkey keys [] (d ∷ ds) = ⊥
Matches rowkey rcptkey keys (a ∷ rest) [] = ⊥
Matches rowkey rcptkey keys (a ∷ rest) (d ∷ ds) =
    (log_key_at (rowkey ∷ rcptkey ∷ keys) d.log_key ≡ some a.log_key)
    × (d.redo_member ≡ a.redo_member)
    × (d.old_iv ≡ format_uint a.old_iv 10)
    × Matches rowkey rcptkey keys rest ds

module _ (lua : Lua) (reads : ReadsNumbers lua) where
  pub number-itoa :
      (z : ℤ) (rest : List Bytes) → IsSmall z → number lua (itoa z ∷ rest) ≡ some (z, rest)
  unfolding number
  number-itoa z rest h = rw (reads.tonumber_itoa z h) refl

  pub read_asyncs-async_args :
      (rowkey rcptkey : Bytes) (keys : List Bytes) (asyncs : List AsyncDesc) (rest : List Bytes)
      → All (λ a. In a.log_key keys) asyncs
      → length keys < 2 ^ 53
      → (ds : List AsyncArg) × (read_asyncs lua (length asyncs) (async_args keys asyncs ++ rest)
          ≡ some (ds, rest))
        × Matches rowkey rcptkey keys asyncs ds
  unfolding read_asyncs async_args log_key_idx number log_key_at itoa
  read_asyncs-async_args rowkey rcptkey keys [] rest h few = ([], refl, tt)
  read_asyncs-async_args rowkey rcptkey keys (a ∷ asyncs) rest h few =
      let (i, named, found, below) = log_key_from-place 0 a.log_key keys h.0 in
      let (ds, more, match) = read_asyncs-async_args rowkey rcptkey keys asyncs rest h.1 few in
      let place : 0 + i + 1 ≡ suc i = omega arith in
      let read : lua.tonumber (log_key_from 0 a.log_key keys) ≡ some (pos (suc i)) =
        rw (named ∙ ap (λ j. format_uint j 10) place)
          (reads.tonumber_itoa (pos (suc i)) (omega (arith, below, few))) in
      (
        record {
          log_key = pos (suc i);
          redo_member = a.redo_member;
          old_iv = format_uint a.old_iv 10;
        }
            ∷ ds,
        rw (read, more) refl,
        (found, refl, refl, match),
      )

  pub is_full-has_full :
      (rowkey rcptkey : Bytes) (keys : List Bytes) (rs : Replies) (cap : ℤ)
      (asyncs : List AsyncDesc) (ds : List AsyncArg)
      → Matches rowkey rcptkey keys asyncs ds
      → is_full lua (rowkey ∷ rcptkey ∷ keys) rs cap ds ≡ some (has_full lua rs cap asyncs)
  unfolding is_full has_full
  is_full-has_full rowkey rcptkey keys rs cap [] [] h = refl
  is_full-has_full rowkey rcptkey keys rs cap [] (d ∷ ds) h = elim h [ ]
  is_full-has_full rowkey rcptkey keys rs cap (a ∷ asyncs) [] h = elim h [ ]
  is_full-has_full rowkey rcptkey keys rs cap (a ∷ asyncs) (d ∷ ds) h =
      elim (Bool-cases (at_least (pos (rs.llen a.log_key)) cap)) [
        | inl e ↦ rw h.0 (rw e refl)
        | inr e ↦ rw h.0 (rw e (is_full-has_full rowkey rcptkey keys rs cap asyncs ds h.3))
      ]

  pub log_calls-entries :
      (rowkey rcptkey : Bytes) (keys : List Bytes) (rs : Replies) (ver : ℤ)
      (asyncs : List AsyncDesc) (ds : List AsyncArg)
      → Matches rowkey rcptkey keys asyncs ds
      → log_calls lua (rowkey ∷ rcptkey ∷ keys) rs (lua.tostring ver) ds
        ≡ some (entries lua rs ver asyncs)
  unfolding log_calls entries
  log_calls-entries rowkey rcptkey keys rs ver [] [] h = refl
  log_calls-entries rowkey rcptkey keys rs ver [] (d ∷ ds) h = elim h [ ]
  log_calls-entries rowkey rcptkey keys rs ver (a ∷ asyncs) [] h = elim h [ ]
  log_calls-entries rowkey rcptkey keys rs ver (a ∷ asyncs) (d ∷ ds) h =
      let rest = log_calls-entries rowkey rcptkey keys rs ver asyncs ds h.3 in
      rw (h.0, rest, h.1, h.2) refl
