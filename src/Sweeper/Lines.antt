-- ===== src/Sweeper/Lines.antt =====
-- The lines of a receipt are read back from the hash that the script has left.
use ki_db.Base.{
  ℕ, suc, ◌+◌, ◌<◌, ◌≡◌, ◌≢◌, refl, sym, ap, ◌∙◌, inl, inr, arith, List, [], ◌∷◌, ◌++◌, some, Bytes,
  codes, length, true, pos, In, All, All-imp, Free, index_byte-first, take-append_length,
  drop-append_suc-length, has_prefix, has_prefix-append, Bool-cases, Option-cases,
}
use ki_db.Txguard.Entries.{Undo}
use ki_db.Txguard.Write.{Pairs}
use ki_db.Txguard.Write.Script.{Lua, Call, receipt_calls, uniq_calls, rebuild_calls}
use ki_db.Txguard.Write.Protocol.{lines}
use ki_db.Sweeper.{split_line, receipt_undos}
use ki_db.Sweeper.Hashes.{Hashes, IsHashStore, run_calls, printable, PrintsApart}

-- The value of a line.
abbrev pub line_of : Undo → Bytes
line_of u = u.bucket ++ (31 ∷ u.member)

-- A field of the hash holds the line.
abbrev pub HasLine : Pairs → Undo → Type 0
HasLine rcpt u = (i : Bytes) × In (codes "idx:" ++ i, line_of u) rcpt

pub split_line-back : (u : Undo) → Free 31 u.bucket → split_line (line_of u) ≡ some u
unfolding split_line
split_line-back u h =
    rw (index_byte-first 31 u.bucket u.member h, split_line)
      (rw (take-append_length u.bucket (31 ∷ u.member), drop-append_suc-length u.bucket 31 u.member)
        refl)

idx-apart : (a b : Bytes) → codes "idx:" ++ a ≡ codes "idx:" ++ b → a ≡ b
idx-apart a b h = cc

idx-uniq : (a b : Bytes) → codes "idx:" ++ a ≢ codes "__uniq:" ++ b
idx-uniq a b h = absurd (ground (arith, h))

module _ (h : Hashes) (law : IsHashStore h) where
  run_calls-append :
      (xs ys : List Call) (s : h.Server)
      → run_calls h (xs ++ ys) s ≡ run_calls h ys (run_calls h xs s)
  run_calls-append [] ys s = refl
  run_calls-append (x ∷ xs) ys s = run_calls-append xs ys (h.call x s)

  module _ (lua : Lua) (apart : PrintsApart lua) (rcptkey : Bytes) where
    abbrev field_at : ℕ → Bytes
    field_at i = codes "idx:" ++ lua.tostring (pos i)

    -- The lines from number `i` on leave those in front of it.
    receipt_calls-keep :
        (us : List Undo) (i j : ℕ) (s : h.Server)
        → j < i
        → i + length us < printable
        → h.hget (run_calls h (receipt_calls lua rcptkey i (lines us)) s) rcptkey (field_at j)
          ≡ h.hget s rcptkey (field_at j)
    unfolding receipt_calls
    receipt_calls-keep [] i j s less room = refl
    receipt_calls-keep (u ∷ us) i j s less room =
        let ne : field_at j ≢ field_at i = λ e.
          let same =
            apart.tostring_apart j i (omega arith) (omega arith)
              (idx-apart (lua.tostring (pos j)) (lua.tostring (pos i)) e) in
          absurd (omega (arith, same, less)) in
        receipt_calls-keep us (suc i) j _ (omega arith) (omega (arith, room))
        ∙ law.hset_other s rcptkey (field_at i) (line_of u) (field_at j) ne

    uniq_calls-keep :
        (uniqs : Pairs) (i : Bytes) (s : h.Server)
        → h.hget (run_calls h (uniq_calls lua rcptkey uniqs) s) rcptkey (codes "idx:" ++ i)
          ≡ h.hget s rcptkey (codes "idx:" ++ i)
    uniq_calls-keep [] i s = refl
    uniq_calls-keep (u ∷ uniqs) i s =
        uniq_calls-keep uniqs i _
        ∙ law.hset_other s rcptkey (codes "__uniq:" ++ u.0) u.1 (codes "idx:" ++ i) (idx-uniq i u.0)

    abbrev Stored : h.Server → Undo → Type 0
    Stored s u = (i : Bytes) × (h.hget s rcptkey (codes "idx:" ++ i) ≡ some (line_of u))

    receipt_calls-Stored :
        (us : List Undo) (i : ℕ) (s : h.Server)
        → i + length us < printable
        → All (Stored (run_calls h (receipt_calls lua rcptkey i (lines us)) s)) us
    unfolding receipt_calls
    receipt_calls-Stored [] i s room = tt
    receipt_calls-Stored (u ∷ us) i s room = (
      (
        lua.tostring (pos i),
        receipt_calls-keep us (suc i) i _ (omega arith) (omega (arith, room))
            ∙ law.hset_same s rcptkey (field_at i) (line_of u),
      ),
      receipt_calls-Stored us (suc i) _ (omega (arith, room)),
    )

    -- With less than 10^14 lines: whatever the server held before, the receipt that the script
    -- rebuilds has a field for each line.
    pub rebuild_calls-HasLine :
        (us : List Undo) (uniqs : Pairs) (s : h.Server)
        → 1 + length us < printable
        → All
            (HasLine
              (h.hgetall (run_calls h (rebuild_calls lua rcptkey (lines us) uniqs) s) rcptkey))
            us
    rebuild_calls-HasLine us uniqs s room =
        let s1 = h.call (Call.del rcptkey) s in
        let s2 = run_calls h (receipt_calls lua rcptkey 1 (lines us)) s1 in
        let both =
          run_calls-append (receipt_calls lua rcptkey 1 (lines us)) (uniq_calls lua rcptkey uniqs)
            s1 in
        All-imp
          (λ u (i, stored). (
            i,
            law.hgetall_all _ rcptkey (codes "idx:" ++ i) (line_of u)
                (rw both (uniq_calls-keep uniqs i s2 ∙ stored)),
          ))
          us (receipt_calls-Stored us 1 s1 room)

-- Where a bucket's key does not hold the byte \x1f, the sweeper reads its lines from any receipt.
pub receipt_undos-In :
    (u : Undo) (rcpt : Pairs) → Free 31 u.bucket → HasLine rcpt u → In u (receipt_undos rcpt)
unfolding receipt_undos
receipt_undos-In u [] plain (i, h) = elim h [ ]
receipt_undos-In u ((f, v) ∷ rcpt) plain (i, inl e) =
    let named : has_prefix f (codes "idx:") ≡ true =
      rw (sym (ap (λ p. p.0) e)) (has_prefix-append (codes "idx:") i) in
    let line : split_line v ≡ some u = rw (sym (ap (λ p. p.1) e)) (split_line-back u plain) in
    rw named (rw line (inl refl))
receipt_undos-In u ((f, v) ∷ rcpt) plain (i, inr m) =
    let rest = receipt_undos-In u rcpt plain (i, m) in
    elim (Bool-cases (has_prefix f (codes "idx:"))) [
      | inr e ↦ rw e rest
      | inl e ↦ elim (Option-cases (split_line v)) [
        | inl none_of ↦ rw e (rw none_of rest)
        | inr (w, some_of) ↦ rw e (rw some_of (inr rest))
      ]
    ]
