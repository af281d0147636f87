-- ===== src/Sweeper/Merging.antt =====
-- txguard/txguard.go: `mergeReceiptUndo` misses no line of a receipt.
use ki_db.Base.{
  ◌≡◌, ◌⊎◌, refl, sym, ap, ◌∙◌, inl, inr, arith, List, [], ◌∷◌, ◌++◌, some, codes, true, In,
  In-append_left, In-append_right, All, All-imp, All-append, Free, has_prefix, has_prefix-append,
  same_text, same_text-eq, Bool-cases, Option-cases, some_same,
}
use ki_db.Txguard.Entries.{Undo}
use ki_db.Txguard.Write.{Pairs}
use ki_db.Sweeper.{split_line, is_known, new_lines, merge_receipt_undo}
use ki_db.Sweeper.Lines.{line_of, HasLine, split_line-back}

is_known-In :
    (v : Undo) (known : List Undo)
    → Free 31 v.bucket
    → All (λ u. Free 31 u.bucket) known
    → is_known (line_of v) known ≡ true
    → In v known
is_known-In v [] plain h e = absurd (ground (arith, e))
is_known-In v (u ∷ known) plain h e = elim (Bool-cases (same_text (line_of u) (line_of v))) [
  | inl same ↦
      let text = same_text-eq (line_of u) (line_of v) same in
      inl (some_same (sym (split_line-back u h.0) ∙ (ap split_line text ∙ split_line-back v plain)))
  | inr other ↦ inr (is_known-In v known plain h.1 (rw other at e))
]

new_lines-In :
    (known : List Undo) (u : Undo) (rcpt : Pairs)
    → All (λ k. Free 31 k.bucket) known
    → Free 31 u.bucket
    → HasLine rcpt u
    → In u known ⊎ In u (new_lines known rcpt)
unfolding new_lines
new_lines-In known u [] plain h (i, m) = elim m [ ]
new_lines-In known u ((f, v) ∷ rcpt) plain h (i, inl e) =
    let named : has_prefix f (codes "idx:") ≡ true =
      rw (sym (ap (λ p. p.0) e)) (has_prefix-append (codes "idx:") i) in
    let text : line_of u ≡ v = ap (λ p. p.1) e in
    elim (Bool-cases (is_known v known)) [
      | inl known_line ↦ inl (is_known-In u known h plain (rw (sym text) at known_line))
      | inr fresh ↦
          let line : split_line v ≡ some u = rw (sym text) (split_line-back u h) in
          inr (rw named (rw fresh (rw line (inl refl))))
    ]
new_lines-In known u ((f, v) ∷ rcpt) plain h (i, inr m) =
    elim (new_lines-In known u rcpt plain h (i, m)) [
      | inl old ↦ inl old
      | inr rest ↦ inr (elim (Bool-cases (has_prefix f (codes "idx:"))) [
        | inr e ↦ rw e rest
        | inl e ↦ elim (Bool-cases (is_known v known)) [
          | inl k ↦ rw e (rw k rest)
          | inr k ↦ elim (Option-cases (split_line v)) [
            | inl none_of ↦ rw e (rw k (rw none_of rest))
            | inr (w, some_of) ↦ rw e (rw k (rw some_of (inr rest)))
          ]
        ]
      ])
    ]

-- Where no bucket's key holds the byte \x1f: the removals of a write that revives an expired row hold
-- every removal known before and every line that the row's receipt has.
pub merge_receipt_undo-In :
    (known us : List Undo) (rcpt : Pairs)
    → All (λ u. Free 31 u.bucket) known
    → All (λ u. Free 31 u.bucket) us
    → All (HasLine rcpt) us
    → All (λ u. In u (merge_receipt_undo known rcpt)) (known ++ us)
unfolding merge_receipt_undo
merge_receipt_undo-In known us rcpt plain h has =
    All-append _ known us (All-imp (λ u p. In-append_left u known _ p) known (all_In known))
      (added us h has)
  where
    all_In : (xs : List Undo) → All (λ x. In x xs) xs
    all_In [] = tt
    all_In (x ∷ xs) = (inl refl, All-imp (λ y p. inr p) xs (all_In xs))

    added :
        (ws : List Undo)
        → All (λ u. Free 31 u.bucket) ws
        → All (HasLine rcpt) ws
        → All (λ u. In u (merge_receipt_undo known rcpt)) ws
    added [] h has = tt
    added (u ∷ ws) h has = (
      elim (new_lines-In known u rcpt plain h.0 has.0) [
        | inl old ↦ In-append_left u known _ old
        | inr new ↦ In-append_right u known _ new
      ],
      added ws h.1 has.1,
    )
