-- ===== src/Indexer/ReadBack.antt =====
-- The indexer reads from an entry what the write put into it.
use ki_db.Base.{
  ℕ, ◌^◌, ◌<◌, ◌≡◌, ◌≢◌, refl, inl, inr, arith, [], ◌∷◌, ◌++◌, append_assoc, Option, some, Bytes,
  false, ◌||◌, pos, ◌==◌, In, All, All-imp, All-append, Free, index_byte-first, take-append_length,
  drop-append_suc-length, format_uint, format_uint-IsHexDigit, parse_uint-format, Bool-cases, Score,
}
use ki_db.Meta.{IndexDef}
use ki_db.Keycodec.Slot.{Table}
use ki_db.Keycodec.Keys.{escape_byte, query_escape}
use ki_db.Keycodec.Escape.{IsByte}
use ki_db.Rowcodec.Member.{Msgp}
use ki_db.Bucketmap.{Doc}
use ki_db.Txguard.Entries.{Fields, text_of, leaves, enters, AsyncDesc, iv_of, esc_log_field}
use ki_db.Txguard.Ops.{async_ops}
use ki_db.Txguard.Write.Script.{Lua}
use ki_db.Indexer.{cut, parse_entry}
use ki_db.Indexer.Unescape.{unescape-query_escape}

cut-first : (x y : Bytes) → Free 31 x → cut (x ++ (31 ∷ y)) ≡ some (x, y)
unfolding cut
cut-first x y h =
    rw (index_byte-first 31 x y h, cut)
      (rw (take-append_length x (31 ∷ y), drop-append_suc-length x 31 y) refl)

escape_byte-Free : (c : ℕ) → IsByte c → Free 31 (escape_byte c)
unfolding escape_byte
escape_byte-Free c h = ground arith

query_escape-Free : (v : Bytes) → All IsByte v → Free 31 (query_escape v)
unfolding query_escape
query_escape-Free [] h = tt
query_escape-Free (c ∷ cs) h =
    All-append (λ x. x ≢ 31) (escape_byte c) (query_escape cs) (escape_byte-Free c h.0)
      (query_escape-Free cs h.1)

digits-Free : (n : ℕ) → Free 31 (format_uint n 10)
digits-Free n =
    All-imp (λ c h. ground (arith, h)) (format_uint n 10)
      (format_uint-IsHexDigit 10 n (omega arith) (omega arith))

-- An entry in its five parts.
parts-read :
    (pk old new : Bytes) (iv ver : ℕ)
    → Free 31 pk
    → All IsByte old
    → All IsByte new
    → iv < 2 ^ 64
    → 0 < ver
    → ver < 2 ^ 64
    → parse_entry (
        pk
        ++ (31
            ∷ (query_escape old
                ++ (31
                    ∷ (query_escape new
                        ++ (31 ∷ (format_uint iv 10 ++ (31 ∷ format_uint ver 10))))))))
      ≡ some (record { pk = pk; old_value = old; new_value = new; old_iv = iv; ver = ver })
unfolding parse_entry
parts-read pk old new iv ver plain bo bn hi low hv =
    let positive : (ver == 0) ≡ false = ground (arith, low) in
    rw (cut-first pk _ plain) (
      rw (cut-first (query_escape old) _ (query_escape-Free old bo)) (
        rw (cut-first (query_escape new) _ (query_escape-Free new bn)) (
          rw (cut-first (format_uint iv 10) (format_uint ver 10) (digits-Free iv)) (
            rw (unescape-query_escape old bo, unescape-query_escape new bn)
              (rw (parse_uint-format iv hi, parse_uint-format ver hv) (rw positive refl))))))

module _ (s : Score) (xxhash : Bytes → ℕ) (m : Msgp) (stag_table : Table) (table : Bytes) (slot : ℕ)
    (pk : Bytes) (old new : Fields) (docs : Bytes → Option Doc) (old_ver new_ver : ℕ)
    (idx : IndexDef) where
  -- Where the primary key lacks the byte \x1f, the values are texts of bytes, Lua prints the version
  -- in decimal, and the versions are of 64 bits and the new one is not 0: from the entry that the
  -- script makes of an asynchronous index's change the indexer reads the primary key, both
  -- values and both versions.
  pub async_ops-read_back :
      (lua : Lua) (a : AsyncDesc) (ver : ℕ)
      → Free 31 pk
      → All IsByte (text_of (old idx.column))
      → All IsByte (text_of (new idx.column))
      → lua.tostring (pos ver) ≡ format_uint ver 10
      → iv_of old idx.id old_ver < 2 ^ 64
      → 0 < ver
      → ver < 2 ^ 64
      → In a (async_ops s xxhash m stag_table table slot pk old new docs old_ver new_ver idx).asyncs
      → parse_entry
          (a.redo_member ++ (31 ∷ (format_uint a.old_iv 10 ++ (31 ∷ lua.tostring (pos ver)))))
        ≡ some (record {
          pk = pk;
          old_value = text_of (old idx.column);
          new_value = text_of (new idx.column);
          old_iv = iv_of old idx.id old_ver;
          ver = ver;
        })
  unfolding async_ops esc_log_field
  async_ops-read_back lua a ver plain bo bn prints hi low hv h =
      elim (Bool-cases
        (leaves (old idx.column) (new idx.column) || enters (old idx.column) (new idx.column))) [
          | inr e ↦ elim (rw e at h) [ ]
          | inl e ↦ elim (rw e at h) [
            | inr none_left ↦ elim none_left [ ]
            | inl same ↦
                let o = query_escape (text_of (old idx.column)) in
                let n = query_escape (text_of (new idx.column)) in
                let tail =
                  31 ∷ (format_uint (iv_of old idx.id old_ver) 10 ++ (31 ∷ format_uint ver 10)) in
                rw (prints, same)
                  (rw (append_assoc pk (31 ∷ (o ++ (31 ∷ n))) tail, append_assoc o (31 ∷ n) tail)
                    (parts-read pk (text_of (old idx.column)) (text_of (new idx.column))
                      (iv_of old idx.id old_ver) ver plain bo bn hi low hv))
          ]
        ]
