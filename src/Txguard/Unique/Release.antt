-- ===== src/Txguard/Unique/Release.antt =====
-- The release of reservations takes no other row's.
use ki_db.Base.{
  some_same, ◌≡◌, ◌≢◌, sym, ◌∙◌, inl, inr, List, [], ◌∷◌, some, Bytes, same_text, same_text-eq,
  Bool-cases, Option-cases,
}
use ki_db.Txguard.Keyspace.{Redis, Keyspace, IsLawful, erase}
use ki_db.Txguard.Unique.{owner_row, release_unique, rollback_reservations}

-- The reservation stands and is another row's.
abbrev pub IsOther : Keyspace → Bytes → Bytes → Bytes → Type 0
IsOther w k v rowkey = (w.held k ≡ some v) × (owner_row v ≢ rowkey)

pub erase-other :
    (w : Keyspace) (key k v : Bytes) → w.held k ≡ some v → k ≢ key → (erase key w).held k ≡ some v
erase-other w key k v h ne = elim (Bool-cases (same_text k key)) [
  | inl e ↦ elim (ne (same_text-eq k key e)) [ ]
  | inr e ↦ rw e h
]

module _ (r : Redis) (law : IsLawful r) where
  del-other :
      (s : r.Server) (key k v : Bytes)
      → (law.view s).held k ≡ some v
      → k ≢ key
      → (law.view (r.del s key).0).held k ≡ some v
  del-other s key k v h ne = elim (Bool-cases (r.del s key).1) [
    | inl e ↦ rw (law.del_done s key e) (erase-other (law.view s) key k v h ne)
    | inr e ↦ elim (law.del_failed s key e) [
      | inl same ↦ rw same h
      | inr gone ↦ rw gone (erase-other (law.view s) key k v h ne)
    ]
  ]

  pub release_unique-keeps :
      (s : r.Server) (key k v rowkey : Bytes)
      → IsOther (law.view s) k v rowkey
      → (law.view (release_unique r s key rowkey)).held k ≡ some v
  unfolding release_unique
  release_unique-keeps s key k v rowkey (h, other) = elim (Option-cases (r.get s key).1) [
    | inl e ↦ rw (e, release_unique) (rw (law.get_view s key) h)
    | inr (cur, e) ↦ elim (Option-cases cur) [
      | inl free ↦ rw (e, release_unique) (rw (free, release_unique) (rw (law.get_view s key) h))
      | inr (u, has) ↦ elim (Bool-cases (same_text (owner_row u) rowkey)) [
        | inr no_owner ↦
            rw (e, release_unique)
              (rw (has, release_unique) (rw no_owner (rw (law.get_view s key) h)))
        | inl owner ↦
            let held : (law.view s).held key ≡ some u =
              rw has at (sym (law.get_reply s key cur e)) in
            let ne : k ≢ key = λ same. other (
              rw (sym (some_same (sym (rw same at h) ∙ held)))
                (same_text-eq (owner_row u) rowkey owner)) in
            rw (e, release_unique)
              (rw (has, release_unique)
                (rw owner (del-other (r.get s key).0 key k v (rw (law.get_view s key) h) ne)))
      ]
    ]
  ]

  -- Roll-backs, with any commands failing, leave every reservation in place that another row owns.
  pub rollback_reservations-keeps :
      (s : r.Server) (keys : List Bytes) (k v rowkey : Bytes)
      → (law.view s).held k ≡ some v
      → owner_row v ≢ rowkey
      → (law.view (rollback_reservations r s keys rowkey)).held k ≡ some v
  unfolding rollback_reservations
  rollback_reservations-keeps s [] k v rowkey h other = h
  rollback_reservations-keeps s (key ∷ keys) k v rowkey h other =
      rollback_reservations-keeps (release_unique r s key rowkey) keys k v rowkey
        (release_unique-keeps s key k v rowkey (h, other)) other
