-- ===== src/Bucketmap/Store/Staleness.antt =====
-- How old the answers of the cached store can be: tables are bounded, the registry is not.
use ki_db.Base.{
  ℕ, zero, suc, ◌+◌, ◌*◌, ◌<◌, ◌≤◌, ◌≡◌, inl, inr, refl, ◌∙◌, List, arith, true, false, Option,
  none, some, Option-cases, Bool-cases, Bytes, same_text,
}
use ki_db.Bucketmap.{Doc}
use ki_db.Bucketmap.Store.{
  Store, new_store, is_fresh, load, registry, invalidate, keep_doc, keep_registry,
}

-- `Fetched t d`: the server held `d` at time `t`; a fetch takes at most `latency`.
module _ (Fetched : ℕ → Doc → Type 0) (latency : ℕ) where
  -- A cached table was on the server no longer than a fetch before the cache's time stamp.
  abbrev IsTimely : Store → Type 0
  IsTimely s =
      (k : Bytes) (d : Doc) → s.cache k ≡ some d → (t : ℕ) × Fetched t d × (s.since ≤ t + latency)

  -- What a fetch between two readings of the clock returns.
  abbrev pub IsReply : ℕ → Option Doc → ℕ → Type 0
  IsReply now reply later =
      (d : Doc)
      → reply ≡ some d
      → (t : ℕ) × Fetched t d × (now ≤ t) × (t ≤ later) × (later ≤ t + latency)

  -- The stores that calls of the operations reach, with the clock at the end of the last.
  pub data Reachable (ttl : ℕ) : Store → ℕ → Type 0 where
    new : (now : ℕ) → Reachable ttl (new_store ttl now) now
    loaded :
        {s : Store} {c : ℕ} (k : Bytes) (now : ℕ) (reply : Option Doc) (later : ℕ)
        → Reachable ttl s c
        → c ≤ now
        → now ≤ later
        → IsReply now reply later
        → Reachable ttl (load s k now reply later).0 later
    registered :
        {s : Store} {c : ℕ} (k : Bytes) (now : ℕ) (reply : Option (List Bytes)) (later : ℕ)
        → Reachable ttl s c
        → c ≤ now
        → now ≤ later
        → Reachable ttl (registry s k now reply later).0 later
    invalidated :
        {s : Store} {c : ℕ} (now : ℕ)
        → Reachable ttl s c
        → c ≤ now
        → Reachable ttl (invalidate s now) now

  record IsKept (ttl : ℕ) (s : Store) (c : ℕ) : Type 0 where
    timely : IsTimely s
    stamped : s.since ≤ c
    fixed : s.ttl ≡ ttl

  later_IsKept : (ttl : ℕ) (s : Store) (c c' : ℕ) → IsKept ttl s c → c ≤ c' → IsKept ttl s c'
  later_IsKept ttl s c c' v h = record {
    timely = v.timely;
    stamped = omega (arith, v.stamped);
    fixed = v.fixed;
  }

  keep_doc-IsKept :
      (ttl : ℕ) (s : Store) (c : ℕ) (k : Bytes) (d : Doc) (later t : ℕ)
      → IsKept ttl s c
      → c ≤ later
      → c ≤ t
      → later ≤ t + latency
      → Fetched t d
      → IsKept ttl (keep_doc s k d later) later
  unfolding keep_doc
  keep_doc-IsKept ttl s c k d later t v hc ht hl f = elim (Bool-cases (is_fresh s later)) [
    | inl fresh ↦ rw fresh (record {
      timely = λ j e h. elim (Bool-cases (same_text j k)) [
        | inl same ↦
            (t, (let q : d ≡ e = ground (arith, same, h) in rw (← q) f), omega (arith, v.stamped))
        | inr other ↦ v.timely j e (ground (arith, other, h))
      ];
      stamped = omega (arith, v.stamped);
      fixed = v.fixed;
    })
    | inr expired ↦ rw expired (record {
      timely = λ j e h. elim (Bool-cases (same_text j k)) [
        | inl same ↦ (t, (let q : d ≡ e = ground (arith, same, h) in rw (← q) f), hl)
        | inr other ↦ absurd (ground (arith, other, h))
      ];
      stamped = omega arith;
      fixed = v.fixed;
    })
  ]

  load-IsKept :
      (ttl : ℕ) (s : Store) (c : ℕ) (k : Bytes) (now : ℕ) (reply : Option Doc) (later : ℕ)
      → IsKept ttl s c
      → c ≤ now
      → now ≤ later
      → IsReply now reply later
      → IsKept ttl (load s k now reply later).0 later
  unfolding load
  load-IsKept ttl s c k now none later v hc hl r = record {
    timely = ground arith;
    stamped = ground (arith, v.stamped);
    fixed = ground (arith, v.fixed);
  }
  load-IsKept ttl s c k now (some d) later v hc hl r =
      let (t, f, lo, hi, late) = r d refl in
      let kept = keep_doc-IsKept ttl s c k d later t v (omega arith) (omega arith) late f in
      let same : IsKept ttl s later = later_IsKept ttl s c later v (omega arith) in
      elim (Bool-cases (is_fresh s now)) [
        | inr expired ↦ rw expired kept
        | inl fresh ↦ elim (Option-cases (s.cache k)) [
          | inl missing ↦ rw (fresh, missing) kept
          | inr (e, found) ↦ rw (fresh, found) same
        ]
      ]

  emptied-IsKept :
      (ttl : ℕ) (s : Store) (now : ℕ) (rs : Bytes → Option (List Bytes))
      → s.ttl ≡ ttl
      → IsKept ttl (record s { cache = λ _. none; since = now; reg_cache = rs }) now
  emptied-IsKept ttl s now rs e = record { timely = λ k d h. cc; stamped = omega arith; fixed = e }

  keep_registry-IsKept :
      (ttl : ℕ) (s : Store) (c : ℕ) (k : Bytes) (r : List Bytes) (later : ℕ)
      → IsKept ttl s c
      → c ≤ later
      → IsKept ttl (keep_registry s k r later) later
  unfolding keep_registry
  keep_registry-IsKept ttl s c k r later v h = elim (Bool-cases (is_fresh s later)) [
    | inl fresh ↦
        rw fresh (record { timely = v.timely; stamped = omega (arith, v.stamped); fixed = v.fixed })
    | inr expired ↦ rw expired (emptied-IsKept ttl s later _ v.fixed)
  ]

  registry-IsKept :
      (ttl : ℕ) (s : Store) (c : ℕ) (k : Bytes) (now : ℕ) (reply : Option (List Bytes)) (later : ℕ)
      → IsKept ttl s c
      → c ≤ now
      → now ≤ later
      → IsKept ttl (registry s k now reply later).0 later
  unfolding registry
  registry-IsKept ttl s c k now reply later v hc hl =
      let same = later_IsKept ttl s c later v (omega arith) in
      let fetched : (reply : Option (List Bytes))
          → IsKept ttl
              (let out : Store × Option (List Bytes) = elim reply [
                | none ↦ (s, none)
                | some r ↦ (keep_registry s k r later, some r)
              ] in
                out.0)
              later =
        elim [ none ↦ same | some r ↦ keep_registry-IsKept ttl s c k r later v (omega arith) ] in
      elim (Bool-cases (is_fresh s now)) [
        | inr expired ↦ rw expired (fetched reply)
        | inl fresh ↦ elim (Option-cases (s.reg_cache k)) [
          | inl missing ↦ rw (fresh, missing) (fetched reply)
          | inr (r, found) ↦ rw (fresh, found) same
        ]
      ]

  Reachable-IsKept : (ttl : ℕ) {s : Store} {c : ℕ} → Reachable ttl s c → IsKept ttl s c
  unfolding new_store invalidate
  Reachable-IsKept ttl (new now) = record {
    timely = λ k d h. cc;
    stamped = omega arith;
    fixed = refl;
  }
  Reachable-IsKept ttl (loaded {s} {c} k now reply later r hc hl h) =
      load-IsKept ttl s c k now reply later (Reachable-IsKept ttl r) hc hl h
  Reachable-IsKept ttl (registered {s} {c} k now reply later r hc hl) =
      registry-IsKept ttl s c k now reply later (Reachable-IsKept ttl r) hc hl
  Reachable-IsKept ttl (invalidated {s} now r hc) =
      emptied-IsKept ttl s now (λ _. none) (Reachable-IsKept ttl r).fixed

  -- In every store that calls of Load, Registry and Invalidate reach, the table that Load returns
  -- was on the server less than the cache's life and one fetch before the call.
  pub load_staleness :
      (ttl : ℕ) (s : Store) (c : ℕ) (k : Bytes) (now : ℕ) (reply : Option Doc) (later : ℕ) (d : Doc)
      → Reachable ttl s c
      → 0 < ttl
      → c ≤ now
      → now ≤ later
      → IsReply now reply later
      → (load s k now reply later).1 ≡ some d
      → (t : ℕ) × Fetched t d × (now < t + latency + ttl)
  unfolding load
  load_staleness ttl s c k now reply later d reach pos hc hl h e =
      elim (Bool-cases (is_fresh s now)) [
        | inr expired ↦ from_server (ground arith)
        | inl fresh ↦ elim (Option-cases (s.cache k)) [
          | inl missing ↦ from_server (ground arith)
          | inr (d', found) ↦
              let (t, f, near) = kept.timely k d (ground arith) in
              (t, f, ground (arith, kept.fixed, kept.stamped))
        ]
      ]
    where
      kept : IsKept ttl s c
      kept = Reachable-IsKept ttl reach

      from_server : reply ≡ some d → (t : ℕ) × Fetched t d × (now < t + latency + ttl)
      from_server q = let (t, f, lo, hi, late) = h d q in (t, f, omega arith)

-- `n` loads of one table, each at the moment at which the cache expires.
pub reloads : ℕ → Store → Bytes → Doc → Store
reloads zero s k d = s
reloads (suc n) s k d =
    let t = reloads n s k d in (load t k (t.since + t.ttl) (some d) (t.since + t.ttl)).0

expired_load :
    (t : Store) (k : Bytes) (now : ℕ) (d : Doc)
    → is_fresh t now ≡ false
    → ((load t k now (some d) now).0.since ≡ now)
      × ((load t k now (some d) now).0.ttl ≡ t.ttl)
      × ((load t k now (some d) now).0.reg_cache ≡ t.reg_cache)
unfolding load keep_doc
expired_load t k now d e = rw e (refl, refl, refl)

reloads_keep :
    (n : ℕ) (s : Store) (k : Bytes) (d : Doc)
    → ((reloads n s k d).since ≡ s.since + n * s.ttl)
      × ((reloads n s k d).ttl ≡ s.ttl)
      × ((reloads n s k d).reg_cache ≡ s.reg_cache)
unfolding reloads
reloads_keep zero s k d = (omega arith, refl, refl)
reloads_keep (suc n) s k d =
    let (since, ttl, reg) = reloads_keep n s k d in
    let t = reloads n s k d in
    let expired : is_fresh t (t.since + t.ttl) ≡ false = ground arith in
    let (since', ttl', reg') = expired_load t k (t.since + t.ttl) d expired in
    (omega (arith, since', since, ttl), ttl' ∙ ttl, reg' ∙ reg)

-- A registry that was read once stays in use however many lives of the cache have gone by, as long
-- as a table is loaded each time that the cache expires: the next call of Registry asks no server.
pub registry_outlives_ttl :
    (n : ℕ) (s : Store) (k : Bytes) (d : Doc) (hot : Bytes) (r : List Bytes)
    (reply : Option (List Bytes)) (later : ℕ)
    → 0 < s.ttl
    → s.reg_cache hot ≡ some r
    → (registry (reloads n s k d) hot (s.since + n * s.ttl) reply later).1 ≡ some r
unfolding registry
registry_outlives_ttl n s k d hot r reply later pos e =
    let (since, ttl, reg) = reloads_keep n s k d in
    let fresh : is_fresh (reloads n s k d) (s.since + n * s.ttl) ≡ true = ground arith in
    let found : (reloads n s k d).reg_cache hot ≡ some r = rw reg e in rw (fresh, found)
