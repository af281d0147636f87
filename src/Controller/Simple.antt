-- ===== src/Controller/Simple.antt =====
-- A server that keeps its sorted sets in memory and never fails, for the runs and witnesses.
use ki_db.Base.{
  ◌≡◌, ◌≢◌, inl, inr, refl, sym, ap, ◌∙◌, List, [], ◌∷◌, some, Bytes, Bool, true, false, In,
  Bool-cases, take, same_text, same_text-eq, same_text_refl, if◌then◌else◌,
}
use ki_db.Controller.Redis.{Redis, Entry, IsLawful, IsHealthy, holds, remove}

abbrev pub IsOnce : List Entry → Type 0
IsOnce es = (d e : Entry) → In d es → In e es → d.0 ≡ e.0 → d ≡ e

remove-In : (m : Bytes) (e : Entry) (es : List Entry) → In e (remove m es) → In e es × (e.0 ≢ m)
unfolding remove
remove-In m e [] h = elim h [ ]
remove-In m e ((y, sc) ∷ es) h = elim (Bool-cases (same_text y m)) [
  | inl same ↦ let (i, ne) = remove-In m e es (rw same at h) in (inr i, ne)
  | inr other ↦ elim (rw other at h) [
    | inl p ↦ (
      inl p,
      (λ q.
          let clash : same_text y m ≡ true = rw (sym q) (rw (ap (λ x. x.0) p) (same_text_refl y)) in
          cc),
    )
    | inr later ↦ let (i, ne) = remove-In m e es later in (inr i, ne)
  ]
]

abbrev pub add : Bytes → Bytes → List Entry → List Entry
add m sc es = (m, sc) ∷ remove m es

pub remove-IsOnce : (m : Bytes) (es : List Entry) → IsOnce es → IsOnce (remove m es)
remove-IsOnce m es h d e i j p = h d e (remove-In m d es i).0 (remove-In m e es j).0 p

pub add-IsOnce : (m sc : Bytes) (es : List Entry) → IsOnce es → IsOnce (add m sc es)
add-IsOnce m sc es h d e (inl p) (inl q) r = p ∙ sym q
add-IsOnce m sc es h d e (inl p) (inr j) r =
    absurd ((remove-In m e es j).1 (sym r ∙ ap (λ x. x.0) p))
add-IsOnce m sc es h d e (inr i) (inl q) r = absurd ((remove-In m d es i).1 (r ∙ ap (λ x. x.0) q))
add-IsOnce m sc es h d e (inr i) (inr j) r = remove-IsOnce m es h d e i j r

holds-remove :
    (m x : Bytes) (es : List Entry) → same_text m x ≡ false → holds x (remove m es) ≡ holds x es
unfolding holds remove
holds-remove m x [] h = refl
holds-remove m x ((y, sc) ∷ es) h = elim (Bool-cases (same_text y m)) [
  | inl same ↦
      let y_is = same_text-eq y m same in
      let other : same_text y x ≡ false = rw y_is h in
      rw (same, remove) (rw other (holds-remove m x es h))
  | inr other ↦ rw (other, remove) (rw (holds-remove m x es h) refl)
]

pub record Sets : Type 0 where
  pub sets : Bytes → List Entry
  pub rows : Bytes → Bool
  pub once : (k : Bytes) → IsOnce (sets k)

abbrev pub at_key : (Bytes → List Entry) → Bytes → List Entry → Bytes → List Entry
at_key f k es j = if same_text j k then es else f j

pub at_key-IsOnce :
    (f : Bytes → List Entry) (k : Bytes) (es : List Entry)
    → ((j : Bytes) → IsOnce (f j))
    → IsOnce es
    → (j : Bytes) → IsOnce (at_key f k es j)
at_key-IsOnce f k es h h' j = elim (Bool-cases (same_text j k)) [
  | inl e ↦ rw e h'
  | inr e ↦ rw e (h j)
]

pub at_key-other :
    (f : Bytes → List Entry) (k : Bytes) (es : List Entry) (j : Bytes)
    → j ≢ k
    → at_key f k es j ≡ f j
at_key-other f k es j ne = elim (Bool-cases (same_text j k)) [
  | inl e ↦ absurd (ne (same_text-eq j k e))
  | inr e ↦ rw e refl
]

abbrev pub change : Sets → Bytes → (es : List Entry) → IsOnce es → Sets
change s k es h = record {
  sets = at_key s.sets k es;
  rows = s.rows;
  once = at_key-IsOnce s.sets k es s.once h;
}

abbrev pub simple : Redis
simple = record {
  Server = Sets;
  zrange = λ s k n. (s, some (take n (s.sets k)));
  exists = λ s k. (s, some (s.rows k));
  zadd =
      λ s k sc m. (change s k (add m sc (s.sets k)) (add-IsOnce m sc (s.sets k) (s.once k)), true);
  zrem = λ s k m. (change s k (remove m (s.sets k)) (remove-IsOnce m (s.sets k) (s.once k)), true);
}

pub add-holds :
    (s : Sets) (k sc m j x : Bytes)
    → holds x (s.sets j) ≡ true
    → holds x (at_key s.sets k (add m sc (s.sets k)) j) ≡ true
unfolding holds
add-holds s k sc m j x h = elim (Bool-cases (same_text j k)) [
  | inr e ↦ rw e h
  | inl e ↦ rw e (elim (Bool-cases (same_text m x)) [
    | inl p ↦ rw p refl
    | inr p ↦ rw p (rw (holds-remove m x (s.sets k) p) (rw (same_text-eq j k e) at h))
  ])
]

pub add_there :
    (s : Sets) (k sc m : Bytes) → holds m (at_key s.sets k (add m sc (s.sets k)) k) ≡ true
unfolding holds
add_there s k sc m = rw (same_text_refl k) (rw (same_text_refl m) refl)

pub at_key-same : (f : Bytes → List Entry) (k : Bytes) (es : List Entry) → at_key f k es k ≡ es
at_key-same f k es = rw (same_text_refl k) refl

pub some_same : {A : Type 0} {a b : A} → some a ≡ some b → b ≡ a
some_same h = cc

-- It obeys the laws.
abbrev pub simple_laws : IsLawful simple
simple_laws = record {
  bucket = λ s k. s.sets k;
  lives = λ s k. s.rows k;
  distinct = λ s k. s.once k;
  zrange_reply = λ s k n es h. some_same h;
  zrange_bucket = λ s k n j. refl;
  zrange_lives = λ s k n j. refl;
  exists_reply = λ s k b h. some_same h;
  exists_bucket = λ s k j. refl;
  exists_lives = λ s k j. refl;
  zadd_adds = λ s k sc m h. add_there s k sc m;
  zadd_keeps = add-holds;
  zadd_other = λ s k sc m j ne. at_key-other s.sets k (add m sc (s.sets k)) j ne;
  zadd_lives = λ s k sc m j ne. refl;
  zrem_removes = λ s k m h. at_key-same s.sets k (remove m (s.sets k));
  zrem_other = λ s k m j ne. at_key-other s.sets k (remove m (s.sets k)) j ne;
  zrem_lives = λ s k m j ne. refl;
}

pub simple-IsHealthy : IsHealthy simple
simple-IsHealthy = record {
  zrange_succeeds = λ s k n. (take n (s.sets k), refl);
  exists_succeeds = λ s k. (s.rows k, refl);
  zadd_succeeds = λ s k sc m. refl;
  zrem_succeeds = λ s k m. refl;
}
