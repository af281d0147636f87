-- ===== src/Controller/Migrate/Entries.antt =====
-- The entries of a bucket while batches leave it.
use ki_db.Base.{
  ℕ, zero, suc, ◌+◌, ◌<◌, ◌≤◌, ◌≡◌, ◌⊎◌, inl, inr, refl, ap, sym, ◌∙◌, List, [], ◌∷◌, arith, Option,
  some, Bytes, Bool, map, In, All, Bool-cases, length, take, same_text, same_text-eq,
  same_text_refl,
}
use ki_db.Rowcodec.Member.{Msgp}
use ki_db.Controller.Redis.{Redis, Entry, remove}
use ki_db.Controller.Migrate.{Target, place_all}
use ki_db.Controller.Migrate.Batch.{remove_all}

remove_head : (x : Bytes) (e : Entry) (es : List Entry) → x ≡ e.0 → remove x (e ∷ es) ≡ remove x es
unfolding remove
remove_head x (y, sc) es p = rw (p, same_text_refl y, remove) refl

-- Removing what a list begins with.
length-remove : (x : Bytes) (es : List Entry) → length (remove x es) ≤ length es
unfolding remove
length-remove x [] = omega arith
length-remove x ((y, sc) ∷ es) = ground (arith, length-remove x es)

remove_comm : (a b : Bytes) (es : List Entry) → remove a (remove b es) ≡ remove b (remove a es)
unfolding remove
remove_comm a b [] = refl
remove_comm a b ((y, sc) ∷ es) = ground (arith, remove_comm a b es)

remove_all-remove :
    (ts : List Target) (a : Bytes) (es : List Entry)
    → remove_all ts (remove a es) ≡ remove a (remove_all ts es)
unfolding remove_all
remove_all-remove [] a es = refl
remove_all-remove (t ∷ ts) a es =
    rw (remove_comm t.member a es) (remove_all-remove ts a (remove t.member es))

-- An entry is removed, or its member differs.
survives : (x : Bytes) (e : Entry) (es : List Entry) → In e es → (x ≡ e.0) ⊎ In e (remove x es)
unfolding remove
survives x e [] h = elim h [ ]
survives x e ((y, sc) ∷ es) h = elim (Bool-cases (same_text y x)) [
  | inl same ↦ elim h [
    | inl p ↦ inl (sym (same_text-eq y x same) ∙ sym (rw p refl))
    | inr later ↦ rw same (survives x e es later)
  ]
  | inr other ↦ elim h [
    | inl p ↦ inr (rw other (inl p))
    | inr later ↦ elim (survives x e es later) [ inl q ↦ inl q | inr q ↦ inr (rw other (inr q)) ]
  ]
]

pub In-take : (n : ℕ) (e : Entry) (es : List Entry) → In e (take n es) → In e es
In-take zero e es h = elim h [ ]
In-take (suc n) e [] h = elim h [ ]
In-take (suc n) e (x ∷ es) (inl p) = inl p
In-take (suc n) e (x ∷ es) (inr h) = inr (In-take n e es h)

pub In-empty : (e : Entry) (es : List Entry) → es ≡ [] → In e es → ⊥
In-empty e [] p h = h
In-empty e (x ∷ es) p h = cc

pub take-nil : (n : ℕ) → take {A = Entry} n [] ≡ []
take-nil zero = refl
take-nil (suc n) = refl

-- A first page is empty for an empty bucket alone.
pub take-cases :
    (n : ℕ) (es : List Entry)
    → 0 < n
    → (es ≡ []) ⊎ ((d : Entry) × (ds : List Entry) × (take n es ≡ d ∷ ds))
take-cases n [] h = inl refl
take-cases zero (e ∷ es) h = absurd (omega arith)
take-cases (suc n) (e ∷ es) h = inr (e, take n es, refl)

-- A page that is not full holds everything.
pub short_page : (n : ℕ) (es : List Entry) → length (take n es) < n → length (take n es) ≡ length es
short_page zero es h = absurd (omega arith)
short_page (suc n) [] h = refl
short_page (suc n) (e ∷ es) h = omega (arith, short_page n es (omega arith))

pub empty-of_length : (es : List Entry) → length es ≡ 0 → es ≡ []
empty-of_length [] h = refl
empty-of_length (e ∷ es) h = absurd (omega arith)

module _ (f : Entry → Target) (member_f : (e : Entry) → (f e).member ≡ e.0) where
  pub remove_taken :
      (n : ℕ) (es : List Entry)
      → length (remove_all (map f (take n es)) es) + length (take n es) ≤ length es
  unfolding remove_all
  remove_taken zero es = omega arith
  remove_taken (suc n) [] = omega arith
  remove_taken (suc n) (e ∷ es) =
      let a = (f e).member in
      let ts = map f (take n es) in
      let left : remove_all (map f (take (suc n) (e ∷ es))) (e ∷ es) ≡ remove a (remove_all ts es) =
        ap (remove_all ts) (remove_head a e es (member_f e)) ∙ remove_all-remove ts a es in
      rw left (omega (arith, length-remove a (remove_all ts es), remove_taken n es))

  -- An entry survives a batch, or the batch holds its member.
  pub survives_all :
      (e : Entry) (es bucket : List Entry)
      → In e bucket
      → ((d : Entry) × In d es × (d.0 ≡ e.0)) ⊎ In e (remove_all (map f es) bucket)
  unfolding remove_all
  survives_all e [] bucket h = inr h
  survives_all e (d ∷ es) bucket h = elim (survives (f d).member e bucket h) [
    | inl p ↦ inl (d, inl refl, sym (member_f d) ∙ p)
    | inr q ↦ elim (survives_all e es (remove (f d).member bucket) q) [
      | inl (d', m, p) ↦ inl (d', inr m, p)
      | inr q' ↦ inr q'
    ]
  ]

  pub place_all-map :
      (place : Entry → Option Target)
      → ((e : Entry) → place e ≡ some (f e))
      → (r : Redis) (m : Msgp) (table : Bytes) (covering : Bool) (es : List Entry)
      → place_all r m table covering place es ≡ some (map f es)
  unfolding place_all
  place_all-map place h r m table covering [] = refl
  place_all-map place h r m table covering (e ∷ es) =
      rw (h e, place_all) (rw (place_all-map place h r m table covering es, place_all) refl)

pub All-map :
    (P : Target → Type 0) (f : Entry → Target) (es : List Entry)
    → ((e : Entry) → P (f e))
    → All P (map f es)
All-map P f [] h = tt
All-map P f (e ∷ es) h = (h e, All-map P f es h)

pub All-at :
    (P : Target → Type 0) (f : Entry → Target) (es : List Entry)
    → All P (map f es)
    → (e : Entry) → In e es
    → P (f e)
All-at P f [] h e i = elim i [ ]
All-at P f (d ∷ es) h e (inl p) = rw p h.0
All-at P f (d ∷ es) h e (inr i) = All-at P f es h.1 e i
