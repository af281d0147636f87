-- ===== src/Controller/Redis.antt =====
-- The commands of the Redis server that the migration sends, as an interface (kv/client.go): a
-- command takes the state of the server to the next one and replies; `none` and `false` are
-- errors. `IsLawful` is what Redis documents of them while nobody else writes.
use ki_db.Base.{
  ℕ, ◌≡◌, ◌≢◌, List, [], ◌∷◌, Option, some, Bytes, Bool, true, false, ◌||◌, take, same_text, In,
  if◌then◌else◌,
}

-- A member of a sorted set and its score, as texts.
abbrev pub Entry : Type 0
Entry = Bytes × Bytes

pub record Redis : Type 1 where
  pub Server : Type 0
  -- ZRANGE key 0 n-1 WITHSCORES
  pub zrange : Server → Bytes → ℕ → Server × Option (List Entry)
  pub exists : Server → Bytes → Server × Option Bool
  pub zadd : Server → Bytes → Bytes → Bytes → Server × Bool
  pub zrem : Server → Bytes → Bytes → Server × Bool

-- Whether a sorted set holds the member.
unfoldable pub holds : Bytes → List Entry → Bool
holds m [] = false
holds m ((x, sc) ∷ rest) = same_text x m || holds m rest

unfoldable pub remove : Bytes → List Entry → List Entry
remove m [] = []
remove m ((x, sc) ∷ rest) = if same_text x m then remove m rest else (x, sc) ∷ remove m rest

pub record IsLawful (r : Redis) : Type 0 where
  pub bucket : r.Server → Bytes → List Entry
  pub lives : r.Server → Bytes → Bool
  -- A sorted set holds a member once.
  pub distinct :
      (s : r.Server) (k : Bytes) (d e : Entry)
      → In d (bucket s k)
      → In e (bucket s k)
      → d.0 ≡ e.0
      → d ≡ e
  pub zrange_reply :
      (s : r.Server) (k : Bytes) (n : ℕ) (es : List Entry)
      → (r.zrange s k n).1 ≡ some es
      → es ≡ take n (bucket s k)
  pub zrange_bucket :
      (s : r.Server) (k : Bytes) (n : ℕ) (j : Bytes) → bucket (r.zrange s k n).0 j ≡ bucket s j
  pub zrange_lives :
      (s : r.Server) (k : Bytes) (n : ℕ) (j : Bytes) → lives (r.zrange s k n).0 j ≡ lives s j
  pub exists_reply :
      (s : r.Server) (k : Bytes) (b : Bool) → (r.exists s k).1 ≡ some b → b ≡ lives s k
  pub exists_bucket : (s : r.Server) (k j : Bytes) → bucket (r.exists s k).0 j ≡ bucket s j
  pub exists_lives : (s : r.Server) (k j : Bytes) → lives (r.exists s k).0 j ≡ lives s j
  pub zadd_adds :
      (s : r.Server) (k sc m : Bytes)
      → (r.zadd s k sc m).1 ≡ true
      → holds m (bucket (r.zadd s k sc m).0 k) ≡ true
  pub zadd_keeps :
      (s : r.Server) (k sc m j x : Bytes)
      → holds x (bucket s j) ≡ true
      → holds x (bucket (r.zadd s k sc m).0 j) ≡ true
  pub zadd_other :
      (s : r.Server) (k sc m j : Bytes) → j ≢ k → bucket (r.zadd s k sc m).0 j ≡ bucket s j
  pub zadd_lives :
      (s : r.Server) (k sc m j : Bytes) → j ≢ k → lives (r.zadd s k sc m).0 j ≡ lives s j
  pub zrem_removes :
      (s : r.Server) (k m : Bytes)
      → (r.zrem s k m).1 ≡ true
      → bucket (r.zrem s k m).0 k ≡ remove m (bucket s k)
  pub zrem_other : (s : r.Server) (k m j : Bytes) → j ≢ k → bucket (r.zrem s k m).0 j ≡ bucket s j
  pub zrem_lives : (s : r.Server) (k m j : Bytes) → j ≢ k → lives (r.zrem s k m).0 j ≡ lives s j

-- No command fails.
pub record IsHealthy (r : Redis) : Type 0 where
  pub zrange_succeeds :
      (s : r.Server) (k : Bytes) (n : ℕ) → (es : List Entry) × ((r.zrange s k n).1 ≡ some es)
  pub exists_succeeds : (s : r.Server) (k : Bytes) → (b : Bool) × ((r.exists s k).1 ≡ some b)
  pub zadd_succeeds : (s : r.Server) (k sc m : Bytes) → (r.zadd s k sc m).1 ≡ true
  pub zrem_succeeds : (s : r.Server) (k m : Bytes) → (r.zrem s k m).1 ≡ true
