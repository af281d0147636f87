-- ===== src/Txguard/Keyspace.antt =====
-- The commands of the Redis server that txguard sends for the reservations of unique values, as an
-- interface (kv/client.go): a command takes the state of the server to the next one and replies;
-- `none` and `false` are errors. `IsLawful` is what Redis documents of them while nobody else
-- writes and nothing expires.
use ki_db.Base.{
  ℕ, ◌≡◌, ◌⊎◌, List, Option, none, some, Bytes, Bool, true, false, take, same_text, if◌then◌else◌,
}

pub record Redis : Type 1 where
  pub Server : Type 0
  -- SET key value NX PX ms; `false` is the nil reply.
  pub set_nx : Server → Bytes → Bytes → ℕ → Server × Option Bool
  pub get : Server → Bytes → Server × Option (Option Bytes)
  pub exists : Server → Bytes → Server × Option Bool
  pub del : Server → Bytes → Server × Bool
  -- ZRANGE key 0 n-1
  pub zrange : Server → Bytes → ℕ → Server × Option (List Bytes)

-- What the commands see of a server.
pub record Keyspace : Type 0 where
  pub held : Bytes → Option Bytes
  pub lives : Bytes → Bool
  pub members : Bytes → List Bytes

abbrev pub put : Bytes → Bytes → Keyspace → Keyspace
put k v w = record w { held = λ j. if same_text j k then some v else w.held j }

abbrev pub erase : Bytes → Keyspace → Keyspace
erase k w = record w { held = λ j. if same_text j k then none else w.held j }

pub record IsLawful (r : Redis) : Type 0 where
  pub view : r.Server → Keyspace
  pub set_nx_set :
      (s : r.Server) (k v : Bytes) (ms : ℕ)
      → (r.set_nx s k v ms).1 ≡ some true
      → ((view s).held k ≡ none) × (view (r.set_nx s k v ms).0 ≡ put k v (view s))
  pub set_nx_refused :
      (s : r.Server) (k v : Bytes) (ms : ℕ)
      → (r.set_nx s k v ms).1 ≡ some false
      → (view (r.set_nx s k v ms).0 ≡ view s)
  -- An error leaves open whether the command was carried out.
  pub set_nx_failed :
      (s : r.Server) (k v : Bytes) (ms : ℕ)
      → (r.set_nx s k v ms).1 ≡ none
      → (view (r.set_nx s k v ms).0 ≡ view s)
        ⊎ (((view s).held k ≡ none) × (view (r.set_nx s k v ms).0 ≡ put k v (view s)))
  pub get_reply :
      (s : r.Server) (k : Bytes) (v : Option Bytes) → (r.get s k).1 ≡ some v → v ≡ (view s).held k
  pub get_view : (s : r.Server) (k : Bytes) → view (r.get s k).0 ≡ view s
  pub exists_reply :
      (s : r.Server) (k : Bytes) (b : Bool) → (r.exists s k).1 ≡ some b → b ≡ (view s).lives k
  pub exists_view : (s : r.Server) (k : Bytes) → view (r.exists s k).0 ≡ view s
  pub del_done :
      (s : r.Server) (k : Bytes) → (r.del s k).1 ≡ true → view (r.del s k).0 ≡ erase k (view s)
  pub del_failed :
      (s : r.Server) (k : Bytes)
      → (r.del s k).1 ≡ false
      → (view (r.del s k).0 ≡ view s) ⊎ (view (r.del s k).0 ≡ erase k (view s))
  pub zrange_reply :
      (s : r.Server) (k : Bytes) (n : ℕ) (xs : List Bytes)
      → (r.zrange s k n).1 ≡ some xs
      → xs ≡ take n ((view s).members k)
  pub zrange_view : (s : r.Server) (k : Bytes) (n : ℕ) → view (r.zrange s k n).0 ≡ view s

-- No command fails, and SET NX sets a key that is free.
pub record IsHealthy (r : Redis) (law : IsLawful r) : Type 0 where
  pub set_nx_succeeds :
      (s : r.Server) (k v : Bytes) (ms : ℕ)
      → (law.view s).held k ≡ none
      → (r.set_nx s k v ms).1 ≡ some true
  pub set_nx_refuses :
      (s : r.Server) (k v w : Bytes) (ms : ℕ)
      → (law.view s).held k ≡ some w
      → (r.set_nx s k v ms).1 ≡ some false
  pub get_succeeds : (s : r.Server) (k : Bytes) → (r.get s k).1 ≡ some ((law.view s).held k)
  pub exists_succeeds : (s : r.Server) (k : Bytes) → (r.exists s k).1 ≡ some ((law.view s).lives k)
  pub del_succeeds : (s : r.Server) (k : Bytes) → (r.del s k).1 ≡ true
  pub zrange_succeeds :
      (s : r.Server) (k : Bytes) (n : ℕ)
      → (r.zrange s k n).1 ≡ some (take n ((law.view s).members k))
