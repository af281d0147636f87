-- ===== src/Sweeper/Hashes.antt =====
-- The server's hashes as the script and the sweeper use them: what the calls of
-- script/lua/write_row.lua do to the fields of a receipt, and HGETALL.
use ki_db.Base.{ℕ, ◌<◌, ◌^◌, ◌≡◌, ◌≢◌, List, [], ◌∷◌, Option, some, Bytes, pos, In}
use ki_db.Txguard.Write.{Pairs}
use ki_db.Txguard.Write.Script.{Lua, Call}

pub record Hashes : Type 1 where
  pub Server : Type 0
  pub call : Call → Server → Server
  -- The value of a field of a key.
  pub hget : Server → Bytes → Bytes → Option Bytes
  pub hgetall : Server → Bytes → Pairs

-- What Redis documents: HSET sets one field, in the place of its old value, and HGETALL replies with
-- every field and its value, in an order that is left open.
pub record IsHashStore (h : Hashes) : Type 0 where
  pub hset_same : (s : h.Server) (k f v : Bytes) → h.hget (h.call (Call.hset k f v) s) k f ≡ some v
  pub hset_other :
      (s : h.Server) (k f v f' : Bytes)
      → f' ≢ f
      → h.hget (h.call (Call.hset k f v) s) k f' ≡ h.hget s k f'
  pub hgetall_all :
      (s : h.Server) (k f v : Bytes) → h.hget s k f ≡ some v → In (f, v) (h.hgetall s k)

-- The server after a series of calls.
abbrev pub run_calls : (h : Hashes) → List Call → h.Server → h.Server
run_calls h [] s = s
run_calls h (c ∷ cs) s = run_calls h cs (h.call c s)

-- Lua prints whole numbers with up to 14 digits, so that smaller ones have texts of their own.
abbrev pub printable : ℕ
printable = 10 ^ 14

pub record PrintsApart (lua : Lua) : Type 0 where
  pub tostring_apart :
      (i j : ℕ)
      → i < printable
      → j < printable
      → lua.tostring (pos i) ≡ lua.tostring (pos j)
      → i ≡ j
