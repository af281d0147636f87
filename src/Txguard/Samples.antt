-- ===== src/Txguard/Samples.antt =====
-- Rows, indexes and a server of one client, for the runs and witnesses.
use ki_db.Base.{
  ℕ, ◌≡◌, ◌⊎◌, refl, inl, inr, arith, [], ◌∷◌, Option, none, some, Bytes, codes, Bool, true, false,
  length, take, drop, take-append_length, drop-append_length, same_text, some_same, if◌then◌else◌,
}
use ki_db.Meta.{IndexDef, IndexKind}
use ki_db.Keycodec.Slot.{Table}
use ki_db.Keycodec.Keys.{unique_key}
use ki_db.Rowcodec.Member.{Msgp}
use ki_db.Rowcodec.RoundTrip.{ReadsBack}
use ki_db.Bucketmap.{Doc, default_doc}
use ki_db.Bucketmap.EqProtocol.{Phase, entry_of}
use ki_db.Txguard.Entries.{Fields}
use ki_db.Txguard.Keyspace.{Redis, Keyspace, IsLawful, IsHealthy, put, erase}
use ki_db.Txguard.Row.{Guard}
use ki_db.Txguard.Unique.Reserve.{}

abbrev pub hash : Bytes → ℕ
hash s = length s

abbrev pub prefixed : Msgp
prefixed = record {
  header = λ n. n ∷ [];
  text = λ s. length s ∷ s;
  read_header = λ b. elim b [ [] ↦ none | ◌∷◌ n rest ↦ some (n, rest) ];
  read_text = λ b. elim b [ [] ↦ none | ◌∷◌ n rest ↦ some (take n rest, drop n rest) ];
}

pub prefixed_reads : ReadsBack prefixed
prefixed_reads = record {
  header_back = λ n rest h. refl;
  text_back = λ s rest h. rw (take-append_length s rest, drop-append_length s rest) refl;
}

-- A server of one client on which no command fails: what the commands see is all there is.
abbrev pub memory : Redis
memory = record {
  Server = Keyspace;
  set_nx = λ w k v ms. elim (w.held k) [ none ↦ (put k v w, some true) | some _ ↦ (w, some false) ];
  get = λ w k. (w, some (w.held k));
  exists = λ w k. (w, some (w.lives k));
  del = λ w k. (erase k w, true);
  zrange = λ w k n. (w, some (take n (w.members k)));
}

abbrev pub answer : Keyspace → Bytes → Bytes → Option Bytes → Keyspace × Option Bool
answer w k v o = elim o [ none ↦ (put k v w, some true) | some _ ↦ (w, some false) ]

pub set_case :
    (w : Keyspace) (k v : Bytes) (o : Option Bytes)
    → (answer w k v o).1 ≡ some true
    → (o ≡ none) × ((answer w k v o).0 ≡ put k v w)
set_case w k v none h = (refl, refl)
set_case w k v (some u) h = absurd (ground (arith, h))

pub refused_case :
    (w : Keyspace) (k v : Bytes) (o : Option Bytes)
    → (answer w k v o).1 ≡ some false
    → (answer w k v o).0 ≡ w
refused_case w k v none h = absurd (ground (arith, h))
refused_case w k v (some u) h = refl

pub failed_case :
    (w : Keyspace) (k v : Bytes) (o : Option Bytes)
    → (answer w k v o).1 ≡ none
    → ((answer w k v o).0 ≡ w) ⊎ ((o ≡ none) × ((answer w k v o).0 ≡ put k v w))
failed_case w k v none h = inr (refl, refl)
failed_case w k v (some u) h = inl refl

abbrev pub memory_laws : IsLawful memory
memory_laws = record {
  view = λ w. w;
  set_nx_set = λ w k v ms. set_case w k v (w.held k);
  set_nx_refused = λ w k v ms. refused_case w k v (w.held k);
  set_nx_failed = λ w k v ms. failed_case w k v (w.held k);
  get_reply = λ w k v h. some_same h;
  get_view = λ w k. refl;
  exists_reply = λ w k b h. some_same h;
  exists_view = λ w k. refl;
  del_done = λ w k h. refl;
  del_failed = λ w k h. inr refl;
  zrange_reply = λ w k n xs h. some_same h;
  zrange_view = λ w k n. refl;
}

abbrev pub memory_healthy : IsHealthy memory memory_laws
memory_healthy = record {
  set_nx_succeeds = λ w k v ms h. rw h refl;
  set_nx_refuses = λ w k v u ms h. rw h refl;
  get_succeeds = λ w k. refl;
  exists_succeeds = λ w k. refl;
  del_succeeds = λ w k. refl;
  zrange_succeeds = λ w k n. refl;
}

abbrev pub no_fields : Fields
no_fields f = none

abbrev pub rome : Fields
rome f =
    if same_text f (codes "city")
    then some (codes "rome")
    else (if same_text f (codes "zip") then some (codes "00100") else none)

-- The row after `rome` was written at version 1, and the next write's fields.
abbrev pub rome_row : Fields
rome_row f = if same_text f (codes "_iv:c") then some (codes "1") else rome f

abbrev pub oslo : Fields
oslo f = if same_text f (codes "city") then some (codes "oslo") else none

abbrev pub moved_zip : Fields
moved_zip f = if same_text f (codes "zip") then some (codes "00199") else rome f

abbrev pub by_city : IndexDef
by_city = record {
  id = codes "c";
  column = codes "city";
  kind = IndexKind.eq;
  covering = codes "zip" ∷ [];
  is_async = false;
  prefix_copy = false;
}

-- The index's table in the middle of a split.
abbrev pub splitting_docs : Bytes → Option Doc
splitting_docs id =
    some (record default_doc { eq = λ enc. entry_of (Phase.splitting (0 ∷ []) (1 ∷ 2 ∷ [])) })

abbrev pub no_tags : Table
no_tags i = []

-- The reservation of the value 5.
abbrev pub key_of : Bytes
key_of = unique_key hash (codes "t") (codes "u") (codes "5")

-- A server on which it has the owner `owner` and the one row `living` is alive.
abbrev pub alone : Bytes → Bytes → Keyspace
alone owner living = record {
  held = λ k.
      if same_text k (unique_key hash (codes "t") (codes "u") (codes "5"))
      then some owner
      else none;
  lives = λ k. same_text k living;
  members = λ k. [];
}

-- A server whose rows are empty and whose script accepts every write as version 1.
abbrev pub fresh : Guard
fresh = record {
  redis = memory;
  hgetall = λ w k. (w, some []);
  load = λ w id. (w, some default_doc);
  invalidate = λ w. w;
  eval = λ w keys argv. (w, some (codes "ok" ∷ codes "0" ∷ codes "1" ∷ []));
  pipeline = λ w cmds. (w, true);
}
