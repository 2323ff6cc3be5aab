-- ===== src/Memory/Tests/Data.antt =====
-- A database of two shards that holds one key.
use pebbis.Prelude.{
  ℕ, ◌≡◌, refl, sym, ap, ◌∙◌, arith, Bool, false, Option, none, some, [], ◌∷◌, get_or,
}
use pebbis.Prelude.Int.{ℤ, pos}
use pebbis.Prelude.Bytes.{Bytes}
use pebbis.Prelude.Assoc.{Assoc, find, put}
use pebbis.Memory.Entry.{Entry, new_entry, entry_mem}
use pebbis.Memory.Shards.{new_db_shards, shard_for, track_insert, update}
use pebbis.Memory.Db.{Db, set_key}
use pebbis.Memory.Db.Shape.{IsShaped}
use pebbis.Memory.Db.Writes.{set_key-Writes}
use pebbis.Memory.Dict.Fresh.{new_db_shards-IsShaped}
use mathlib.Core.Path.{subst}

abbrev pub first_byte : Bytes → ℕ
first_byte k = get_or k 0 0

abbrev pub key_a : Bytes
key_a = 97 ∷ []

abbrev pub key_b : Bytes
key_b = 98 ∷ []

abbrev pub key_c : Bytes
key_c = 99 ∷ []

abbrev pub empty_db : Db
empty_db = record { ds = new_db_shards 2; used = 0 }

abbrev pub entry_a : Entry
entry_a = record {
  key = key_a;
  typ = 0;
  expire_at = pos 5;
  lru = 83887080;
  size = 66;
  version = 1;
  inline = key_b;
  counter = false;
}

abbrev pub shard_a : Assoc Entry
shard_a = (key_a, entry_a) ∷ []

abbrev pub one : Db
one = record {
  ds = record {
    shards = [] ∷ shard_a ∷ [];
    mask = 1;
    non_empty = 1 ∷ [];
    pos = update (λ _. none) 1 (some 0);
  };
  used = 66;
}

abbrev pub never : ℕ → Bool
never b = false

empty_db-IsShaped : IsShaped first_byte empty_db.ds
empty_db-IsShaped = new_db_shards-IsShaped first_byte 2 (omega arith, omega arith)

set_run : set_key first_byte 64 1000 key_a 0 (pos 5) key_b empty_db ≡ some (entry_a, one)
unfolding set_key new_entry entry_mem shard_for new_db_shards track_insert find put
set_run = refl

abbrev pub written : Option (Entry × Db) → Db
written none = empty_db
written (some r) = r.1

pub one-IsShaped : IsShaped first_byte one.ds
one-IsShaped =
    let (e, d, run, w, t, x, v, l) =
      set_key-Writes first_byte 64 1000 key_a 0 (pos 5) key_b empty_db empty_db-IsShaped in
    let same : d ≡ one = ap written (sym run ∙ set_run) in
    subst (λ (x : Db). IsShaped first_byte x.ds) same w.shaped

abbrev pub at_four : ℤ
at_four = pos 4

abbrev pub at_nine : ℤ
at_nine = pos 9
