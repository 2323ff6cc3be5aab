-- ===== src/Memory/Dict/Whole.antt =====
-- dict.go: an operation on one database, seen from the whole dict.
use pebbis.Prelude.{
  ℕ, zero, suc, ◌+◌, ◌%◌, ◌^◌, ◌<◌, ◌≡◌, refl, sym, ap, ◌∙◌, arith, true, ◌&&◌, ◌==◌, Option, none,
  some, List, [], ◌∷◌, if◌then◌else◌, length, get_elem?, set, length-set, Option-cases, Bool-cases,
  inl, inr,
}
use pebbis.Prelude.Bytes.{Bytes, bytes_eq}
use pebbis.Memory.Entry.{Entry}
use pebbis.Memory.Shards.{DbShards, new_db_shards}
use pebbis.Memory.Shards.Tracking.{get_elem?-set, get_elem?_in}
use pebbis.Memory.Db.{Db, total_size}
use pebbis.Memory.Db.Shape.{IsShaped, view}
use pebbis.Memory.Db.Writes.{Writes}
use pebbis.Memory.Dict.{Dict, valid, db_shards, at_db, total_dbs}
use pebbis.Memory.Dict.Fresh.{
  Usable, new_db_shards-IsShaped, view-new_db_shards, total_size-new_db_shards,
}

-- What a database, perhaps nil, adds to the sum of the sizes.
abbrev size_of : Option DbShards → ℕ
size_of none = 0
size_of (some ds) = total_size ds.shards

total_dbs-set :
    (dbs : List (Option DbShards)) (db : ℕ) (p : Option DbShards) (ds : DbShards)
    → get_elem? dbs db ≡ some p
    → total_dbs (set dbs db (some ds)) + size_of p ≡ total_dbs dbs + total_size ds.shards
unfolding total_dbs
total_dbs-set [] db p ds h = absurd (cc)
total_dbs-set (none ∷ dbs) zero p ds h =
    let same : none ≡ p = ground arith in rw (← same) (omega arith)
total_dbs-set (some x ∷ dbs) zero p ds h =
    let same : some x ≡ p = ground arith in rw (← same) (omega arith)
total_dbs-set (none ∷ dbs) (suc db) p ds h = total_dbs-set dbs db p ds h
total_dbs-set (some x ∷ dbs) (suc db) p ds h = omega (arith, total_dbs-set dbs db p ds h)

module _ (hash : Bytes → ℕ) where
  -- Every database in use has its shape, and the counter is the sum of all sizes.
  pub record IsWhole (d : Dict) : Type 0 where
    pub usable : Usable d.shard_count
    pub databases :
        (db : ℕ) (ds : DbShards) → get_elem? d.dbs db ≡ some (some ds) → IsShaped hash ds
    pub counted : d.used % 2 ^ 64 ≡ total_dbs d.dbs % 2 ^ 64

  abbrev pub view_of : Option (Option DbShards) → Bytes → Option Entry
  view_of none k = none
  view_of (some none) k = none
  view_of (some (some ds)) k = view hash ds k

  -- The map of a database.
  unfoldable pub view_at : Dict → ℕ → Bytes → Option Entry
  view_at d db k = view_of (get_elem? d.dbs db) k

  -- The map of `d'` is that of `d` with `v` under the key `k` of the database `db`.
  pub record DictWrites (db : ℕ) (k : Bytes) (v : Option Entry) (d d' : Dict) : Type 0 where
    pub whole : IsWhole d'
    pub reads :
        (j : ℕ) (q : Bytes)
        → view_at d' j q ≡ (if db == j && bytes_eq k q then v else view_at d j q)
    pub width : length d'.dbs ≡ length d.dbs

  -- What `dbShards` gives: the shards of the database, or shards that are as good.
  record Opened (db : ℕ) (d : Dict) (ds : DbShards) : Type 0 where
    run : db_shards db d ≡ some ds
    shaped : IsShaped hash ds
    same : (k : Bytes) → view hash ds k ≡ view_at d db k
    sums :
        (ds' : DbShards)
        → total_dbs (set d.dbs db (some ds')) + total_size ds.shards
          ≡ total_dbs d.dbs + total_size ds'.shards

  db_shards-Opened :
      (db : ℕ) (d : Dict) → IsWhole d → valid db d ≡ true → (ds : DbShards) × Opened db d ds
  unfolding db_shards valid view_at
  db_shards-Opened db d w ok =
      let (p, at) = get_elem?_in d.dbs db (ground (arith, ok)) in
      elim (Option-cases p) [
        | inl nil ↦
            let at' : get_elem? d.dbs db ≡ some none = at ∙ ap some nil in
            let fresh = new_db_shards d.shard_count in
            (
              fresh,
              record {
                run = ground (arith, at');
                shaped = new_db_shards-IsShaped hash d.shard_count w.usable;
                same = λ k.
                    view-new_db_shards hash d.shard_count k w.usable
                    ∙ sym (ap (λ o. view_of o k) at');
                sums = λ ds'. omega (
                  arith,
                  total_dbs-set d.dbs db none ds' at',
                  total_size-new_db_shards d.shard_count,
                );
              },
            )
        | inr (ds, there) ↦
            let at' : get_elem? d.dbs db ≡ some (some ds) = at ∙ ap some there in
            (
              ds,
              record {
                run = ground (arith, at');
                shaped = w.databases db ds at';
                same = λ k. sym (ap (λ o. view_of o k) at');
                sums = λ ds'. total_dbs-set d.dbs db (some ds) ds' at';
              },
            )
      ]

  -- An operation that writes one key of a database, in whatever state it finds the database, writes that
  -- key of the dict, keeps the dict whole, and does not panic.
  pub at_db-DictWrites :
      {R : Type 0} (op : Db → Option (R × Db)) (f : Option Entry → R)
      (g : Option Entry → Option Entry) (db : ℕ) (k : Bytes) (d : Dict)
      → ((d₀ : Db)
          → IsShaped hash d₀.ds
          → (d₁ : Db) × (op d₀ ≡ some (f (view hash d₀.ds k), d₁))
            × Writes hash k (g (view hash d₀.ds k)) d₀ d₁)
      → IsWhole d
      → valid db d ≡ true
      → (d' : Dict) × (at_db op db d ≡ some (f (view_at d db k), d'))
        × DictWrites db k (g (view_at d db k)) d d'
  unfolding at_db view_at valid
  at_db-DictWrites op f g db k d writes w ok =
      let (ds, o) = db_shards-Opened db d w ok in
      let d₀ : Db = record { ds = ds; used = d.used } in
      let inside : db < length d.dbs = ground (arith, ok) in
      let (d₁, run, wr) = writes d₀ o.shaped in
      let d' : Dict = record d { dbs = set d.dbs db (some d₁.ds); used = d₁.used } in
      (
        d',
        ground (arith, o.run, run, o.same k),
        record {
          whole = record {
            usable = w.usable;
            databases = λ j x h. elim (Bool-cases (db == j)) [
              | inl same ↦
                  let e : d₁.ds ≡ x =
                    ground (arith, same, h, inside, get_elem?-set d.dbs db j (some d₁.ds)) in
                  rw (← e) wr.shaped
              | inr other ↦
                  w.databases j x (ground (arith, other, h, get_elem?-set d.dbs db j (some d₁.ds)))
            ];
            counted = omega (arith, wr.counts, o.sums d₁.ds, w.counted);
          };
          reads = λ j q. elim (Bool-cases (db == j)) [
            | inl same ↦
                let e : get_elem? d'.dbs j ≡ some (some d₁.ds) =
                  ground (arith, same, get_elem?-set d.dbs db j (some d₁.ds), inside) in
                let jd : db ≡ j = ground (arith, same) in
                ap (λ o. view_of o q) e ∙ wr.reads q ∙ rw (o.same k, o.same q, same, ← jd) refl
            | inr other ↦
                let e : get_elem? d'.dbs j ≡ get_elem? d.dbs j =
                  ground (arith, other, get_elem?-set d.dbs db j (some d₁.ds)) in
                rw other (ap (λ o. view_of o q) e)
          ];
          width = length-set d.dbs db (some d₁.ds);
        },
      )
