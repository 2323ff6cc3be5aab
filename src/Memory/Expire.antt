-- ===== src/Memory/Expire.antt =====
-- memory/expire.go: the active expiry cycle. The engine's scan of the expiry index is the list of the
-- keys it meets, in its order; a batch is the list of the keys it deletes. The clock is read once, and
-- whether the deadline has passed is asked after each removal.
pub mod Due
use pebbis.Prelude.{
  ℕ, zero, suc, ◌+◌, ◌^◌, Bool, true, false, ◌||◌, Option, none, some, List, [], ◌∷◌, ◌++◌, leb,
  ◌==◌, if◌then◌else◌, length,
}
use pebbis.Prelude.Int.{ℤ, pos, negsuc, ltb_ℤ}
use pebbis.Prelude.Bytes.{Bytes}
use pebbis.Storage.Codec.{decode_expire_key, encode_data_key, encode_expire_key}
use pebbis.Memory.Entry.{Entry}
use pebbis.Prelude.Options.{◌>>=◌}
use pebbis.Memory.Db.{delete}
use pebbis.Memory.Dict.{Dict, valid, at_db}

pub record Reaped : Type 0 where
  pub dict : Dict
  pub batch : List Bytes
  pub collected : ℕ

module _ (hash : Bytes → ℕ) where
  -- `x.dict.Delete(db, key)`, whose result is not used.
  unfoldable pub dict_delete : ℕ → Bytes → Dict → Option Dict
  dict_delete db key d = do r ← at_db (delete hash key) db d; some (r.1)

  -- One removal: two deletions in the batch and one in the dict.
  unfoldable pub reap : ℕ → Bytes → Bytes → Reaped → Option Reaped
  unfolding dict_delete
  reap db key k r = do
    d ← dict_delete db key r.dict
    some (record {
      dict = d;
      batch = r.batch ++ encode_data_key db key ∷ k ∷ [];
      collected = r.collected + 1;
    })

  -- The callback of the scan over what is left of the index. `none` is a panic.
  unfoldable pub cycle_scan : ℤ → ℕ → (ℕ → Bool) → List Bytes → Reaped → Option Reaped
  unfolding reap
  cycle_scan now limit late [] r = some r
  cycle_scan now limit late (k ∷ index) r =
      let skip : Option Reaped = cycle_scan now limit late index r in
      elim (decode_expire_key k) [
        | none ↦ skip
        | some (expire_at, db, key) ↦
            let next : Option Reaped = (do
              r' ← reap db key k r
              elim (leb limit r'.collected || late r'.collected) [
                | true ↦ some r'
                | false ↦ cycle_scan now limit late index r'
              ]) in
            if ltb_ℤ now expire_at then some r else if valid db r.dict then next else skip
      ]

  -- What `Cycle` returns: the count, or an error of `Apply`, with the dict and what was applied.
  unfoldable pub cycle :
      ℤ → ℕ → (ℕ → Bool) → Bool → List Bytes → Dict → Option (Option ℕ × List Bytes × Dict)
  unfolding cycle_scan
  cycle now limit late apply_fails index d = do
    r ← cycle_scan now limit late index (record { dict = d; batch = []; collected = 0 })
    some (
        if r.collected == 0
        then (some 0, [], r.dict)
        else if apply_fails
        then (none, [], r.dict)
        else (some r.collected, r.batch, r.dict))

-- The batch of `DeleteNow`.
unfoldable pub delete_now : ℕ → Bytes → ℤ → List Bytes
delete_now db key (pos zero) = encode_data_key db key ∷ []
delete_now db key (pos (suc n)) =
    encode_data_key db key ∷ encode_expire_key (pos (suc n)) db key ∷ []
delete_now db key (negsuc n) = encode_data_key db key ∷ encode_expire_key (negsuc n) db key ∷ []
