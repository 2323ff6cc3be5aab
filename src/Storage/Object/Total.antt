-- ===== src/Storage/Object/Total.antt =====
-- object.go: the ends of the four decoders.
use pebbis.Prelude.{
  ℕ, zero, suc, ◌+◌, ◌≤◌, ◌≢◌, arith, List, [], ◌∷◌, ◌++◌, length, drop, take, length-drop,
}
use pebbis.Prelude.Bytes.{Bytes, be_value}
use pebbis.Prelude.Assoc.{Assoc, put}
use pebbis.Storage.Object.{
  Decoded, ok, corrupt, crashed, stuck, slice, ◌>>=◌, read_block, read_scored, read_member,
  decode_hash_loop, decode_hash_inline, decode_list_loop, decode_list_inline, decode_set_loop,
  decode_set_inline, decode_zset_loop, decode_zset_inline,
}

-- The Go code ends with a value or with `ErrCorruptObject`, and a value satisfies `P`.
abbrev pub Ends {ℓ} : {A : Type ℓ} → (A → Type 0) → Decoded A → Type 0
Ends P (ok a) = P a
Ends P corrupt = Unit
Ends P crashed = ⊥
Ends P stuck = ⊥

-- A block that is read leaves fewer bytes, by its width at least.
read_block-Ends :
    (n : ℕ) (rest : Bytes) → Ends (λ r. length r.1 + n ≤ length rest) (read_block n rest)
unfolding read_block slice
read_block-Ends n rest =
    ground (arith, length-drop n rest, length-drop (be_value (take n rest)) (drop n rest))

read_member-Ends : (rest : Bytes) → Ends (λ r. length r.2 + 10 ≤ length rest) (read_member rest)
unfolding read_member read_scored slice
read_member-Ends rest =
    let n = be_value (take 2 rest) in
    ground
      (arith, length-drop 2 rest, length-drop n (drop 2 rest), length-drop 8 (drop n (drop 2 rest)))

abbrev Any {ℓ} : {A : Type ℓ} → A → Type 0
Any a = Unit

-- What is read is handed on, and nothing is asked of the outcome but that there is one.
Ends-next {ℓ κ} :
    {A : Type ℓ} {B : Type κ} (first : Decoded A) (next : A → Decoded B) (Small : A → Type 0)
    → Ends Small first
    → ((a : A) → Small a → Ends Any (next a))
    → Ends Any (first >>= next)
Ends-next stuck next Small never goes_on = never
Ends-next corrupt next Small read goes_on = tt
Ends-next crashed next Small never goes_on = never
Ends-next (ok a) next Small small goes_on = goes_on a small

decode_hash_loop-Ends :
    (fuel : ℕ) (rest : Bytes) (out : Assoc Bytes)
    → length rest ≤ fuel
    → Ends Any (decode_hash_loop fuel rest out)
unfolding decode_hash_loop
decode_hash_loop-Ends fuel [] out h = tt
decode_hash_loop-Ends zero (b ∷ rest) out h = absurd (omega arith)
decode_hash_loop-Ends (suc fuel) (b ∷ rest) out h =
    Ends-next (read_block 2 (b ∷ rest)) _ _ (read_block-Ends 2 (b ∷ rest)) λ r shorter.
      Ends-next (read_block 4 r.1) _ _ (read_block-Ends 4 r.1)
        λ q shorter'. decode_hash_loop-Ends fuel q.1 (put r.0 q.0 out) (omega arith)

decode_list_loop-Ends :
    (fuel : ℕ) (rest : Bytes) (out : List Bytes)
    → length rest ≤ fuel
    → Ends Any (decode_list_loop fuel rest out)
unfolding decode_list_loop
decode_list_loop-Ends fuel [] out h = tt
decode_list_loop-Ends zero (b ∷ rest) out h = absurd (omega arith)
decode_list_loop-Ends (suc fuel) (b ∷ rest) out h =
    Ends-next (read_block 4 (b ∷ rest)) _ _ (read_block-Ends 4 (b ∷ rest))
      λ r shorter. decode_list_loop-Ends fuel r.1 (out ++ r.0 ∷ []) (omega arith)

decode_set_loop-Ends :
    (fuel : ℕ) (rest : Bytes) (out : Assoc (Unit {0}))
    → length rest ≤ fuel
    → Ends Any (decode_set_loop fuel rest out)
unfolding decode_set_loop
decode_set_loop-Ends fuel [] out h = tt
decode_set_loop-Ends zero (b ∷ rest) out h = absurd (omega arith)
decode_set_loop-Ends (suc fuel) (b ∷ rest) out h =
    Ends-next (read_block 2 (b ∷ rest)) _ _ (read_block-Ends 2 (b ∷ rest))
      λ r shorter. decode_set_loop-Ends fuel r.1 (put r.0 tt out) (omega arith)

decode_zset_loop-Ends :
    (fuel : ℕ) (rest : Bytes) (out : Assoc ℕ)
    → length rest ≤ fuel
    → Ends Any (decode_zset_loop fuel rest out)
unfolding decode_zset_loop
decode_zset_loop-Ends fuel [] out h = tt
decode_zset_loop-Ends zero (b ∷ rest) out h = absurd (omega arith)
decode_zset_loop-Ends (suc fuel) (b ∷ rest) out h =
    Ends-next (read_member (b ∷ rest)) _ _ (read_member-Ends (b ∷ rest))
      λ r shorter. decode_zset_loop-Ends fuel r.2 (put r.0 r.1 out) (omega arith)

-- Neither a slice is out of range nor does the fuel run out.
abbrev pub Safe {ℓ} : {A : Type ℓ} → Decoded A → Type ℓ
Safe r = (r ≢ crashed) × (r ≢ stuck)

Ends-Safe {ℓ} : {A : Type ℓ} (r : Decoded A) → Ends Any r → Safe r
Ends-Safe (ok a) h = (cc, cc)
Ends-Safe corrupt h = (cc, cc)
Ends-Safe crashed h = absurd h
Ends-Safe stuck h = absurd h

-- On every byte string each of the four decoders ends, with a collection or with `ErrCorruptObject`:
-- no slice is out of range, and a loop that has not reached the end takes at least one byte in a round.
pub decode_inline-Safe :
    (bytes : Bytes)
    → Safe (decode_hash_inline bytes)
      × Safe (decode_list_inline bytes)
      × Safe (decode_set_inline bytes)
      × Safe (decode_zset_inline bytes)
unfolding decode_hash_inline decode_list_inline decode_set_inline decode_zset_inline
decode_inline-Safe bytes = (
  Ends-Safe _ (decode_hash_loop-Ends (length bytes) bytes [] (omega arith)),
  Ends-Safe _ (decode_list_loop-Ends (length bytes) bytes [] (omega arith)),
  Ends-Safe _ (decode_set_loop-Ends (length bytes) bytes [] (omega arith)),
  Ends-Safe _ (decode_zset_loop-Ends (length bytes) bytes [] (omega arith)),
)
