-- ===== src/Stream/Log/Append.antt =====
-- stream.go: what `xAdd` does to the entries of the stream.
use pebbis.Prelude.{
  ◌≡◌, refl, ap, ◌∙◌, arith, true, false, Option, none, some, List, [], ◌∷◌, ◌++◌, Bool-cases, ◌⊎◌,
  inl, inr,
}
use mathlib.Core.Path.{sym}
use pebbis.Prelude.Bytes.{Bytes, bytes_lt, bytes_eq, bytes_eq_iff}
use pebbis.Storage.Prefix.{has_prefix}
use pebbis.Engine.{Pair, Above, IsSorted, insert, last_from}
use pebbis.Engine.Sorted.{bytes_lt_irrefl, bytes_lt_trans, Above-lower, Above-IsSorted}
use pebbis.Engine.Scans.{Each, collect, cons_option, has_prefix-append}
use pebbis.Stream.{StreamId, less}
use pebbis.Stream.Ids.{IsId, id_bytes, bytes_lt-id_bytes}
use pebbis.Stream.Log.View.{Row, own, other, entry_of, entry_of-own}

abbrev pub AllLess : StreamId → List (StreamId × Bytes) → Type 0
AllLess id [] = Unit
AllLess id ((o, v) ∷ l) = (less o id ≡ true) × AllLess id l

-- The IDs ascend, from above `lo` on.
abbrev pub AscendAbove : StreamId → List (StreamId × Bytes) → Type 0
AscendAbove lo [] = Unit
AscendAbove lo ((o, v) ∷ l) = (less lo o ≡ true) × AscendAbove o l

abbrev pub Ascend : List (StreamId × Bytes) → Type 0
Ascend [] = Unit
Ascend ((o, v) ∷ l) = AscendAbove o l

pub less_trans : (a b c : StreamId) → less a b ≡ true → less b c ≡ true → less a c ≡ true
unfolding less
less_trans a b c h k = ground arith

abbrev pub last_id : Option (StreamId × Bytes) → Option StreamId
last_id none = none
last_id (some (id, v)) = some id

pub clash : (a b : StreamId) → less a b ≡ true → less b a ≡ true → ⊥
unfolding less
clash a b h k = ground arith

later_lt :
    (p : Bytes) (o id : StreamId)
    → IsId o
    → IsId id
    → less o id ≡ true
    → bytes_lt (p ++ id_bytes id) (p ++ id_bytes o) ≡ false
unfolding less
later_lt p o id ho h l = bytes_lt-id_bytes p id o h ho ∙ ground arith

pub later_key :
    (p : Bytes) (o id : StreamId)
    → IsId o
    → IsId id
    → less o id ≡ true
    → bytes_eq (p ++ id_bytes id) (p ++ id_bytes o) ≡ false
later_key p o id ho h l = elim (Bool-cases (bytes_eq (p ++ id_bytes id) (p ++ id_bytes o))) [
  | inr n ↦ n
  | inl e ↦
      let same = (bytes_eq_iff (p ++ id_bytes id) (p ++ id_bytes o)).0 e in
      let b = bytes_lt-id_bytes p o id ho h ∙ l in
      let b' = rw same at b in absurd (ground (arith, b', bytes_lt_irrefl (p ++ id_bytes o)))
]

pub not_own :
    (p j : Bytes) (id : StreamId) → has_prefix j p ≡ false → bytes_eq (p ++ id_bytes id) j ≡ false
not_own p j id n = elim (Bool-cases (bytes_eq (p ++ id_bytes id) j)) [
  | inr d ↦ d
  | inl e ↦
      let same : p ++ id_bytes id ≡ j = (bytes_eq_iff (p ++ id_bytes id) j).0 e in
      let front = has_prefix-append p (id_bytes id) in let front' = rw same at front in absurd (cc)
]

never_none :
    (o : StreamId) (v : Bytes) (l : List (StreamId × Bytes))
    → last_id (last_from (some (o, v)) l) ≡ none
    → ⊥
never_none o v [] e = absurd (cc)
never_none o v ((o', v') ∷ l) e = never_none o' v' l e

-- An ID above the last one is above all.
AscendAbove-last :
    (lo r : StreamId) (w : Bytes) (l : List (StreamId × Bytes))
    → AscendAbove lo l
    → (x : StreamId) → last_id (last_from (some (lo, w)) l) ≡ some x
    → less x r ≡ true
    → (less lo r ≡ true) × AllLess r l
AscendAbove-last lo r w [] a x e h = ground arith
AscendAbove-last lo r w ((o, v) ∷ l) (b, a) x e h =
    let (below, rest) = AscendAbove-last o r v l a x e h in
    (less_trans lo o r b below, (below, rest))

pub AllLess-last :
    (r : StreamId) (l : List (StreamId × Bytes))
    → Ascend l
    → (last_id (last_from none l) ≡ none)
      ⊎ ((x : StreamId) × ((last_id (last_from none l) ≡ some x) × (less x r ≡ true)))
    → AllLess r l
AllLess-last r [] a h = tt
AllLess-last r ((o, v) ∷ l) a (inl e) = absurd (never_none o v l e)
AllLess-last r ((o, v) ∷ l) a (inr (x, (e, b))) = AscendAbove-last o r v l a x e b

module _ (p : Bytes) where
  -- The entries of the stream ascend, as the keys do.
  AscendAbove-keys :
      (lo : StreamId) (ps : List Pair)
      → IsId lo
      → Above (p ++ id_bytes lo) ps
      → Each (Row p) ps
      → AscendAbove lo (collect (entry_of p) ps)
  unfolding collect
  AscendAbove-keys lo [] h a e = tt
  AscendAbove-keys lo ((k, v) ∷ ps) h (b, a) (own id hid same, e) =
      let b' = rw same at b in
      let a' = rw same at a in
      rw (same, entry_of-own p id v hid)
        (sym (bytes_lt-id_bytes p lo id h hid) ∙ b', AscendAbove-keys id ps hid a' e)
  AscendAbove-keys lo ((k, v) ∷ ps) h (b, a) (other n, e) =
      rw n (AscendAbove-keys lo ps h (Above-lower (p ++ id_bytes lo) k ps b a) e)

  pub Ascend-keys :
      (ps : List Pair) → IsSorted ps → Each (Row p) ps → Ascend (collect (entry_of p) ps)
  unfolding collect
  Ascend-keys [] s e = tt
  Ascend-keys ((k, v) ∷ ps) s (own id hid same, e) =
      let s' = rw same at s in rw (same, entry_of-own p id v hid) (AscendAbove-keys id ps hid s' e)
  Ascend-keys ((k, v) ∷ ps) s (other n, e) = rw n (Ascend-keys ps (Above-IsSorted k ps s) e)

  -- Above a key that is above all entries there is none.
  none-Above :
      (id : StreamId) (k : Bytes) (ps : List Pair)
      → IsId id
      → bytes_lt (p ++ id_bytes id) k ≡ true
      → Above k ps
      → Each (Row p) ps
      → AllLess id (collect (entry_of p) ps)
      → collect (entry_of p) ps ≡ []
  unfolding collect
  none-Above id k [] h b a e l = refl
  none-Above id k ((j, v) ∷ ps) h b (c, a) (own o ho same, e) l =
      let l' = rw (same, entry_of-own p o v ho) at l in
      let c' = bytes_lt_trans (p ++ id_bytes id) k j b c in
      let c'' = rw same at c' in
      absurd (clash id o (sym (bytes_lt-id_bytes p id o h ho) ∙ c'') l'.0)
  none-Above id k ((j, v) ∷ ps) h b (c, a) (other n, e) l =
      let l' = rw n at l in
      rw n (none-Above id j ps h (bytes_lt_trans (p ++ id_bytes id) k j b c) a e l')

  -- A key above all entries of the stream is inserted as its last entry.
  pub collect-insert :
      (id : StreamId) (v : Bytes) (ps : List Pair)
      → IsId id
      → IsSorted ps
      → Each (Row p) ps
      → AllLess id (collect (entry_of p) ps)
      → collect (entry_of p) (insert (p ++ id_bytes id) v ps)
        ≡ collect (entry_of p) ps ++ (id, v) ∷ []
  unfolding collect insert
  collect-insert id v [] h s e l = rw (entry_of-own p id v h) refl
  collect-insert id v ((j, w) ∷ ps) h s (own o ho same, e) l =
      let l' = rw (same, entry_of-own p o w ho) at l in
      let s' = Above-IsSorted j ps s in
      rw (same, later_key p o id ho h l'.0, later_lt p o id ho h l'.0, entry_of-own p o w ho)
        (ap (cons_option (some (o, w))) (collect-insert id v ps h s' e l'.1))
  collect-insert id v ((j, w) ∷ ps) h s (other n, e) l =
      let l' = rw n at l in
      let key = p ++ id_bytes id in
      rw (not_own p j id n) (elim (Bool-cases (bytes_lt key j)) [
        | inl b ↦ rw (b, n, entry_of-own p id v h, none-Above id j ps h b s e l') refl
        | inr b ↦ rw (b, n) (collect-insert id v ps h (Above-IsSorted j ps s) e l')
      ])
