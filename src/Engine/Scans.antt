-- ===== src/Engine/Scans.antt =====
-- pebble.go: what a scan collects, and the keys that a prefix ending in 0x00 covers.
use pebbis.Prelude.{
  ℕ, ◌+◌, ◌<◌, ◌≡◌, refl, ap, ◌∙◌, arith, Bool, true, false, Option, none, some, List, [], ◌∷◌,
  ◌++◌, append_assoc, append-nil, if◌then◌else◌, Bool-cases, Option-cases, inl, inr,
}
use pebbis.Prelude.Bytes.{Bytes, bytes_eq, bytes_lt}
use pebbis.Storage.Prefix.{has_prefix, prefix_end}
use pebbis.Engine.{Pair, Visit, next, select, insert, visit, in_range}

module _ {A : Type 0} where
  abbrev pub push : Option A → List A → List A
  push none acc = acc
  push (some a) acc = acc ++ a ∷ []

  abbrev pub cons_option : Option A → List A → List A
  cons_option none rest = rest
  cons_option (some a) rest = a ∷ rest

  -- What a function makes of each pair that it accepts.
  unfoldable pub collect : (Bytes → Bytes → Option A) → List Pair → List A
  collect f [] = []
  collect f ((k, v) ∷ ps) = cons_option (f k v) (collect f ps)

  -- A callback that appends what it accepts and always goes on collects the whole range.
  pub visit-collect :
      (fn : List A → Bytes → Bytes → Visit (List A)) (f : Bytes → Bytes → Option A) (ps : List Pair)
      (acc : List A)
      → ((acc : List A) (k v : Bytes) → fn acc k v ≡ next (push (f k v) acc))
      → visit fn ps acc ≡ acc ++ collect f ps
  unfolding visit collect
  visit-collect fn f [] acc h = rw append-nil refl
  visit-collect fn f ((k, v) ∷ ps) acc h =
      rw (visit, h acc k v)
        (elim (Option-cases (f k v)) [
          | inl e ↦ rw e (visit-collect fn f ps acc h)
          | inr (a, e) ↦
              rw e
                (visit-collect fn f ps (acc ++ a ∷ []) h ∙ append_assoc acc (a ∷ []) (collect f ps))
        ])

  pub collect-select :
      (f : Bytes → Bytes → Option A) (p : Bytes → Bool) (ps : List Pair)
      → collect f (select p ps) ≡ collect (λ k v. if p k then f k v else none) ps
  unfolding collect select
  collect-select f p [] = refl
  collect-select f p ((k, v) ∷ ps) = elim (Bool-cases (p k)) [
    | inl e ↦ rw e (ap (cons_option (f k v)) (collect-select f p ps))
    | inr e ↦ rw e (collect-select f p ps)
  ]

-- A property of every pair.
abbrev pub Each : (Bytes → Type 0) → List Pair → Type 0
Each P [] = Unit
Each P ((k, v) ∷ ps) = P k × Each P ps

pub collect-ext :
    {A : Type 0} (P : Bytes → Type 0) (f g : Bytes → Bytes → Option A) (ps : List Pair)
    → Each P ps
    → ((k v : Bytes) → P k → f k v ≡ g k v)
    → collect f ps ≡ collect g ps
unfolding collect
collect-ext P f g [] e h = refl
collect-ext P f g ((k, v) ∷ ps) e h = rw (h k v e.0, collect-ext P f g ps e.1 h) refl

pub collect-same :
    {A : Type 0} (f g : Bytes → Bytes → Option A) (ps : List Pair)
    → ((k v : Bytes) → f k v ≡ g k v)
    → collect f ps ≡ collect g ps
unfolding collect
collect-same f g [] h = refl
collect-same f g ((k, v) ∷ ps) h = rw (h k v, collect-same f g ps h) refl

module _ {A B : Type 0} where
  unfoldable pub filter_map : (A → Option B) → List A → List B
  filter_map g [] = []
  filter_map g (a ∷ rest) = cons_option (g a) (filter_map g rest)

  abbrev pub then_map : Option A → (A → Option B) → Option B
  then_map none g = none
  then_map (some a) g = g a

  pub filter_map-collect :
      (g : A → Option B) (f : Bytes → Bytes → Option A) (ps : List Pair)
      → filter_map g (collect f ps) ≡ collect (λ k v. then_map (f k v) g) ps
  unfolding filter_map collect
  filter_map-collect g f [] = refl
  filter_map-collect g f ((k, v) ∷ ps) = elim (Option-cases (f k v)) [
    | inl e ↦ rw e (filter_map-collect g f ps)
    | inr (a, e) ↦ rw e (ap (cons_option (g a)) (filter_map-collect g f ps))
  ]

pub Each-insert :
    (P : Bytes → Type 0) (k v : Bytes) (ps : List Pair) → P k → Each P ps → Each P (insert k v ps)
unfolding insert
Each-insert P k v [] h e = (h, tt)
Each-insert P k v ((j, w) ∷ ps) h (e, es) = elim (Bool-cases (bytes_eq k j)) [
  | inl s ↦ rw s (h, es)
  | inr n ↦ rw n (elim (Bool-cases (bytes_lt k j)) [
    | inl b ↦ rw b (h, (e, es))
    | inr b ↦ rw b (e, Each-insert P k v ps h es)
  ])
]

pub Each-select :
    (P : Bytes → Type 0) (test : Bytes → Bool) (ps : List Pair)
    → Each P ps
    → Each P (select test ps)
unfolding select
Each-select P test [] e = tt
Each-select P test ((k, v) ∷ ps) (e, es) = elim (Bool-cases (test k)) [
  | inl t ↦ rw t (e, Each-select P test ps es)
  | inr t ↦ rw t (Each-select P test ps es)
]

-- Between two keys with one prefix lie only keys with that prefix.
pub has_prefix-between :
    (k p x y : Bytes)
    → bytes_lt k (p ++ x) ≡ false
    → bytes_lt k (p ++ y) ≡ true
    → has_prefix k p ≡ true
has_prefix-between k [] x y h l = refl
has_prefix-between [] (b ∷ p) x y h l = absurd (cc)
has_prefix-between (c ∷ k) (b ∷ p) x y h l = ground (arith, has_prefix-between k p x y)

pub prefix_end-append :
    (stem : Bytes) (b : ℕ) → b < 255 → prefix_end (stem ++ b ∷ []) ≡ some (stem ++ (b + 1) ∷ [])
unfolding prefix_end
prefix_end-append [] b h = ground arith
prefix_end-append (c ∷ stem) b h = rw (prefix_end-append stem b h) refl

-- No number lies between 0 and 1: the range of a prefix that ends in 0x00 is the prefix.
pub in_range-zero :
    (stem k : Bytes)
    → in_range (stem ++ 0 ∷ []) (some (stem ++ 1 ∷ [])) k ≡ has_prefix k (stem ++ 0 ∷ [])
in_range-zero [] [] = refl
in_range-zero [] (c ∷ []) = ground arith
in_range-zero [] (c ∷ d ∷ k) = ground arith
in_range-zero (b ∷ stem) [] = refl
in_range-zero (b ∷ stem) (c ∷ k) = ground (arith, in_range-zero stem k)

pub has_prefix-append : (p x : Bytes) → has_prefix (p ++ x) p ≡ true
has_prefix-append [] x = refl
has_prefix-append (b ∷ p) x = ground (arith, has_prefix-append p x)
