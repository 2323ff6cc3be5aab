-- ===== src/Txn/Check.antt =====
-- txn.go: the check of EXEC against what WATCH has recorded.
use pebbis.Prelude.{
  ℕ, ◌≡◌, ◌↔◌, refl, ◌∙◌, arith, Bool, true, false, ◌||◌, Option, none, some, List, [], ◌∷◌,
  Bool-cases, Option-cases, inl, inr,
}
use mathlib.Core.Path.{sym}
use pebbis.Prelude.Int.{ℤ, pos, ◌≤ℤ◌}
use pebbis.Prelude.Bytes.{Bytes, bytes_eq, bytes_eq_iff}
use pebbis.Prelude.Assoc.{Assoc, find, IsMap, bytes_eq_refl}
use pebbis.Memory.Entry.{Entry}
use pebbis.Memory.Db.Removes.{live}
use pebbis.Keys.{one_of}
use pebbis.Txn.{Keyspace, Command, ConnState, Reply, null, key_changed, seen, expiry_of, stale_of}
use pebbis.Txn.Exec.{cmd_exec, watch_loop, check_watched}
use pebbis.Txn.Watch.{
  Records, SameLive, differs, key_changed-live, lookup-SameLive, Watching, watch_loop-Watching,
  version_of,
}

-- The test of one key against a look at the keyspace.
abbrev pub changed_at : ℤ → ConnState → (Bytes → Option Entry) → Bytes → ℕ → Bool
changed_at now cs look key ver =
    key_changed now ver (expiry_of (find key cs.watched_expiry))
      (stale_of (find key cs.watched_stale)) (look key)

changed : ℤ → ConnState → (Bytes → Option Entry) → Assoc ℕ → Bool
changed now cs look [] = false
changed now cs look ((key, ver) ∷ watched) =
    changed_at now cs look key ver || changed now cs look watched

later_find :
    (key q : Bytes) (ver v : ℕ) (watched : Assoc ℕ)
    → find key watched ≡ none
    → find q watched ≡ some v
    → find q ((key, ver) ∷ watched) ≡ some v
unfolding find
later_find key q ver v watched m f = elim (Bool-cases (bytes_eq key q)) [
  | inl b ↦
      let same : key ≡ q = (bytes_eq_iff key q).0 b in let f' = rw (← same) at f in absurd (cc)
  | inr n ↦ rw n f
]

same_some : {a b : ℕ} → some a ≡ some b → a ≡ b
same_some {a = a} {b = b} e = ground (arith, e)

none_true : {a b : Bool} → (a || b ≡ false) ↔ ((a ≡ false) × (b ≡ false))
none_true {a = a} {b = b} = ground arith

changed-none :
    (now : ℤ) (cs : ConnState) (look : Bytes → Option Entry) (watched : Assoc ℕ)
    → changed now cs look watched ≡ false
    → (q : Bytes) (ver : ℕ) → find q watched ≡ some ver
    → changed_at now cs look q ver ≡ false
unfolding changed find
changed-none now cs look [] e q v f = absurd (cc)
changed-none now cs look ((key, ver) ∷ watched) e q v f =
    let (here, there) = none_true.0 e in
    elim (Bool-cases (bytes_eq key q)) [
      | inl b ↦
          let same : key ≡ q = (bytes_eq_iff key q).0 b in
          let f' = rw b at f in let found : ver ≡ v = same_some f' in rw (← same, ← found) here
      | inr n ↦ let f' = rw n at f in changed-none now cs look watched there q v f'
    ]

none-changed :
    (now : ℤ) (cs : ConnState) (look : Bytes → Option Entry) (watched : Assoc ℕ)
    → IsMap watched
    → ((q : Bytes) (ver : ℕ) → find q watched ≡ some ver → changed_at now cs look q ver ≡ false)
    → changed now cs look watched ≡ false
unfolding changed find
none-changed now cs look [] m h = refl
none-changed now cs look ((key, ver) ∷ watched) (m, ms) h =
    let here = h key ver (rw (bytes_eq_refl key) refl) in
    let there =
      none-changed now cs look watched ms (λ q v f. h q v (later_find key q ver v watched m f)) in
    none_true.1 (here, there)

module _ (keys : Keyspace) (require_pass : Bytes)
    (commands : Bytes → Option (Command keys.World)) where
  -- The loop over the watched keys finds what one look at the keyspace finds, and keeps every live
  -- entry.
  check_watched_lem :
      (now later : ℤ) (f : Bytes → Option Entry) (watched : Assoc ℕ) (cs : ConnState)
      (w : keys.World)
      → SameLive later f (keys.view w cs.db)
      → let r = check_watched keys require_pass commands now later watched cs w in
        (r.0 ≡ changed now cs (λ q. live later (f q)) watched)
        × SameLive later f (keys.view r.1 cs.db)
  unfolding check_watched changed
  check_watched_lem now later f [] cs w h = (refl, h)
  check_watched_lem now later f ((key, ver) ∷ watched) cs w h =
      let found = keys.lookup-finds later cs.db key w ∙ h key in
      let w' = (keys.lookup later cs.db key w).1 in
      let h' : SameLive later f (keys.view w' cs.db) =
        λ q. lookup-SameLive keys require_pass commands later cs.db key w q ∙ h q in
      let (rest, same) = check_watched_lem now later f watched cs w' h' in
      elim (Bool-cases (changed_at now cs (λ q. live later (f q)) key ver)) [
        | inl e ↦ rw (found, e) (refl, h')
        | inr n ↦ rw (found, n) (rest, same)
      ]

  -- With what WATCH has recorded, a key passes the test exactly if it has not changed.
  unchanged_lem :
      (now later now' later' : ℤ) (f g : Bytes → Option Entry) (cs : ConnState) (q : Bytes)
      (ver : ℕ)
      → ((q : Bytes) → seen (find q cs.watched) ≡ true → Records (live later (f q)) now q cs)
      → now ≤ℤ later
      → now' ≤ℤ later'
      → pos 0 ≤ℤ later
      → pos 0 ≤ℤ later'
      → find q cs.watched ≡ some ver
      → changed_at now' cs (λ q. live later' (g q)) q ver
        ≡ differs (live later (f q)) (live later' (g q))
  unchanged_lem now later now' later' f g cs q ver rec h h' p p' found =
      let r = rec q (rw found refl) in
      let same : ver ≡ version_of (live later (f q)) = same_some (sym found ∙ r.version) in
      rw (r.expiry, r.stale, same) (key_changed-live now later now' later' (f q) (g q) h h' p p')

  abbrev pub is_null : List Reply → Bool
  is_null (null ∷ []) = true
  is_null _ = false

  -- The same connection when it comes to EXEC: a transaction has begun, and commands are queued.
  abbrev pub at_exec : List (List Bytes) → ConnState → ConnState
  at_exec queue cs = record cs { in_txn = true; queue = queue; dirty_txn = false }

  -- EXEC replies with null exactly if a watched key fails the test.
  null_if_changed :
      (now later : ℤ) (f : Bytes → Option Entry) (queue : List (List Bytes)) (cs : ConnState)
      (w : keys.World)
      → SameLive later f (keys.view w cs.db)
      → is_null (cmd_exec keys require_pass commands now later [] (at_exec queue cs) w).2
        ≡ changed now cs (λ q. live later (f q)) cs.watched
  unfolding cmd_exec changed
  null_if_changed now later f queue cs w h =
      let (found, same) = check_watched_lem now later f cs.watched (at_exec queue cs) w h in
      elim (Bool-cases (changed now cs (λ q. live later (f q)) cs.watched)) [
        | inl e ↦ rw (cmd_exec, found ∙ e, e) refl
        | inr n ↦ rw (cmd_exec, found ∙ n, n) refl
      ]

  -- A connection that watches nothing watches some keys and then has a transaction with queued
  -- lines and no error, while other connections change the keyspace from `w` to `w2`. The keys
  -- of WATCH are all watched, and EXEC replies something other than null exactly if no watched
  -- key has changed: it was there at both times with one version, or at neither. The clock is
  -- not negative, and does not go back while a command reads it twice.
  pub cmd_exec-watch :
      (now later now' later' : ℤ) (args : List Bytes) (queue : List (List Bytes)) (cs : ConnState)
      (w w2 : keys.World)
      → cs.watched ≡ []
      → now ≤ℤ later
      → now' ≤ℤ later'
      → pos 0 ≤ℤ later
      → pos 0 ≤ℤ later'
      → let cs' = (watch_loop keys require_pass commands now later args cs w).0 in
        let replies =
          (cmd_exec keys require_pass commands now' later' [] (at_exec queue cs') w2).2 in
        ((q : Bytes) → one_of q args ≡ true → seen (find q cs'.watched) ≡ true)
        × ((is_null replies ≡ false) ↔ (
            (q : Bytes)
            → seen (find q cs'.watched) ≡ true
            → differs (live later (keys.view w cs.db q)) (live later' (keys.view w2 cs.db q))
              ≡ false))
  unfolding find
  cmd_exec-watch now later now' later' args queue cs w w2 e h h' p p' =
      let f = keys.view w cs.db in
      let start : Watching keys require_pass commands now later f cs w = record {
        recorded = λ q s. absurd (let s' = rw e at s in cc);
        same = λ q. refl;
        is_map = rw e tt;
      } in
      let (watching, grows) =
        watch_loop-Watching keys require_pass commands now later f args cs w start in
      let cs' = (watch_loop keys require_pass commands now later args cs w).0 in
      let g = keys.view w2 cs.db in
      let aborts = null_if_changed now' later' g queue cs' w2 (λ q. rw grows.db refl) in
      let key_test = λ (q : Bytes) (ver : ℕ) (found : find q cs'.watched ≡ some ver).
        unchanged_lem now later now' later' f g cs' q ver watching.recorded h h' p p' found in
      (
        grows.covers,
        (
          λ kept q s. elim (Option-cases (find q cs'.watched)) [
            | inl n ↦ absurd (let s' = rw n at s in cc)
            | inr (ver, found) ↦
                sym (key_test q ver found)
                ∙ changed-none now' cs' (λ q. live later' (g q)) cs'.watched (sym aborts ∙ kept) q
                    ver found
          ],
          λ same.
              aborts
              ∙ none-changed now' cs' (λ q. live later' (g q)) cs'.watched watching.is_map
                  (λ q ver found. key_test q ver found ∙ same q (rw found refl)),
        ),
      )
