-- ===== src/Txn/Watch.antt =====
-- txn.go: what WATCH records, and when EXEC finds that a watched key has changed.
use pebbis.Prelude.{
  ℕ, ◌≡◌, refl, ap, ◌∙◌, arith, Bool, true, false, not, Option, none, some, List, [], ◌∷◌, ◌==◌,
  Bool-cases, inl, inr,
}
use mathlib.Core.Path.{sym}
use pebbis.Prelude.Int.{ℤ, pos, negsuc, ◌≤ℤ◌}
use pebbis.Prelude.Bytes.{Bytes, bytes_eq, bytes_eq_iff}
use pebbis.Prelude.Assoc.{find, put, bytes_eq_refl, find-put, IsMap, put-IsMap}
use pebbis.Memory.Entry.{Entry, expired}
use pebbis.Memory.Db.Removes.{live}
use pebbis.Keys.{one_of}
use pebbis.Txn.{Keyspace, Command, ConnState, key_changed, watch_entry, seen, past}
use pebbis.Txn.Exec.{watch_loop}

-- Two looks at one key: it was there at both with one version, or at neither.
abbrev pub differs : Option Entry → Option Entry → Bool
differs none none = false
differs none (some e) = true
differs (some o) none = true
differs (some o) (some e) = not (e.version == o.version)

abbrev pub version_of : Option Entry → ℕ
version_of none = 0
version_of (some e) = e.version

abbrev pub expire_of : Option Entry → ℤ
expire_of none = negsuc 0
expire_of (some e) = e.expire_at

abbrev pub past_of : ℤ → Option Entry → Bool
past_of now none = false
past_of now (some e) = past e.expire_at now

-- What WATCH records of a key, as it stands in the three maps.
pub record Records (old : Option Entry) (now : ℤ) (key : Bytes) (cs : ConnState) : Type 0 where
  pub version : find key cs.watched ≡ some (version_of old)
  pub expiry : find key cs.watched_expiry ≡ some (expire_of old)
  pub stale : find key cs.watched_stale ≡ some (past_of now old)

pub live-live : (now : ℤ) (o : Option Entry) → live now (live now o) ≡ live now o
live-live now none = refl
live-live now (some e) = elim (Bool-cases (expired e now)) [
  | inl h ↦ rw h refl
  | inr h ↦ rw (h, h) refl
]

-- A key that is live when it is watched is never stale, so the test compares versions.
pub key_changed-live :
    (now later now' later' : ℤ) (o e : Option Entry)
    → now ≤ℤ later
    → now' ≤ℤ later'
    → pos 0 ≤ℤ later
    → pos 0 ≤ℤ later'
    → key_changed now'
        (version_of (live later o))
        (expire_of (live later o))
        (past_of now (live later o))
        (live later' e)
      ≡ differs (live later o) (live later' e)
unfolding key_changed expired
key_changed-live now later now' later' none none h h' p p' = ground arith
key_changed-live now later now' later' none (some e) h h' p p' = ground arith
key_changed-live now later now' later' (some o) none h h' p p' = ground arith
key_changed-live now later now' later' (some o) (some e) h h' p p' = ground arith

-- The entries of two keyspaces at one time are the same.
abbrev pub SameLive : ℤ → (Bytes → Option Entry) → (Bytes → Option Entry) → Type 0
SameLive later f g = (q : Bytes) → live later (g q) ≡ live later (f q)

watch_entry_lem :
    (key : Bytes) (now : ℤ) (o : Option Entry) (cs : ConnState)
    → let cs' = watch_entry key now o cs in
      (cs'.watched ≡ put key (version_of o) cs.watched)
      × ((cs'.watched_expiry ≡ put key (expire_of o) cs.watched_expiry)
          × ((cs'.watched_stale ≡ put key (past_of now o) cs.watched_stale) × (cs'.db ≡ cs.db)))
watch_entry_lem key now none cs = (refl, (refl, (refl, refl)))
watch_entry_lem key now (some e) cs = (refl, (refl, (refl, refl)))

seen_after :
    (key : Bytes) (now : ℤ) (o : Option Entry) (cs : ConnState) (q : Bytes)
    → seen (find q cs.watched) ≡ true
    → seen (find q (watch_entry key now o cs).watched) ≡ true
seen_after key now o cs q e =
    rw ((watch_entry_lem key now o cs).0, find-put q key (version_of o) cs.watched)
      (ground (arith, e))

seen_key :
    (key : Bytes) (now : ℤ) (o : Option Entry) (cs : ConnState)
    → seen (find key (watch_entry key now o cs).watched) ≡ true
seen_key key now o cs =
    rw
      (
        (watch_entry_lem key now o cs).0,
        find-put key key (version_of o) cs.watched,
        bytes_eq_refl key,
      )
      refl

watch_entry-Records :
    (now : ℤ) (key q : Bytes) (old : Bytes → Option Entry) (cs : ConnState)
    → (seen (find q cs.watched) ≡ true → Records (old q) now q cs)
    → seen (find q (watch_entry key now (old key) cs).watched) ≡ true
    → Records (old q) now q (watch_entry key now (old key) cs)
watch_entry-Records now key q old cs h e =
    let (watched, (expiry, (stale, db))) = watch_entry_lem key now (old key) cs in
    let version_at = ap (find q) watched ∙ find-put q key (version_of (old key)) cs.watched in
    let expiry_at = ap (find q) expiry ∙ find-put q key (expire_of (old key)) cs.watched_expiry in
    let stale_at = ap (find q) stale ∙ find-put q key (past_of now (old key)) cs.watched_stale in
    elim (Bool-cases (bytes_eq key q)) [
      | inl b ↦
          let same : key ≡ q = (bytes_eq_iff key q).0 b in
          record {
            version = version_at ∙ rw (b, same) refl;
            expiry = expiry_at ∙ rw (b, same) refl;
            stale = stale_at ∙ rw (b, same) refl;
          }
      | inr n ↦
          let old_version = version_at ∙ rw n refl in
          let was = h (sym (ap seen old_version) ∙ e) in
          record {
            version = old_version ∙ was.version;
            expiry = expiry_at ∙ rw n was.expiry;
            stale = stale_at ∙ rw n was.stale;
          }
    ]

module _ (keys : Keyspace) (require_pass : Bytes)
    (commands : Bytes → Option (Command keys.World)) where
  pub lookup-SameLive :
      (later : ℤ) (db : ℕ) (key : Bytes) (w : keys.World)
      → SameLive later (keys.view w db) (keys.view (keys.lookup later db key w).1 db)
  lookup-SameLive later db key w q = elim (Bool-cases (bytes_eq key q)) [
    | inl e ↦
        let same : key ≡ q = (bytes_eq_iff key q).0 e in
        ap (live later) (keys.lookup-keeps later db key w db q)
        ∙ rw e (rw same (ground (arith, live-live later (keys.view w db q))))
    | inr n ↦ ap (live later) (keys.lookup-keeps later db key w db q) ∙ rw n (ground arith)
  ]

  -- The state while WATCH goes through its keys: what it has seen is recorded, and the keyspace has
  -- lost no live entry.
  pub record Watching (now later : ℤ) (f : Bytes → Option Entry) (cs : ConnState) (w : keys.World)
      : Type 0 where
    pub recorded :
        (q : Bytes) → seen (find q cs.watched) ≡ true → Records (live later (f q)) now q cs
    pub same : SameLive later f (keys.view w cs.db)
    pub is_map : IsMap cs.watched

  -- What the rest of the keys adds.
  pub record Grows (args : List Bytes) (cs cs' : ConnState) : Type 0 where
    pub kept : (q : Bytes) → seen (find q cs.watched) ≡ true → seen (find q cs'.watched) ≡ true
    pub covers : (q : Bytes) → one_of q args ≡ true → seen (find q cs'.watched) ≡ true
    pub db : cs'.db ≡ cs.db

  Grows-key :
      (key : Bytes) (args : List Bytes) (cs mid cs' : ConnState)
      → ((q : Bytes) → seen (find q cs.watched) ≡ true → seen (find q mid.watched) ≡ true)
      → seen (find key mid.watched) ≡ true
      → mid.db ≡ cs.db
      → Grows args mid cs'
      → Grows (key ∷ args) cs cs'
  Grows-key key args cs mid cs' h k d g = record {
    kept = λ q e. g.kept q (h q e);
    covers = λ q e. elim (Bool-cases (bytes_eq q key)) [
      | inl b ↦ let same : q ≡ key = (bytes_eq_iff q key).0 b in g.kept q (rw same k)
      | inr n ↦ g.covers q (ground (arith, e, n))
    ];
    db = g.db ∙ d;
  }

  watch_one-Watching :
      (now later : ℤ) (f : Bytes → Option Entry) (key : Bytes) (cs : ConnState) (w : keys.World)
      → Watching now later f cs w
      → let (found, w') = keys.lookup later cs.db key w in
        Watching now later f (watch_entry key now found cs) w'
  watch_one-Watching now later f key cs w h =
      let found = keys.lookup-finds later cs.db key w ∙ h.same key in
      let (watched, (expiry, (stale, db))) = watch_entry_lem key now (live later (f key)) cs in
      rw found (record {
        recorded = λ q e. watch_entry-Records now key q (λ q. live later (f q)) cs (h.recorded q) e;
        same = λ q. rw db (lookup-SameLive later cs.db key w q ∙ h.same q);
        is_map = rw watched (put-IsMap key (version_of (live later (f key))) cs.watched h.is_map);
      })

  pub watch_loop-Watching :
      (now later : ℤ) (f : Bytes → Option Entry) (args : List Bytes) (cs : ConnState)
      (w : keys.World)
      → Watching now later f cs w
      → let (cs', w') = watch_loop keys require_pass commands now later args cs w in
        Watching now later f cs' w' × Grows args cs cs'
  unfolding watch_loop
  watch_loop-Watching now later f [] cs w h =
      (h, record { kept = λ q e. e; covers = λ q e. absurd (cc); db = refl })
  watch_loop-Watching now later f (key ∷ args) cs w h =
      elim (Bool-cases (seen (find key cs.watched))) [
        | inl e ↦
            let (watching, grows) = watch_loop-Watching now later f args cs w h in
            rw e (watching, Grows-key key args cs cs _ (λ q e. e) e refl grows)
        | inr n ↦
            let (found, w') = keys.lookup later cs.db key w in
            let (watching, grows) =
              watch_loop-Watching now later f args (watch_entry key now found cs) w'
                (watch_one-Watching now later f key cs w h) in
            rw n (
              watching,
              Grows-key key args cs (watch_entry key now found cs) _ (seen_after key now found cs)
                  (seen_key key now found cs) (watch_entry_lem key now found cs).1.1.1 grows,
            )
      ]
