-- ===== src/Txn/Exec.antt =====
-- txn.go and `handle` of server.go: WATCH, EXEC and the dispatch of a line, over the keyspace and the
-- table of the other commands. The error of QUIT, which closes the connection, is one like others.
use pebbis.Prelude.{
  ℕ, suc, Bool, true, false, not, ◌&&◌, Option, none, some, List, [], ◌∷◌, ◌++◌, map, if◌then◌else◌,
  length,
}
use pebbis.Prelude.Int.{ℤ, pos, negsuc}
use pebbis.Prelude.Bytes.{Bytes, codes, bytes_eq}
use pebbis.Prelude.Assoc.{Assoc, find}
use pebbis.Prelude.Words.{to_upper}
use pebbis.Txn.{
  Keyspace, Fault, Reply, Command, ConnState, fits_arity, requires_auth, cmd_auth, cmd_multi,
  abort_txn, cmd_discard, cmd_unwatch, watch_entry, seen, expiry_of, stale_of, key_changed,
  is_control, wrong_args, unknown, without_multi, inside_multi, exec_abort, no_auth, oom, failed,
  ok, queued, null, array, raw, err,
}

module _ (keys : Keyspace) (require_pass : Bytes)
    (commands : Bytes → Option (Command keys.World)) where
  unfoldable pub watch_loop : ℤ → ℤ → List Bytes → ConnState → keys.World → ConnState × keys.World
  watch_loop now later [] cs w = (cs, w)
  watch_loop now later (key ∷ args) cs w =
      let (found, w') = keys.lookup later cs.db key w in
      let skip = watch_loop now later args cs w in
      let next = watch_loop now later args (watch_entry key now found cs) w' in
      if seen (find key cs.watched) then skip else next

  -- `now` is read before the lookups, which read the clock `later`.
  unfoldable pub cmd_watch :
      ℤ → ℤ → List Bytes → ConnState → keys.World → ConnState × keys.World × Reply
  cmd_watch now later args cs w =
      if not (fits_arity (length args) (negsuc 0))
      then (cs, w, err (wrong_args (codes "WATCH")))
      else if cs.in_txn
      then (cs, w, err inside_multi)
      else (let (cs', w') = watch_loop now later args cs w in (cs', w', ok))

  -- The loop over `watched`, until a key has changed.
  unfoldable pub check_watched : ℤ → ℤ → Assoc ℕ → ConnState → keys.World → Bool × keys.World
  check_watched now later [] cs w = (false, w)
  check_watched now later ((key, ver) ∷ watched) cs w =
      let (found, w') = keys.lookup later cs.db key w in
      let rest = check_watched now later watched cs w' in
      let we = expiry_of (find key cs.watched_expiry) in
      let stale_at_watch = stale_of (find key cs.watched_stale) in
      if key_changed now ver we stale_at_watch found then (true, w') else rest

  unfoldable pub validate_queued : Bytes → ℕ → Option Fault
  validate_queued name argc = elim (commands name) [
    | none ↦ some (unknown name)
    | some cmd ↦ if fits_arity argc cmd.arity then none else some (wrong_args name)
  ]

  abbrev pub error_replies : Option Bytes → List Reply
  error_replies none = []
  error_replies (some e) = err (failed e) ∷ []

  -- A command of the table inside EXEC. Only SELECT moves the database.
  abbrev pub run_table :
      Bytes
      → Command keys.World
      → List Bytes
      → ℕ
      → ConnState
      → keys.World
      → ConnState × keys.World × ℕ × List Reply
  run_table name cmd args db cs w =
      let done = cmd.fn db args w in
      let db' = if bytes_eq name (codes "SELECT") then done.db else db in
      (cs, done.world, db', map raw done.out ++ error_replies done.error)

  -- One line of the queue. AUTH and UNWATCH, which are queued like any command, write the state of
  -- the connection.
  unfoldable pub run_line :
      List Bytes → ℕ → ConnState → keys.World → ConnState × keys.World × ℕ × List Reply
  run_line [] db cs w = (cs, w, db, [])
  run_line (name ∷ args) db cs w =
      let upper_name = to_upper name in
      elim (commands upper_name) [
        | none ↦ (cs, w, db, err (unknown name) ∷ [])
        | some cmd ↦
            if cmd.write && keys.memory_full w
            then (cs, w, db, err (oom upper_name) ∷ [])
            else if bytes_eq upper_name (codes "AUTH")
            then (let (cs', r) = cmd_auth require_pass args cs in (cs', w, db, r ∷ []))
            else if bytes_eq upper_name (codes "UNWATCH")
            then (let (cs', r) = cmd_unwatch args cs in (cs', w, db, r ∷ []))
            else run_table upper_name cmd args db cs w
      ]

  unfoldable pub run_queue :
      List (List Bytes) → ℕ → ConnState → keys.World → ConnState × keys.World × ℕ × List Reply
  run_queue [] db cs w = (cs, w, db, [])
  run_queue (line ∷ queue) db cs w =
      let (cs, w, db, replies) = run_line line db cs w in
      let (cs, w, db, more) = run_queue queue db cs w in (cs, w, db, replies ++ more)

  abbrev pub run_txn : ConnState → keys.World → ConnState × keys.World × List Reply
  run_txn cs w =
      let queue = cs.queue in
      let cs = record cs { in_txn = false; queue = []; watched = []; dirty_txn = false } in
      let (cs, w, db, replies) = run_queue queue cs.db cs w in
      (record cs { db = db }, w, array (length queue) ∷ replies)

  unfoldable pub cmd_exec :
      ℤ → ℤ → List Bytes → ConnState → keys.World → ConnState × keys.World × List Reply
  cmd_exec now later args cs w =
      if not (fits_arity (length args) (pos 0))
      then (cs, w, err (wrong_args (codes "EXEC")) ∷ [])
      else if not cs.in_txn
      then (cs, w, err without_multi ∷ [])
      else (let (abort, w) = check_watched now later cs.watched cs w in
          if abort
          then (abort_txn cs, w, null ∷ [])
          else if cs.dirty_txn
          then (abort_txn cs, w, err exec_abort ∷ [])
          else run_txn cs w)

  -- A command that is run at once; `db` is kept after a success.
  unfoldable pub run_now :
      ℤ
      → ℤ
      → Bytes
      → Command keys.World
      → List Bytes
      → ConnState
      → keys.World
      → ConnState × keys.World × List Reply
  run_now now later name cmd args cs w =
      if bytes_eq name (codes "AUTH")
      then (let (cs, r) = cmd_auth require_pass args cs in (cs, w, r ∷ []))
      else if bytes_eq name (codes "MULTI")
      then (let (cs, r) = cmd_multi args cs in (cs, w, r ∷ []))
      else if bytes_eq name (codes "DISCARD")
      then (let (cs, r) = cmd_discard args cs in (cs, w, r ∷ []))
      else if bytes_eq name (codes "UNWATCH")
      then (let (cs, r) = cmd_unwatch args cs in (cs, w, r ∷ []))
      else if bytes_eq name (codes "WATCH")
      then (let (cs, w, r) = cmd_watch now later args cs w in (cs, w, r ∷ []))
      else if bytes_eq name (codes "EXEC")
      then cmd_exec now later args cs w
      else (let done = cmd.fn cs.db args w in
          elim done.error [
            | none ↦ (record cs { db = done.db }, done.world, map raw done.out)
            | some e ↦ (cs, done.world, map raw done.out ++ err (failed e) ∷ [])
          ])

  unfoldable pub handle :
      ℤ → ℤ → List Bytes → ConnState → keys.World → ConnState × keys.World × List Reply
  handle now later [] cs w = (cs, w, [])
  handle now later (name ∷ args) cs w =
      let upper_name = to_upper name in
      elim (commands upper_name) [
        | none ↦
            (if cs.in_txn then record cs { dirty_txn = true } else cs, w, err (unknown name) ∷ [])
        | some cmd ↦
            if not cs.authed
              && requires_auth require_pass
              && not (bytes_eq upper_name (codes "AUTH"))
            then (cs, w, err no_auth ∷ [])
            else if cs.in_txn && not (is_control upper_name)
            then elim (validate_queued upper_name (suc (length args))) [
              | some fault ↦ (record cs { dirty_txn = true }, w, err fault ∷ [])
              | none ↦ (record cs { queue = cs.queue ++ (name ∷ args) ∷ [] }, w, queued ∷ [])
            ]
            else if cmd.write && keys.memory_full w
            then (cs, w, err (oom upper_name) ∷ [])
            else run_now now later upper_name cmd args cs w
      ]
