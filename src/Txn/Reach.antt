-- ===== src/Txn/Reach.antt =====
-- server.go: what one command does to the state of its connection, and the states that any commands
-- lead to.
use pebbis.Prelude.{
  ◌≡◌, refl, arith, true, false, Option, none, some, List, [], ◌∷◌, ◌++◌, Option-cases, inl, inr,
  ◌⊎◌,
}
use pebbis.Prelude.Int.{ℤ}
use pebbis.Prelude.Bytes.{Bytes}
use pebbis.Prelude.Words.{to_upper}
use pebbis.Txn.{
  Keyspace, Command, Done, ConnState, cmd_auth, cmd_multi, cmd_discard, cmd_unwatch, abort_txn,
}
use pebbis.Txn.Exec.{cmd_watch, cmd_exec, watch_loop, check_watched, run_txn, run_now, handle}
use pebbis.Txn.States.{
  SameTxn, cmd_auth-SameTxn, cmd_unwatch-SameTxn, SameTxn-IsConn, IsConn, IsConn-idle,
  watch_loop-SameTxn, run_queue-SameTxn, all_lines, is_line,
}

module _ (keys : Keyspace) (require_pass : Bytes)
    (commands : Bytes → Option (Command keys.World)) where
  abbrev Conn : ConnState → Type 0
  Conn cs = IsConn keys require_pass commands cs

  Conn-same : (cs cs' : ConnState) → cs' ≡ cs → Conn cs → Conn cs'
  Conn-same cs cs' e c = rw e c

  abort_txn-IsConn : (cs cs' : ConnState) → cs' ≡ abort_txn cs → Conn cs'
  unfolding abort_txn
  abort_txn-IsConn cs cs' e = rw e (IsConn-idle keys require_pass commands _ refl refl)

  multi_cases :
      (args : List Bytes) (cs : ConnState)
      → ((cmd_multi args cs).0 ≡ cs)
        ⊎ ((cmd_multi args cs).0 ≡ record cs { in_txn = true; queue = []; dirty_txn = false })
  unfolding cmd_multi
  multi_cases args cs = ground arith

  cmd_multi-IsConn : (args : List Bytes) (cs : ConnState) → Conn cs → Conn (cmd_multi args cs).0
  cmd_multi-IsConn args cs c = elim (multi_cases args cs) [
    | inl e ↦ Conn-same cs _ e c
    | inr e ↦ rw e (IsConn-idle keys require_pass commands _ refl refl)
  ]

  discard_cases :
      (args : List Bytes) (cs : ConnState)
      → ((cmd_discard args cs).0 ≡ cs) ⊎ ((cmd_discard args cs).0 ≡ abort_txn cs)
  unfolding cmd_discard
  discard_cases args cs = ground arith

  cmd_discard-IsConn : (args : List Bytes) (cs : ConnState) → Conn cs → Conn (cmd_discard args cs).0
  cmd_discard-IsConn args cs c = elim (discard_cases args cs) [
    | inl e ↦ Conn-same cs _ e c
    | inr e ↦ abort_txn-IsConn cs _ e
  ]

  watch_cases :
      (now later : ℤ) (args : List Bytes) (cs : ConnState) (w : keys.World)
      → let cs' = (cmd_watch keys require_pass commands now later args cs w).0 in
        (cs' ≡ cs) ⊎ (cs' ≡ (watch_loop keys require_pass commands now later args cs w).0)
  unfolding cmd_watch
  watch_cases now later args cs w = ground arith

  exec_cases :
      (now later : ℤ) (args : List Bytes) (cs : ConnState) (w : keys.World)
      → let cs' = (cmd_exec keys require_pass commands now later args cs w).0 in
        let w' = (check_watched keys require_pass commands now later cs.watched cs w).1 in
        (cs' ≡ cs) ⊎ ((cs' ≡ abort_txn cs) ⊎ (cs' ≡ (run_txn keys require_pass commands cs w').0))
  unfolding cmd_exec
  exec_cases now later args cs w = ground arith

  watch-IsConn :
      (now later : ℤ) (args : List Bytes) (cs : ConnState) (w : keys.World)
      → Conn cs
      → Conn (cmd_watch keys require_pass commands now later args cs w).0
  watch-IsConn now later args cs w c = elim (watch_cases now later args cs w) [
    | inl e ↦ Conn-same cs _ e c
    | inr e ↦ rw e (
        SameTxn-IsConn keys require_pass commands cs _
          (watch_loop-SameTxn keys require_pass commands now later args cs w) c)
  ]

  exec-IsConn :
      (now later : ℤ) (args : List Bytes) (cs : ConnState) (w : keys.World)
      → Conn cs
      → Conn (cmd_exec keys require_pass commands now later args cs w).0
  exec-IsConn now later args cs w c = elim (exec_cases now later args cs w) [
    | inl e ↦ Conn-same cs _ e c
    | inr (inl e) ↦ abort_txn-IsConn cs _ e
    | inr (inr e) ↦
        let w' = (check_watched keys require_pass commands now later cs.watched cs w).1 in
        let start = record cs { in_txn = false; queue = []; watched = []; dirty_txn = false } in
        let same = run_queue-SameTxn keys require_pass commands cs.queue cs.db start w' in
        rw e (IsConn-idle keys require_pass commands _ same.queue same.dirty)
  ]

  run_table_state : ConnState → Done keys.World → ConnState
  run_table_state cs done = elim done.error [ none ↦ record cs { db = done.db } | some e ↦ cs ]

  table-SameTxn : (cs : ConnState) (done : Done keys.World) → SameTxn cs (run_table_state cs done)
  unfolding run_table_state
  table-SameTxn cs done = record {
    in_txn = ground arith;
    queue = ground arith;
    dirty = ground arith;
  }

  -- The command that a dispatch runs at once.
  now_cases :
      (now later : ℤ) (name : Bytes) (cmd : Command keys.World) (args : List Bytes) (cs : ConnState)
      (w : keys.World)
      → let cs' = (run_now keys require_pass commands now later name cmd args cs w).0 in
        (cs' ≡ (cmd_auth require_pass args cs).0)
        ⊎ ((cs' ≡ (cmd_multi args cs).0)
            ⊎ ((cs' ≡ (cmd_discard args cs).0)
                ⊎ ((cs' ≡ (cmd_unwatch args cs).0)
                    ⊎ ((cs' ≡ (cmd_watch keys require_pass commands now later args cs w).0)
                        ⊎ ((cs' ≡ (cmd_exec keys require_pass commands now later args cs w).0)
                            ⊎ (cs' ≡ run_table_state cs (cmd.fn cs.db args w)))))))
  unfolding run_table_state run_now
  now_cases now later name cmd args cs w = ground arith

  run_now-IsConn :
      (now later : ℤ) (name : Bytes) (cmd : Command keys.World) (args : List Bytes) (cs : ConnState)
      (w : keys.World)
      → Conn cs
      → Conn (run_now keys require_pass commands now later name cmd args cs w).0
  run_now-IsConn now later name cmd args cs w c =
      let via = SameTxn-IsConn keys require_pass commands cs in
      elim (now_cases now later name cmd args cs w) [
        | inl e ↦ rw e (via _ (cmd_auth-SameTxn require_pass args cs) c)
        | inr (inl e) ↦ rw e (cmd_multi-IsConn args cs c)
        | inr (inr (inl e)) ↦ rw e (cmd_discard-IsConn args cs c)
        | inr (inr (inr (inl e))) ↦ rw e (via _ (cmd_unwatch-SameTxn args cs) c)
        | inr (inr (inr (inr (inl e)))) ↦ rw e (watch-IsConn now later args cs w c)
        | inr (inr (inr (inr (inr (inl e))))) ↦ rw e (exec-IsConn now later args cs w c)
        | inr (inr (inr (inr (inr (inr e))))) ↦
            rw e (via _ (table-SameTxn cs (cmd.fn cs.db args w)) c)
      ]

  abbrev line_queued : ConnState → List Bytes → ConnState
  line_queued cs line = record cs { queue = cs.queue ++ line ∷ [] }

  abbrev Handled : Bytes → List Bytes → ConnState → ConnState → ConnState → Type 0
  Handled name args cs ran cs' =
      (cs' ≡ cs)
      ⊎ (((cs' ≡ record cs { dirty_txn = true }) × (cs.in_txn ≡ true))
          ⊎ (((cs' ≡ line_queued cs (name ∷ args))
                × ((cs.in_txn ≡ true) × (is_line keys require_pass commands (name ∷ args) ≡ true)))
              ⊎ (cs' ≡ ran)))

  handle_known :
      (now later : ℤ) (name : Bytes) (args : List Bytes) (cmd : Command keys.World) (cs : ConnState)
      (w : keys.World)
      → commands (to_upper name) ≡ some cmd
      → Handled name args cs
          (run_now keys require_pass commands now later (to_upper name) cmd args cs w).0
          (handle keys require_pass commands now later (name ∷ args) cs w).0
  unfolding handle
  handle_known now later name args cmd cs w e = ground (arith, e)

  handle_unknown :
      (now later : ℤ) (name : Bytes) (args : List Bytes) (cs : ConnState) (w : keys.World)
      → commands (to_upper name) ≡ none
      → Handled name args cs cs (handle keys require_pass commands now later (name ∷ args) cs w).0
  unfolding handle
  handle_unknown now later name args cs w e = ground (arith, e)

  all_lines-append :
      (queue : List (List Bytes)) (line : List Bytes)
      → all_lines keys require_pass commands queue ≡ true
      → is_line keys require_pass commands line ≡ true
      → all_lines keys require_pass commands (queue ++ line ∷ []) ≡ true
  all_lines-append [] line h k = rw k refl
  all_lines-append (first ∷ queue) line h k = ground (arith, all_lines-append queue line)

  Handled-IsConn :
      (name : Bytes) (args : List Bytes) (cs ran cs' : ConnState)
      → Conn cs
      → Conn ran
      → Handled name args cs ran cs'
      → Conn cs'
  Handled-IsConn name args cs ran cs' c r (inl e) = Conn-same cs _ e c
  Handled-IsConn name args cs ran cs' c r (inr (inl (e, busy))) =
      rw e (record { lines = c.lines; idle = λ n. absurd (cc) })
  Handled-IsConn name args cs ran cs' c r (inr (inr (inl (e, (busy, line))))) = rw e (record {
    lines = all_lines-append cs.queue (name ∷ args) c.lines line;
    idle = λ n. absurd (cc);
  })
  Handled-IsConn name args cs ran cs' c r (inr (inr (inr e))) = rw e r

  -- Every command keeps the state of its connection in shape: outside a transaction nothing is
  -- queued and no error is kept, and every queued line is a known command whose arguments fit its
  -- arity and which does not control the transaction.
  pub handle-IsConn :
      (now later : ℤ) (line : List Bytes) (cs : ConnState) (w : keys.World)
      → IsConn keys require_pass commands cs
      → IsConn keys require_pass commands (handle keys require_pass commands now later line cs w).0
  unfolding handle
  handle-IsConn now later [] cs w c = c
  handle-IsConn now later (name ∷ args) cs w c = elim (Option-cases (commands (to_upper name))) [
    | inl e ↦ Handled-IsConn name args cs cs _ c c (handle_unknown now later name args cs w e)
    | inr (cmd, e) ↦
        Handled-IsConn name args cs _ _ c (run_now-IsConn now later (to_upper name) cmd args cs w c)
          (handle_known now later name args cmd cs w e)
  ]
