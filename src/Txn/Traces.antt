-- ===== src/Txn/Traces.antt =====
-- server.go and txn.go: sequences of commands of one connection, and what the other connections do
-- in between.
use pebbis.Prelude.{
  ℕ, not, ◌≡◌, refl, ap, ◌∙◌, arith, Bool, true, false, ◌&&◌, Option, none, some, List, [], ◌∷◌,
  ◌++◌, length, append_assoc, append-nil, Option-cases, inl, inr, ◌⊎◌,
}
use mathlib.Core.Path.{sym}
use pebbis.Prelude.Int.{ℤ}
use pebbis.Prelude.Bytes.{Bytes, codes, bytes_eq, bytes_eq_iff}
use pebbis.Prelude.Words.{to_upper}
use pebbis.Txn.{
  Keyspace, Command, ConnState, Reply, array, requires_auth, check_password, cmd_auth, cmd_multi,
  is_control,
}
use pebbis.Txn.Exec.{cmd_exec, check_watched, validate_queued, run_queue, run_txn, run_now, handle}
use pebbis.Txn.States.{IsConn, IsConn-idle, all_lines, is_line, run_queue-SameTxn}
use pebbis.Txn.Runs.{Runs, run_queue-Runs}
use pebbis.Txn.Reach.{handle-IsConn}

-- `connState` of a connection that was just accepted.
abbrev pub fresh : Bytes → ConnState
fresh require_pass = record {
  db = 0;
  authed = not (requires_auth require_pass);
  in_txn = false;
  queue = [];
  watched = [];
  watched_expiry = [];
  watched_stale = [];
  dirty_txn = false;
}

both_true : {a b : Bool} → a && b ≡ true → (a ≡ true) × (b ≡ true)
both_true {a = a} {b = b} e = ground arith

-- The last argument of AUTH, in front of which a user may stand.
abbrev pub password_of : List Bytes → Bytes
password_of [] = []
password_of (pass ∷ []) = pass
password_of (user ∷ pass ∷ args) = pass

module _ (keys : Keyspace) (require_pass : Bytes)
    (commands : Bytes → Option (Command keys.World)) where
  -- Any command of the connection, or anything that others do to the keyspace.
  pub data Step : ConnState × keys.World → ConnState × keys.World → Type 0 where
    command :
        (now later : ℤ) (line : List Bytes) (cs cs' : ConnState) (w w' : keys.World)
        (replies : List Reply)
        → handle keys require_pass commands now later line cs w ≡ (cs', w', replies)
        → Step (cs, w) (cs', w')
    others : (cs : ConnState) (w w' : keys.World) → Step (cs, w) (cs, w')

  pub data Reach : ConnState × keys.World → Type 0 where
    began : (w : keys.World) → Reach (fresh require_pass, w)
    after : {s t : ConnState × keys.World} → Reach s → Step s t → Reach t

  -- Whatever commands a connection sends and whatever others do to the keyspace, from its start
  -- on, where it is authenticated exactly if no password is set: outside a transaction nothing
  -- is queued and no error is kept, and every queued line is a command of the table, with
  -- arguments that fit its arity, that does not control a transaction.
  pub Reach-IsConn : {s : ConnState × keys.World} → Reach s → IsConn keys require_pass commands s.0
  Reach-IsConn (began w) = IsConn-idle keys require_pass commands (fresh require_pass) refl refl
  Reach-IsConn (after r (command now l line cs cs' w w' replies e)) =
      rw (sym (ap (λ t. t.0) e))
        (handle-IsConn keys require_pass commands now l line cs w (Reach-IsConn r))
  Reach-IsConn (after r (others cs w w')) = Reach-IsConn r

  auth_password :
      (args : List Bytes) (cs : ConnState)
      → cs.authed ≡ false
      → (cmd_auth require_pass args cs).0.authed ≡ true
      → password_of args ≡ require_pass
  unfolding cmd_auth check_password
  auth_password [] cs h e = absurd (cc)
  auth_password (pass ∷ []) cs h e = ground (arith, bytes_eq_iff require_pass pass)
  auth_password (user ∷ pass ∷ []) cs h e = ground (arith, bytes_eq_iff require_pass pass)
  auth_password (a ∷ b ∷ c ∷ args) cs h e = absurd (cc)

  pub record Guarded (name : Bytes) (args : List Bytes) (w w' : keys.World) (cs' : ConnState)
      : Type 0 where
    pub untouched : w' ≡ w
    pub password :
        cs'.authed ≡ true → (to_upper name ≡ codes "AUTH") × (password_of args ≡ require_pass)

  guarded_known :
      (now later : ℤ) (name : Bytes) (args : List Bytes) (cmd : Command keys.World) (cs : ConnState)
      (w : keys.World)
      → cs.authed ≡ false
      → requires_auth require_pass ≡ true
      → commands (to_upper name) ≡ some cmd
      → let (cs', w', replies) = handle keys require_pass commands now later (name ∷ args) cs w in
        (w' ≡ w)
        × ((cs'.authed ≡ false)
            ⊎ ((bytes_eq (to_upper name) (codes "AUTH") ≡ true)
                × (cs'.authed ≡ (cmd_auth require_pass args cs).0.authed)))
  unfolding handle run_now
  guarded_known now later name args cmd cs w h r e = ground (arith, h, r, e)

  guarded_unknown :
      (now later : ℤ) (name : Bytes) (args : List Bytes) (cs : ConnState) (w : keys.World)
      → cs.authed ≡ false
      → commands (to_upper name) ≡ none
      → let (cs', w', replies) = handle keys require_pass commands now later (name ∷ args) cs w in
        (w' ≡ w) × (cs'.authed ≡ false)
  unfolding handle
  guarded_unknown now later name args cs w h e = ground (arith, h, e)

  -- While a password is set and the connection has not given it, no command changes the keyspace, and
  -- only AUTH with that password authenticates.
  pub handle-Guarded :
      (now later : ℤ) (name : Bytes) (args : List Bytes) (cs : ConnState) (w : keys.World)
      → cs.authed ≡ false
      → requires_auth require_pass ≡ true
      → let (cs', w', replies) = handle keys require_pass commands now later (name ∷ args) cs w in
        Guarded name args w w' cs'
  handle-Guarded now later name args cs w h r = elim (Option-cases (commands (to_upper name))) [
    | inl e ↦
        let (same, still) = guarded_unknown now later name args cs w h e in
        record { untouched = same; password = λ a. absurd (cc) }
    | inr (cmd, e) ↦
        let (same, how) = guarded_known now later name args cmd cs w h r e in
        record {
          untouched = same;
          password = λ a. elim how [
            | inl still ↦ absurd (cc)
            | inr (auth, given) ↦ (
              (bytes_eq_iff (to_upper name) (codes "AUTH")).0 auth,
              auth_password args cs h (sym given ∙ a),
            )
          ];
        }
  ]

  -- What a sequence of commands leaves.
  pub handle_all : ℤ → ℤ → List (List Bytes) → ConnState → keys.World → ConnState × keys.World
  handle_all now later [] cs w = (cs, w)
  handle_all now later (line ∷ lines) cs w =
      let (cs, w, replies) = handle keys require_pass commands now later line cs w in
      handle_all now later lines cs w

  queue_one :
      (now later : ℤ) (line : List Bytes) (cs : ConnState) (w : keys.World)
      → cs.in_txn ≡ true
      → cs.authed ≡ true
      → is_line keys require_pass commands line ≡ true
      → let (cs', w', replies) = handle keys require_pass commands now later line cs w in
        (cs' ≡ record cs { queue = cs.queue ++ line ∷ [] }) × (w' ≡ w)
  unfolding handle validate_queued
  queue_one now later [] cs w h a v = absurd (cc)
  queue_one now later (name ∷ args) cs w h a v = elim (Option-cases (commands (to_upper name))) [
    | inl e ↦ absurd (ground (arith, e, v))
    | inr (cmd, e) ↦ ground (arith, e, v, h, a)
  ]

  queue_all :
      (now later : ℤ) (lines : List (List Bytes)) (cs : ConnState) (w : keys.World)
      → cs.in_txn ≡ true
      → cs.authed ≡ true
      → all_lines keys require_pass commands lines ≡ true
      → handle_all now later lines cs w ≡ (record cs { queue = cs.queue ++ lines }, w)
  unfolding handle_all
  queue_all now later [] cs w h a v = rw append-nil refl
  queue_all now later (line ∷ lines) cs w h a v =
      let (one, rest) = both_true v in
      let (queued, same) = queue_one now later line cs w h a one in
      rw (queued, same)
        (queue_all now later lines (record cs { queue = cs.queue ++ line ∷ [] }) w h a rest
          ∙ ap (λ q. (record cs { queue = q }, w)) (append_assoc cs.queue (line ∷ []) lines))

  abbrev pub opened : List (List Bytes) → ConnState → ConnState
  opened queue cs = record cs { in_txn = true; queue = queue; dirty_txn = false }

  abbrev pub closed : ConnState → ConnState
  closed cs = record cs { in_txn = false; queue = []; watched = []; dirty_txn = false }

  multi_one :
      (now later : ℤ) (multi : Command keys.World) (cs : ConnState) (w : keys.World)
      → commands (codes "MULTI") ≡ some multi
      → multi.write ≡ false
      → cs.in_txn ≡ false
      → cs.authed ≡ true
      → let (cs', w', replies) =
          handle keys require_pass commands now later (codes "MULTI" ∷ []) cs w in
        (cs' ≡ opened [] cs) × (w' ≡ w)
  unfolding handle run_now cmd_multi bytes_eq is_control to_upper
  multi_one now later multi cs w e r h a = ground (arith, e, r, h, a)

  multi_all :
      (now later : ℤ) (multi : Command keys.World) (lines : List (List Bytes)) (cs : ConnState)
      (w : keys.World)
      → commands (codes "MULTI") ≡ some multi
      → multi.write ≡ false
      → cs.in_txn ≡ false
      → cs.authed ≡ true
      → all_lines keys require_pass commands lines ≡ true
      → handle_all now later ((codes "MULTI" ∷ []) ∷ lines) cs w ≡ (opened lines cs, w)
  unfolding handle_all
  multi_all now later multi lines cs w e r h a v =
      let (began_txn, same) = multi_one now later multi cs w e r h a in
      rw (began_txn, same) (queue_all now later lines (opened [] cs) w refl a v)

  exec_one :
      (now later : ℤ) (exec : Command keys.World) (lines : List (List Bytes)) (cs : ConnState)
      (w : keys.World)
      → commands (codes "EXEC") ≡ some exec
      → exec.write ≡ false
      → cs.authed ≡ true
      → cs.watched ≡ []
      → handle keys require_pass commands now later (codes "EXEC" ∷ []) (opened lines cs) w
        ≡ run_txn keys require_pass commands (opened lines cs) w
  unfolding handle run_now cmd_exec check_watched bytes_eq is_control to_upper
  exec_one now later exec lines cs w e r a n = ground (arith, e, r, a, n)

  -- With MULTI and EXEC in the table, neither a write, and from an authenticated connection
  -- outside a transaction that watches no key: MULTI, any lines that can be queued, and EXEC run
  -- all the lines, once and in their order, from the keyspace before MULTI on, each line on what
  -- the one before it left. The reply is their number and then their replies; the transaction is
  -- over, and the connection is in the database that the lines end in.
  pub multi_exec-Runs :
      (now later : ℤ) (multi exec : Command keys.World) (lines : List (List Bytes)) (cs : ConnState)
      (w : keys.World)
      → commands (codes "MULTI") ≡ some multi
      → multi.write ≡ false
      → commands (codes "EXEC") ≡ some exec
      → exec.write ≡ false
      → cs.in_txn ≡ false
      → cs.authed ≡ true
      → cs.watched ≡ []
      → all_lines keys require_pass commands lines ≡ true
      → let (cs1, w1) = handle_all now later ((codes "MULTI" ∷ []) ∷ lines) cs w in
        let (cs2, w2, replies) =
          handle keys require_pass commands now later (codes "EXEC" ∷ []) cs1 w1 in
        (cs3 : ConnState) × (db : ℕ) × (ran : List Reply) × Runs keys require_pass commands lines
          (closed cs)
          w
          cs.db
          cs3
          w2
          db
          ran
        × (replies ≡ array (length lines) ∷ ran)
        × (cs2 ≡ record cs3 { db = db })
        × (cs2.in_txn ≡ false)
  multi_exec-Runs now later multi exec lines cs w em rm ee re h a n v =
      let queued = multi_all now later multi lines cs w em rm h a v in
      let ran = exec_one now later exec lines cs w ee re a n in
      let shape = run_queue-SameTxn keys require_pass commands lines cs.db (closed cs) w in
      let r = run_queue keys require_pass commands lines cs.db (closed cs) w in
      rw (queued, ran)
        (
          r.0,
          r.2,
          r.3,
          run_queue-Runs keys require_pass commands lines cs.db (closed cs) w v,
          refl,
          refl,
          shape.in_txn,
        )
