-- ===== src/Txn/Runs.antt =====
-- txn.go: what the loop of EXEC over the queue runs, as a relation.
use pebbis.Prelude.{
  ℕ, ◌≡◌, arith, Bool, true, false, ◌&&◌, Option, some, List, [], ◌∷◌, ◌++◌, map, if◌then◌else◌,
  Bool-cases, Option-cases, inl, inr,
}
use pebbis.Prelude.Bytes.{Bytes, codes, bytes_eq, bytes_eq_iff}
use pebbis.Prelude.Words.{to_upper}
use pebbis.Txn.{Keyspace, Command, ConnState, Reply, raw, err, oom, cmd_auth, cmd_unwatch}
use pebbis.Txn.Exec.{validate_queued, error_replies, run_line, run_queue}
use pebbis.Txn.States.{all_lines, is_line}

both : {a b : Bool} → a && b ≡ true → (a ≡ true) × (b ≡ true)
both {a = a} {b = b} e = ground arith

module _ (keys : Keyspace) (require_pass : Bytes)
    (commands : Bytes → Option (Command keys.World)) where
  -- One line: a write that finds the memory full is refused, AUTH and UNWATCH change the connection,
  -- and any other command of the table changes the keyspace; only SELECT changes the database.
  pub data RunsLine
      : List Bytes
        → ConnState
        → keys.World
        → ℕ
        → ConnState
        → keys.World
        → ℕ
        → List Reply
        → Type 0 where
    too_full :
        {name : Bytes} {args : List Bytes} {cs : ConnState} {w : keys.World} {db : ℕ}
        {cmd : Command keys.World}
        → commands (to_upper name) ≡ some cmd
        → cmd.write && keys.memory_full w ≡ true
        → RunsLine (name ∷ args) cs w db cs w db (err (oom (to_upper name)) ∷ [])
    authenticates :
        {name : Bytes} {args : List Bytes} {cs : ConnState} {w : keys.World} {db : ℕ}
        {cmd : Command keys.World}
        → commands (to_upper name) ≡ some cmd
        → cmd.write && keys.memory_full w ≡ false
        → to_upper name ≡ codes "AUTH"
        → RunsLine
            (name ∷ args)
            cs
            w
            db
            (cmd_auth require_pass args cs).0
            w
            db
            ((cmd_auth require_pass args cs).1 ∷ [])
    unwatches :
        {name : Bytes} {args : List Bytes} {cs : ConnState} {w : keys.World} {db : ℕ}
        {cmd : Command keys.World}
        → commands (to_upper name) ≡ some cmd
        → cmd.write && keys.memory_full w ≡ false
        → to_upper name ≡ codes "UNWATCH"
        → RunsLine (name ∷ args) cs w db (cmd_unwatch args cs).0 w db ((cmd_unwatch args cs).1 ∷ [])
    calls :
        {name : Bytes} {args : List Bytes} {cs : ConnState} {w : keys.World} {db : ℕ}
        {cmd : Command keys.World}
        → commands (to_upper name) ≡ some cmd
        → cmd.write && keys.memory_full w ≡ false
        → bytes_eq (to_upper name) (codes "AUTH") ≡ false
        → bytes_eq (to_upper name) (codes "UNWATCH") ≡ false
        → RunsLine
            (name ∷ args)
            cs
            w
            db
            cs
            (cmd.fn db args w).world
            (if bytes_eq (to_upper name) (codes "SELECT") then (cmd.fn db args w).db else db)
            (map raw (cmd.fn db args w).out
              ++ error_replies keys require_pass commands (cmd.fn db args w).error)

  -- The lines are run one after the other, each from the connection, the keyspace and the database that
  -- the one before it left.
  pub data Runs
      : List (List Bytes)
        → ConnState
        → keys.World
        → ℕ
        → ConnState
        → keys.World
        → ℕ
        → List Reply
        → Type 0 where
    no_line : {cs : ConnState} {w : keys.World} {db : ℕ} → Runs [] cs w db cs w db []
    one_line :
        {line : List Bytes} {lines : List (List Bytes)} {cs cs1 cs2 : ConnState}
        {w w1 w2 : keys.World} {db db1 db2 : ℕ} {replies more : List Reply}
        → RunsLine line cs w db cs1 w1 db1 replies
        → Runs lines cs1 w1 db1 cs2 w2 db2 more
        → Runs (line ∷ lines) cs w db cs2 w2 db2 (replies ++ more)

  run_line-RunsLine :
      (line : List Bytes) (db : ℕ) (cs : ConnState) (w : keys.World)
      → is_line keys require_pass commands line ≡ true
      → let (cs', w', db', replies) = run_line keys require_pass commands line db cs w in
        RunsLine line cs w db cs' w' db' replies
  unfolding run_line validate_queued
  run_line-RunsLine [] db cs w v = absurd (cc)
  run_line-RunsLine (name ∷ args) db cs w v = elim (Option-cases (commands (to_upper name))) [
    | inl e ↦ absurd (ground (arith, e, v))
    | inr (cmd, e) ↦ elim (Bool-cases (cmd.write && keys.memory_full w)) [
      | inl m ↦ rw (run_line, e, m) (too_full e m)
      | inr m ↦ elim (Bool-cases (bytes_eq (to_upper name) (codes "AUTH"))) [
        | inl a ↦
            rw (run_line, e, m, a)
              (authenticates e m ((bytes_eq_iff (to_upper name) (codes "AUTH")).0 a))
        | inr a ↦ elim (Bool-cases (bytes_eq (to_upper name) (codes "UNWATCH"))) [
          | inl u ↦
              rw (run_line, e, m, a, u)
                (unwatches e m ((bytes_eq_iff (to_upper name) (codes "UNWATCH")).0 u))
          | inr u ↦ rw (run_line, e, m, a, u) (calls e m a u)
        ]
      ]
    ]
  ]

  pub run_queue-Runs :
      (lines : List (List Bytes)) (db : ℕ) (cs : ConnState) (w : keys.World)
      → all_lines keys require_pass commands lines ≡ true
      → let (cs', w', db', replies) = run_queue keys require_pass commands lines db cs w in
        Runs lines cs w db cs' w' db' replies
  unfolding run_queue
  run_queue-Runs [] db cs w v = no_line
  run_queue-Runs (line ∷ lines) db cs w v =
      let (one, rest) = both v in
      let r = run_line keys require_pass commands line db cs w in
      one_line (run_line-RunsLine line db cs w one) (run_queue-Runs lines r.2 r.0 r.1 rest)
