-- ===== src/Txn/States.antt =====
-- txn.go and server.go: the states that a connection reaches.
use pebbis.Prelude.{
  ℕ, suc, ◌≡◌, refl, ◌∙◌, arith, Bool, true, false, not, ◌&&◌, Option, none, some, List, [], ◌∷◌,
  length, Bool-cases, Option-cases, inl, inr,
}
use mathlib.Core.Path.{sym}
use pebbis.Prelude.Int.{ℤ}
use pebbis.Prelude.Bytes.{Bytes, codes, bytes_eq}
use pebbis.Prelude.Assoc.{find}
use pebbis.Memory.Entry.{Entry}
use pebbis.Prelude.Words.{to_upper}
use pebbis.Txn.{
  Keyspace, Command, ConnState, Fault, cmd_auth, cmd_unwatch, watch_entry, is_control, seen,
}
use pebbis.Txn.Exec.{watch_loop, validate_queued, run_line, run_queue}

-- What a command leaves alone that does not control the transaction.
pub record SameTxn (cs cs' : ConnState) : Type 0 where
  pub in_txn : cs'.in_txn ≡ cs.in_txn
  pub queue : cs'.queue ≡ cs.queue
  pub dirty : cs'.dirty_txn ≡ cs.dirty_txn

pub same_txn : (cs : ConnState) → SameTxn cs cs
same_txn cs = record { in_txn = refl; queue = refl; dirty = refl }

pub SameTxn-trans : (a b c : ConnState) → SameTxn a b → SameTxn b c → SameTxn a c
SameTxn-trans a b c h k = record {
  in_txn = k.in_txn ∙ h.in_txn;
  queue = k.queue ∙ h.queue;
  dirty = k.dirty ∙ h.dirty;
}

pub cmd_auth-SameTxn :
    (require_pass : Bytes) (args : List Bytes) (cs : ConnState)
    → SameTxn cs (cmd_auth require_pass args cs).0
unfolding cmd_auth
cmd_auth-SameTxn require_pass [] cs = same_txn cs
cmd_auth-SameTxn require_pass (pass ∷ []) cs = record {
  in_txn = ground arith;
  queue = ground arith;
  dirty = ground arith;
}
cmd_auth-SameTxn require_pass (user ∷ pass ∷ []) cs = record {
  in_txn = ground arith;
  queue = ground arith;
  dirty = ground arith;
}
cmd_auth-SameTxn require_pass (a ∷ b ∷ c ∷ args) cs = same_txn cs

pub cmd_unwatch-SameTxn : (args : List Bytes) (cs : ConnState) → SameTxn cs (cmd_unwatch args cs).0
unfolding cmd_unwatch
cmd_unwatch-SameTxn args cs = record {
  in_txn = ground arith;
  queue = ground arith;
  dirty = ground arith;
}

watch_entry-SameTxn :
    (key : Bytes) (now : ℤ) (o : Option Entry) (cs : ConnState)
    → SameTxn cs (watch_entry key now o cs)
watch_entry-SameTxn key now none cs = record { in_txn = refl; queue = refl; dirty = refl }
watch_entry-SameTxn key now (some e) cs = record { in_txn = refl; queue = refl; dirty = refl }

module _ (keys : Keyspace) (require_pass : Bytes)
    (commands : Bytes → Option (Command keys.World)) where
  -- A line that EXEC can run: a command of the table with arguments that fit, and none that controls
  -- the transaction.
  abbrev pub is_valid : Option Fault → Bool
  is_valid none = true
  is_valid (some fault) = false

  abbrev pub is_line : List Bytes → Bool
  is_line [] = false
  is_line (name ∷ args) =
      not (is_control (to_upper name))
      && is_valid (validate_queued keys require_pass commands (to_upper name) (suc (length args)))

  abbrev pub all_lines : List (List Bytes) → Bool
  all_lines [] = true
  all_lines (line ∷ queue) = is_line line && all_lines queue

  -- Outside a transaction nothing is queued and no error is kept; inside, every queued line can be
  -- run.
  pub record IsConn (cs : ConnState) : Type 0 where
    pub lines : all_lines cs.queue ≡ true
    pub idle : cs.in_txn ≡ false → (cs.queue ≡ []) × (cs.dirty_txn ≡ false)

  pub SameTxn-IsConn : (cs cs' : ConnState) → SameTxn cs cs' → IsConn cs → IsConn cs'
  SameTxn-IsConn cs cs' h c = record {
    lines = rw h.queue c.lines;
    idle =
        λ e. let (empty, clean) = c.idle (sym h.in_txn ∙ e) in (h.queue ∙ empty, h.dirty ∙ clean);
  }

  pub IsConn-idle : (cs : ConnState) → cs.queue ≡ [] → cs.dirty_txn ≡ false → IsConn cs
  IsConn-idle cs e d = record { lines = rw e refl; idle = λ h. (e, d) }

  pub watch_loop-SameTxn :
      (now later : ℤ) (args : List Bytes) (cs : ConnState) (w : keys.World)
      → SameTxn cs (watch_loop keys require_pass commands now later args cs w).0
  unfolding watch_loop
  watch_loop-SameTxn now later [] cs w = same_txn cs
  watch_loop-SameTxn now later (key ∷ args) cs w = elim (Bool-cases (seen (find key cs.watched))) [
    | inl e ↦ rw e (watch_loop-SameTxn now later args cs w)
    | inr n ↦
        let (found, w') = keys.lookup later cs.db key w in
        let mid = watch_entry key now found cs in
        rw n (
          SameTxn-trans cs mid _ (watch_entry-SameTxn key now found cs)
            (watch_loop-SameTxn now later args mid w'))
  ]

  run_line-SameTxn :
      (line : List Bytes) (db : ℕ) (cs : ConnState) (w : keys.World)
      → SameTxn cs (run_line keys require_pass commands line db cs w).0
  unfolding run_line
  run_line-SameTxn [] db cs w = same_txn cs
  run_line-SameTxn (name ∷ args) db cs w = elim (Option-cases (commands (to_upper name))) [
    | inl e ↦ rw (run_line, e) (same_txn cs)
    | inr (cmd, e) ↦
        rw (run_line, e)
          (elim (Bool-cases (cmd.write && keys.memory_full w)) [
            | inl full ↦ rw full (same_txn cs)
            | inr free ↦ rw free (elim (Bool-cases (bytes_eq (to_upper name) (codes "AUTH"))) [
              | inl auth ↦ rw auth (cmd_auth-SameTxn require_pass args cs)
              | inr n ↦ rw n (elim (Bool-cases (bytes_eq (to_upper name) (codes "UNWATCH"))) [
                | inl un ↦ rw un (cmd_unwatch-SameTxn args cs)
                | inr m ↦ rw m (same_txn cs)
              ])
            ])
          ])
  ]

  pub run_queue-SameTxn :
      (queue : List (List Bytes)) (db : ℕ) (cs : ConnState) (w : keys.World)
      → SameTxn cs (run_queue keys require_pass commands queue db cs w).0
  unfolding run_queue
  run_queue-SameTxn [] db cs w = same_txn cs
  run_queue-SameTxn (line ∷ queue) db cs w =
      let (cs', w', db', replies) = run_line keys require_pass commands line db cs w in
      SameTxn-trans cs cs' _ (run_line-SameTxn line db cs w) (run_queue-SameTxn queue db' cs' w')
