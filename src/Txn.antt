-- ===== src/Txn.antt =====
-- txn.go and connState of server.go: one connection, its transaction and its authentication. The
-- keyspace and the table of the other commands are parameters. Locks, statistics and the slow log
-- are left out, and so are panics.
pub mod Exec
pub mod Watch
pub mod Traces
pub mod Reach
pub mod States
pub mod Check
pub mod Runs
mod Tests
use pebbis.Prelude.{
  ℕ, suc, ◌+◌, ◌≡◌, Bool, true, false, not, ◌&&◌, ◌||◌, Option, none, some, List, [], ◌∷◌, ◌++◌,
  map, leb, ltb, ◌==◌, if◌then◌else◌, length,
}
use pebbis.Prelude.Int.{ℤ, pos, negsuc, leb_ℤ, ltb_ℤ}
use pebbis.Prelude.Bytes.{Bytes, codes, bytes_eq}
use pebbis.Prelude.Assoc.{Assoc, find, put}
use pebbis.Memory.Entry.{Entry}
use pebbis.Memory.Db.Removes.{live}
use pebbis.Prelude.Words.{to_upper}

-- The index in memory: `Lookup` drops an expired entry and does not find it.
pub record Keyspace : Type 1 where
  pub World : Type 0
  pub view : World → ℕ → Bytes → Option Entry
  pub lookup : ℤ → ℕ → Bytes → World → Option Entry × World
  pub memory_full : World → Bool
  pub lookup-finds :
      (now : ℤ) (db : ℕ) (key : Bytes) (w : World)
      → (lookup now db key w).0 ≡ live now (view w db key)
  pub lookup-keeps :
      (now : ℤ) (db : ℕ) (key : Bytes) (w : World) (db' : ℕ) (q : Bytes)
      → view (lookup now db key w).1 db' q
        ≡ (if db == db' && bytes_eq key q then live now (view w db key) else view w db' q)

pub data Fault : Type 0 where
  wrong_args : Bytes → Fault
  unknown : Bytes → Fault
  nested : Fault
  without_multi : Fault
  inside_multi : Fault
  exec_abort : Fault
  no_password : Fault
  wrong_pass : Fault
  no_auth : Fault
  oom : Bytes → Fault
  -- A command's own error.
  failed : Bytes → Fault

pub data Reply : Type 0 where
  ok queued null : Reply
  array : ℕ → Reply
  raw : Bytes → Reply
  err : Fault → Reply

-- What a command of the table leaves: the keyspace, the database of its context, what it wrote, and
-- its error.
pub record Done (World : Type 0) : Type 0 where
  pub world : World
  pub db : ℕ
  pub out : List Bytes
  pub error : Option Bytes

pub record Command (World : Type 0) : Type 0 where
  pub arity : ℤ
  pub write : Bool
  pub fn : ℕ → List Bytes → World → Done World

-- The ID, the address and the name of a connection are left out. A map that is nil is empty; while
-- a key is watched, none of the three is nil.
pub record ConnState : Type 0 where
  pub db : ℕ
  pub authed : Bool
  pub in_txn : Bool
  pub queue : List (List Bytes)
  pub watched : Assoc ℕ
  pub watched_expiry : Assoc ℤ
  pub watched_stale : Assoc Bool
  pub dirty_txn : Bool

-- `checkArgLen` and the test of `validateQueued`.
abbrev pub fits_arity : ℕ → ℤ → Bool
fits_arity n (pos arity) = n == arity
fits_arity n (negsuc least) = leb (suc least) n

unfoldable pub requires_auth : Bytes → Bool
requires_auth require_pass = not (bytes_eq require_pass [])

unfoldable pub check_password : Bytes → Bytes → Bool
check_password require_pass pass = not (bytes_eq require_pass []) && bytes_eq require_pass pass

abbrev pub auth_with : Bytes → Bytes → ConnState → ConnState × Reply
auth_with require_pass pass cs =
    if not (requires_auth require_pass)
    then (cs, err no_password)
    else if not (check_password require_pass pass)
    then (record cs { authed = false }, err wrong_pass)
    else (record cs { authed = true }, ok)

unfoldable pub cmd_auth : Bytes → List Bytes → ConnState → ConnState × Reply
cmd_auth require_pass (pass ∷ []) cs = auth_with require_pass pass cs
cmd_auth require_pass (user ∷ pass ∷ []) cs = auth_with require_pass pass cs
cmd_auth require_pass _ cs = (cs, err (wrong_args (codes "auth")))

unfoldable pub cmd_multi : List Bytes → ConnState → ConnState × Reply
cmd_multi args cs =
    if not (fits_arity (length args) (pos 0))
    then (cs, err (wrong_args (codes "MULTI")))
    else if cs.in_txn
    then (cs, err nested)
    else (record cs { in_txn = true; queue = []; dirty_txn = false }, ok)

unfoldable pub abort_txn : ConnState → ConnState
abort_txn cs = record cs {
  in_txn = false;
  queue = [];
  dirty_txn = false;
  watched = [];
  watched_expiry = [];
  watched_stale = [];
}

unfoldable pub cmd_discard : List Bytes → ConnState → ConnState × Reply
cmd_discard args cs =
    if not (fits_arity (length args) (pos 0))
    then (cs, err (wrong_args (codes "DISCARD")))
    else if not cs.in_txn
    then (cs, err without_multi)
    else (abort_txn cs, ok)

unfoldable pub cmd_unwatch : List Bytes → ConnState → ConnState × Reply
cmd_unwatch args cs =
    if not (fits_arity (length args) (pos 0))
    then (cs, err (wrong_args (codes "UNWATCH")))
    else (record cs { watched = []; watched_expiry = []; watched_stale = [] }, ok)

-- `exp > 0 && exp <= now`
abbrev pub past : ℤ → ℤ → Bool
past exp now = ltb_ℤ (pos 0) exp && leb_ℤ exp now

abbrev pub watch_entry : Bytes → ℤ → Option Entry → ConnState → ConnState
watch_entry key now none cs = record cs {
  watched = put key 0 cs.watched;
  watched_expiry = put key (negsuc 0) cs.watched_expiry;
  watched_stale = put key false cs.watched_stale;
}
watch_entry key now (some e) cs = record cs {
  watched = put key e.version cs.watched;
  watched_expiry = put key e.expire_at cs.watched_expiry;
  watched_stale = put key (past e.expire_at now) cs.watched_stale;
}

abbrev pub seen : {V : Type 0} → Option V → Bool
seen none = false
seen (some v) = true

abbrev pub expiry_of : Option ℤ → ℤ
expiry_of none = pos 0
expiry_of (some exp) = exp

abbrev pub stale_of : Option Bool → Bool
stale_of none = false
stale_of (some stale) = stale

-- The test of one watched key in `cmdExec`: whether it aborts.
unfoldable pub key_changed : ℤ → ℕ → ℤ → Bool → Option Entry → Bool
key_changed now ver we stale_at_watch (some e) =
    if ltb_ℤ we (pos 0) || not (e.version == ver)
    then true
    else not stale_at_watch && ltb_ℤ (pos 0) e.expire_at && leb_ℤ e.expire_at now
key_changed now ver we stale_at_watch none = leb_ℤ (pos 0) we && not stale_at_watch

-- Commands that a transaction does not queue.
unfoldable pub is_control : Bytes → Bool
is_control name =
    bytes_eq name (codes "MULTI")
    || bytes_eq name (codes "EXEC")
    || bytes_eq name (codes "DISCARD")
    || bytes_eq name (codes "QUIT")
    || bytes_eq name (codes "WATCH")
