-- ===== src/Txn/Tests.antt =====
-- Examples of connections, over a keyspace that is a function and a table of five commands.
use pebbis.Prelude.{
  ℕ, ◌≡◌, ◌↔◌, refl, true, false, ◌&&◌, Option, none, some, List, [], ◌∷◌, ◌==◌, if◌then◌else◌,
  arith,
}
use pebbis.Prelude.Int.{ℤ, pos, negsuc}
use pebbis.Prelude.Bytes.{Bytes, codes, bytes_eq}
use pebbis.Prelude.Assoc.{find}
use pebbis.Memory.Entry.{Entry}
use pebbis.Memory.Db.Removes.{live}
use pebbis.Keys.{one_of}
use pebbis.Prelude.Words.{to_upper}
use pebbis.Txn.{Keyspace, Command, ConnState, Reply, array, seen, requires_auth, is_control}
use pebbis.Txn.Exec.{watch_loop, cmd_exec, handle, validate_queued}
use pebbis.Txn.Watch.{differs}
use pebbis.Txn.Check.{at_exec, is_null, cmd_exec-watch}
use pebbis.Txn.States.{IsConn}
use pebbis.Txn.Runs.{Runs}
use pebbis.Txn.Traces.{
  fresh, command, others, began, after, Reach-IsConn, Guarded, handle-Guarded, handle_all, closed,
  multi_exec-Runs,
}

abbrev plain_keys : Keyspace
plain_keys = record {
  World = ℕ → Bytes → Option Entry;
  view = λ w db key. w db key;
  lookup = λ now db key w. (
    live now (w db key),
    λ db' q. if db == db' && bytes_eq key q then live now (w db key) else w db' q,
  );
  memory_full = λ w. false;
  lookup-finds = λ now db key w. refl;
  lookup-keeps = λ now db key w db' q. refl;
}

abbrev World : Type 0
World = ℕ → Bytes → Option Entry

-- A key of one version, which does not expire.
abbrev version_1 : Entry
version_1 = record {
  key = codes "k";
  typ = 0;
  expire_at = pos 0;
  lru = 0;
  size = 100;
  version = 1;
  inline = [];
  counter = false;
}

abbrev one_key : World
one_key db key = if db == 0 && bytes_eq key (codes "k") then some version_1 else none

abbrev no_key : World
no_key db key = none

abbrev replies : List Bytes → ℤ → Command World
replies out arity = record {
  arity = arity;
  write = false;
  fn = λ db args w. record { world = w; db = db; out = out; error = none };
}

-- DEL of every key, and SELECT of database 3.
abbrev del : Command World
del = record {
  arity = negsuc 1;
  write = true;
  fn = λ db args w. record { world = no_key; db = db; out = codes "1" ∷ []; error = none };
}

abbrev select_3 : Command World
select_3 = record {
  arity = pos 2;
  write = false;
  fn = λ db args w. record { world = w; db = 3; out = codes "OK" ∷ []; error = none };
}

abbrev control : Command World
control = replies [] (negsuc 0)

abbrev table : Bytes → Option (Command World)
table name =
    if one_of name (codes "MULTI" ∷ codes "EXEC" ∷ codes "AUTH" ∷ [])
    then some control
    else if bytes_eq name (codes "GET")
    then some (replies (codes "v" ∷ []) (pos 2))
    else if bytes_eq name (codes "DEL")
    then some del
    else if bytes_eq name (codes "SELECT")
    then some select_3
    else none

abbrev authed : ConnState
authed = fresh []

abbrev get_line : List Bytes
get_line = codes "get" ∷ codes "k" ∷ []

abbrev select_line : List Bytes
select_line = codes "SELECT" ∷ codes "3" ∷ []

abbrev del_line : List Bytes
del_line = codes "DEL" ∷ codes "k" ∷ []

abbrev three_lines : List (List Bytes)
three_lines = get_line ∷ select_line ∷ del_line ∷ []

multi_exec-Runs_example :
    let (cs1, w1) =
      handle_all plain_keys [] table
        (pos 5)
        (pos 5)
        ((codes "MULTI" ∷ []) ∷ three_lines)
        authed
        one_key in
    let (cs2, w2, replies) =
      handle plain_keys [] table (pos 5) (pos 5) (codes "EXEC" ∷ []) cs1 w1 in
    (cs3 : ConnState) × (db : ℕ) × (ran : List Reply) × Runs plain_keys [] table three_lines
      (closed plain_keys [] table authed)
      one_key
      0
      cs3
      w2
      db
      ran
    × (replies ≡ array 3 ∷ ran)
    × (cs2 ≡ record cs3 { db = db })
    × (cs2.in_txn ≡ false)
unfolding bytes_eq is_control validate_queued to_upper requires_auth
multi_exec-Runs_example =
    multi_exec-Runs plain_keys [] table (pos 5) (pos 5) control control three_lines authed one_key
      refl refl refl refl refl refl refl refl

-- A key that was deleted under the watch.
cmd_exec-watch_example :
    let cs' = (watch_loop plain_keys [] table (pos 5) (pos 5) (codes "k" ∷ []) authed one_key).0 in
    let replies =
      (cmd_exec plain_keys [] table
        (pos 6)
        (pos 6)
        []
        (at_exec plain_keys [] table three_lines cs')
        no_key).2 in
    ((q : Bytes) → one_of q (codes "k" ∷ []) ≡ true → seen (find q cs'.watched) ≡ true)
    × ((is_null plain_keys [] table replies ≡ false) ↔ (
        (q : Bytes)
        → seen (find q cs'.watched) ≡ true
        → differs (live (pos 5) (one_key 0 q)) (live (pos 6) (no_key 0 q)) ≡ false))
cmd_exec-watch_example =
    cmd_exec-watch plain_keys [] table (pos 5) (pos 5) (pos 6) (pos 6) (codes "k" ∷ []) three_lines
      authed one_key no_key refl (omega arith) (omega arith) (omega arith) (omega arith)

handle-Guarded_example :
    let (cs', w', replies) =
      handle plain_keys
        (codes "pw")
        table
        (pos 5)
        (pos 5)
        (codes "auth" ∷ codes "pw" ∷ [])
        (fresh (codes "pw"))
        one_key in
    Guarded plain_keys (codes "pw") table (codes "auth") (codes "pw" ∷ []) one_key w' cs'
unfolding requires_auth bytes_eq
handle-Guarded_example =
    handle-Guarded plain_keys (codes "pw") table (pos 5) (pos 5) (codes "auth") (codes "pw" ∷ [])
      (fresh (codes "pw")) one_key refl refl

-- MULTI, a change by another connection, and GET, whose reply is not looked at.
abbrev run : List Bytes → ConnState → World → ConnState × World × List Reply
run line cs w = handle plain_keys [] table (pos 5) (pos 5) line cs w

abbrev after_multi : ConnState
after_multi = (run (codes "MULTI" ∷ []) (fresh []) one_key).0

abbrev after_get : ConnState
after_get = (run get_line after_multi no_key).0

Reach-IsConn_example : IsConn plain_keys [] table after_get
Reach-IsConn_example = Reach-IsConn plain_keys [] table (
    after
      (after
        (after (began one_key) (
          command (pos 5) (pos 5) (codes "MULTI" ∷ []) (fresh []) after_multi one_key
            (run (codes "MULTI" ∷ []) (fresh []) one_key).1
            (run (codes "MULTI" ∷ []) (fresh []) one_key).2 refl))
        (others after_multi (run (codes "MULTI" ∷ []) (fresh []) one_key).1 no_key))
      (command (pos 5) (pos 5) get_line after_multi after_get no_key
        (run get_line after_multi no_key).1 (run get_line after_multi no_key).2 refl))
