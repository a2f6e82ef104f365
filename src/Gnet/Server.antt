-- ===== src/Gnet/Server.antt =====
-- go-server/gnet/conn_man.go and server.go: the dictionary of the open connections behind its lock,
-- the loop that accepts connections, and the hooks. The connections are objects that the dictionary
-- points to: a pointer is a place in `conns`.
pub mod Steps
pub mod Registry
pub mod Shutdown
pub mod Stages
use Prim.Native.String.{String}
use gopher.Prelude.{
  ℕ, ◌+◌, ◌%◌, List, [], ◌∷◌, ◌++◌, Option, none, some, Bool, true, false, not, leb, if◌then◌else◌,
  length, get_elem?, set,
}
use gopher.Prelude.Dict.{Dict, lookup, insert, delete}
use gopher.Prelude.Classes.{nat_key}
use gopher.Gnet.Base.{Conf, Error, Result, ok, err, conn_not_found}
use gopher.Gnet.Outcome.{Outcome, done, blocked, panics, ◌>>=◌}
use gopher.Gnet.Conn.{Conn, make_conn, HookAction, run_hook, begin_stop, close_chans}

-- A hook is given the number of the connection. `locked` says that the goroutine at hand, or one
-- that waits for it, holds the lock for writing.
pub record Server : Type 0 where
  pub conf : Conf
  pub conns : List Conn
  pub conn_dict : Dict ℕ ℕ
  pub locked : Bool
  pub next_id : ℕ
  pub after_conn_start : Option (ℕ → List HookAction)
  pub before_conn_stop : Option (ℕ → List HookAction)

abbrev pub new_server : Conf → Server
new_server conf = record {
  conf = conf;
  conns = [];
  conn_dict = [];
  locked = false;
  next_id = 0;
  after_conn_start = none;
  before_conn_stop = none;
}

abbrev pub use_after_conn_start : Server → (ℕ → List HookAction) → Server
use_after_conn_start s hook = record s { after_conn_start = some hook }

abbrev pub use_before_conn_stop : Server → (ℕ → List HookAction) → Server
use_before_conn_stop s hook = record s { before_conn_stop = some hook }

-- A hook that is not set does nothing.
abbrev pub hook_of : Option (ℕ → List HookAction) → ℕ → List HookAction
hook_of none id = []
hook_of (some hook) id = hook id

-- The lock is not reentrant: who holds it waits for itself.
abbrev pub lock : Server → Outcome Server
lock s = if s.locked then blocked else done (record s { locked = true })

abbrev pub unlock : Server → Server
unlock s = record s { locked = false }

unfoldable pub add_conn : Server → ℕ → ℕ → Outcome Server
add_conn s id pointer = do
  t ← lock s
  done (unlock (record t { conn_dict = insert id pointer t.conn_dict }))

unfoldable pub del_conn : Server → ℕ → Outcome Server
del_conn s id = do t ← lock s; done (unlock (record t { conn_dict = delete id t.conn_dict }))

-- A read lock waits for a writer, too.
unfoldable pub get_conn_by_id : Server → ℕ → Outcome (Result ℕ)
get_conn_by_id s id = do
  t ← lock s
  done (elim (lookup id t.conn_dict) [ some pointer ↦ ok pointer | none ↦ err (conn_not_found id) ])

-- Without the lock, as in the source.
abbrev pub get_conn_num : Server → ℕ
get_conn_num s = length s.conn_dict

-- `Stop` of the connection at `pointer`.
unfoldable pub stop : Server → ℕ → Outcome Server
stop s pointer = elim (get_elem? s.conns pointer) [
  | none ↦ panics
  | some c ↦ if c.is_closed then done s else do
    d ← begin_stop (hook_of s.before_conn_stop c.id) c
    t ← del_conn (record s { conns = set s.conns pointer d }) d.id
    e ← close_chans d
    done (record t { conns = set t.conns pointer e })
]

-- The loop of `DelAllConn`, under the lock that `DelAllConn` took.
unfoldable pub stop_each : List (ℕ × ℕ) → Server → Outcome Server
stop_each [] s = done s
stop_each ((id, pointer) ∷ entries) s = do
  t ← stop s pointer
  stop_each entries (record t { conn_dict = delete id t.conn_dict })

unfoldable pub del_all_conn : Server → Outcome Server
del_all_conn s = do t ← lock s; u ← stop_each t.conn_dict t; done (unlock u)

-- `NewConn`: the connection is made and registered.
unfoldable pub new_conn : Server → ℕ → Outcome Server
new_conn s id = add_conn (record s { conns = s.conns ++ (make_conn id ∷ []) }) id (length s.conns)

-- `Start`: the hook runs beside the reader and the writer.
unfoldable pub start_conn : Server → ℕ → Outcome Server
start_conn s pointer = elim (get_elem? s.conns pointer) [
  | none ↦ panics
  | some c ↦ do
    d ← run_hook (hook_of s.after_conn_start c.id) c
    done (record s { conns = set s.conns pointer d })
]

-- One round of the accept loop: a failed accept, a refused connection, or a new one, which is
-- started by a goroutine of its own. The number of the next connection is a uint32.
unfoldable pub accept : Server → Bool → Outcome Server
accept s accepted =
    if not accepted
    then done s
    else if leb s.conf.max_conn_num (get_conn_num s)
    then done s
    else do t ← new_conn s s.next_id; done (record t { next_id = (s.next_id + 1) % 0x1_0000_0000 })
