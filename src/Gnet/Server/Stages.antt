-- ===== src/Gnet/Server/Stages.antt =====
-- go-server/gnet/conn.go and conn_man.go: the goroutines that stop connections, one step at a time.
-- `Stop` checks the flag, raises it, signals the writer, takes the connection out of the dictionary
-- and closes the channels, and others run between these steps; so does the loop of `DelAllConn` under
-- the lock. What a hook does with a connection are the steps that send and set properties.
pub mod Tracked
pub mod Registered
use Prim.Native.String.{String}
use gopher.Prelude.{
  ℕ, ◌≡◌, List, [], ◌∷◌, Option, some, Bool, true, false, ◌==◌, if◌then◌else◌, get_elem?, set,
  member,
}
use gopher.Prelude.Dict.{lookup, delete}
use gopher.Prelude.Classes.{nat_key}
use gopher.Gnet.Base.{Conf, Error}
use gopher.Gnet.Outcome.{done}
use gopher.Gnet.Conn.{
  Conn, send_packet, set_prop, del_prop, write_packet, receive_closed, raise_flag, signal_closed,
  close_chans,
}
use gopher.Gnet.Server.{Server, new_server, lock, unlock, del_conn, accept}

-- The server, the connections with a goroutine in `Stop` behind each of its steps, and whether
-- `DelAllConn` is in its loop.
pub record Life : Type 0 where
  pub server : Server
  pub checked : List ℕ
  pub flagged : List ℕ
  pub signalled : List ℕ
  pub deleted : List ℕ
  pub shutting : Bool

abbrev pub start_life : Conf → Life
start_life conf = record {
  server = new_server conf;
  checked = [];
  flagged = [];
  signalled = [];
  deleted = [];
  shutting = false;
}

-- One goroutine goes on.
unfoldable pub remove_one : ℕ → List ℕ → List ℕ
remove_one p [] = []
remove_one p (q ∷ qs) = let rest = remove_one p qs in if q == p then qs else q ∷ rest

abbrev pub put_conn : Server → ℕ → Conn → Server
put_conn s p d = record s { conns = set s.conns p d }

pub data Stage : Life → Life → Type 0 where
  accepts :
      (l : Life) (accepted : Bool) (t : Server)
      → accept l.server accepted ≡ done t
      → Stage l (record l { server = t })
  sends :
      (l : Life) (p : ℕ) (c d : Conn) (msg_id : ℕ) (bytes : List ℕ) (e : Option Error)
      → get_elem? l.server.conns p ≡ some c
      → send_packet c msg_id bytes ≡ done (d, e)
      → Stage l (record l { server = put_conn l.server p d })
  writes :
      (l : Life) (p : ℕ) (c d : Conn) (written_ok more : Bool)
      → get_elem? l.server.conns p ≡ some c
      → write_packet c written_ok ≡ done (d, more)
      → Stage l (record l { server = put_conn l.server p d })
  receives :
      (l : Life) (p : ℕ) (c d : Conn) (more : Bool)
      → get_elem? l.server.conns p ≡ some c
      → receive_closed c ≡ done (d, more)
      → Stage l (record l { server = put_conn l.server p d })
  puts :
      (l : Life) (p : ℕ) (c : Conn) (key value : String)
      → get_elem? l.server.conns p ≡ some c
      → Stage l (record l { server = put_conn l.server p (set_prop c key value) })
  removes :
      (l : Life) (p : ℕ) (c : Conn) (key : String)
      → get_elem? l.server.conns p ≡ some c
      → Stage l (record l { server = put_conn l.server p (del_prop c key) })
  checks :
      (l : Life) (p : ℕ) (c : Conn)
      → get_elem? l.server.conns p ≡ some c
      → c.is_closed ≡ false
      → Stage l (record l { checked = p ∷ l.checked })
  flags :
      (l : Life) (p : ℕ) (c : Conn)
      → member p l.checked ≡ true
      → get_elem? l.server.conns p ≡ some c
      → Stage l (record l {
        server = put_conn l.server p (raise_flag c);
        checked = remove_one p l.checked;
        flagged = p ∷ l.flagged;
      })
  signals :
      (l : Life) (p : ℕ) (c d : Conn)
      → member p l.flagged ≡ true
      → get_elem? l.server.conns p ≡ some c
      → signal_closed c ≡ done d
      → Stage l (record l {
        server = put_conn l.server p d;
        flagged = remove_one p l.flagged;
        signalled = p ∷ l.signalled;
      })
  deletes :
      (l : Life) (p : ℕ) (c : Conn) (t : Server)
      → member p l.signalled ≡ true
      → get_elem? l.server.conns p ≡ some c
      → del_conn l.server c.id ≡ done t
      → Stage l
          (record l { server = t; signalled = remove_one p l.signalled; deleted = p ∷ l.deleted })
  closes :
      (l : Life) (p : ℕ) (c d : Conn)
      → member p l.deleted ≡ true
      → get_elem? l.server.conns p ≡ some c
      → close_chans c ≡ done d
      → Stage l (record l { server = put_conn l.server p d; deleted = remove_one p l.deleted })
  -- `DelAllConn`: the lock, an entry whose `Stop` returned at once, and the end.
  shuts :
      (l : Life) (t : Server)
      → lock l.server ≡ done t
      → Stage l (record l { server = t; shutting = true })
  drops :
      (l : Life) (id p : ℕ) (c : Conn)
      → l.shutting ≡ true
      → lookup id l.server.conn_dict ≡ some p
      → get_elem? l.server.conns p ≡ some c
      → c.is_closed ≡ true
      → Stage l (record l { server = record l.server { conn_dict = delete id l.server.conn_dict } })
  ends :
      (l : Life)
      → l.shutting ≡ true
      → l.server.conn_dict ≡ []
      → Stage l (record l { server = unlock l.server; shutting = false })

pub data Lived (l : Life) : Life → Type 0 where
  here : Lived l l
  next : {m n : Life} → Lived l m → Stage m n → Lived l n
