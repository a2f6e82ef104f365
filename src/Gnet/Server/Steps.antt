-- ===== src/Gnet/Server/Steps.antt =====
-- What can happen to a server, and how many connections it registers.
use Prim.Native.String.{String}
use gopher.Prelude.{
  ℕ, ◌≤◌, ◌≡◌, refl, List, Option, some, Bool, false, arith, length, get_elem?, set, ◌⊎◌, inl, inr,
  Option-cases, Bool-cases,
}
use gopher.Prelude.Dict.{
  delete, Distinct, Distinct-insert, Distinct-delete, length-insert, length-delete-le,
}
use gopher.Prelude.Classes.{nat_key}
use gopher.Gnet.Base.{Conf, Error}
use gopher.Gnet.Outcome.{done, Outcome-cases}
use gopher.Gnet.Conn.{
  Conn, send_packet, set_prop, del_prop, write_packet, receive_closed, begin_stop, close_chans,
}
use gopher.Gnet.Server.{
  Server, new_server, hook_of, add_conn, del_conn, stop, new_conn, start_conn, accept, get_conn_num,
}

-- The accept loop, the goroutines of the connections and the callers of their methods.
pub data Step : Server → Server → Type 0 where
  accepts : (s : Server) (accepted : Bool) (t : Server) → accept s accepted ≡ done t → Step s t
  starts : (s : Server) (pointer : ℕ) (t : Server) → start_conn s pointer ≡ done t → Step s t
  stops : (s : Server) (pointer : ℕ) (t : Server) → stop s pointer ≡ done t → Step s t
  sends :
      (s : Server) (pointer : ℕ) (c d : Conn) (msg_id : ℕ) (bytes : List ℕ) (e : Option Error)
      → get_elem? s.conns pointer ≡ some c
      → send_packet c msg_id bytes ≡ done (d, e)
      → Step s (record s { conns = set s.conns pointer d })
  writes :
      (s : Server) (pointer : ℕ) (c d : Conn) (written_ok more : Bool)
      → get_elem? s.conns pointer ≡ some c
      → write_packet c written_ok ≡ done (d, more)
      → Step s (record s { conns = set s.conns pointer d })
  receives :
      (s : Server) (pointer : ℕ) (c d : Conn) (more : Bool)
      → get_elem? s.conns pointer ≡ some c
      → receive_closed c ≡ done (d, more)
      → Step s (record s { conns = set s.conns pointer d })
  puts :
      (s : Server) (pointer : ℕ) (c : Conn) (key value : String)
      → get_elem? s.conns pointer ≡ some c
      → Step s (record s { conns = set s.conns pointer (set_prop c key value) })
  removes :
      (s : Server) (pointer : ℕ) (c : Conn) (key : String)
      → get_elem? s.conns pointer ≡ some c
      → Step s (record s { conns = set s.conns pointer (del_prop c key) })

pub data Reach (s : Server) : Server → Type 0 where
  here : Reach s s
  next : {t u : Server} → Reach s t → Step t u → Reach s u

-- A dictionary without two entries for a number, within the configured size.
pub record IsBounded (conf : Conf) (s : Server) : Type 0 where
  pub same_conf : s.conf ≡ conf
  pub distinct : Distinct s.conn_dict
  pub within : get_conn_num s ≤ conf.max_conn_num

accept-IsBounded :
    (conf : Conf) (s t : Server) (b : Bool)
    → accept s b ≡ done t
    → IsBounded conf s
    → IsBounded conf t
unfolding accept new_conn add_conn
accept-IsBounded conf s t b e v = ground (
  arith,
  length-insert s.next_id (length s.conns) s.conn_dict,
  Distinct-insert s.next_id (length s.conns) s.conn_dict v.distinct,
)

start_conn-IsBounded :
    (conf : Conf) (s t : Server) (p : ℕ)
    → start_conn s p ≡ done t
    → IsBounded conf s
    → IsBounded conf t
unfolding start_conn
start_conn-IsBounded conf s t p e v = ground arith

-- A `Stop` that does something: the connection before it, at the signal and at the end.
pub record Stopped (s t : Server) (p : ℕ) : Type 0 where
  pub before : Conn
  pub signalled : Conn
  pub after : Conn
  pub found : get_elem? s.conns p ≡ some before
  pub was_open : before.is_closed ≡ false
  pub begun : begin_stop (hook_of s.before_conn_stop before.id) before ≡ done signalled
  pub ended : close_chans signalled ≡ done after
  pub result : t ≡ record s {
    conns = set (set s.conns p signalled) p after;
    conn_dict = delete signalled.id s.conn_dict;
    locked = false;
  }

pub stop_cases : (s t : Server) (p : ℕ) → stop s p ≡ done t → (t ≡ s) ⊎ Stopped s t p
unfolding stop del_conn
stop_cases s t p e = elim (Option-cases (get_elem? s.conns p)) [
  | inl f ↦ absurd (ground arith)
  | inr (c, f) ↦ elim (Bool-cases c.is_closed) [
    | inl closed ↦ inl (ground arith)
    | inr open' ↦ elim (Outcome-cases (begin_stop (hook_of s.before_conn_stop c.id) c)) [
      | inr (inl g) ↦ absurd (ground arith)
      | inr (inr g) ↦ absurd (ground arith)
      | inl (d, g) ↦ elim (Outcome-cases (close_chans d)) [
        | inr (inl k) ↦ absurd (ground arith)
        | inr (inr k) ↦ absurd (ground arith)
        | inl (a, k) ↦ inr (record {
          before = c;
          signalled = d;
          after = a;
          found = f;
          was_open = open';
          begun = g;
          ended = k;
          result = ground arith;
        })
      ]
    ]
  ]
]

stop-IsBounded :
    (conf : Conf) (s t : Server) (p : ℕ) → stop s p ≡ done t → IsBounded conf s → IsBounded conf t
stop-IsBounded conf s t p e v = elim (stop_cases s t p e) [
  | inl same ↦ rw same v
  | inr x ↦ rw x.result (
      ground (
        arith,
        v,
        Distinct-delete x.signalled.id s.conn_dict v.distinct,
        length-delete-le x.signalled.id s.conn_dict,
      ))
]

Step-IsBounded : (conf : Conf) {s t : Server} → Step s t → IsBounded conf s → IsBounded conf t
Step-IsBounded conf (accepts s b t e) v = accept-IsBounded conf s t b e v
Step-IsBounded conf (starts s p t e) v = start_conn-IsBounded conf s t p e v
Step-IsBounded conf (stops s p t e) v = stop-IsBounded conf s t p e v
Step-IsBounded conf (sends s p c d i b x f e) v = ground arith
Step-IsBounded conf (writes s p c d o m f e) v = ground arith
Step-IsBounded conf (receives s p c d m f e) v = ground arith
Step-IsBounded conf (puts s p c k w f) v = ground arith
Step-IsBounded conf (removes s p c k f) v = ground arith

-- In every state that a new server reaches, the dictionary has one entry at most for a number and
-- never more entries than the configured number of connections.
pub Reach-IsBounded : (conf : Conf) {s : Server} → Reach (new_server conf) s → IsBounded conf s
Reach-IsBounded conf here = record { same_conf = refl; distinct = tt; within = omega arith }
Reach-IsBounded conf (next r st) = Step-IsBounded conf st (Reach-IsBounded conf r)
