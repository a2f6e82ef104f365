-- ===== src/Gnet/Server/Shutdown.antt =====
-- What `Server.Stop` does: it waits for ever as soon as one connection is open.
use gopher.Prelude.{
  ℕ, ◌≡◌, refl, List, [], ◌∷◌, some, true, false, arith, get_elem?, inl, inr, Option-cases, ap, sym,
  Bool-cases,
}
use gopher.Prelude.Dict.{lookup}
use gopher.Prelude.Classes.{nat_key}
use gopher.Gnet.Outcome.{done, blocked}
use gopher.Gnet.Conn.{Conn, begin_stop}
use gopher.Gnet.Conn.Closing.{run_hook_life}
use gopher.Gnet.Server.{Server, hook_of, del_conn, stop, stop_each, del_all_conn}
use gopher.Gnet.Server.Registry.{Inv, IsAlive}

-- Stopping an open connection under the lock waits for that lock.
pub stop_under_lock :
    (s : Server) (p : ℕ) (c : Conn)
    → s.locked ≡ true
    → get_elem? s.conns p ≡ some c
    → c.is_closed ≡ false
    → IsAlive c
    → stop s p ≡ blocked
unfolding stop begin_stop del_conn
stop_under_lock s p c l f o a =
    let (b, r, life, _) =
      run_hook_life (hook_of s.before_conn_stop c.id) (record c { is_closed = true }) (λ h. cc) in
    ground arith

registered_open :
    (s : Server) (id p : ℕ)
    → Inv s
    → lookup id s.conn_dict ≡ some p
    → (c : Conn) × (get_elem? s.conns p ≡ some c) × (c.is_closed ≡ false)
registered_open s id p v h = elim (Option-cases (get_elem? s.conns id)) [
  | inl f ↦ absurd (ground (arith, v.exact id))
  | inr (c, f) ↦ elim (Bool-cases c.is_closed) [
    | inl k ↦ absurd (ground (arith, v.exact id))
    | inr o ↦ (c, ground (arith, v.exact id, ap (get_elem? s.conns) (sym (same f o))), o)
  ]
]
  where
    same : {c : Conn} → get_elem? s.conns id ≡ some c → c.is_closed ≡ false → p ≡ id
    same f o = ground (arith, v.exact id)

stop_first :
    (s : Server) (id p : ℕ) (m : List (ℕ × ℕ))
    → Inv s
    → s.conn_dict ≡ (id, p) ∷ m
    → stop (record s { locked = true }) p ≡ blocked
unfolding lookup
stop_first s id p m v e =
    let (c, f, o) = registered_open s id p v (ground arith) in
    stop_under_lock (record s { locked = true }) p c refl f o (v.alive p c f o)

del_all_conn_cases :
    (s : Server) (m : List (ℕ × ℕ))
    → Inv s
    → s.conn_dict ≡ m
    → del_all_conn s ≡ (elim s.conn_dict [ [] ↦ done s | _ ∷ _ ↦ blocked ])
unfolding del_all_conn stop_each
del_all_conn_cases s [] v e = ground (arith, v.free)
del_all_conn_cases s ((id, p) ∷ m) v e = ground (arith, v.free, stop_first s id p m v e)

-- With the lock free, the dictionary exact and at least one connection registered, `DelAllConn`
-- never returns: it holds the lock that the `Stop` of the first connection waits for. With none
-- registered it returns and changes nothing.
pub del_all_conn_deadlocks :
    (s : Server) → Inv s → del_all_conn s ≡ (elim s.conn_dict [ [] ↦ done s | _ ∷ _ ↦ blocked ])
del_all_conn_deadlocks s v = del_all_conn_cases s s.conn_dict v refl
