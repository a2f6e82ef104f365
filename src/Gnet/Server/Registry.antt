-- ===== src/Gnet/Server/Registry.antt =====
-- The dictionary holds the open connections and no others.
pub mod History
use Prim.Native.String.{String}
use gopher.Prelude.{
  ℕ, suc, ◌+◌, ◌%◌, ◌≤◌, ◌<◌, ◌≡◌, refl, sym, subst, List, [], ◌∷◌, ◌++◌, Option, none, some, Bool,
  true, false, arith, length, get_elem?, set, get_elem?-set, get_elem?-append_one, get_elem?-none,
  get_elem?-some, length-append, length-set, if◌then◌else◌, ◌⊎◌, inl, inr, Option-cases, Bool-cases,
  ap, ◌==◌,
}
use gopher.Prelude.Dict.{Dict, lookup, insert, delete, lookup-insert, lookup-delete}
use gopher.Prelude.Classes.{nat_key}
use gopher.Gnet.Base.{Conf, Error}
use gopher.Gnet.Outcome.{Outcome, done, blocked, panics, Outcome-cases}
use gopher.Gnet.Conn.{
  Conn, make_conn, HookAction, send_packet, set_prop, del_prop, write_packet, receive_closed,
  begin_stop, close_chans, run_hook,
}
use gopher.Gnet.Conn.Closing.{run_hook_life, send_packet_life, begin_stop_life, close_chans_life}
use gopher.Gnet.Server.{Server, new_server, hook_of, add_conn, stop, new_conn, start_conn, accept}
use gopher.Gnet.Server.Steps.{
  Step, accepts, starts, stops, sends, writes, receives, puts, removes, Reach, here, next, Stopped,
  stop_cases,
}

-- An open connection has no signal yet, and both of its channels are open.
pub record IsAlive (c : Conn) : Type 0 where
  pub no_signal : c.closed_signals ≡ 0
  pub closed_chan_open : c.closed_chan_closed ≡ false
  pub packet_chan_open : c.packet_chan_closed ≡ false

-- What the dictionary should say of a number.
abbrev pub listed : List Conn → ℕ → Option ℕ
listed conns p = elim (get_elem? conns p) [
  | none ↦ none
  | some c ↦ if c.is_closed then none else some p
]

-- The lock is free, the connections are numbered in the order of their acceptance, and exactly the
-- open ones are registered, each under its number.
pub record Inv (s : Server) : Type 0 where
  pub free : s.locked ≡ false
  pub counter : s.next_id ≡ length s.conns % 0x1_0000_0000
  pub ids : (p : ℕ) (c : Conn) → get_elem? s.conns p ≡ some c → c.id ≡ p
  pub alive : (p : ℕ) (c : Conn) → get_elem? s.conns p ≡ some c → c.is_closed ≡ false → IsAlive c
  pub exact : (p : ℕ) → lookup p s.conn_dict ≡ listed s.conns p

-- A connection may change, as long as its number and its flag stay and it stays alive.
pub replaced-Inv :
    (s : Server) (p : ℕ) (c d : Conn)
    → get_elem? s.conns p ≡ some c
    → d.id ≡ c.id
    → d.is_closed ≡ c.is_closed
    → (d.is_closed ≡ false → IsAlive d)
    → Inv s
    → Inv (record s { conns = set s.conns p d })
replaced-Inv s p c d f i o a v = record {
  free = v.free;
  counter = ground (arith, v.counter, length-set s.conns p d);
  ids = λ q b e. ground (arith, get_elem?-set s.conns p q d, v.ids p c f, v.ids q b);
  alive = λ q b e h. ground (arith, get_elem?-set s.conns p q d, v.alive q b, a);
  exact = λ q. ground (arith, get_elem?-set s.conns p q d, v.exact q);
}

-- The server after a connection was accepted.
abbrev grown : Server → Server
grown s = record s {
  conns = s.conns ++ (make_conn s.next_id ∷ []);
  conn_dict = insert s.next_id (length s.conns) s.conn_dict;
  locked = false;
  next_id = (s.next_id + 1) % 0x1_0000_0000;
}

accept_cases :
    (s t : Server) (b : Bool) → accept s b ≡ done t → s.locked ≡ false → (t ≡ s) ⊎ (t ≡ grown s)
unfolding accept new_conn add_conn
accept_cases s t b e f = ground arith

grown-Inv : (s : Server) → length (grown s).conns ≤ 0x1_0000_0000 → Inv s → Inv (grown s)
grown-Inv s few v =
    let n = length-append s.conns (make_conn s.next_id ∷ []) in
    let num : s.next_id ≡ length s.conns = omega (arith, v.counter) in
    record {
      free = refl;
      counter = omega arith;
      ids =
          λ p c e. ground (arith, get_elem?-append_one s.conns (make_conn s.next_id) p, v.ids p c);
      alive = λ p c e h.
          ground (arith, get_elem?-append_one s.conns (make_conn s.next_id) p, v.alive p c);
      exact = λ p. ground (
        arith,
        get_elem?-append_one s.conns (make_conn s.next_id) p,
        lookup-insert s.next_id p (length s.conns) s.conn_dict,
        v.exact p,
      );
    }

pub accept-Inv :
    (s t : Server) (b : Bool) → accept s b ≡ done t → length t.conns ≤ 0x1_0000_0000 → Inv s → Inv t
accept-Inv s t b e few v = elim (accept_cases s t b e v.free) [
  | inl same ↦ subst Inv (sym same) v
  | inr r ↦
      subst Inv (sym r)
        (grown-Inv s (subst (λ (u : Server). length u.conns ≤ 0x1_0000_0000) r few) v)
]

pub start_conn-Inv : (s t : Server) (p : ℕ) → start_conn s p ≡ done t → Inv s → Inv t
unfolding start_conn
start_conn-Inv s t p e v = elim (Option-cases (get_elem? s.conns p)) [
  | inl f ↦ absurd (ground arith)
  | inr (c, f) ↦
      let (d, g, l, _) =
        run_hook_life (hook_of s.after_conn_start c.id) c
          (λ h. (v.alive p c f h).packet_chan_open) in
      subst Inv (ground arith) (
        replaced-Inv s p c d f l.id l.is_closed (λ h. ground (arith, v.alive p c f (ground arith)))
          v)
]

-- The number and the flag of a connection that was stopped, and where it stands.
Stopped-conn :
    (s : Server) {t : Server} (p : ℕ) (x : Stopped s t p)
    → Inv s
    → (x.signalled.id ≡ p) × (x.after.id ≡ p) × (x.after.is_closed ≡ true)
Stopped-conn s p x v = ground (
  arith,
  v.ids p x.before x.found,
  begin_stop_life (hook_of s.before_conn_stop x.before.id) x.before x.signalled x.begun,
  close_chans_life x.signalled x.after x.ended,
)

get_elem?-set_twice :
    (cs : List Conn) (p q : ℕ) (b c d : Conn)
    → get_elem? cs p ≡ some b
    → get_elem? (set (set cs p c) p d) q ≡ (if p == q then some d else get_elem? cs q)
get_elem?-set_twice cs p q b c d f =
    ground (arith, get_elem?-set (set cs p c) p q d, get_elem?-set cs p q c, f)

Stopped-Inv :
    (s : Server) {t : Server} (p : ℕ) (x : Stopped s t p)
    → Inv s
    → Inv (record s {
      conns = set (set s.conns p x.signalled) p x.after;
      conn_dict = delete x.signalled.id s.conn_dict;
      locked = false;
    })
Stopped-Inv s p x v =
    let (si, ai, ac) = Stopped-conn s p x v in
    let at = λ (q : ℕ). get_elem?-set_twice s.conns p q x.before x.signalled x.after x.found in
    record {
      free = refl;
      counter = ground (
        arith,
        v.counter,
        length-set (set s.conns p x.signalled) p x.after,
        length-set s.conns p x.signalled,
      );
      ids = λ q c e. ground (arith, at q, v.ids q c);
      alive = λ q c e h. ground (arith, at q, v.alive q c);
      exact = λ q. ground (arith, at q, v.exact q, lookup-delete x.signalled.id q s.conn_dict);
    }

pub stop-Inv : (s t : Server) (p : ℕ) → stop s p ≡ done t → Inv s → Inv t
stop-Inv s t p e v = elim (stop_cases s t p e) [
  | inl same ↦ subst Inv (sym same) v
  | inr x ↦ subst Inv (sym x.result) (Stopped-Inv s p x v)
]
