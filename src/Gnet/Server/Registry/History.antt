-- ===== src/Gnet/Server/Registry/History.antt =====
-- The registry in every state that a server reaches.
use Prim.Native.String.{String}
use gopher.Prelude.{
  ℕ, ◌≤◌, ◌≡◌, refl, subst, List, [], ◌∷◌, Option, some, Bool, arith, length, get_elem?, set,
  length-append, length-set, inl, inr, Option-cases,
}
use gopher.Prelude.Dict.{Dict, lookup}
use gopher.Prelude.Classes.{nat_key}
use gopher.Gnet.Base.{Conf, Error}
use gopher.Gnet.Outcome.{done, Outcome-cases}
use gopher.Gnet.Conn.{
  Conn, make_conn, send_packet, set_prop, del_prop, write_packet, receive_closed, run_hook,
}
use gopher.Gnet.Conn.Closing.{send_packet_life}
use gopher.Gnet.Server.{Server, new_server, hook_of, add_conn, stop, new_conn, start_conn, accept}
use gopher.Gnet.Server.Registry.{Inv, replaced-Inv, accept-Inv, start_conn-Inv, stop-Inv}
use gopher.Gnet.Server.Steps.{
  Step, accepts, starts, stops, sends, writes, receives, puts, removes, Reach, here, next,
  stop_cases,
}

-- Sends, writes and signals keep a connection as the registry sees it.
send-Inv :
    (s : Server) (p : ℕ) (c d : Conn) (msg_id : ℕ) (bytes : List ℕ) (x : Option Error)
    → get_elem? s.conns p ≡ some c
    → send_packet c msg_id bytes ≡ done (d, x)
    → Inv s
    → Inv (record s { conns = set s.conns p d })
send-Inv s p c d msg_id bytes x f e v =
    let (b, r, g, l, _) =
      send_packet_life c msg_id bytes (λ h. (v.alive p c f h).packet_chan_open) in
    let same : b ≡ d = ground arith in
    subst (λ (k : Conn). Inv (record s { conns = set s.conns p k })) same
      (replaced-Inv s p c b f l.id l.is_closed (λ h. ground (arith, v.alive p c f (ground arith)))
        v)

write-Inv :
    (s : Server) (p : ℕ) (c d : Conn) (ok more : Bool)
    → get_elem? s.conns p ≡ some c
    → write_packet c ok ≡ done (d, more)
    → Inv s
    → Inv (record s { conns = set s.conns p d })
unfolding write_packet
write-Inv s p c d ok more f e v =
    replaced-Inv s p c d f (ground arith) (ground arith)
      (λ h. ground (arith, v.alive p c f (ground arith))) v

receive-Inv :
    (s : Server) (p : ℕ) (c d : Conn) (more : Bool)
    → get_elem? s.conns p ≡ some c
    → receive_closed c ≡ done (d, more)
    → Inv s
    → Inv (record s { conns = set s.conns p d })
unfolding receive_closed
receive-Inv s p c d more f e v =
    replaced-Inv s p c d f (ground arith) (ground arith)
      (λ h. absurd (ground (arith, v.alive p c f (ground arith)))) v

props-Inv :
    (s : Server) (p : ℕ) (c : Conn) (m : Dict String String)
    → get_elem? s.conns p ≡ some c
    → Inv s
    → Inv (record s { conns = set s.conns p (record c { prop_dict = m }) })
props-Inv s p c m f v = replaced-Inv s p c _ f refl refl (λ h. ground (arith, v.alive p c f h)) v

Step-Inv : {s t : Server} → Step s t → length t.conns ≤ 0x1_0000_0000 → Inv s → Inv t
Step-Inv (accepts s b t e) few v = accept-Inv s t b e few v
Step-Inv (starts s p t e) few v = start_conn-Inv s t p e v
Step-Inv (stops s p t e) few v = stop-Inv s t p e v
Step-Inv (sends s p c d i b x f e) few v = send-Inv s p c d i b x f e v
Step-Inv (writes s p c d o m f e) few v = write-Inv s p c d o m f e v
Step-Inv (receives s p c d m f e) few v = receive-Inv s p c d m f e v
Step-Inv (puts s p c k w f) few v = unfold set_prop in props-Inv s p c _ f v
Step-Inv (removes s p c k f) few v = unfold del_prop in props-Inv s p c _ f v

accept-length-le : (s t : Server) (b : Bool) → accept s b ≡ done t → length s.conns ≤ length t.conns
unfolding accept new_conn add_conn
accept-length-le s t b e = ground (arith, length-append s.conns (make_conn s.next_id ∷ []))

start_conn-length-le :
    (s t : Server) (p : ℕ) → start_conn s p ≡ done t → length s.conns ≤ length t.conns
unfolding start_conn
start_conn-length-le s t p e = elim (Option-cases (get_elem? s.conns p)) [
  | inl f ↦ absurd (ground arith)
  | inr (c, f) ↦ elim (Outcome-cases (run_hook (hook_of s.after_conn_start c.id) c)) [
    | inl (d, g) ↦ ground (arith, length-set s.conns p d)
    | inr (inl g) ↦ absurd (ground arith)
    | inr (inr g) ↦ absurd (ground arith)
  ]
]

stop-length-le : (s t : Server) (p : ℕ) → stop s p ≡ done t → length s.conns ≤ length t.conns
stop-length-le s t p e = elim (stop_cases s t p e) [
  | inl same ↦ rw same (omega arith)
  | inr x ↦ rw x.result (
      omega
        (arith, length-set (set s.conns p x.signalled) p x.after, length-set s.conns p x.signalled))
]

Step-length-le : {s t : Server} → Step s t → length s.conns ≤ length t.conns
Step-length-le (accepts s b t e) = accept-length-le s t b e
Step-length-le (starts s p t e) = start_conn-length-le s t p e
Step-length-le (stops s p t e) = stop-length-le s t p e
Step-length-le (sends s p c d i b x f e) = omega (arith, length-set s.conns p d)
Step-length-le (writes s p c d o m f e) = omega (arith, length-set s.conns p d)
Step-length-le (receives s p c d m f e) = omega (arith, length-set s.conns p d)
Step-length-le (puts s p c k w f) = omega (arith, length-set s.conns p (set_prop c k w))
Step-length-le (removes s p c k f) = omega (arith, length-set s.conns p (del_prop c k))

new_server-Inv : (conf : Conf) → Inv (new_server conf)
unfolding lookup
new_server-Inv conf = record {
  free = refl;
  counter = refl;
  ids = λ p c e. absurd (ground arith);
  alive = λ p c e h. absurd (ground arith);
  exact = λ p. refl;
}

-- As long as the numbers do not wrap, every state that a new server reaches has the lock free and
-- registers exactly its open connections, each under its own number.
pub Reach-Inv :
    (conf : Conf) {s : Server} → Reach (new_server conf) s → length s.conns ≤ 0x1_0000_0000 → Inv s
Reach-Inv conf here few = new_server-Inv conf
Reach-Inv conf (next {t = t} r st) few =
    Step-Inv st few (Reach-Inv conf r (omega (arith, Step-length-le st)))
