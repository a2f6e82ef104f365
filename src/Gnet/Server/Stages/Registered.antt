-- ===== src/Gnet/Server/Stages/Registered.antt =====
-- The dictionary of go-server/gnet/conn_man.go in every state, while goroutines of `Stop` and
-- `DelAllConn` run step by step.
use gopher.Prelude.{
  ℕ, ◌+◌, ◌%◌, ◌≤◌, ◌≡◌, refl, sym, subst, List, [], ◌∷◌, ◌++◌, Option, some, Bool, true, false,
  ◌==◌, arith, length, get_elem?, get_elem?-some, get_elem?-append_one, length-append, length-set,
  member, ◌⊎◌, inl, inr, Bool-cases,
}
use gopher.Prelude.Dict.{lookup, insert, delete, lookup-insert}
use gopher.Prelude.Classes.{nat_key}
use gopher.Gnet.Base.{Conf, Error}
use gopher.Gnet.Outcome.{done}
use gopher.Gnet.Conn.{
  Conn, make_conn, send_packet, prepare_packet, push_packet, set_prop, del_prop, write_packet,
  receive_closed, raise_flag, signal_closed, close_chans,
}
use gopher.Gnet.Server.{Server, lock, unlock, add_conn, del_conn, new_conn, accept}
use gopher.Gnet.Server.Stages.{
  Life, start_life, remove_one, put_conn, Stage, accepts, sends, writes, receives, puts, removes,
  checks, flags, signals, deletes, closes, shuts, drops, ends, Lived, here, next,
}
use gopher.Gnet.Server.Stages.Tracked.{
  IsTracked, replaced-IsTracked, same_stops-IsTracked, flags-IsTracked, signals_same,
  dropped-IsTracked, member-remove_one,
}

abbrev grown : Server → Server
grown s = record s {
  conns = s.conns ++ (make_conn s.next_id ∷ []);
  conn_dict = insert s.next_id (length s.conns) s.conn_dict;
  locked = false;
  next_id = (s.next_id + 1) % 0x1_0000_0000;
}

accept_grows :
    (s t : Server) (b : Bool) → accept s b ≡ done t → (t ≡ s) ⊎ ((s.locked ≡ false) × (t ≡ grown s))
unfolding accept new_conn add_conn
accept_grows s t b e = elim (Bool-cases s.locked) [
  | inl y ↦ inl (ground arith)
  | inr n ↦ ground arith
]

grown-IsTracked :
    (l : Life)
    → length (grown l.server).conns ≤ 0x1_0000_0000
    → l.server.locked ≡ false
    → IsTracked l
    → IsTracked (record l { server = grown l.server })
grown-IsTracked l few free v =
    let s = l.server in
    let n = length-append s.conns (make_conn s.next_id ∷ []) in
    let num : s.next_id ≡ length s.conns = omega (arith, v.counter) in
    let at = λ (p : ℕ). get_elem?-append_one s.conns (make_conn s.next_id) p in
    let found = λ (p : ℕ). lookup-insert s.next_id p (length s.conns) s.conn_dict in
    let old : (p : ℕ) (c : Conn)
        → get_elem? s.conns p ≡ some c
        → get_elem? (grown s).conns p ≡ some c =
      (λ p c g. let lt = get_elem?-some s.conns p g in ground (arith, at p)) in
    record {
      counter = omega arith;
      ids = λ p c e. ground (arith, at p, v.ids p c);
      open_registered = λ p c e h. ground (arith, at p, found p, v.open_registered p c);
      entry = λ id p e. elim (Bool-cases (s.next_id == id)) [
        | inl q ↦
            let place : p ≡ length s.conns = ground (arith, found id) in
            (ground arith, make_conn s.next_id, ground (arith, at p), inl refl)
        | inr q ↦
            let (same, c, g, r) = v.entry id p (ground (arith, found id)) in (same, c, old p c g, r)
      ];
      stopped = λ p k. let (c, g, r) = v.stopped p k in (c, old p c g, r);
      locked = ground (arith, v.locked);
    }

accept-IsTracked :
    (l : Life) (t : Server) (b : Bool)
    → accept l.server b ≡ done t
    → length t.conns ≤ 0x1_0000_0000
    → IsTracked l
    → IsTracked (record l { server = t })
accept-IsTracked l t b e few v = elim (accept_grows l.server t b e) [
  | inl same ↦ subst (λ (u : Server). IsTracked (record l { server = u })) (sym same) v
  | inr r ↦
      subst (λ (u : Server). IsTracked (record l { server = u })) (sym r.1)
        (grown-IsTracked l (subst (λ (u : Server). length u.conns ≤ 0x1_0000_0000) r.1 few) r.0 v)
]

send_same :
    (c d : Conn) (msg_id : ℕ) (bytes : List ℕ) (e : Option Error)
    → send_packet c msg_id bytes ≡ done (d, e)
    → (d.id ≡ c.id) × (d.is_closed ≡ c.is_closed)
unfolding send_packet prepare_packet push_packet
send_same c d msg_id bytes e h = ground arith

write_same :
    (c d : Conn) (written_ok more : Bool)
    → write_packet c written_ok ≡ done (d, more)
    → (d.id ≡ c.id) × (d.is_closed ≡ c.is_closed)
unfolding write_packet
write_same c d written_ok more h = ground arith

receive_same :
    (c d : Conn) (more : Bool)
    → receive_closed c ≡ done (d, more)
    → (d.id ≡ c.id) × (d.is_closed ≡ c.is_closed)
unfolding receive_closed
receive_same c d more h = ground arith

signal_same : (c d : Conn) → signal_closed c ≡ done d → (d.id ≡ c.id) × (d.is_closed ≡ c.is_closed)
signal_same c d h = ground arith

close_same : (c d : Conn) → close_chans c ≡ done d → (d.id ≡ c.id) × (d.is_closed ≡ c.is_closed)
unfolding close_chans
close_same c d h = ground arith

signals-IsTracked :
    (l : Life) (p : ℕ) (c d : Conn)
    → member p l.flagged ≡ true
    → get_elem? l.server.conns p ≡ some c
    → signal_closed c ≡ done d
    → IsTracked l
    → IsTracked (record l {
      server = put_conn l.server p d;
      flagged = remove_one p l.flagged;
      signalled = p ∷ l.signalled;
    })
signals-IsTracked l p c d m f e v =
    let put = record l { server = put_conn l.server p d } in
    let kept = replaced-IsTracked l p c d f (signal_same c d e).0 (signal_same c d e).1 v in
    same_stops-IsTracked put
      (record put { flagged = remove_one p l.flagged; signalled = p ∷ l.signalled }) refl refl
      (λ q. signals_same l p q m) kept

deletes-IsTracked :
    (l : Life) (p : ℕ) (c : Conn) (t : Server)
    → member p l.signalled ≡ true
    → get_elem? l.server.conns p ≡ some c
    → del_conn l.server c.id ≡ done t
    → IsTracked l
    → IsTracked
        (record l { server = t; signalled = remove_one p l.signalled; deleted = p ∷ l.deleted })
unfolding del_conn
deletes-IsTracked l p c t m f e v =
    let (b, g, closed) = v.stopped p (ground arith) in
    dropped-IsTracked l
      (record l { server = t; signalled = remove_one p l.signalled; deleted = p ∷ l.deleted }) p
      (ground (arith, v.ids p c f, v.locked)) (λ x h. ground arith)
      (λ q n. ground (arith, member-remove_one p q l.signalled n)) (λ k. ground arith) v

drops-IsTracked :
    (l : Life) (id p : ℕ) (c : Conn)
    → lookup id l.server.conn_dict ≡ some p
    → get_elem? l.server.conns p ≡ some c
    → c.is_closed ≡ true
    → IsTracked l
    → IsTracked (record l { server = record l.server { conn_dict = delete id l.server.conn_dict } })
drops-IsTracked l id p c e f closed v =
    let same : id ≡ p = (v.entry id p e).0 in
    subst
      (λ i.
        IsTracked
          (record l { server = record l.server { conn_dict = delete i l.server.conn_dict } }))
      (sym same)
      (dropped-IsTracked l
        (record l { server = record l.server { conn_dict = delete p l.server.conn_dict } }) p
        (ground (arith, v.locked)) (λ x h. ground arith) (λ q n. refl) (λ k. k) v)

lock-IsTracked :
    (l : Life) (t : Server)
    → lock l.server ≡ done t
    → IsTracked l
    → IsTracked (record l { server = t; shutting = true })
lock-IsTracked l t e v =
    let is : t ≡ record l.server { locked = true } = ground arith in
    subst (λ (u : Server). IsTracked (record l { server = u; shutting = true })) (sym is)
      record {
        counter = v.counter;
        ids = v.ids;
        open_registered = v.open_registered;
        entry = v.entry;
        stopped = v.stopped;
        locked = refl;
      }

unlock-IsTracked :
    (l : Life) → IsTracked l → IsTracked (record l { server = unlock l.server; shutting = false })
unlock-IsTracked l v = record {
  counter = v.counter;
  ids = v.ids;
  open_registered = v.open_registered;
  entry = v.entry;
  stopped = v.stopped;
  locked = refl;
}

Stage-IsTracked :
    {l m : Life} → Stage l m → length m.server.conns ≤ 0x1_0000_0000 → IsTracked l → IsTracked m
Stage-IsTracked (accepts l b t e) few v = accept-IsTracked l t b e few v
Stage-IsTracked (sends l p c d i b x f e) few v =
    let (same, flag) = send_same c d i b x e in replaced-IsTracked l p c d f same flag v
Stage-IsTracked (writes l p c d o m f e) few v =
    let (same, flag) = write_same c d o m e in replaced-IsTracked l p c d f same flag v
Stage-IsTracked (receives l p c d m f e) few v =
    let (same, flag) = receive_same c d m e in replaced-IsTracked l p c d f same flag v
Stage-IsTracked (puts l p c k w f) few v =
    unfold set_prop in replaced-IsTracked l p c _ f refl refl v
Stage-IsTracked (removes l p c k f) few v =
    unfold del_prop in replaced-IsTracked l p c _ f refl refl v
Stage-IsTracked (checks l p c f o) few v =
    same_stops-IsTracked l (record l { checked = p ∷ l.checked }) refl refl (λ q. refl) v
Stage-IsTracked (flags l p c m f) few v = flags-IsTracked l p c f v
Stage-IsTracked (signals l p c d m f e) few v = signals-IsTracked l p c d m f e v
Stage-IsTracked (deletes l p c t m f e) few v = deletes-IsTracked l p c t m f e v
Stage-IsTracked (closes l p c d m f e) few v =
    let (same, flag) = close_same c d e in
    let put = record l { server = put_conn l.server p d } in
    same_stops-IsTracked put (record put { deleted = remove_one p l.deleted }) refl refl (λ q. refl)
      (replaced-IsTracked l p c d f same flag v)
Stage-IsTracked (shuts l t e) few v = lock-IsTracked l t e v
Stage-IsTracked (drops l id p c on e f closed) few v = drops-IsTracked l id p c e f closed v
Stage-IsTracked (ends l on e) few v = unlock-IsTracked l v

Stage-length-le : {l m : Life} → Stage l m → length l.server.conns ≤ length m.server.conns
Stage-length-le (accepts l b t e) = elim (accept_grows l.server t b e) [
  | inl same ↦ ground arith
  | inr r ↦ ground (arith, r.1, length-append l.server.conns (make_conn l.server.next_id ∷ []))
]
Stage-length-le (sends l p c d i b x f e) = omega (arith, length-set l.server.conns p d)
Stage-length-le (writes l p c d o m f e) = omega (arith, length-set l.server.conns p d)
Stage-length-le (receives l p c d m f e) = omega (arith, length-set l.server.conns p d)
Stage-length-le (puts l p c k w f) = omega (arith, length-set l.server.conns p (set_prop c k w))
Stage-length-le (removes l p c k f) = omega (arith, length-set l.server.conns p (del_prop c k))
Stage-length-le (checks l p c f o) = omega arith
Stage-length-le (flags l p c m f) = omega (arith, length-set l.server.conns p (raise_flag c))
Stage-length-le (signals l p c d m f e) = omega (arith, length-set l.server.conns p d)
Stage-length-le (deletes l p c t m f e) = unfold del_conn in ground arith
Stage-length-le (closes l p c d m f e) = omega (arith, length-set l.server.conns p d)
Stage-length-le (shuts l t e) = ground arith
Stage-length-le (drops l id p c on e f closed) = omega arith
Stage-length-le (ends l on e) = omega arith

start_life-IsTracked : (conf : Conf) → IsTracked (start_life conf)
unfolding lookup
start_life-IsTracked conf = record {
  counter = refl;
  ids = λ p c e. absurd (ground arith);
  open_registered = λ p c e h. absurd (ground arith);
  entry = λ id p e. absurd (ground arith);
  stopped = λ p e. absurd (ground arith);
  locked = refl;
}

-- However the accept loop, the senders and writers, the goroutines of `Stop`, also two for one
-- connection, and the loop of `DelAllConn` interleave, as long as the numbers of the connections do
-- not wrap: every open connection is registered under its number; an entry is for the connection of
-- that number, which is open, or closed with a goroutine on its way to take it out; and the lock is
-- held between the steps exactly while `DelAllConn` is in its loop.
pub Lived-IsTracked :
    (conf : Conf) {l : Life}
    → Lived (start_life conf) l
    → length l.server.conns ≤ 0x1_0000_0000
    → IsTracked l
Lived-IsTracked conf here few = start_life-IsTracked conf
Lived-IsTracked conf (next {m = m} r st) few =
    Stage-IsTracked st few (Lived-IsTracked conf r (omega (arith, Stage-length-le st)))
