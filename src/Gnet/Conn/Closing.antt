-- ===== src/Gnet/Conn/Closing.antt =====
-- What is left of a connection when it stops, and who fails then.
use gopher.Prelude.{
  ℕ, ◌+◌, ◌≡◌, refl, List, [], ◌∷◌, ◌++◌, Option, none, some, true, false, arith, Bool-cases, inl,
  inr,
}
use gopher.Prelude.Classes.{string_key}
use gopher.Gnet.Base.{Error, ok, conn_closed}
use gopher.Gnet.Outcome.{done, panics}
use gopher.Gnet.Msg.{new_msg}
use gopher.Gnet.Serializer.{pack}
use gopher.Gnet.Reader.{frame}
use gopher.Gnet.Conn.{
  Conn, HookAction, send, put, remove, prepare_packet, push_packet, send_packet, set_prop, del_prop,
  run_hook, begin_stop, close_chans,
}

-- What a hook cannot change.
pub record SameLife (c d : Conn) : Type 0 where
  pub id : d.id ≡ c.id
  pub is_closed : d.is_closed ≡ c.is_closed
  pub socket_closed : d.socket_closed ≡ c.socket_closed
  pub closed_signals : d.closed_signals ≡ c.closed_signals
  pub closed_chan_closed : d.closed_chan_closed ≡ c.closed_chan_closed
  pub packet_chan_closed : d.packet_chan_closed ≡ c.packet_chan_closed
  pub written : d.written ≡ c.written

SameLife-trans : {c d e : Conn} → SameLife c d → SameLife d e → SameLife c e
SameLife-trans s t = ground arith

-- A send neither waits nor panics while the channel is open.
pub send_packet_life :
    (c : Conn) (msg_id : ℕ) (bytes : List ℕ)
    → (c.is_closed ≡ false → c.packet_chan_closed ≡ false)
    → (d : Conn) × (r : Option Error) × (send_packet c msg_id bytes ≡ done (d, r))
      × SameLife c d
      × (c.is_closed ≡ true → d.packet_chan ≡ c.packet_chan)
unfolding send_packet prepare_packet push_packet pack
send_packet_life c msg_id bytes alive = elim (Bool-cases c.is_closed) [
  | inl e ↦ (c, some (conn_closed msg_id), ground arith, ground arith, λ _. refl)
  | inr e ↦ (
    record c { packet_chan = c.packet_chan ++ (frame (new_msg msg_id bytes) ∷ []) },
    none,
    ground (arith, alive e),
    ground arith,
    λ h. cc,
  )
]

-- A hook ends and keeps the life of the connection; on a closed connection it sends nothing.
pub run_hook_life :
    (actions : List HookAction) (c : Conn)
    → (c.is_closed ≡ false → c.packet_chan_closed ≡ false)
    → (d : Conn) × (run_hook actions c ≡ done d)
      × SameLife c d
      × (c.is_closed ≡ true → d.packet_chan ≡ c.packet_chan)
unfolding run_hook set_prop del_prop
run_hook_life [] c alive = (c, refl, ground arith, λ _. refl)
run_hook_life (put key value ∷ actions) c alive =
    let (d, e, s, p) = run_hook_life actions (set_prop c key value) alive in (d, e, ground arith, p)
run_hook_life (remove key ∷ actions) c alive =
    let (d, e, s, p) = run_hook_life actions (del_prop c key) alive in (d, e, ground arith, p)
run_hook_life (send msg_id bytes ∷ actions) c alive =
    let (b, r, e, s, p) = send_packet_life c msg_id bytes alive in
    let (d, f, t, q) = run_hook_life actions b (λ h. ground (arith, alive)) in
    (d, ground arith, SameLife-trans s t, λ h. ground (arith, p h, q))

-- The parts of `Stop` around the dictionary, one after the other, on an open connection that nobody
-- sends on, with a hook that sends or sets properties of the connection: both end, the socket is closed, one signal waits for the
-- writer and both channels are closed.
pub begin_stop-close_chans :
    (hook : List HookAction) (c : Conn)
    → c.is_closed ≡ false
    → c.closed_signals ≡ 0
    → c.closed_chan_closed ≡ false
    → c.packet_chan_closed ≡ false
    → c.packet_chan ≡ []
    → (d e : Conn) × (begin_stop hook c ≡ done d)
      × (close_chans d ≡ done e)
      × (e.id ≡ c.id)
      × (e.is_closed ≡ true)
      × (e.socket_closed ≡ true)
      × (e.closed_signals ≡ 1)
      × (e.closed_chan_closed ≡ true)
      × (e.packet_chan_closed ≡ true)
unfolding begin_stop close_chans
begin_stop-close_chans hook c o z k l w =
    let (b, r, s, p) = run_hook_life hook (record c { is_closed = true }) (λ h. cc) in
    let d : Conn = record b { socket_closed = true; closed_signals = b.closed_signals + 1 } in
    (
      d,
      record d { closed_chan_closed = true; packet_chan_closed = true },
      ground arith,
      ground (arith, p refl),
      ground arith,
      ground arith,
      refl,
      ground arith,
      refl,
      refl,
    )

-- The senders that still wait when the channel is closed panic.
pub close_chans_panics :
    (c : Conn) (packet : List ℕ) (rest : List (List ℕ))
    → c.packet_chan ≡ packet ∷ rest
    → close_chans c ≡ panics
unfolding close_chans
close_chans_panics c packet rest e = ground arith

-- A goroutine that found the connection open panics if the connection stops before its send.
pub send-after-stop :
    (c d e : Conn) (hook : List HookAction) (msg_id : ℕ) (bytes packet : List ℕ)
    → prepare_packet c msg_id bytes ≡ ok packet
    → begin_stop hook c ≡ done d
    → close_chans d ≡ done e
    → push_packet e packet ≡ panics
unfolding close_chans push_packet
send-after-stop c d e hook msg_id bytes packet p b k = ground arith

pub begin_stop_life :
    (hook : List HookAction) (c d : Conn)
    → begin_stop hook c ≡ done d
    → (d.id ≡ c.id) × (d.is_closed ≡ true)
unfolding begin_stop
begin_stop_life hook c d e =
    let (b, r, s, p) = run_hook_life hook (record c { is_closed = true }) (λ h. cc) in ground arith

pub close_chans_life :
    (c d : Conn) → close_chans c ≡ done d → (d.id ≡ c.id) × (d.is_closed ≡ c.is_closed)
unfolding close_chans
close_chans_life c d e = ground arith
