-- ===== src/Gnet/Conn/Wire.antt =====
-- From `SendPacket` on one side to the reader on the other.
use mathlib.Core.List.{append-nil, append_assoc}
use gopher.Prelude.{
  ℕ, ◌≡◌, refl, sym, ap, ◌∙◌, List, [], ◌∷◌, ◌++◌, some, Bool, true, false, not, ◌||◌, arith, All,
}
use gopher.Gnet.Base.{Conf, ok, eof}
use gopher.Gnet.Outcome.{done}
use gopher.Gnet.Msg.{Msg, new_msg}
use gopher.Gnet.Reader.{frame, wire, IsFrame, start_reader}
use gopher.Gnet.Reader.Framing.{start_reader-wire_eof}
use gopher.Gnet.Conn.{
  Conn, make_conn, HookAction, prepare_packet, push_packet, write_packet, receive_closed,
  begin_stop, close_chans,
}
use gopher.Gnet.Conn.Closing.{run_hook_life}

-- A connection, the messages that its senders handed over, whether the writer still runs, and
-- whether one of its writes has failed.
pub record Link : Type 0 where
  pub conn : Conn
  pub sent : List Msg
  pub writing : Bool
  pub failed : Bool

-- A sender hands a packet over, the writer writes one or takes the signal, or the connection
-- stops and then closes its channels. A write may fail at any time, on a closed socket it does, and
-- then the writer ends, as it does with the signal.
pub data Step : Link → Link → Type 0 where
  send :
      (l : Link) (msg_id : ℕ) (bytes packet : List ℕ) (d : Conn)
      → prepare_packet l.conn msg_id bytes ≡ ok packet
      → push_packet l.conn packet ≡ done d
      → Step l (record l { conn = d; sent = l.sent ++ (new_msg msg_id bytes ∷ []) })
  write :
      (l : Link) (d : Conn) (written_ok more : Bool)
      → l.writing ≡ true
      → (l.conn.socket_closed ≡ true → written_ok ≡ false)
      → write_packet l.conn written_ok ≡ done (d, more)
      → Step l (record l { conn = d; writing = more; failed = l.failed || not written_ok })
  receive :
      (l : Link) (d : Conn) (more : Bool)
      → l.writing ≡ true
      → receive_closed l.conn ≡ done (d, more)
      → Step l (record l { conn = d; writing = more })
  stop :
      (l : Link) (hook : List HookAction) (d : Conn)
      → begin_stop hook l.conn ≡ done d
      → Step l (record l { conn = d })
  close : (l : Link) (d : Conn) → close_chans l.conn ≡ done d → Step l (record l { conn = d })

pub data Reach (s : Link) : Link → Type 0 where
  here : Reach s s
  next : {t u : Link} → Reach s t → Step t u → Reach s u

-- The bytes of the packets that wait.
abbrev flat : List (List ℕ) → List ℕ
flat [] = []
flat (p ∷ ps) = p ++ flat ps

flat-append : (ps qs : List (List ℕ)) → flat (ps ++ qs) ≡ flat ps ++ flat qs
flat-append [] qs = refl
flat-append (p ∷ ps) qs = ap (◌++◌ p) (flat-append ps qs) ∙ sym (append_assoc p (flat ps) (flat qs))

pub wire-append : (ms ns : List Msg) → wire (ms ++ ns) ≡ wire ms ++ wire ns
wire-append [] ns = refl
wire-append (m ∷ ms) ns =
    ap (◌++◌ (frame m)) (wire-append ms ns) ∙ sym (append_assoc (frame m) (wire ms) (wire ns))

-- When no write has failed, the bytes on the socket and the packets that wait are what was sent.
abbrev pub IsSound : Link → Type 0
IsSound l = l.failed ≡ false → l.conn.written ++ flat l.conn.packet_chan ≡ wire l.sent

frame-eq :
    (c : Conn) (msg_id : ℕ) (bytes packet : List ℕ)
    → prepare_packet c msg_id bytes ≡ ok packet
    → frame (new_msg msg_id bytes) ≡ packet
unfolding prepare_packet
frame-eq c msg_id bytes packet p = ground arith

push-IsSound :
    (l : Link) (msg_id : ℕ) (bytes packet : List ℕ) (d : Conn)
    → prepare_packet l.conn msg_id bytes ≡ ok packet
    → push_packet l.conn packet ≡ done d
    → l.conn.written ++ flat l.conn.packet_chan ≡ wire l.sent
    → d.written ++ flat d.packet_chan ≡ wire (l.sent ++ (new_msg msg_id bytes ∷ []))
unfolding prepare_packet push_packet
push-IsSound l msg_id bytes packet d p q v =
    let m = new_msg msg_id bytes in
    let c = l.conn in
    ground (
      arith,
      v,
      frame-eq c msg_id bytes packet p,
      flat-append c.packet_chan (packet ∷ []),
      wire-append l.sent (m ∷ []),
      append_assoc c.written (flat c.packet_chan) packet,
      append-nil packet,
    )

write-IsSound :
    (c d : Conn) (more : Bool)
    → write_packet c true ≡ done (d, more)
    → (chan : List (List ℕ)) → c.packet_chan ≡ chan
    → d.written ++ flat d.packet_chan ≡ c.written ++ flat c.packet_chan
unfolding write_packet
write-IsSound c d more e [] k = ground arith
write-IsSound c d more e (p ∷ ps) k = ground (arith, append_assoc c.written p (flat ps))

stop-IsSound :
    (hook : List HookAction) (c d : Conn)
    → begin_stop hook c ≡ done d
    → d.written ++ flat d.packet_chan ≡ c.written ++ flat c.packet_chan
unfolding begin_stop
stop-IsSound hook c d e =
    let (b, r, s, p) = run_hook_life hook (record c { is_closed = true }) (λ h. cc) in
    ground (arith, p refl)

write_step :
    (l : Link) (d : Conn) (written_ok more : Bool)
    → write_packet l.conn written_ok ≡ done (d, more)
    → IsSound l
    → (l.failed || not written_ok) ≡ false
    → d.written ++ flat d.packet_chan ≡ wire l.sent
write_step l d true more e v f =
    write-IsSound l.conn d more e l.conn.packet_chan refl ∙ v (ground arith)
write_step l d false more e v f = absurd (ground arith)

Step-IsSound : {l m : Link} → Step l m → IsSound l → IsSound m
Step-IsSound (send l msg_id bytes packet d p q) v =
    λ f. push-IsSound l msg_id bytes packet d p q (v f)
Step-IsSound (write l d written_ok more on closed e) v = write_step l d written_ok more e v
Step-IsSound (receive l d more on e) v = λ f. unfold receive_closed in ground (arith, v f)
Step-IsSound (stop l hook d e) v = λ f. stop-IsSound hook l.conn d e ∙ v f
Step-IsSound (close l d e) v = λ f. unfold close_chans in ground (arith, v f)

-- Whatever the senders and the writer do in turn, as long as no write has failed, the bytes on the socket followed by the packets
-- that wait are the messages that were handed over, in order, each as `pack` lays it out.
pub Reach-IsSound : {l m : Link} → Reach l m → IsSound l → IsSound m
Reach-IsSound here v = v
Reach-IsSound (next r s) v = Step-IsSound s (Reach-IsSound r v)

abbrev pub fresh : ℕ → Link
fresh id = record { conn = make_conn id; sent = []; writing = true; failed = false }

-- Once no sender waits, if no write of the writer has failed, also not one after the connection
-- stopped, a peer that reads the socket with the serializer gets the messages that were sent on the
-- connection, all of them and in order, when each fits the peer's maximum.
pub delivered :
    (conf : Conf) (id : ℕ) {l : Link}
    → Reach (fresh id) l
    → l.failed ≡ false
    → l.conn.packet_chan ≡ []
    → All (IsFrame conf) l.sent
    → start_reader conf l.conn.written ≡ some (l.sent, eof)
delivered conf id {l} r written drained frames =
    ap (start_reader conf) (
      sym (append-nil l.conn.written)
      ∙ ap (λ (c : List (List ℕ)). l.conn.written ++ flat c) (sym drained)
      ∙ Reach-IsSound r (λ f. refl) written)
    ∙ start_reader-wire_eof conf l.sent frames
