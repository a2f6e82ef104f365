-- ===== src/Gnet/Conn.antt =====
-- go-server/gnet/conn.go without the reader: a connection, its two channels, its properties and its
-- writer. The properties are the texts that the program stores.
pub mod Closing
pub mod Wire
use Prim.Native.String.{String}
use gopher.Prelude.{
  ℕ, ◌+◌, ◌-◌, ◌<◌, ◌≡◌, List, [], ◌∷◌, ◌++◌, Option, none, some, Bool, true, false, ltb,
  if◌then◌else◌,
}
use gopher.Prelude.Dict.{Dict, lookup, insert, delete}
use gopher.Prelude.Classes.{string_key}
use gopher.Gnet.Base.{Error, Result, ok, err, conn_closed}
use gopher.Gnet.Outcome.{Outcome, done, blocked, panics}
use gopher.Gnet.Msg.{Msg, new_msg}
use gopher.Gnet.Serializer.{pack}

-- `packet_chan` holds the packets of the goroutines that wait in a send, oldest first, since the
-- channel has no buffer; `closed_signals` is the content of `ClosedChan`, which has room for one.
pub record Conn : Type 0 where
  pub id : ℕ
  pub is_closed : Bool
  pub prop_dict : Dict String String
  pub socket_closed : Bool
  pub closed_signals : ℕ
  pub closed_chan_closed : Bool
  pub packet_chan : List (List ℕ)
  pub packet_chan_closed : Bool
  pub written : List ℕ

abbrev pub make_conn : ℕ → Conn
make_conn id = record {
  id = id;
  is_closed = false;
  prop_dict = [];
  socket_closed = false;
  closed_signals = 0;
  closed_chan_closed = false;
  packet_chan = [];
  packet_chan_closed = false;
  written = [];
}

-- `SendPacket` up to the send: the text of the error names the message, as the source has it.
unfoldable pub prepare_packet : Conn → ℕ → List ℕ → Result (List ℕ)
prepare_packet c msg_id bytes =
    if c.is_closed then err (conn_closed msg_id) else pack (new_msg msg_id bytes)

-- `PacketChan <- packet`. A send on a closed channel panics.
unfoldable pub push_packet : Conn → List ℕ → Outcome Conn
push_packet c packet =
    if c.packet_chan_closed
    then panics
    else done (record c { packet_chan = c.packet_chan ++ (packet ∷ []) })

-- The two in one go; the second part is the error that the caller gets.
unfoldable pub send_packet : Conn → ℕ → List ℕ → Outcome (Conn × Option Error)
send_packet c msg_id bytes = elim (prepare_packet c msg_id bytes) [
  | err e ↦ done (c, some e)
  | ok packet ↦ elim (push_packet c packet) [
    | done c' ↦ done (c', none)
    | blocked ↦ blocked
    | panics ↦ panics
  ]
]

unfoldable pub set_prop : Conn → String → String → Conn
set_prop c key value = record c { prop_dict = insert key value c.prop_dict }

unfoldable pub get_prop : Conn → String → Option String
get_prop c key = lookup key c.prop_dict

unfoldable pub del_prop : Conn → String → Conn
del_prop c key = record c { prop_dict = delete key c.prop_dict }

-- The two cases of the `select` in `StartWriter`: the new state, and whether the loop goes on.
-- `written_ok` says whether the write succeeds. A closed and empty channel yields a nil packet.
unfoldable pub write_packet : Conn → Bool → Outcome (Conn × Bool)
write_packet c written_ok = elim c.packet_chan [
  | packet ∷ rest ↦
      if written_ok
      then done (record c { packet_chan = rest; written = c.written ++ packet }, true)
      else done (record c { packet_chan = rest }, false)
  | [] ↦ if c.packet_chan_closed then done (c, written_ok) else blocked
]

unfoldable pub receive_closed : Conn → Outcome (Conn × Bool)
receive_closed c =
    if ltb 0 c.closed_signals
    then done (record c { closed_signals = c.closed_signals - 1 }, false)
    else if c.closed_chan_closed
    then done (c, false)
    else blocked

-- What a hook does with the connection that it is given.
pub data HookAction : Type 0 where
  send : ℕ → List ℕ → HookAction
  put : String → String → HookAction
  remove : String → HookAction

unfoldable pub run_hook : List HookAction → Conn → Outcome Conn
run_hook [] c = done c
run_hook (send msg_id bytes ∷ actions) c = elim (send_packet c msg_id bytes) [
  | done (c', _) ↦ run_hook actions c'
  | blocked ↦ blocked
  | panics ↦ panics
]
run_hook (put key value ∷ actions) c = run_hook actions (set_prop c key value)
run_hook (remove key ∷ actions) c = run_hook actions (del_prop c key)

-- The steps of `Stop` before the dictionary: the flag, and behind the hook the socket and the signal
-- for the writer, of which `ClosedChan` takes one.
abbrev pub raise_flag : Conn → Conn
raise_flag c = record c { is_closed = true }

abbrev pub signal_closed : Conn → Outcome Conn
signal_closed c =
    if c.closed_chan_closed
    then panics
    else if ltb c.closed_signals 1
    then done (record c { socket_closed = true; closed_signals = c.closed_signals + 1 })
    else blocked

unfoldable pub begin_stop : List HookAction → Conn → Outcome Conn
begin_stop hook c = elim (run_hook hook (raise_flag c)) [
  | blocked ↦ blocked
  | panics ↦ panics
  | done c' ↦ signal_closed c'
]

-- `Stop` after the connection left the dictionary. To close a channel twice panics, and so do the
-- goroutines that wait to send on it.
unfoldable pub close_chans : Conn → Outcome Conn
close_chans c =
    if c.closed_chan_closed
    then panics
    else if c.packet_chan_closed
    then panics
    else elim c.packet_chan [
      | _ ∷ _ ↦ panics
      | [] ↦ done (record c { closed_chan_closed = true; packet_chan_closed = true })
    ]
