-- ===== src/Gnet/Reader.antt =====
-- The two loops of `StartReader` in go-server/gnet/conn.go. A socket is the list of the bytes that
-- the peer sends before it closes the connection.
pub mod Framing
pub mod Raw
pub mod Sound
use gopher.Prelude.{
  ℕ, zero, suc, ◌%◌, ◌≤◌, ◌≡◌, List, [], ◌∷◌, ◌++◌, Option, none, some, ltb, leb, ◌==◌, length, min,
  if◌then◌else◌, take, drop, Bool,
}
use gopher.Gnet.Base.{Conf, Error, Result, ok, err, eof, unexpected_eof, ◌>>=◌, IsU32}
use gopher.Gnet.Msg.{Msg, set_data, set_len, set_id}
use gopher.Gnet.Serializer.{pack, unpack, get_head_len}

-- `io.ReadFull` into a buffer of `n` bytes: the bytes read, and what is left in the socket.
pub read_full : ℕ → List ℕ → Result (List ℕ × List ℕ)
read_full n socket =
    if leb n (length socket)
    then ok (take n socket, drop n socket)
    else if length socket == 0
    then err eof
    else err unexpected_eof

-- The data of a message is read only when its length is not 0.
pub read_body : ℕ → List ℕ → Result (List ℕ × List ℕ)
unfolding read_full
read_body n socket = if ltb 0 n then read_full n socket else ok ([], socket)

-- One round of the loop, up to the request.
pub read_msg : Conf → List ℕ → Result (Msg × List ℕ)
unfolding read_full read_body unpack
read_msg conf socket = do
  (head, rest) ← read_full get_head_len socket
  msg ← unpack conf head
  (bytes, rest') ← read_body msg.len rest
  ok (set_data msg bytes, rest')

-- The messages that are passed on, in order, and the error that breaks the loop. `none` means that
-- the fuel ran out.
pub serialized_loop : ℕ → Conf → List ℕ → Option (List Msg × Error)
serialized_loop zero conf socket = none
serialized_loop (suc fuel) conf socket = elim (read_msg conf socket) [
  | err e ↦ some ([], e)
  | ok (msg, rest) ↦ elim (serialized_loop fuel conf rest) [
    | none ↦ none
    | some (msgs, e) ↦ some (msg ∷ msgs, e)
  ]
]

-- Every round takes a head of 8 bytes at least, so a round for each byte and one more are enough.
unfoldable pub start_reader : Conf → List ℕ → Option (List Msg × Error)
unfolding serialized_loop
start_reader conf socket = serialized_loop (suc (length socket)) conf socket

-- One `Read` into a buffer of `max_packet_size` bytes: the kernel has `offer` bytes at hand.
pub read_raw : Conf → ℕ → List ℕ → Msg
read_raw conf offer socket =
    let bytes = take (min offer conf.max_packet_size) socket in
    set_data
      (set_id (set_len (record { len = 0; id = 0; bytes = [] }) (length bytes % 0x1_0000_0000)) 0)
      bytes

-- The loop without the serializer; `offers` says how much each `Read` finds. It ends with `eof`, or
-- goes on past the offers that are listed.
pub raw_loop : Conf → List ℕ → List ℕ → List Msg × Option Error
unfolding read_raw
raw_loop conf [] socket = ([], none)
raw_loop conf (offer ∷ offers) [] = ([], some eof)
raw_loop conf (offer ∷ offers) (b ∷ socket) =
    let (msgs, e) = raw_loop conf offers (drop (min offer conf.max_packet_size) (b ∷ socket)) in
    (read_raw conf offer (b ∷ socket) ∷ msgs, e)

-- A message as `SendPacket` puts it on the wire, and a message that a reader accepts.
abbrev pub frame : Msg → List ℕ
frame msg = elim (pack msg) [ ok packet ↦ packet | err _ ↦ [] ]

abbrev pub wire : List Msg → List ℕ
wire [] = []
wire (msg ∷ msgs) = frame msg ++ wire msgs

pub record IsFrame (conf : Conf) (msg : Msg) : Type 0 where
  pub len_fits : IsU32 msg.len
  pub id_fits : IsU32 msg.id
  pub len_exact : length msg.bytes ≡ msg.len
  pub len_allowed : msg.len ≤ conf.max_packet_size
