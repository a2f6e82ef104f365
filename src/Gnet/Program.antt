-- ===== src/Gnet/Program.antt =====
-- go-server/main.go: the server with its two routes and its two hooks, for one connection.
pub mod Talk
use Prim.Native.String.{String}
use gopher.Prelude.{ℕ, zero, suc, ◌+◌, ◌/◌, ◌%◌, List, [], ◌∷◌, ◌++◌, true, length}
use gopher.Gnet.Base.{Conf}
use gopher.Gnet.Outcome.{Outcome, done, blocked, panics, ◌>>=◌}
use gopher.Gnet.Msg.{Msg}
use gopher.Gnet.Handler.{Req, Route, base_route, ReqHandler, new_req_handler, bind_route, use_route}
use gopher.Gnet.Conn.{Conn, HookAction, send, put, send_packet, write_packet}

abbrev pub ping : List ℕ
ping = b'p' ∷ b'i' ∷ b'n' ∷ b'g' ∷ []

abbrev pub echo : List ℕ
echo = b'e' ∷ b'c' ∷ b'h' ∷ b'o' ∷ []

-- Both handlers send a packet on the connection of the request, and only log an error of that.
unfoldable pub reply : ℕ → List ℕ → Outcome Conn → Outcome Conn
reply msg_id bytes w = do c ← w; sent ← send_packet c msg_id bytes; done sent.0

abbrev pub ping_route : Route (Outcome Conn)
ping_route = record base_route { msg_handler = λ req w. reply 200 ping w }

abbrev pub echo_route : Route (Outcome Conn)
echo_route = record base_route { msg_handler = λ req w. reply 201 echo w }

-- `%d` of a number that is not negative; a digit for each round, and there are fewer digits than the
-- number has units.
unfoldable pub digits : ℕ → ℕ → List ℕ → List ℕ
digits zero n rest = rest
digits (suc fuel) n rest = elim (n / 10) [
  | zero ↦ (48 + n % 10) ∷ rest
  | suc m ↦ digits fuel (suc m) ((48 + n % 10) ∷ rest)
]

abbrev pub starting : List ℕ
starting =
    b'S' ∷ b't' ∷ b'a' ∷ b'r' ∷ b't' ∷ b'i' ∷ b'n' ∷ b'g' ∷ 32 ∷ b'c' ∷ b'o' ∷ b'n' ∷ b'n' ∷ b'e'
    ∷ b'c' ∷ b't' ∷ b'i' ∷ b'o' ∷ b'n' ∷ 32 ∷ b'I' ∷ b'D' ∷ 32 ∷ b'=' ∷ 32 ∷ []

-- `afterConnStart`, for the number of the connection.
unfoldable pub after_conn_start : ℕ → List HookAction
after_conn_start id =
    send 200 (starting ++ digits (suc id) id [])
    ∷ put "Username" "Tiancheng"
    ∷ put "Homepage" "https://161043261.github.io/"
    ∷ []

-- `beforeConnStop` only reads properties and logs them.
abbrev pub before_conn_stop : List HookAction
before_conn_stop = []

-- The handler that `main` sets up.
unfoldable pub main_handler : Conf → ReqHandler (Outcome Conn)
main_handler conf = bind_route (bind_route (new_req_handler conf) 0 ping_route) 1 echo_route

-- Rounds of the writer in which it takes a packet and the write succeeds.
unfoldable pub write_rounds : ℕ → Conn → Outcome Conn
write_rounds zero c = done c
write_rounds (suc n) c = do written ← write_packet c true; write_rounds n written.0

-- The requests of a connection, one after the other: a handler waits in its send until the writer
-- has taken the packet.
unfoldable pub serve_all : ReqHandler (Outcome Conn) → List Req → Conn → Outcome Conn
serve_all h [] c = done c
serve_all h (req ∷ reqs) c = do
  c1 ← use_route h req (done c)
  c2 ← write_rounds (length c1.packet_chan) c1
  serve_all h reqs c2
