-- ===== src/Gnet/Program/Talk.antt =====
-- A conversation with the server of go-server/main.go, from the bytes of the client and back.
use mathlib.Core.List.{append-nil, append_assoc}
use gopher.Prelude.{
  ℕ, zero, suc, ◌≤◌, ◌≡◌, refl, sym, ap, ◌∙◌, List, [], ◌∷◌, ◌++◌, map, Option, none, some, true,
  false, length, length-map, All, All-append, arith, Option-cases, inl, inr, subst,
}
use gopher.Prelude.Dict.{lookup, insert}
use gopher.Prelude.Classes.{nat_key}
use gopher.Gnet.Base.{Conf, eof}
use gopher.Gnet.Outcome.{Outcome, done, ◌>>=◌}
use gopher.Gnet.Msg.{Msg, new_msg}
use gopher.Gnet.Serializer.{pack}
use gopher.Gnet.Reader.{frame, wire, IsFrame, start_reader}
use gopher.Gnet.Reader.Framing.{start_reader-wire_eof}
use gopher.Gnet.Conn.Wire.{wire-append}
use gopher.Gnet.Handler.{Req, Route, ReqHandler, new_req_handler, bind_route, use_route}
use gopher.Gnet.Conn.{
  Conn, make_conn, send_packet, prepare_packet, push_packet, run_hook, set_prop, write_packet,
}
use gopher.Gnet.Program.{
  ping, echo, reply, ping_route, echo_route, digits, starting, after_conn_start, main_handler,
  serve_all, write_rounds,
}

-- What the server answers to a message number: a ping, an echo, or nothing.
abbrev pub answer : ℕ → List Msg
answer zero = new_msg 200 ping ∷ []
answer (suc zero) = new_msg 201 echo ∷ []
answer (suc (suc n)) = []

abbrev pub answers : List Msg → List Msg
answers [] = []
answers (msg ∷ msgs) = answer msg.id ++ answers msgs

abbrev pub greeting : ℕ → Msg
greeting id = new_msg 200 (starting ++ digits (suc id) id [])

abbrev pub request : ℕ → Msg → Req
request id msg = record { conn_id = id; msg = msg }

-- The connection is open, and these packets wait in it.
abbrev waiting : Conn → List (List ℕ) → Conn
waiting c packets = record c { packet_chan = c.packet_chan ++ packets }

abbrev IsOpen : Conn → Type 0
IsOpen c = (c.is_closed ≡ false) × (c.packet_chan_closed ≡ false)

reply-IsOpen :
    (c : Conn) (msg_id : ℕ) (bytes : List ℕ)
    → IsOpen c
    → reply msg_id bytes (done c) ≡ done (waiting c (frame (new_msg msg_id bytes) ∷ []))
unfolding reply send_packet prepare_packet push_packet pack
reply-IsOpen c msg_id bytes o = ground (arith, o.0, o.1)

route_of : ℕ → Option (Route (Outcome Conn))
route_of zero = some ping_route
route_of (suc zero) = some echo_route
route_of (suc (suc n)) = none

lookup-main_handler : (conf : Conf) (id : ℕ) → lookup id (main_handler conf).bind_map ≡ route_of id
unfolding main_handler bind_route new_req_handler lookup insert route_of
lookup-main_handler conf zero = refl
lookup-main_handler conf (suc zero) = refl
lookup-main_handler conf (suc (suc n)) = ground arith

abbrev served : Option (Route (Outcome Conn)) → Req → Outcome Conn → Outcome Conn
served none req w = w
served (some route) req w = route.post_handler req (route.msg_handler req (route.pre_handler req w))

nothing_waits : (c : Conn) → done c ≡ done (waiting c [])
nothing_waits c =
    ap (λ (p : List (List ℕ)). done (record c { packet_chan = p })) (sym (append-nil c.packet_chan))

served-answer :
    (n : ℕ) (req : Req) (c : Conn)
    → IsOpen c
    → served (route_of n) req (done c) ≡ done (waiting c (map frame (answer n)))
unfolding route_of
served-answer zero req c o = reply-IsOpen c 200 ping o
served-answer (suc zero) req c o = reply-IsOpen c 201 echo o
served-answer (suc (suc n)) req c o = nothing_waits c

use_route-served :
    (h : ReqHandler (Outcome Conn)) (req : Req) (w : Outcome Conn)
    → use_route h req w ≡ served (lookup req.msg.id h.bind_map) req w
unfolding use_route
use_route-served h req w = elim (Option-cases (lookup req.msg.id h.bind_map)) [
  | inl e ↦ ground arith
  | inr (route, e) ↦ ground arith
]

use_route-answer :
    (conf : Conf) (id : ℕ) (msg : Msg) (c : Conn)
    → IsOpen c
    → use_route (main_handler conf) (request id msg) (done c)
      ≡ done (waiting c (map frame (answer msg.id)))
use_route-answer conf id msg c o =
    use_route-served (main_handler conf) (request id msg) (done c)
    ∙ ap (λ r. served r (request id msg) (done c)) (lookup-main_handler conf msg.id)
    ∙ served-answer msg.id (request id msg) c o

map-append : (xs ys : List Msg) → map frame (xs ++ ys) ≡ map frame xs ++ map frame ys
map-append [] ys = refl
map-append (x ∷ xs) ys = ap (◌∷◌ (frame x)) (map-append xs ys)

run_hook-after_conn_start :
    (id : ℕ)
    → (c : Conn) × (run_hook (after_conn_start id) (make_conn id) ≡ done c)
      × IsOpen c
      × (c.packet_chan ≡ frame (greeting id) ∷ [])
      × (c.written ≡ [])
unfolding run_hook after_conn_start send_packet prepare_packet push_packet set_prop pack
run_hook-after_conn_start id = (_, refl, (refl, refl), refl, refl)

-- The writer sends out all that waits, in order.
write_rounds-wire :
    (msgs : List Msg) (c : Conn)
    → c.packet_chan ≡ map frame msgs
    → write_rounds (length msgs) c
      ≡ done (record c { packet_chan = []; written = c.written ++ wire msgs })
unfolding write_rounds write_packet
write_rounds-wire [] c q =
    ap (λ (w : List ℕ). done (record c { written = w })) (sym (append-nil c.written))
    ∙ ap (λ (p : List (List ℕ)). done (record c { packet_chan = p; written = c.written ++ [] })) q
write_rounds-wire (msg ∷ msgs) c q =
    let c1 : Conn = record c { packet_chan = map frame msgs; written = c.written ++ frame msg } in
    let one : write_packet c true ≡ done (c1, true) =
      ap (λ (p : List (List ℕ)). write_packet (record c { packet_chan = p }) true) q in
    ap (λ w. w >>= (λ r. write_rounds (length msgs) r.0)) one
    ∙ write_rounds-wire msgs c1 refl
    ∙ ap (λ (w : List ℕ). done (record c { packet_chan = []; written = w }))
        (append_assoc c.written (frame msg) (wire msgs))

serve_all-answers :
    (conf : Conf) (id : ℕ) (msgs : List Msg) (c : Conn)
    → IsOpen c
    → c.packet_chan ≡ []
    → serve_all (main_handler conf) (map (request id) msgs) c
      ≡ done (record c { packet_chan = []; written = c.written ++ wire (answers msgs) })
unfolding serve_all
serve_all-answers conf id [] c o e =
    ap (λ (w : List ℕ). done (record c { written = w })) (sym (append-nil c.written))
    ∙ ap (λ (p : List (List ℕ)). done (record c { packet_chan = p; written = c.written ++ [] })) e
serve_all-answers conf id (msg ∷ msgs) c o e =
    let ms = answer msg.id in
    let c1 : Conn = waiting c (map frame ms) in
    let q : c1.packet_chan ≡ map frame ms = ap (λ (p : List (List ℕ)). p ++ map frame ms) e in
    let n : length ms ≡ length c1.packet_chan = sym (ap length q ∙ length-map frame ms) in
    let c2 : Conn = record c1 { packet_chan = []; written = c.written ++ wire ms } in
    let out : write_rounds (length c1.packet_chan) c1 ≡ done c2 =
      subst (λ k. write_rounds k c1 ≡ done c2) n (write_rounds-wire ms c1 q) in
    let rest = serve_all (main_handler conf) (map (request id) msgs) in
    ap (λ w. w >>= (λ d. write_rounds (length d.packet_chan) d >>= rest))
      (use_route-answer conf id msg c o)
    ∙ ap (λ w. w >>= rest) out
    ∙ serve_all-answers conf id msgs c2 o refl
    ∙ ap (λ (w : List ℕ). done (record c { packet_chan = []; written = w }))
        (append_assoc c.written (wire ms) (wire (answers msgs))
          ∙ ap (◌++◌ c.written) (sym (wire-append ms (answers msgs))))

answer-IsFrame : (peer : Conf) (n : ℕ) → 4 ≤ peer.max_packet_size → All (IsFrame peer) (answer n)
answer-IsFrame peer zero h = (
  record { len_fits = omega arith; id_fits = omega arith; len_exact = refl; len_allowed = h },
  tt,
)
answer-IsFrame peer (suc zero) h = (
  record { len_fits = omega arith; id_fits = omega arith; len_exact = refl; len_allowed = h },
  tt,
)
answer-IsFrame peer (suc (suc n)) h = tt

answers-IsFrame :
    (peer : Conf) (msgs : List Msg) → 4 ≤ peer.max_packet_size → All (IsFrame peer) (answers msgs)
answers-IsFrame peer [] h = tt
answers-IsFrame peer (msg ∷ msgs) h =
    All-append (IsFrame peer) (answer msg.id) (answers msgs) (answer-IsFrame peer msg.id h)
      (answers-IsFrame peer msgs h)

-- A client sends messages that the server accepts, and reads with a maximum that lets the greeting
-- and four bytes through. The server's reader passes the messages on as they were sent; the hook and
-- then the routes, in that order, run without a block or a panic, with the writer taking what they
-- send; and the client gets the greeting and then an answer to each message 0 or 1, in their order.
pub main_handler-talk :
    (conf peer : Conf) (id : ℕ) (msgs : List Msg)
    → All (IsFrame conf) msgs
    → IsFrame peer (greeting id)
    → 4 ≤ peer.max_packet_size
    → (c0 : Conn) × (c1 : Conn) × (c2 : Conn) × (run_hook (after_conn_start id) (make_conn id)
        ≡ done c0)
      × (write_rounds (length c0.packet_chan) c0 ≡ done c1)
      × (start_reader conf (wire msgs) ≡ some (msgs, eof))
      × (serve_all (main_handler conf) (map (request id) msgs) c1 ≡ done c2)
      × (start_reader peer c2.written ≡ some (greeting id ∷ answers msgs, eof))
main_handler-talk conf peer id msgs sent greets room =
    let (c0, h, o, w, z) = run_hook-after_conn_start id in
    let hello = greeting id ∷ [] in
    let n : 1 ≡ length c0.packet_chan = sym (ap length w) in
    let c1 : Conn = record c0 { packet_chan = []; written = c0.written ++ wire hello } in
    let c2 : Conn = record c1 { packet_chan = []; written = c1.written ++ wire (answers msgs) } in
    let out : c2.written ≡ wire (greeting id ∷ answers msgs) =
      ap (λ (x : List ℕ). (x ++ wire hello) ++ wire (answers msgs)) z
      ∙ sym (wire-append hello (answers msgs)) in
    (
      c0,
      c1,
      c2,
      h,
      subst (λ k. write_rounds k c0 ≡ done c1) n (write_rounds-wire hello c0 w),
      start_reader-wire_eof conf msgs sent,
      serve_all-answers conf id msgs c1 o refl,
      ap (start_reader peer) out
          ∙ start_reader-wire_eof peer (greeting id ∷ answers msgs)
              (greets, answers-IsFrame peer msgs room),
    )
