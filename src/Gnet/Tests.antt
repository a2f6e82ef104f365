-- ===== src/Gnet/Tests.antt =====
-- Runs of the server's parts, and the theorems at concrete inputs.
use gopher.Prelude.{
  ℕ, ◌%◌, ◌≡◌, refl, List, [], ◌∷◌, ◌++◌, some, true, false, arith, drop, All, map,
}
use gopher.Prelude.Dict.{lookup, insert}
use gopher.Prelude.Classes.{nat_key}
use gopher.Gnet.Base.{default_conf, Error, ok, eof}
use gopher.Gnet.Outcome.{done, blocked, panics}
use gopher.Gnet.Msg.{Msg, new_msg}
use gopher.Gnet.Serializer.{pack, unpack}
use gopher.Gnet.Serializer.RoundTrip.{unpack-pack}
use gopher.Gnet.Reader.{start_reader, wire, frame, IsFrame, raw_loop}
use gopher.Gnet.Reader.Framing.{start_reader-wire, prepend}
use gopher.Gnet.Reader.Sound.{start_reader_total, Split}
use gopher.Gnet.Reader.Raw.{raw_loop_keeps, payload, IsRaw}
use gopher.Gnet.Handler.{
  Req, ReqHandler, start_worker_pool, use_route, push_to_req_chan, start_worker,
}
use gopher.Gnet.Handler.Order
use gopher.Gnet.Handler.Order.{pool_in_order, of_conn, queue_of, started}
use gopher.Gnet.Dispatch.{to_req, dispatch, dispatch_all}
use gopher.Gnet.Conn.{
  Conn, make_conn, raise_flag, prepare_packet, push_packet, begin_stop, close_chans, write_packet,
  run_hook,
}
use gopher.Gnet.Conn.Closing.{send-after-stop}
use gopher.Gnet.Conn.Wire
use gopher.Gnet.Conn.Wire.{fresh, delivered, Link}
use gopher.Gnet.Server.{Server, new_server, accept, new_conn, add_conn, del_all_conn}
use gopher.Gnet.Server.Steps
use gopher.Gnet.Server.Steps.{IsBounded, Reach-IsBounded}
use gopher.Gnet.Server.Registry.{Inv}
use gopher.Gnet.Server.Registry.History.{Reach-Inv}
use gopher.Gnet.Server.Stages
use gopher.Gnet.Server.Stages.{Life, start_life}
use gopher.Gnet.Server.Stages.Tracked.{IsTracked}
use gopher.Gnet.Server.Stages.Registered.{Lived-IsTracked}
use gopher.Gnet.Server.Shutdown.{del_all_conn_deadlocks}

abbrev hello : Msg
hello = new_msg 1 (104 ∷ 105 ∷ [])

hello_packed : pack hello ≡ ok (2 ∷ 0 ∷ 0 ∷ 0 ∷ 1 ∷ 0 ∷ 0 ∷ 0 ∷ 104 ∷ 105 ∷ [])
unfolding pack
hello_packed = refl

unpack-pack_example :
    (unpack default_conf (2 ∷ 0 ∷ 0 ∷ 0 ∷ 1 ∷ 0 ∷ 0 ∷ 0 ∷ [])
      ≡ ok (record { len = 2; id = 1; bytes = [] }))
    × (drop {A = ℕ} 8 (2 ∷ 0 ∷ 0 ∷ 0 ∷ 1 ∷ 0 ∷ 0 ∷ 0 ∷ 104 ∷ 105 ∷ []) ≡ 104 ∷ 105 ∷ [])
unpack-pack_example =
    unpack-pack default_conf hello (2 ∷ 0 ∷ 0 ∷ 0 ∷ 1 ∷ 0 ∷ 0 ∷ 0 ∷ 104 ∷ 105 ∷ []) (omega arith)
      (omega arith) hello_packed

hello_unpacked :
    unpack default_conf (2 ∷ 0 ∷ 0 ∷ 0 ∷ 1 ∷ 0 ∷ 0 ∷ 0 ∷ [])
    ≡ ok (record { len = 2; id = 1; bytes = [] })
unfolding unpack
hello_unpacked = refl

hello-IsFrame : IsFrame default_conf hello
hello-IsFrame = record {
  len_fits = omega arith;
  id_fits = omega arith;
  len_exact = refl;
  len_allowed = omega arith;
}

start_reader-wire_example :
    start_reader default_conf (wire (hello ∷ []) ++ (7 ∷ []))
    ≡ prepend (hello ∷ []) (start_reader default_conf (7 ∷ []))
start_reader-wire_example = start_reader-wire default_conf (hello ∷ []) (7 ∷ []) (hello-IsFrame, tt)

start_reader_total_example :
    (msgs : List Msg) × (e : Error) × (start_reader default_conf (9 ∷ 9 ∷ []) ≡ some (msgs, e))
    × Split default_conf (9 ∷ 9 ∷ []) msgs e
start_reader_total_example = start_reader_total default_conf (9 ∷ 9 ∷ []) (omega arith)

raw_loop_keeps_example :
    (rest : List ℕ) × (payload (raw_loop default_conf (2 ∷ 5 ∷ 1 ∷ []) (7 ∷ 8 ∷ 9 ∷ [])).0 ++ rest
      ≡ 7 ∷ 8 ∷ 9 ∷ [])
    × All (IsRaw default_conf) (raw_loop default_conf (2 ∷ 5 ∷ 1 ∷ []) (7 ∷ 8 ∷ 9 ∷ [])).0
    × ((raw_loop default_conf (2 ∷ 5 ∷ 1 ∷ []) (7 ∷ 8 ∷ 9 ∷ [])).1 ≡ some eof → rest ≡ [])
raw_loop_keeps_example = raw_loop_keeps default_conf (2 ∷ 5 ∷ 1 ∷ []) (7 ∷ 8 ∷ 9 ∷ [])

abbrev no_routes : ReqHandler ℕ
no_routes = record { bind_map = []; req_chan_arr = []; worker_pool_size = 3 }

abbrev from_five : Req
from_five = record { conn_id = 5; msg = hello }

-- A pool of three workers, of which worker 2 has one request of connection 5 and has handled one.
abbrev pool : List Req → ReqHandler ℕ
pool queue = record no_routes { req_chan_arr = some [] ∷ some [] ∷ some queue ∷ [] }

abbrev one_handled : Order.Run ℕ
one_handled = record {
  handler = pool (from_five ∷ []);
  world = 0;
  pushed = from_five ∷ from_five ∷ [];
  handled = from_five ∷ [];
}

one_handled-Reach : Order.Reach ℕ default_conf (started no_routes 0) one_handled
unfolding push_to_req_chan start_worker_pool start_worker use_route lookup
one_handled-Reach =
    Order.next
      (Order.next (Order.next Order.here (Order.push _ from_five (pool (from_five ∷ [])) refl))
        (Order.push _ from_five (pool (from_five ∷ from_five ∷ [])) refl))
      (Order.work _ 2 (pool (from_five ∷ [])) from_five 0 refl)

pool_in_order_example :
    of_conn 5 (from_five ∷ []) ++ of_conn 5 (queue_of (pool (from_five ∷ [])) (5 % 3))
    ≡ of_conn 5 (from_five ∷ from_five ∷ [])
pool_in_order_example = pool_in_order no_routes 0 5 one_handled-Reach

dispatched :
    dispatch_all default_conf (pool []) (map (to_req 5) (hello ∷ []))
    ≡ done (pool (from_five ∷ []), [])
unfolding dispatch_all dispatch push_to_req_chan
dispatched = refl

-- Connection 4 sends one message, and the writer writes it.
abbrev link : Link
link = record {
  conn = record (make_conn 4) { written = 2 ∷ 0 ∷ 0 ∷ 0 ∷ 1 ∷ 0 ∷ 0 ∷ 0 ∷ 104 ∷ 105 ∷ [] };
  sent = hello ∷ [];
  writing = true;
  failed = false;
}

link-Reach : Wire.Reach (fresh 4) link
unfolding prepare_packet push_packet write_packet pack
link-Reach =
    Wire.next
      (Wire.next Wire.here (
        Wire.send _ 1 (104 ∷ 105 ∷ []) (frame hello)
          (record (make_conn 4) { packet_chan = frame hello ∷ [] }) refl refl))
      (Wire.write _ link.conn true true refl (λ closed. ground arith) refl)

delivered_example : start_reader default_conf link.conn.written ≡ some (hello ∷ [], eof)
delivered_example = delivered default_conf 4 link-Reach refl refl (hello-IsFrame, tt)

-- Connection 4 stops with a packet in the hands of a goroutine.
abbrev stopping : Conn
stopping = record (make_conn 4) { is_closed = true; socket_closed = true; closed_signals = 1 }

abbrev stopped : Conn
stopped = record stopping { closed_chan_closed = true; packet_chan_closed = true }

hello_prepared : prepare_packet (make_conn 4) 1 (104 ∷ 105 ∷ []) ≡ ok (frame hello)
unfolding prepare_packet pack
hello_prepared = refl

stop_begun : begin_stop [] (make_conn 4) ≡ done stopping
unfolding begin_stop run_hook
stop_begun = refl

stop_ended : close_chans stopping ≡ done stopped
unfolding close_chans
stop_ended = refl

send-after-stop_example : push_packet stopped (frame hello) ≡ panics
send-after-stop_example =
    send-after-stop (make_conn 4) stopping stopped [] 1 (104 ∷ 105 ∷ []) (frame hello)
      hello_prepared stop_begun stop_ended

-- A server with one connection.
abbrev serving : Server
serving = record (new_server default_conf) {
  conns = make_conn 0 ∷ [];
  conn_dict = (0, 0) ∷ [];
  next_id = 1;
}

serving-Reach : Steps.Reach (new_server default_conf) serving
unfolding accept new_conn add_conn insert
serving-Reach = Steps.next Steps.here (Steps.accepts _ true serving refl)

Reach-IsBounded_example : IsBounded default_conf serving
Reach-IsBounded_example = Reach-IsBounded default_conf serving-Reach

serving-Inv : Inv serving
serving-Inv = Reach-Inv default_conf serving-Reach (omega arith)

del_all_conn_deadlocks_example : del_all_conn serving ≡ blocked
del_all_conn_deadlocks_example = del_all_conn_deadlocks serving serving-Inv

-- A goroutine has raised the flag of that connection and signalled its writer, and the connection is
-- still registered.
abbrev half_stopped : Life
half_stopped = record (start_life default_conf) {
  server = record serving {
    conns =
        record (make_conn 0) { is_closed = true; socket_closed = true; closed_signals = 1 } ∷ [];
  };
  signalled = 0 ∷ [];
}

half_stopped-Lived : Stages.Lived (start_life default_conf) half_stopped
unfolding accept new_conn add_conn insert Stages.remove_one
half_stopped-Lived =
    let c : Conn = make_conn 0 in
    let up : Life = record (start_life default_conf) { server = serving } in
    let seen : Life = record up { checked = 0 ∷ [] } in
    let raised : Life = record up {
      server = record serving { conns = raise_flag c ∷ [] };
      flagged = 0 ∷ [];
    } in
    Stages.next
      (Stages.next
        (Stages.next
          (Stages.next Stages.here (Stages.accepts (start_life default_conf) true serving refl))
          (Stages.checks up 0 c refl refl))
        (Stages.flags seen 0 c refl refl))
      (Stages.signals raised 0 (raise_flag c)
        (record (make_conn 0) { is_closed = true; socket_closed = true; closed_signals = 1 }) refl
        refl refl)

Lived-IsTracked_example : IsTracked half_stopped
Lived-IsTracked_example = Lived-IsTracked default_conf half_stopped-Lived (omega arith)
