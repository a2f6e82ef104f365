-- ===== src/Gnet/Dispatch.antt =====
-- `StartReader` of go-server/gnet/conn.go from a message to its worker: which loop runs, and where
-- each request goes.
pub mod Queues
use gopher.Prelude.{
  ℕ, List, [], ◌∷◌, ◌++◌, Option, none, some, Bool, true, false, ltb, if◌then◌else◌, map,
}
use gopher.Gnet.Base.{Conf}
use gopher.Gnet.Outcome.{Outcome, done, blocked, panics, ◌>>=◌}
use gopher.Gnet.Msg.{Msg}
use gopher.Gnet.Reader.{start_reader, raw_loop}
use gopher.Gnet.Handler.{Req, ReqHandler, push_to_req_chan}

abbrev pub to_req : ℕ → Msg → Req
to_req conn_id msg = record { conn_id = conn_id; msg = msg }

-- The requests of a connection: its bytes, and how much each raw read finds of them.
unfoldable pub read_requests : Conf → ℕ → List ℕ → List ℕ → Option (List Req)
read_requests conf conn_id socket offers =
    if conf.use_msg_serializer
    then (elim (start_reader conf socket) [
      | none ↦ none
      | some (msgs, _) ↦ some (map (to_req conn_id) msgs)
    ])
    else some (map (to_req conn_id) (raw_loop conf offers socket).0)

-- With workers the request is queued; without, a goroutine of its own handles it.
unfoldable pub dispatch :
    {W : Type 0} → Conf → ReqHandler W → Req → Outcome (ReqHandler W × List Req)
dispatch conf h req =
    if ltb 0 conf.worker_pool_size
    then (do h' ← push_to_req_chan conf h req; done (h', []))
    else done (h, req ∷ [])

unfoldable pub dispatch_all :
    {W : Type 0} → Conf → ReqHandler W → List Req → Outcome (ReqHandler W × List Req)
dispatch_all conf h [] = done (h, [])
dispatch_all conf h (req ∷ reqs) = do
  (h', spawned) ← dispatch conf h req
  (h'', more) ← dispatch_all conf h' reqs
  done (h'', spawned ++ more)
