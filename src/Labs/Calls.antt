-- ===== src/Labs/Calls.antt =====
-- How a request is served: the handlers, one request on its way, and a call.
pub mod Delivery
use gopher.Prelude.{
  ℕ, ◌+◌, ◌%◌, List, [], ◌∷◌, ◌++◌, Option, none, some, Bool, true, false, not, ◌&&◌, ◌||◌, ◌==◌,
  if◌then◌else◌, length, get_elem?, set,
}
use gopher.Prelude.Dict.{Dict, lookup, insert}
use gopher.Prelude.Classes.{nat_key, bytes_key}
use gopher.Prelude.Words.{split_last_dot}
use gopher.Labs.Labrpc.{
  Run, done, fatal, ReqMsg, ReplyMsg, failed, Method, Handler, Service, Server, Network,
  read_endname_info, is_server_dead,
}

-- The methods that can be called: exported, two arguments behind the receiver, the second a
-- pointer, and no result.
unfoldable pub is_handler : Method → Bool
is_handler m = m.exported && m.num_in == 3 && m.reply_is_ptr && m.num_out == 0

-- What the random numbers and the other goroutines decide on the way of one request: whether an
-- unreliable network drops the request or the reply, whether the handler returns before the
-- server is found dead, and what the network looks like when it has returned.
pub record Fate (W : Type 0) : Type 0 where
  pub drops_request : Bool
  pub drops_reply : Bool
  pub returns : Bool
  pub later : Network W → Network W

module _ {W : Type 0} where
  -- `code` is the body of each method, which `reflect` hands out.
  unfoldable pub service_methods : (Method → Handler W) → List Method → Dict (List ℕ) (Handler W)
  service_methods code [] = []
  service_methods code (m ∷ ms) =
      let rest = service_methods code ms in
      if is_handler m then insert m.name (code m) rest else rest

  abbrev pub make_service : List ℕ → (Method → Handler W) → List Method → Service W
  make_service name code ms = record { name = name; methods = service_methods code ms }

  abbrev pub make_server : Server W
  make_server = record { services = []; count = 0 }

  unfoldable pub add_service : Server W → Service W → Server W
  add_service rs svc = record rs { services = insert svc.name svc rs.services }

  abbrev pub get_count : Server W → ℕ
  get_count rs = rs.count

  unfoldable pub service_dispatch : Service W → List ℕ → ReqMsg → W → Run (W × ReplyMsg)
  service_dispatch svc methname req w = elim (lookup methname svc.methods) [
    | none ↦ fatal
    | some method ↦
        let (w', reply) = method w req.args in done (w', record { ok = true; reply = reply })
  ]

  -- The server counts the request, then looks for the service and its method.
  unfoldable pub server_dispatch : Server W → ReqMsg → W → Run (Server W × W × ReplyMsg)
  server_dispatch rs req w = elim (split_last_dot req.svc_meth) [
    | none ↦ fatal
    | some (service_name, method_name) ↦ elim (lookup service_name rs.services) [
      | none ↦ fatal
      | some service ↦ elim (service_dispatch service method_name req w) [
        | fatal ↦ fatal
        | done (w', reply) ↦ done (record rs { count = rs.count + 1 }, w', reply)
      ]
    ]
  ]

  -- The state behind the handlers and the reply after one request. A handler that was started runs
  -- to its end, also when its reply is not waited for.
  unfoldable pub process_req : Network W → Fate W → ReqMsg → W → Run (Network W × W × ReplyMsg)
  process_req rn fate req w = elim (read_endname_info rn req.endname) [
    | none ↦ done (rn, w, failed)
    | some (servername, object) ↦
        if not rn.reliable && fate.drops_request
        then done (rn, w, failed)
        else elim (get_elem? rn.objects object) [
          | none ↦ fatal
          | some server ↦ elim (server_dispatch server req w) [
            | fatal ↦ fatal
            | done (server', w', reply) ↦
                let rn' = fate.later (record rn { objects = set rn.objects object server' }) in
                if not fate.returns || is_server_dead rn' req.endname servername object
                then done (rn', w', failed)
                else if not rn.reliable && fate.drops_reply
                then done (rn', w', failed)
                else done (
                  record rn' { bytes = (rn'.bytes + length reply.reply) % 0x1_0000_0000_0000_0000 },
                  w',
                  reply,
                )
          ]
        ]
  ]

  -- `Call`: the request is counted and processed, unless the network was cleaned up.
  unfoldable pub call : Network W → Fate W → ReqMsg → W → Run (Network W × W × ReplyMsg)
  call rn fate req w =
      if rn.is_done
      then done (rn, w, failed)
      else process_req
          (record rn {
            count = (rn.count + 1) % 0x1_0000_0000;
            bytes = (rn.bytes + length req.args) % 0x1_0000_0000_0000_0000;
          })
          fate req w
