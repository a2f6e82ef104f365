-- ===== src/Gnet/Handler.antt =====
-- go-server/gnet/req.go, route.go and req_handler.go: routes by message number, and the pool of
-- workers with a queue of requests each. `W` is the state that the routes change.
pub mod Routes
pub mod Order
use gopher.Prelude.{
  ℕ, ◌%◌, List, [], ◌∷◌, ◌++◌, Option, none, some, ltb, ◌==◌, if◌then◌else◌, length, get_elem?, set,
  replicate,
}
use gopher.Prelude.Dict.{Dict, lookup, insert}
use gopher.Prelude.Classes.{nat_key}
use gopher.Gnet.Base.{Conf}
use gopher.Gnet.Outcome.{Outcome, done, blocked, panics}
use gopher.Gnet.Msg.{Msg}

-- A request holds the number of its connection and the message.
pub record Req : Type 0 where
  pub conn_id : ℕ
  pub msg : Msg

abbrev pub get_msg_len : Req → ℕ
get_msg_len req = req.msg.len

abbrev pub get_msg_id : Req → ℕ
get_msg_id req = req.msg.id

abbrev pub get_msg_data : Req → List ℕ
get_msg_data req = req.msg.bytes

pub record Route (W : Type 0) : Type 0 where
  pub pre_handler : Req → W → W
  pub msg_handler : Req → W → W
  pub post_handler : Req → W → W

-- `BaseRoute` does nothing.
abbrev pub base_route : {W : Type 0} → Route W
base_route = record {
  pre_handler = λ req w. w;
  msg_handler = λ req w. w;
  post_handler = λ req w. w;
}

-- A slot of the array is `none` until the pool is started: a nil channel.
pub record ReqHandler (W : Type 0) : Type 0 where
  pub bind_map : Dict ℕ (Route W)
  pub req_chan_arr : List (Option (List Req))
  pub worker_pool_size : ℕ

module _ {W : Type 0} where
  unfoldable pub new_req_handler : Conf → ReqHandler W
  new_req_handler conf = record {
    bind_map = [];
    req_chan_arr = replicate conf.worker_pool_size none;
    worker_pool_size = conf.worker_pool_size;
  }

  -- A number that has a route keeps it.
  unfoldable pub bind_route : ReqHandler W → ℕ → Route W → ReqHandler W
  bind_route h msg_id route = elim (lookup msg_id h.bind_map) [
    | some _ ↦ h
    | none ↦ record h { bind_map = insert msg_id route h.bind_map }
  ]

  -- A request without a route is dropped.
  unfoldable pub use_route : ReqHandler W → Req → W → W
  use_route h req w = elim (lookup (get_msg_id req) h.bind_map) [
    | none ↦ w
    | some route ↦ route.post_handler req (route.msg_handler req (route.pre_handler req w))
  ]

  -- Each slot gets an empty channel, and a worker of its own.
  unfoldable pub start_worker_pool : ReqHandler W → ReqHandler W
  start_worker_pool h = record h { req_chan_arr = replicate h.worker_pool_size (some []) }

  -- A channel of `ReqChanLen` requests: a full one, or a nil one, makes the sender wait.
  unfoldable pub push_to_req_chan : Conf → ReqHandler W → Req → Outcome (ReqHandler W)
  push_to_req_chan conf h req =
      if h.worker_pool_size == 0
      then panics
      else let worker_id = req.conn_id % h.worker_pool_size in
        elim (get_elem? h.req_chan_arr worker_id) [
          | none ↦ panics
          | some none ↦ blocked
          | some (some queue) ↦
              if ltb (length queue) conf.req_chan_len
              then done (record h {
                req_chan_arr = set h.req_chan_arr worker_id (some (queue ++ (req ∷ [])));
              })
              else blocked
        ]

  -- One round of the worker of a slot: it takes the oldest request and handles it.
  unfoldable pub start_worker : ReqHandler W → ℕ → W → Outcome (ReqHandler W × Req × W)
  start_worker h worker_id w = elim (get_elem? h.req_chan_arr worker_id) [
    | none ↦ panics
    | some none ↦ blocked
    | some (some []) ↦ blocked
    | some (some (req ∷ queue)) ↦ done (
      record h { req_chan_arr = set h.req_chan_arr worker_id (some queue) },
      req,
      use_route h req w,
    )
  ]
