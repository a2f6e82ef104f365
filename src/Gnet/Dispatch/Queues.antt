-- ===== src/Gnet/Dispatch/Queues.antt =====
-- Where the requests of one connection end up.
use mathlib.Core.List.{append-nil, append_assoc}
use gopher.Prelude.{ℕ, ◌%◌, ◌<◌, ◌≡◌, refl, List, [], ◌∷◌, ◌++◌, arith, inl, inr, map}
use gopher.Gnet.Base.{Conf}
use gopher.Gnet.Outcome.{done, Outcome-cases}
use gopher.Gnet.Msg.{Msg}
use gopher.Gnet.Handler.{Req, ReqHandler, push_to_req_chan}
use gopher.Gnet.Handler.Order.{queue_of, queue_of-push}
use gopher.Gnet.Dispatch.{to_req, dispatch, dispatch_all}

module _ {W : Type 0} where
  -- With workers, a reader that is not made to wait leaves its requests, in order and complete,
  -- behind what its worker already had, and starts no goroutine.
  pub dispatch_all-queue :
      (conf : Conf) (c : ℕ) (msgs : List Msg) (h h' : ReqHandler W) (spawned : List Req)
      → 0 < conf.worker_pool_size
      → dispatch_all conf h (map (to_req c) msgs) ≡ done (h', spawned)
      → (queue_of h' (c % h.worker_pool_size)
          ≡ queue_of h (c % h.worker_pool_size) ++ map (to_req c) msgs)
        × (h'.worker_pool_size ≡ h.worker_pool_size)
        × (spawned ≡ [])
  unfolding dispatch dispatch_all
  dispatch_all-queue conf c [] h h' spawned w e =
      (ground (arith, append-nil (queue_of h (c % h.worker_pool_size))), ground arith, ground arith)
  dispatch_all-queue conf c (m ∷ msgs) h h' spawned w e =
      elim (Outcome-cases (push_to_req_chan conf h (to_req c m))) [
        | inr (inl p) ↦ absurd (ground arith)
        | inr (inr p) ↦ absurd (ground arith)
        | inl (g, p) ↦ elim (Outcome-cases (dispatch_all conf g (map (to_req c) msgs))) [
          | inr (inl q) ↦ absurd (ground arith)
          | inr (inr q) ↦ absurd (ground arith)
          | inl ((k, more), q) ↦ ground (
            arith,
            queue_of-push conf h g (to_req c m) p (c % h.worker_pool_size),
            dispatch_all-queue conf c msgs g k more w q,
            append_assoc (queue_of h (c % h.worker_pool_size)) (to_req c m ∷ [])
                (map (to_req c) msgs),
          )
        ]
      ]

  -- Without workers every request gets a goroutine of its own and nothing is queued.
  pub dispatch_all-spawns :
      (conf : Conf) (reqs : List Req) (h : ReqHandler W)
      → conf.worker_pool_size ≡ 0
      → dispatch_all conf h reqs ≡ done (h, reqs)
  unfolding dispatch dispatch_all
  dispatch_all-spawns conf [] h w = refl
  dispatch_all-spawns conf (req ∷ reqs) h w = ground (arith, dispatch_all-spawns conf reqs h w)
