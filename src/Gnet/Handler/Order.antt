-- ===== src/Gnet/Handler/Order.antt =====
-- The pool handles the requests of a connection in the order in which its reader pushed them, in
-- every interleaving of the readers and the workers.
use mathlib.Core.List.{append-nil, append_assoc}
use gopher.Prelude.{
  ℕ, zero, suc, replicate, ◌%◌, ◌≡◌, refl, sym, ap, List, [], ◌∷◌, ◌++◌, Option, none, some, ◌==◌,
  arith, ◌≢◌, if◌then◌else◌, get_elem?, get_elem?-set, set, keep, keep-append,
}
use native.Mathlib.Decide.{ℕ_discrete}
use gopher.Gnet.Base.{Conf}
use gopher.Gnet.Outcome.{done}
use gopher.Gnet.Handler.{Req, ReqHandler, push_to_req_chan, start_worker, start_worker_pool}

pub record Run (W : Type 0) : Type 0 where
  pub handler : ReqHandler W
  pub world : W
  pub pushed : List Req
  pub handled : List Req

-- A reader pushes a request, or a worker takes and handles one.
pub data Step (W : Type 0) (conf : Conf) : Run W → Run W → Type 0 where
  push :
      (r : Run W) (req : Req) (h : ReqHandler W)
      → push_to_req_chan conf r.handler req ≡ done h
      → Step W conf r (record r { handler = h; pushed = r.pushed ++ (req ∷ []) })
  work :
      (r : Run W) (worker_id : ℕ) (h : ReqHandler W) (req : Req) (w : W)
      → start_worker r.handler worker_id r.world ≡ done (h, req, w)
      → Step W conf r (record r { handler = h; world = w; handled = r.handled ++ (req ∷ []) })

pub data Reach (W : Type 0) (conf : Conf) (s : Run W) : Run W → Type 0 where
  here : Reach W conf s s
  next : {t u : Run W} → Reach W conf s t → Step W conf t u → Reach W conf s u

-- What waits in a slot.
abbrev slot : List (Option (List Req)) → ℕ → List Req
slot chans i = elim (get_elem? chans i) [ none ↦ [] | some none ↦ [] | some (some queue) ↦ queue ]

abbrev pub queue_of : {W : Type 0} → ReqHandler W → ℕ → List Req
queue_of h i = slot h.req_chan_arr i

-- The requests of one connection.
abbrev pub of_conn : ℕ → List Req → List Req
of_conn c = keep (λ req. req.conn_id == c)

module _ {W : Type 0} where
  pub queue_of-push :
      (conf : Conf) (h h' : ReqHandler W) (req : Req)
      → push_to_req_chan conf h req ≡ done h'
      → (j : ℕ)
      → (queue_of h' j ≡ (
          if req.conn_id % h.worker_pool_size == j
          then queue_of h j ++ (req ∷ [])
          else queue_of h j))
        × (h'.worker_pool_size ≡ h.worker_pool_size)
  unfolding push_to_req_chan
  queue_of-push conf h h' req e j =
      let i = req.conn_id % h.worker_pool_size in
      ground (arith, get_elem?-set h.req_chan_arr i j (some (queue_of h i ++ (req ∷ []))))

  start_worker_takes :
      (h h' : ReqHandler W) (i : ℕ) (w w' : W) (req : Req)
      → start_worker h i w ≡ done (h', req, w')
      → (slot : Option (Option (List Req))) → get_elem? h.req_chan_arr i ≡ slot
      → (queue : List Req) × (get_elem? h.req_chan_arr i ≡ some (some (req ∷ queue)))
        × (h'.req_chan_arr ≡ set h.req_chan_arr i (some queue))
        × (h'.worker_pool_size ≡ h.worker_pool_size)
  unfolding start_worker
  start_worker_takes h h' i w w' req e none s = absurd (ground arith)
  start_worker_takes h h' i w w' req e (some none) s = absurd (ground arith)
  start_worker_takes h h' i w w' req e (some (some [])) s = absurd (ground arith)
  start_worker_takes h h' i w w' req e (some (some (r ∷ queue))) s =
      (queue, ground arith, ground arith, ground arith)

  queue_of-work :
      (h h' : ReqHandler W) (i : ℕ) (w w' : W) (req : Req)
      → start_worker h i w ≡ done (h', req, w')
      → (queue_of h i ≡ req ∷ queue_of h' i)
        × ((j : ℕ) → j ≢ i → queue_of h' j ≡ queue_of h j)
        × (h'.worker_pool_size ≡ h.worker_pool_size)
  queue_of-work h h' i w w' req e =
      let (queue, slot, arr, size) = start_worker_takes h h' i w w' req e _ refl in
      (
        ground (arith, get_elem?-set h.req_chan_arr i i (some queue)),
        λ j ne. ground (arith, get_elem?-set h.req_chan_arr i j (some queue)),
        size,
      )

-- What has been pushed of a connection is what was handled of it and then what waits with its
-- worker; no other worker has any of it.
pub record InOrder (W : Type 0) (n c : ℕ) (r : Run W) : Type 0 where
  pub size : r.handler.worker_pool_size ≡ n
  pub mine : of_conn c r.handled ++ of_conn c (queue_of r.handler (c % n)) ≡ of_conn c r.pushed
  pub others : (i : ℕ) → i ≢ c % n → of_conn c (queue_of r.handler i) ≡ []

of_conn-append : (c : ℕ) (xs ys : List Req) → of_conn c (xs ++ ys) ≡ of_conn c xs ++ of_conn c ys
of_conn-append c xs ys = keep-append (λ req. req.conn_id == c) xs ys

module _ {W : Type 0} (n c : ℕ) where
  push-InOrder :
      (conf : Conf) (r : Run W) (req : Req) (h : ReqHandler W)
      → push_to_req_chan conf r.handler req ≡ done h
      → InOrder W n c r
      → InOrder W n c (record r { handler = h; pushed = r.pushed ++ (req ∷ []) })
  push-InOrder conf r req h e v = record {
    size = ground (arith, v.size, queue_of-push conf r.handler h req e 0);
    mine = ground (
      arith,
      v.size,
      v.mine,
      queue_of-push conf r.handler h req e (c % n),
      of_conn-append c r.pushed (req ∷ []),
      of_conn-append c (queue_of r.handler (c % n)) (req ∷ []),
      append_assoc (of_conn c r.handled) (of_conn c (queue_of r.handler (c % n)))
          (of_conn c (req ∷ [])),
      append-nil (of_conn c r.pushed),
    );
    others = λ i ne. ground (
      arith,
      v.size,
      v.others i ne,
      queue_of-push conf r.handler h req e i,
      of_conn-append c (queue_of r.handler i) (req ∷ []),
    );
  }

  others_kept :
      (r : Run W) (i : ℕ) (h : ReqHandler W) (req : Req) (w : W)
      → start_worker r.handler i r.world ≡ done (h, req, w)
      → InOrder W n c r
      → (j : ℕ) → j ≢ c % n
      → of_conn c (queue_of h j) ≡ []
  others_kept r i h req w e v j ne =
      let (front, same, size) = queue_of-work r.handler h i r.world w req e in
      elim (ℕ_discrete j i) [
        | yes p ↦ ground (
          arith,
          v.others j ne,
          ap (λ (k : ℕ). queue_of r.handler k) p,
          ap (λ (k : ℕ). queue_of h k) p,
        )
        | no away ↦ ground (arith, v.others j ne, same j away)
      ]

  work-InOrder :
      (r : Run W) (i : ℕ) (h : ReqHandler W) (req : Req) (w : W)
      → start_worker r.handler i r.world ≡ done (h, req, w)
      → InOrder W n c r
      → InOrder W n c (record r { handler = h; world = w; handled = r.handled ++ (req ∷ []) })
  work-InOrder r i h req w e v =
      let (front, same, size) = queue_of-work r.handler h i r.world w req e in
      let q = queue_of h (c % n) in
      elim (ℕ_discrete (c % n) i) [
        | yes p ↦ record {
          size = ground arith;
          mine = ground (
            arith,
            v.mine,
            ap (λ (j : ℕ). queue_of r.handler j) p,
            ap (λ (j : ℕ). queue_of h j) p,
            of_conn-append c r.handled (req ∷ []),
            append_assoc (of_conn c r.handled) (req ∷ []) (of_conn c q),
            append-nil (of_conn c r.handled),
          );
          others = others_kept r i h req w e v;
        }
        | no ne ↦ record {
          size = ground arith;
          mine = ground (
            arith,
            v.mine,
            v.others i (λ k. ne (sym k)),
            same (c % n) ne,
            of_conn-append c r.handled (req ∷ []),
            append-nil (of_conn c r.handled),
          );
          others = others_kept r i h req w e v;
        }
      ]

  Step-InOrder : {conf : Conf} {r s : Run W} → Step W conf r s → InOrder W n c r → InOrder W n c s
  Step-InOrder {conf} (push r req h e) v = push-InOrder conf r req h e v
  Step-InOrder (work r i h req w e) v = work-InOrder r i h req w e v

  -- Whatever the readers and the workers do in turn, the requests of a connection that have been
  -- handled, followed by those that wait with its one worker, are those that were pushed, in order.
  pub Reach-InOrder :
      {conf : Conf} {r s : Run W} → Reach W conf r s → InOrder W n c r → InOrder W n c s
  Reach-InOrder here v = v
  Reach-InOrder (next t st) v = Step-InOrder st (Reach-InOrder t v)

queue_of-replicate : (n i : ℕ) (q : Option (List Req)) → q ≡ some [] → slot (replicate n q) i ≡ []
queue_of-replicate zero i q e = refl
queue_of-replicate (suc n) zero q e = ground arith
queue_of-replicate (suc n) (suc i) q e = queue_of-replicate n i q e

module _ {W : Type 0} where
  -- The pool of `h` just after it was started.
  abbrev pub started : ReqHandler W → W → Run W
  started h w = record { handler = start_worker_pool h; world = w; pushed = []; handled = [] }

  started-InOrder :
      (h : ReqHandler W) (w : W) (c : ℕ) → InOrder W h.worker_pool_size c (started h w)
  unfolding start_worker_pool
  started-InOrder h w c = record {
    size = refl;
    mine = ap (of_conn c) (queue_of-replicate h.worker_pool_size (c % h.worker_pool_size) _ refl);
    others = λ i ne. ap (of_conn c) (queue_of-replicate h.worker_pool_size i _ refl);
  }

  -- From the start of the pool on, in every interleaving of readers that push and workers that
  -- handle, the handled requests of a connection, followed by those that wait with worker `c % n`,
  -- are the pushed requests of that connection in their order.
  pub pool_in_order :
      (h : ReqHandler W) (w : W) {conf : Conf} {s : Run W} (c : ℕ)
      → Reach W conf (started h w) s
      → of_conn c s.handled ++ of_conn c (queue_of s.handler (c % h.worker_pool_size))
        ≡ of_conn c s.pushed
  pool_in_order h w c t =
      let v = Reach-InOrder h.worker_pool_size c t (started-InOrder h w c) in v.mine
