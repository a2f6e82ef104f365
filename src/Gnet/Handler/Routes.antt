-- ===== src/Gnet/Handler/Routes.antt =====
-- Which route a request meets.
use gopher.Prelude.{ℕ, ◌≡◌, none, some, ◌==◌, arith, if◌then◌else◌, Option-cases, inl, inr}
use gopher.Prelude.Dict.{lookup, lookup-insert}
use gopher.Prelude.Classes.{nat_key}
use gopher.Gnet.Handler.{Req, Route, ReqHandler, bind_route, use_route, get_msg_id}

module _ {W : Type 0} where
  -- After a binding the number has its old route if it had one and the new one if not, and every
  -- other number is as before.
  pub lookup-bind_route :
      (h : ReqHandler W) (k j : ℕ) (route : Route W)
      → lookup j (bind_route h k route).bind_map ≡ (elim (lookup j h.bind_map) [
        | some old ↦ some old
        | none ↦ if k == j then some route else none
      ])
  unfolding bind_route
  lookup-bind_route h k j route = elim (Option-cases (lookup k h.bind_map)) [
    | inl e ↦ ground (arith, lookup-insert k j route h.bind_map)
    | inr (old, e) ↦ ground arith
  ]

  -- A request is handled by the first route that was bound to its number, whatever is bound later.
  pub use_route-bind_route :
      (h : ReqHandler W) (req : Req) (first second : Route W) (w : W)
      → lookup (get_msg_id req) h.bind_map ≡ none
      → use_route (bind_route (bind_route h (get_msg_id req) first) (get_msg_id req) second) req w
        ≡ first.post_handler req (first.msg_handler req (first.pre_handler req w))
  unfolding use_route
  use_route-bind_route h req first second w e = ground (
    arith,
    lookup-bind_route (bind_route h (get_msg_id req) first) (get_msg_id req) (get_msg_id req)
        second,
    lookup-bind_route h (get_msg_id req) (get_msg_id req) first,
  )
