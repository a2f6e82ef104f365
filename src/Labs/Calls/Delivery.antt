-- ===== src/Labs/Calls/Delivery.antt =====
-- What a reply proves, and when there is one.
use gopher.Prelude.{
  ℕ, ◌+◌, ◌%◌, ◌≡◌, List, ◌∷◌, ◌++◌, Option, none, some, true, false, not, ◌&&◌, ◌||◌, arith, ap,
  length, get_elem?, set, ◌⊎◌, inl, inr, Option-cases, Bool-cases,
}
use gopher.Prelude.Dict.{lookup, insert, lookup-insert}
use gopher.Prelude.Classes.{nat_key, bytes_key, bytes_eq_iff}
use gopher.Prelude.Words.{HasNoDot, split_last_dot-append}
use gopher.Labs.Labrpc.{
  done, Run-cases, ReqMsg, ReplyMsg, failed, Handler, Service, Server, Network, make_end,
  add_server, delete_server, connect, enable, read_endname_info, is_server_dead,
}
use gopher.Labs.Calls.{Fate, add_service, service_dispatch, server_dispatch, process_req}

module _ {W : Type 0} where
  -- One run of a handler for a request, at the server that the end reached.
  pub record Served (rn : Network W) (req : ReqMsg) (w w' : W) (reply : ReplyMsg) : Type 0 where
    pub servername : ℕ
    pub object : ℕ
    pub server : Server W
    pub server' : Server W
    pub reached : read_endname_info rn req.endname ≡ some (servername, object)
    pub found : get_elem? rn.objects object ≡ some server
    pub ran : server_dispatch server req w ≡ done (server', w', reply)

  -- The network when the handler has returned.
  abbrev pub network_after :
      {rn : Network W} {req : ReqMsg} {w w' : W} {reply : ReplyMsg}
      → Fate W
      → Served rn req w w' reply
      → Network W
  network_after {rn} fate s = fate.later (record rn { objects = set rn.objects s.object s.server' })

  -- The end is enabled, and the name that it was connected to still denotes the object.
  pub record IsReachable (rn : Network W) (endname servername object : ℕ) : Type 0 where
    pub on : lookup endname rn.enabled ≡ some true
    pub same : lookup servername rn.servers ≡ some (some object)

  is_server_dead-IsReachable :
      (rn : Network W) (endname servername object : ℕ)
      → is_server_dead rn endname servername object ≡ false
      → IsReachable rn endname servername object
  unfolding is_server_dead
  is_server_dead-IsReachable rn endname servername object h = record {
    on = elim (Option-cases (lookup endname rn.enabled)) [
      | inl n ↦ absurd (ground arith)
      | inr (b, n) ↦ ground arith
    ];
    same = elim (Option-cases (lookup servername rn.servers)) [
      | inl n ↦ absurd (ground arith)
      | inr (o, n) ↦ elim (Option-cases o) [
        | inl m ↦ absurd (ground arith)
        | inr (x, m) ↦ ground arith
      ]
    ];
  }

  -- A request that comes to an answer has run its handler once or not at all, and the handlers'
  -- state is as that run, or none, leaves it. A reply other than a failure is that of the handler,
  -- and then, when the handler had returned, the end was enabled and the server's name still denoted
  -- the same server; whether the end was connected to another name meanwhile is not looked at.
  pub process_req_once :
      (rn rn' : Network W) (fate : Fate W) (req : ReqMsg) (w w' : W) (reply : ReplyMsg)
      → process_req rn fate req w ≡ done (rn', w', reply)
      → ((w' ≡ w) × (reply ≡ failed))
        ⊎ ((answer : ReplyMsg) × (s : Served rn req w w' answer) × ((reply ≡ failed)
              ⊎ ((reply ≡ answer)
                  × IsReachable (network_after fate s) req.endname s.servername s.object)))
  unfolding process_req
  process_req_once rn rn' fate req w w' reply e =
      elim (Option-cases (read_endname_info rn req.endname)) [
        | inl i ↦ inl (ground arith)
        | inr ((name, object), i) ↦ elim (Bool-cases (not rn.reliable && fate.drops_request)) [
          | inl d ↦ inl (ground arith)
          | inr d ↦ elim (Option-cases (get_elem? rn.objects object)) [
            | inl o ↦ absurd (ground arith)
            | inr (server, o) ↦ elim (Run-cases (server_dispatch server req w)) [
              | inr r ↦ absurd (ground arith)
              | inl ((server', v, answer), r) ↦
                  let later = fate.later (record rn { objects = set rn.objects object server' }) in
                  inr (
                    answer,
                    record {
                      servername = name;
                      object = object;
                      server = server;
                      server' = server';
                      reached = i;
                      found = o;
                      ran = ground arith;
                    },
                    elim (Bool-cases
                        (not fate.returns || is_server_dead later req.endname name object)) [
                          | inl k ↦ inl (ground arith)
                          | inr k ↦ elim (Bool-cases (not rn.reliable && fate.drops_reply)) [
                            | inl j ↦ inl (ground arith)
                            | inr j ↦ inr (
                              ground arith,
                              is_server_dead-IsReachable later req.endname name object
                                  (ground arith),
                            )
                          ]
                        ],
                  )
            ]
          ]
        ]
      ]

  lookup-delete_server :
      (rn : Network W) (servername : ℕ)
      → lookup servername (delete_server rn servername).servers ≡ some none
  unfolding delete_server
  lookup-delete_server rn servername =
      let gone : Option ℕ = none in
      ground (arith, lookup-insert servername servername gone rn.servers)

  -- A server that is deleted while its handler runs does not answer, whatever the handler did.
  pub process_req-delete_server :
      (rn rn' : Network W) (fate : Fate W) (req : ReqMsg) (w w' : W) (reply : ReplyMsg)
      (servername object : ℕ)
      → read_endname_info rn req.endname ≡ some (servername, object)
      → ((n : Network W) → fate.later n ≡ delete_server n servername)
      → process_req rn fate req w ≡ done (rn', w', reply)
      → reply ≡ failed
  process_req-delete_server rn rn' fate req w w' reply servername object i l e =
      elim (process_req_once rn rn' fate req w w' reply e) [
        | inl (_, f) ↦ f
        | inr (answer, s, inl f) ↦ f
        | inr (answer, s, inr (_, alive)) ↦
            let n = record rn { objects = set rn.objects s.object s.server' } in
            let same : servername ≡ s.servername = ground (arith, s.reached) in
            absurd (
              ground (
                arith,
                ap (λ m. lookup s.servername m.servers) (l n),
                alive.same,
                lookup-delete_server n s.servername,
                ap (λ x. lookup s.servername (delete_server n x).servers) same,
              ))
      ]

  -- On a reliable network that nobody changes meanwhile, a request to a server that can answer it
  -- gets that answer.
  pub process_req-reliable :
      (rn : Network W) (fate : Fate W) (req : ReqMsg) (w w' : W) (servername object : ℕ)
      (server server' : Server W) (answer : ReplyMsg)
      → rn.reliable ≡ true
      → fate.returns ≡ true
      → ((n : Network W) → fate.later n ≡ n)
      → read_endname_info rn req.endname ≡ some (servername, object)
      → get_elem? rn.objects object ≡ some server
      → server_dispatch server req w ≡ done (server', w', answer)
      → (rn' : Network W) × (process_req rn fate req w ≡ done (rn', w', answer))
  unfolding process_req is_server_dead read_endname_info
  process_req-reliable rn fate req w w' servername object server server' answer rel ret same i o r =
      let after = record rn { objects = set rn.objects object server' } in
      (
        record after { bytes = (rn.bytes + length answer.reply) % 0x1_0000_0000_0000_0000 },
        ground (arith, same after),
      )

  -- A name `service.method`, with no dot in the method, calls that method of that service once, and
  -- counts one more request; a service that was added under that name is the one that is found.
  pub server_dispatch-add_service :
      (rs : Server W) (svc : Service W) (req : ReqMsg) (w : W) (method : List ℕ) (code : Handler W)
      → HasNoDot method
      → req.svc_meth ≡ svc.name ++ (b'.' ∷ method)
      → lookup method svc.methods ≡ some code
      → server_dispatch (add_service rs svc) req w
        ≡ done (
          record (add_service rs svc) { count = rs.count + 1 },
          (code w req.args).0,
          record { ok = true; reply = (code w req.args).1 },
        )
  unfolding server_dispatch add_service service_dispatch
  server_dispatch-add_service rs svc req w method code nodot name found = ground (
    arith,
    split_last_dot-append svc.name method nodot,
    lookup-insert svc.name svc.name svc rs.services,
    bytes_eq_iff svc.name svc.name,
  )

  -- A new end reaches nothing; connected to a name, enabled, and with a server under that name, it
  -- reaches that server; when it is disabled again it reaches nothing.
  pub read_endname_info-make_end :
      (rn rn1 : Network W) (endname servername object : ℕ)
      → make_end rn endname ≡ done rn1
      → let up =
          enable (add_server (connect rn1 endname servername) servername object) endname true in
        (read_endname_info rn1 endname ≡ none)
        × (read_endname_info up endname ≡ some (servername, object))
        × (read_endname_info (enable up endname false) endname ≡ none)
  unfolding make_end enable add_server connect read_endname_info
  read_endname_info-make_end rn rn1 endname servername object e = (
    ground (arith, lookup-insert endname endname false rn.enabled),
    ground (
      arith,
      lookup-insert endname endname true rn1.enabled,
      lookup-insert endname endname (some servername) rn1.connections,
      lookup-insert servername servername (some object) rn1.servers,
    ),
    ground (arith, lookup-insert endname endname false (insert endname true rn1.enabled)),
  )
