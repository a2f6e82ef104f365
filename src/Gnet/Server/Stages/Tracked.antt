-- ===== src/Gnet/Server/Stages/Tracked.antt =====
-- What the dictionary of go-server/gnet/conn_man.go says while connections are being stopped.
use gopher.Prelude.{
  ℕ, ◌%◌, ◌≡◌, refl, sym, subst, List, [], ◌∷◌, some, Bool, true, false, ◌==◌, ◌||◌, arith, length,
  get_elem?, get_elem?-set, length-set, member, ◌⊎◌, inl, inr, Bool-cases, if◌then◌else◌,
}
use gopher.Prelude.Dict.{lookup, delete, lookup-delete}
use gopher.Prelude.Classes.{nat_key}
use gopher.Gnet.Conn.{Conn, raise_flag}
use gopher.Gnet.Server.{Server}
use gopher.Gnet.Server.Stages.{Life, remove_one, put_conn}

-- A goroutine has raised the connection's flag, and has not yet taken it out of the dictionary.
abbrev pub stopping : Life → ℕ → Bool
stopping l p = member p l.flagged || member p l.signalled

-- The connections are numbered in the order of their acceptance; every open one is registered under
-- its number; an entry is for a connection with that number, which is open, or which a goroutine is
-- about to take out; and only the loop of `DelAllConn` keeps the lock.
pub record IsTracked (l : Life) : Type 0 where
  pub counter : l.server.next_id ≡ length l.server.conns % 0x1_0000_0000
  pub ids : (p : ℕ) (c : Conn) → get_elem? l.server.conns p ≡ some c → c.id ≡ p
  pub open_registered :
      (p : ℕ) (c : Conn)
      → get_elem? l.server.conns p ≡ some c
      → c.is_closed ≡ false
      → lookup p l.server.conn_dict ≡ some p
  pub entry :
      (id p : ℕ)
      → lookup id l.server.conn_dict ≡ some p
      → (id ≡ p)
        × (c : Conn) × (get_elem? l.server.conns p ≡ some c)
        × ((c.is_closed ≡ false) ⊎ (stopping l p ≡ true))
  pub stopped :
      (p : ℕ)
      → stopping l p ≡ true
      → (c : Conn) × (get_elem? l.server.conns p ≡ some c) × (c.is_closed ≡ true)
  pub locked : l.server.locked ≡ l.shutting

pub member-remove_one :
    (p q : ℕ) (xs : List ℕ) → (p == q) ≡ false → member q (remove_one p xs) ≡ member q xs
unfolding remove_one
member-remove_one p q [] n = refl
member-remove_one p q (x ∷ xs) n = ground (arith, member-remove_one p q xs n)

get_elem?-put :
    (s : Server) (p q : ℕ) (c d : Conn)
    → get_elem? s.conns p ≡ some c
    → get_elem? (put_conn s p d).conns q ≡ (if p == q then some d else get_elem? s.conns q)
get_elem?-put s p q c d f = ground (arith, get_elem?-set s.conns p q d)

-- A connection changes, but not its number and its flag.
pub replaced-IsTracked :
    (l : Life) (p : ℕ) (c d : Conn)
    → get_elem? l.server.conns p ≡ some c
    → d.id ≡ c.id
    → d.is_closed ≡ c.is_closed
    → IsTracked l
    → IsTracked (record l { server = put_conn l.server p d })
replaced-IsTracked l p c d f i o v = record {
  counter = ground (arith, v.counter, length-set l.server.conns p d);
  ids = λ q b e. ground (arith, get_elem?-put l.server p q c d f, v.ids p c f, v.ids q b);
  open_registered = λ q b e h.
      ground
        (arith, get_elem?-put l.server p q c d f, v.open_registered p c f, v.open_registered q b);
  entry = λ id q e.
      let (same, b, g, r) = v.entry id q e in
      elim (Bool-cases (p == q)) [
        | inr n ↦ (same, b, ground (arith, get_elem?-put l.server p q c d f), r)
        | inl n ↦ (
          same,
          d,
          ground (arith, get_elem?-put l.server p q c d f),
          elim r [ inl a ↦ inl (ground arith) | inr a ↦ inr a ],
        )
      ];
  stopped = λ q m.
      let (b, g, r) = v.stopped q m in
      elim (Bool-cases (p == q)) [
        | inr n ↦ (b, ground (arith, get_elem?-put l.server p q c d f), r)
        | inl n ↦ (d, ground (arith, get_elem?-put l.server p q c d f), ground arith)
      ];
  locked = v.locked;
}

-- Only whose stop is on its way changes, and nobody leaves.
pub same_stops-IsTracked :
    (l m : Life)
    → m.server ≡ l.server
    → m.shutting ≡ l.shutting
    → ((q : ℕ) → stopping m q ≡ stopping l q)
    → IsTracked l
    → IsTracked m
same_stops-IsTracked l m s h same v = record {
  counter = ground (arith, v.counter);
  ids = λ q b e. ground (arith, v.ids q b);
  open_registered = λ q b e o. ground (arith, v.open_registered q b);
  entry = λ id q e.
      let (i, b, g, r) = v.entry id q (ground arith) in
      (i, b, ground arith, elim r [ inl a ↦ inl a | inr a ↦ inr (ground (arith, same q)) ]);
  stopped = λ q k. let (b, g, r) = v.stopped q (ground (arith, same q)) in (b, ground arith, r);
  locked = ground (arith, v.locked);
}

pub flags-IsTracked :
    (l : Life) (p : ℕ) (c : Conn)
    → get_elem? l.server.conns p ≡ some c
    → IsTracked l
    → IsTracked (record l {
      server = put_conn l.server p (raise_flag c);
      checked = remove_one p l.checked;
      flagged = p ∷ l.flagged;
    })
flags-IsTracked l p c f v =
    let at = λ (q : ℕ). get_elem?-put l.server p q c (raise_flag c) f in
    record {
      counter = ground (arith, v.counter, length-set l.server.conns p (raise_flag c));
      ids = λ q b e. ground (arith, at q, v.ids p c f, v.ids q b);
      open_registered = λ q b e h. ground (arith, at q, v.open_registered q b);
      entry = λ id q e.
          let (same, b, g, r) = v.entry id q e in
          elim (Bool-cases (p == q)) [
            | inr n ↦ (
              same,
              b,
              ground (arith, at q),
              elim r [ inl a ↦ inl a | inr a ↦ inr (ground arith) ],
            )
            | inl n ↦ (same, raise_flag c, ground (arith, at q), inr (ground arith))
          ];
      stopped = λ q m. elim (Bool-cases (p == q)) [
        | inl n ↦ (raise_flag c, ground (arith, at q), refl)
        | inr n ↦ let (b, g, r) = v.stopped q (ground arith) in (b, ground (arith, at q), r)
      ];
      locked = v.locked;
    }

pub signals_same :
    (l : Life) (p q : ℕ)
    → member p l.flagged ≡ true
    → (member q (remove_one p l.flagged) || member q (p ∷ l.signalled)) ≡ stopping l q
signals_same l p q m = elim (Bool-cases (p == q)) [
  | inr n ↦ ground (arith, member-remove_one p q l.flagged n)
  | inl n ↦
      let here' : member q l.flagged ≡ true =
        subst (λ x. member x l.flagged ≡ true) (let e : p ≡ q = ground arith in e) m in
      ground arith
]

-- An entry goes whose connection is closed.
pub dropped-IsTracked :
    (l m : Life) (p : ℕ)
    → m.server ≡ record l.server { conn_dict = delete p l.server.conn_dict; locked = m.shutting }
    → ((c : Conn) → get_elem? l.server.conns p ≡ some c → c.is_closed ≡ true)
    → ((q : ℕ) → (p == q) ≡ false → stopping m q ≡ stopping l q)
    → (stopping m p ≡ true → stopping l p ≡ true)
    → IsTracked l
    → IsTracked m
dropped-IsTracked l m p s closed others own v =
    let at = λ (q : ℕ). lookup-delete p q l.server.conn_dict in
    record {
      counter = ground (arith, v.counter);
      ids = λ q b e. ground (arith, v.ids q b);
      open_registered = λ q b e h. elim (Bool-cases (p == q)) [
        | inr n ↦ ground (arith, at q, v.open_registered q b)
        | inl n ↦
            let same : p ≡ q = ground arith in
            absurd (
              ground (
                arith,
                closed b
                    (subst (λ x. get_elem? l.server.conns x ≡ some b) (sym same) (ground arith)),
              ))
      ];
      entry = λ id q e. elim (Bool-cases (p == id)) [
        | inl n ↦ absurd (ground (arith, at id))
        | inr n ↦
            let (i, b, g, r) = v.entry id q (ground (arith, at id)) in
            (
              i,
              b,
              ground arith,
              elim r [ inl a ↦ inl a | inr a ↦ inr (ground (arith, others q (ground arith))) ],
            )
      ];
      stopped = λ q k. elim (Bool-cases (p == q)) [
        | inr n ↦ let (b, g, r) = v.stopped q (ground (arith, others q n)) in (b, ground arith, r)
        | inl n ↦
            let same : p ≡ q = ground arith in
            let (b, g, r) = v.stopped q (
              subst (λ x. stopping l x ≡ true) same
                (own (subst (λ x. stopping m x ≡ true) (sym same) k))) in
            (b, ground arith, r)
      ];
      locked = ground arith;
    }
