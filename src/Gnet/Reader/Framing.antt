-- ===== src/Gnet/Reader/Framing.antt =====
-- The reader takes a stream apart into the messages that were sent, and into no others.
use mathlib.Core.List.{append-nil, append_assoc}
use gopher.Prelude.{
  ℕ, zero, suc, ◌≤◌, ◌<◌, ◌≡◌, refl, sym, ap, subst, ◌∙◌, inl, inr, List, [], ◌∷◌, ◌++◌, Option,
  none, some, arith, length, length-append, All, All-append_left, length-take, take-append-drop,
  take-append_exact, drop-append_exact,
}
use gopher.Gnet.Base.{Conf, Error, ok, err, eof, IsByte, Result-cases}
use gopher.Gnet.Msg.{Msg, set_data}
use gopher.Gnet.Serializer.{pack, unpack, get_head_len}
use gopher.Gnet.Serializer.RoundTrip.{pack-unpack, pack-set_data}
use gopher.Gnet.Reader.{
  read_full, read_body, read_msg, serialized_loop, start_reader, frame, wire, IsFrame,
}

read_full-append : (xs ys : List ℕ) (n : ℕ) → length xs ≡ n → read_full n (xs ++ ys) ≡ ok (xs, ys)
unfolding read_full
read_full-append xs ys n h =
    ground (arith, length-append xs ys, take-append_exact n xs ys h, drop-append_exact n xs ys h)

read_body-append : (xs ys : List ℕ) (n : ℕ) → length xs ≡ n → read_body n (xs ++ ys) ≡ ok (xs, ys)
read_body-append [] ys n h = unfold read_body in ground (arith)
read_body-append (x ∷ xs) ys n h =
    unfold read_body in ground (arith, read_full-append (x ∷ xs) ys n h)

pub read_msg-frame :
    (conf : Conf) (msg : Msg) (rest : List ℕ)
    → IsFrame conf msg
    → read_msg conf (frame msg ++ rest) ≡ ok (msg, rest)
unfolding read_msg pack
read_msg-frame conf msg rest h =
    ground (arith, h.len_exact, read_body-append msg.bytes rest msg.len h.len_exact)

-- A message takes its head and its data from the socket, and nothing else.
read_full_takes :
    (n : ℕ) (socket xs rest : List ℕ)
    → read_full n socket ≡ ok (xs, rest)
    → (length xs ≡ n) × (xs ++ rest ≡ socket)
unfolding read_full
read_full_takes n socket xs rest h = ground (arith, length-take n socket, take-append-drop n socket)

read_body_takes :
    (n : ℕ) (socket xs rest : List ℕ)
    → read_body n socket ≡ ok (xs, rest)
    → (length xs ≡ n) × (xs ++ rest ≡ socket)
unfolding read_body
read_body_takes n socket xs rest h = ground (arith, read_full_takes n socket xs rest)

read_body_shorter :
    (n : ℕ) (socket xs rest : List ℕ)
    → read_body n socket ≡ ok (xs, rest)
    → length rest ≤ length socket
read_body_shorter n socket xs rest h =
    let (_, j) = read_body_takes n socket xs rest h in
    omega (arith, ap length j, length-append xs rest)

frame-pack : (msg : Msg) (packet : List ℕ) → pack msg ≡ ok packet → frame msg ≡ packet
frame-pack msg packet h = ground arith

frame_takes :
    (conf : Conf) (msg : Msg) (head bytes rest rest' socket : List ℕ)
    → All IsByte head
    → length head ≡ get_head_len
    → head ++ rest' ≡ socket
    → unpack conf head ≡ ok msg
    → read_body msg.len rest' ≡ ok (bytes, rest)
    → IsFrame conf (set_data msg bytes) × (frame (set_data msg bytes) ++ rest ≡ socket)
frame_takes conf msg head bytes rest rest' socket a l j u r =
    let (packed, allowed, empty, lf, idf) = pack-unpack conf head msg a l u in
    let (lb, jb) = read_body_takes msg.len rest' bytes rest r in
    (
      record { len_fits = lf; id_fits = idf; len_exact = lb; len_allowed = allowed },
      ap (λ (t : List ℕ). t ++ rest) (frame-pack _ _ (pack-set_data msg head bytes packed empty))
          ∙ (append_assoc head bytes rest ∙ ap (◌++◌ head) jb ∙ j),
    )

pub read_msg_takes :
    (conf : Conf) (socket : List ℕ) (msg : Msg) (rest : List ℕ)
    → All IsByte socket
    → read_msg conf socket ≡ ok (msg, rest)
    → IsFrame conf msg × (frame msg ++ rest ≡ socket)
unfolding read_msg
read_msg_takes conf socket msg rest a h = elim (Result-cases (read_full get_head_len socket)) [
  | inr (x, e) ↦ absurd (ground arith)
  | inl ((head, rest'), e) ↦
      let (l, j) = read_full_takes get_head_len socket head rest' e in
      elim (Result-cases (unpack conf head)) [
        | inr (x, u) ↦ absurd (ground arith)
        | inl (m, u) ↦ elim (Result-cases (read_body m.len rest')) [
          | inr (x, r) ↦ absurd (ground arith)
          | inl ((bytes, rest''), r) ↦
              subst (λ (p : Msg × List ℕ). IsFrame conf p.0 × (frame p.0 ++ p.1 ≡ socket))
                (ground arith)
                (frame_takes conf m head bytes rest'' rest' socket
                  (All-append_left IsByte head rest' (rw j a)) l j u r)
        ]
      ]
]

pub read_msg_shorter :
    (conf : Conf) (socket : List ℕ) (msg : Msg) (rest : List ℕ)
    → read_msg conf socket ≡ ok (msg, rest)
    → length rest < length socket
unfolding read_msg
read_msg_shorter conf socket msg rest h = elim (Result-cases (read_full get_head_len socket)) [
  | inr (x, e) ↦ absurd (ground arith)
  | inl ((head, rest'), e) ↦
      let (l, j) = read_full_takes get_head_len socket head rest' e in
      elim (Result-cases (unpack conf head)) [
        | inr (x, u) ↦ absurd (ground arith)
        | inl (m, u) ↦ ground (
          arith,
          ap length j,
          length-append head rest',
          read_body_shorter m.len rest' msg.bytes rest,
        )
      ]
]

-- The fuel does not matter once it is above the length of the stream.
loop_fuel :
    (f g : ℕ) (conf : Conf) (socket : List ℕ)
    → length socket < f
    → length socket < g
    → serialized_loop f conf socket ≡ serialized_loop g conf socket
unfolding serialized_loop
loop_fuel zero g conf socket hf hg = absurd (omega arith)
loop_fuel (suc f) zero conf socket hf hg = absurd (omega arith)
loop_fuel (suc f) (suc g) conf socket hf hg = elim (Result-cases (read_msg conf socket)) [
  | inl ((msg, rest), e) ↦
      ground (arith, read_msg_shorter conf socket msg rest e, loop_fuel f g conf rest)
  | inr (x, e) ↦ ground arith
]

abbrev pub prepend : List Msg → Option (List Msg × Error) → Option (List Msg × Error)
prepend msgs none = none
prepend msgs (some (more, e)) = some (msgs ++ more, e)

prepend-nil : (r : Option (List Msg × Error)) → prepend [] r ≡ r
prepend-nil none = refl
prepend-nil (some p) = refl

prepend-prepend :
    (msg : Msg) (msgs : List Msg) (r : Option (List Msg × Error))
    → prepend (msg ∷ []) (prepend msgs r) ≡ prepend (msg ∷ msgs) r
prepend-prepend msg msgs none = refl
prepend-prepend msg msgs (some p) = refl

start_reader-ok :
    (conf : Conf) (socket : List ℕ) (msg : Msg) (rest : List ℕ)
    → read_msg conf socket ≡ ok (msg, rest)
    → start_reader conf socket ≡ prepend (msg ∷ []) (start_reader conf rest)
unfolding start_reader
start_reader-ok conf socket msg rest h = ground (
  arith,
  read_msg_shorter conf socket msg rest h,
  loop_fuel (length socket) (suc (length rest)) conf rest,
)

-- The messages at the front of a stream are passed on whole and in order, whatever follows them.
pub start_reader-wire :
    (conf : Conf) (msgs : List Msg) (tail : List ℕ)
    → All (IsFrame conf) msgs
    → start_reader conf (wire msgs ++ tail) ≡ prepend msgs (start_reader conf tail)
start_reader-wire conf [] tail a = sym (prepend-nil (start_reader conf tail))
start_reader-wire conf (msg ∷ msgs) tail a = rw (append_assoc (frame msg) (wire msgs) tail) (
    start_reader-ok conf _ msg (wire msgs ++ tail) (read_msg-frame conf msg _ a.0)
    ∙ ap (prepend (msg ∷ [])) (start_reader-wire conf msgs tail a.1)
    ∙ prepend-prepend msg msgs (start_reader conf tail))

-- A whole stream of messages is passed on and ends with `eof`.
read_msg-nil : (conf : Conf) → read_msg conf [] ≡ err eof
unfolding read_msg read_full
read_msg-nil conf = refl

start_reader-err :
    (conf : Conf) (socket : List ℕ) (e : Error)
    → read_msg conf socket ≡ err e
    → start_reader conf socket ≡ some ([], e)
unfolding start_reader
start_reader-err conf socket e h = ground arith

-- A connection that sends whole messages and closes gets each of them passed on, and `eof` ends the
-- loop.
pub start_reader-wire_eof :
    (conf : Conf) (msgs : List Msg)
    → All (IsFrame conf) msgs
    → start_reader conf (wire msgs) ≡ some (msgs, eof)
start_reader-wire_eof conf msgs a =
    ap (start_reader conf) (sym (append-nil (wire msgs)))
    ∙ start_reader-wire conf msgs [] a
    ∙ ap (prepend msgs) (start_reader-err conf [] eof (read_msg-nil conf))
    ∙ ap (λ (t : List Msg). some (t, eof)) (append-nil msgs)
