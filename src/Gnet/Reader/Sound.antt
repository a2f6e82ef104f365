-- ===== src/Gnet/Reader/Sound.antt =====
-- What the reader passes on was on the wire, and it always ends.
use mathlib.Core.List.{append_assoc}
use gopher.Prelude.{
  ℕ, zero, suc, ◌<◌, ◌≡◌, refl, sym, ap, subst, ◌∙◌, inl, inr, List, [], ◌∷◌, ◌++◌, some, arith,
  length, All, All-append_right,
}
use gopher.Gnet.Base.{Conf, Error, err, IsByte, Result-cases}
use gopher.Gnet.Msg.{Msg}
use gopher.Gnet.Reader.{read_msg, serialized_loop, start_reader, frame, wire, IsFrame}
use gopher.Gnet.Reader.Framing.{read_msg_takes, read_msg_shorter}

-- How a stream splits into the messages passed on and the rest at which the loop broke.
pub record Split (conf : Conf) (socket : List ℕ) (msgs : List Msg) (e : Error) : Type 0 where
  pub rest : List ℕ
  pub whole : wire msgs ++ rest ≡ socket
  pub frames : All (IsFrame conf) msgs
  pub broken : read_msg conf rest ≡ err e

Split-cons :
    (conf : Conf) (socket : List ℕ) (msg : Msg) (rest : List ℕ) (msgs : List Msg) (e : Error)
    → IsFrame conf msg
    → frame msg ++ rest ≡ socket
    → Split conf rest msgs e
    → Split conf socket (msg ∷ msgs) e
Split-cons conf socket msg rest msgs e f j s = record {
  rest = s.rest;
  whole = append_assoc (frame msg) (wire msgs) s.rest ∙ ap (◌++◌ (frame msg)) s.whole ∙ j;
  frames = (f, s.frames);
  broken = s.broken;
}

loop_total :
    (fuel : ℕ) (conf : Conf) (socket : List ℕ)
    → All IsByte socket
    → length socket < fuel
    → (msgs : List Msg) × (e : Error) × (serialized_loop fuel conf socket ≡ some (msgs, e))
      × Split conf socket msgs e
unfolding serialized_loop
loop_total zero conf socket a h = absurd (omega arith)
loop_total (suc fuel) conf socket a h = elim (Result-cases (read_msg conf socket)) [
  | inr (e, r) ↦
      ([], e, ground arith, record { rest = socket; whole = refl; frames = tt; broken = r })
  | inl ((msg, rest), r) ↦
      let (f, j) = read_msg_takes conf socket msg rest a r in
      let shorter = read_msg_shorter conf socket msg rest r in
      let (msgs, e, l, s) =
        loop_total fuel conf rest
          (All-append_right IsByte (frame msg) rest (subst (All IsByte) (sym j) a)) (omega arith) in
      (msg ∷ msgs, e, ground arith, Split-cons conf socket msg rest msgs e f j s)
]

-- On every stream of bytes the reader ends, and the stream is the messages that it passed on,
-- each well formed and within the maximum, followed by bytes on which one more round fails.
pub start_reader_total :
    (conf : Conf) (socket : List ℕ)
    → All IsByte socket
    → (msgs : List Msg) × (e : Error) × (start_reader conf socket ≡ some (msgs, e))
      × Split conf socket msgs e
unfolding start_reader
start_reader_total conf socket a = loop_total (suc (length socket)) conf socket a (omega arith)
