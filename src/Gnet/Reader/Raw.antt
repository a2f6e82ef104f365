-- ===== src/Gnet/Reader/Raw.antt =====
-- The loop without the serializer cuts the stream into messages and loses nothing.
use mathlib.Core.List.{append_assoc}
use gopher.Prelude.{
  ℕ, ◌%◌, ◌≤◌, ◌≡◌, refl, ap, ◌∙◌, List, [], ◌∷◌, ◌++◌, some, arith, length, All, take, drop,
  take-append-drop, length-take, min,
}
use gopher.Gnet.Base.{Conf, eof}
use gopher.Gnet.Msg.{Msg}
use gopher.Gnet.Reader.{read_raw, raw_loop}

-- The data of the messages, one after the other.
abbrev pub payload : List Msg → List ℕ
payload [] = []
payload (msg ∷ msgs) = msg.bytes ++ payload msgs

abbrev pub IsRaw : Conf → Msg → Type 0
IsRaw conf msg =
    (msg.id ≡ 0)
    × (msg.len ≡ length msg.bytes % 0x1_0000_0000)
    × (length msg.bytes ≤ conf.max_packet_size)

read_raw-IsRaw :
    (conf : Conf) (offer : ℕ) (socket : List ℕ) → IsRaw conf (read_raw conf offer socket)
unfolding read_raw
read_raw-IsRaw conf offer socket =
    (refl, refl, omega (arith, length-take (min offer conf.max_packet_size) socket))

-- However the reads cut the stream, the data of the messages is what has been read of it, each
-- message has number 0 and at most the configured size, and `eof` comes only after the last byte.
pub raw_loop_keeps :
    (conf : Conf) (offers socket : List ℕ)
    → (rest : List ℕ) × (payload (raw_loop conf offers socket).0 ++ rest ≡ socket)
      × All (IsRaw conf) (raw_loop conf offers socket).0
      × ((raw_loop conf offers socket).1 ≡ some eof → rest ≡ [])
unfolding raw_loop
raw_loop_keeps conf [] socket = (socket, refl, tt, λ h. absurd (ground arith))
raw_loop_keeps conf (offer ∷ offers) [] = ([], refl, tt, λ _. refl)
raw_loop_keeps conf (offer ∷ offers) (b ∷ socket) =
    let n = min offer conf.max_packet_size in
    let (rest, whole, raw, last) = raw_loop_keeps conf offers (drop n (b ∷ socket)) in
    (
      rest,
      append_assoc (take n (b ∷ socket)) _ rest
          ∙ ap (◌++◌ (take n (b ∷ socket))) whole
          ∙ take-append-drop n (b ∷ socket),
      (read_raw-IsRaw conf offer (b ∷ socket), raw),
      last,
    )
