-- ===== src/Gnet/Serializer/RoundTrip.antt =====
-- `pack` and `unpack` undo each other on the head of a packet.
use gopher.Prelude.{
  ℕ, ◌≤◌, ◌≡◌, refl, List, [], ◌∷◌, ◌++◌, ltb, if◌then◌else◌, arith, length, All, take, drop,
}
use gopher.Gnet.Base.{Conf, ok, err, packet_overflow, IsByte, IsU32}
use gopher.Gnet.Msg.{Msg}
use gopher.Gnet.Serializer.{write_uint32, read_uint32, pack, unpack, get_head_len}

pub read_uint32-write_uint32 :
    (v : ℕ) (rest : List ℕ) → IsU32 v → read_uint32 (write_uint32 v ++ rest) ≡ ok (v, rest)
unfolding read_uint32 write_uint32
read_uint32-write_uint32 v rest h = ground arith

pub write_uint32-read_uint32 :
    (bytes : List ℕ) (v : ℕ) (rest : List ℕ)
    → All IsByte bytes
    → read_uint32 bytes ≡ ok (v, rest)
    → (write_uint32 v ++ rest ≡ bytes) × IsU32 v × All IsByte rest
unfolding read_uint32 write_uint32
write_uint32-read_uint32 [] v rest a h = absurd (ground arith)
write_uint32-read_uint32 (b ∷ []) v rest a h = absurd (ground arith)
write_uint32-read_uint32 (b ∷ c ∷ []) v rest a h = absurd (ground arith)
write_uint32-read_uint32 (b ∷ c ∷ d ∷ []) v rest a h = absurd (ground arith)
write_uint32-read_uint32 (b ∷ c ∷ d ∷ e ∷ bytes) v rest a h =
    (ground arith, ground arith, ground arith)

-- Reading the head of a packet that `pack` wrote gives back the length and the number of the
-- message, without its data, or refuses it when the length passes the configured maximum.
pub unpack-pack :
    (conf : Conf) (msg : Msg) (packet : List ℕ)
    → IsU32 msg.len
    → IsU32 msg.id
    → pack msg ≡ ok packet
    → (unpack conf (take get_head_len packet) ≡ (
        if ltb conf.max_packet_size msg.len
        then err packet_overflow
        else ok (record msg { bytes = [] })))
      × (drop get_head_len packet ≡ msg.bytes)
unfolding pack unpack read_uint32
unpack-pack conf msg packet hl hi h = (ground arith, ground arith)

pub length-write_uint32 : (v : ℕ) → length (write_uint32 v) ≡ 4
unfolding write_uint32
length-write_uint32 v = refl

-- A head of eight bytes that `unpack` accepts is the one that `pack` writes for its result.
pub pack-unpack :
    (conf : Conf) (head : List ℕ) (msg : Msg)
    → All IsByte head
    → length head ≡ get_head_len
    → unpack conf head ≡ ok msg
    → (pack msg ≡ ok head)
      × (msg.len ≤ conf.max_packet_size)
      × (msg.bytes ≡ [])
      × IsU32 msg.len
      × IsU32 msg.id
unfolding pack unpack read_uint32
pack-unpack conf [] msg a l h = absurd (ground arith)
pack-unpack conf (b ∷ []) msg a l h = absurd (ground arith)
pack-unpack conf (b ∷ c ∷ []) msg a l h = absurd (ground arith)
pack-unpack conf (b ∷ c ∷ d ∷ []) msg a l h = absurd (ground arith)
pack-unpack conf (b ∷ c ∷ d ∷ e ∷ []) msg a l h = absurd (ground arith)
pack-unpack conf (b ∷ c ∷ d ∷ e ∷ f ∷ []) msg a l h = absurd (ground arith)
pack-unpack conf (b ∷ c ∷ d ∷ e ∷ f ∷ g ∷ []) msg a l h = absurd (ground arith)
pack-unpack conf (b ∷ c ∷ d ∷ e ∷ f ∷ g ∷ i ∷ []) msg a l h = absurd (ground arith)
pack-unpack conf (b ∷ c ∷ d ∷ e ∷ f ∷ g ∷ i ∷ j ∷ []) msg a l h = ground arith
pack-unpack conf (b ∷ c ∷ d ∷ e ∷ f ∷ g ∷ i ∷ j ∷ k ∷ r) msg a l h = absurd (omega arith)

pub pack-set_data :
    (msg : Msg) (head bytes : List ℕ)
    → pack msg ≡ ok head
    → msg.bytes ≡ []
    → pack (record msg { bytes = bytes }) ≡ ok (head ++ bytes)
unfolding pack
pack-set_data msg head bytes h e = ground arith
