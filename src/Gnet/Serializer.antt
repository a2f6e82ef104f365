-- ===== src/Gnet/Serializer.antt =====
-- go-server/gnet/msg_serializer.go: a packet is the length and the number of a message, each a
-- little-endian uint32, and then its data. Bytes are numbers.
pub mod RoundTrip
use gopher.Prelude.{ℕ, ◌+◌, ◌*◌, ◌/◌, ◌%◌, List, [], ◌∷◌, ◌++◌, ltb, if◌then◌else◌}
use gopher.Gnet.Base.{Conf, Result, ok, err, eof, unexpected_eof, packet_overflow, ◌>>=◌}
use gopher.Gnet.Msg.{Msg}

-- `binary.Write` of a uint32, and `binary.Read` of one: what is read and what is left.
unfoldable pub write_uint32 : ℕ → List ℕ
write_uint32 v =
    (v % 0x100) ∷ (v / 0x100 % 0x100) ∷ (v / 0x1_0000 % 0x100) ∷ (v / 0x100_0000 % 0x100) ∷ []

unfoldable pub read_uint32 : List ℕ → Result (ℕ × List ℕ)
read_uint32 [] = err eof
read_uint32 (a ∷ []) = err unexpected_eof
read_uint32 (a ∷ b ∷ []) = err unexpected_eof
read_uint32 (a ∷ b ∷ c ∷ []) = err unexpected_eof
read_uint32 (a ∷ b ∷ c ∷ d ∷ rest) = ok (a + b * 0x100 + c * 0x1_0000 + d * 0x100_0000, rest)

abbrev pub get_head_len : ℕ
get_head_len = 8

-- Writing to a buffer in memory does not fail.
unfoldable pub pack : Msg → Result (List ℕ)
unfolding write_uint32
pack msg = ok (write_uint32 msg.len ++ (write_uint32 msg.id ++ msg.bytes))

unfoldable pub unpack : Conf → List ℕ → Result Msg
unfolding read_uint32
unpack conf packet = do
  (len, rest) ← read_uint32 packet
  (id, _) ← read_uint32 rest
  if ltb conf.max_packet_size len
      then err packet_overflow
      else ok (record { len = len; id = id; bytes = [] })
