-- ===== src/Gnet/Msg.antt =====
-- go-server/gnet/msg.go: a message has a length, a number and its data.
use gopher.Prelude.{ℕ, ◌%◌, List, length}

pub record Msg : Type 0 where
  pub len : ℕ
  pub id : ℕ
  pub bytes : List ℕ

-- `uint32(len(data))` keeps the low 32 bits.
abbrev pub new_msg : ℕ → List ℕ → Msg
new_msg id bytes = record { len = length bytes % 0x1_0000_0000; id = id; bytes = bytes }

abbrev pub set_len : Msg → ℕ → Msg
set_len msg n = record msg { len = n }

abbrev pub set_id : Msg → ℕ → Msg
set_id msg n = record msg { id = n }

abbrev pub set_data : Msg → List ℕ → Msg
set_data msg bytes = record msg { bytes = bytes }
