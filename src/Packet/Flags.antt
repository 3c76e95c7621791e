-- ===== src/Packet/Flags.antt =====
-- include/packet_flags.hpp
use worms2lobby_server_cpp.Base.{ℕ, ◌==◌, Bool, not, if◌then◌else◌, bit_and, bit_or}

pub data PacketFlags : Type 0 where
  value0 value1 value2 value3 value4 value10 data_length content error name session_info :
      PacketFlags

abbrev pub flag_value : PacketFlags → ℕ
flag_value PacketFlags.value0 = 1
flag_value PacketFlags.value1 = 2
flag_value PacketFlags.value2 = 4
flag_value PacketFlags.value3 = 8
flag_value PacketFlags.value4 = 16
flag_value PacketFlags.value10 = 1024
flag_value PacketFlags.data_length = 32
flag_value PacketFlags.content = 64
flag_value PacketFlags.error = 128
flag_value PacketFlags.name = 256
flag_value PacketFlags.session_info = 512

unfoldable pub has_flag : ℕ → PacketFlags → Bool
has_flag value flag = not (bit_and value (flag_value flag) == 0)

-- `if (b) { flags |= flag; }`
abbrev pub set_flag : Bool → PacketFlags → ℕ → ℕ
set_flag b flag flags = if b then bit_or flags (flag_value flag) else flags
