-- ===== src/Protocol/Command.antt =====
-- src/protocol/command.rs
use rust.Prelude.{ℕ, ◌≡◌, ◌↔◌, refl, arith, ◌==◌, if◌then◌else◌}
use rust.Error.{Result, ok, err, invalid_command}

pub data Command : Type 0 where
  connect udp_associate : Command

unfoldable pub from_u8 : ℕ → Result Command
from_u8 value =
    if value == 0x01
    then ok connect
    else if value == 0x03
    then ok udp_associate
    else err (invalid_command value)

unfoldable pub as_u8 : Command → ℕ
as_u8 connect = 0x01
as_u8 udp_associate = 0x03

pub from_u8-as_u8 : (c : Command) → from_u8 (as_u8 c) ≡ ok c
unfolding from_u8 as_u8
from_u8-as_u8 connect = refl
from_u8-as_u8 udp_associate = refl

-- A byte is accepted as a command exactly if it is the code of that command.
pub from_u8_iff : (v : ℕ) (c : Command) → (from_u8 v ≡ ok c) ↔ (v ≡ as_u8 c)
unfolding from_u8 as_u8
from_u8_iff v connect = ground arith
from_u8_iff v udp_associate = ground arith
