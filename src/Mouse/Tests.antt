-- ===== src/Mouse/Tests.antt =====
-- The driver on fixed readings.
use imagineos.Base.{◌≡◌, refl, true, false, some, List, [], ◌∷◌, arith}
use imagineos.Base.Int.{pos, negsuc, ◌+ℤ◌, ◌-ℤ◌}
use imagineos.Mouse.{Packet, Reading, decode_delta, take_packet, take_byte, poll_rounds, poll}
use imagineos.Mouse.Assembly.{IsPacket, poll-IsPacket}

-- 5 to the right, 3 up by the device's sign, the left button, and one byte of the next packet.
abbrev readings : List Reading
readings =
    record { status = 0x21; data_byte = 0x09 }
    ∷ record { status = 0x21; data_byte = 5 }
    ∷ record { status = 0x21; data_byte = 3 }
    ∷ record { status = 0x21; data_byte = 0x08 }
    ∷ record { status = 0x01; data_byte = 0x1e }
    ∷ []

abbrev start : Packet
start = record { cells = 0 ∷ 0 ∷ 0 ∷ []; index = 0 }

poll_run : poll start readings ≡ (
  some (record { delta_x = pos 5; delta_y = negsuc 2; left = true; right = false }),
  record { cells = 0x08 ∷ 5 ∷ 3 ∷ []; index = 1 },
)
unfolding poll poll_rounds take_byte take_packet decode_delta ◌+ℤ◌ ◌-ℤ◌
poll_run = refl

poll-IsPacket_example : IsPacket (poll start readings).1
poll-IsPacket_example = poll-IsPacket start readings (record { cells = refl; index = omega arith })
