-- ===== src/Mouse/Assembly.antt =====
-- The packet that is being assembled keeps its shape, and bytes are grouped by three.
use imagineos.Base.{
  ℕ, zero, suc, ◌+◌, ◌<◌, ◌≡◌, refl, not, List, [], ◌∷◌, ◌==◌, arith, Bool-cases, inl, inr,
}
use imagineos.Base.Lists.{length, length-set, get_or}
use imagineos.Mouse.{
  Packet, Progress, Reading, has, take_packet, take_byte, stored, restarted, poll_rounds, poll,
}

-- Three cells, and an index inside them.
pub record IsPacket (p : Packet) : Type 0 where
  pub cells : length p.cells ≡ 3
  pub index : p.index < 3

take_packet-same : (p : Progress) → (take_packet p).packet ≡ p.packet
unfolding take_packet
take_packet-same p = elim (Bool-cases (not (has (get_or p.packet.cells 0 0) 0x08))) [
  | inl t ↦ rw t refl
  | inr t ↦ rw t refl
]

take_byte-IsPacket :
    (p : Progress) (byte : ℕ) → IsPacket p.packet → IsPacket (take_byte p byte).packet
unfolding take_byte
take_byte-IsPacket p byte v = elim (Bool-cases (not (p.packet.index + 1 == 3))) [
  | inl t ↦ rw t (record {
    cells = omega (arith, length-set p.packet.cells p.packet.index byte, v.cells);
    index = ground (arith, v.index);
  })
  | inr t ↦
      rw (t, take_packet-same (restarted (stored p byte)))
        (record {
          cells = omega (arith, length-set p.packet.cells p.packet.index byte, v.cells);
          index = omega arith;
        })
]

poll_rounds-IsPacket :
    (budget : ℕ) (readings : List Reading) (p : Progress)
    → IsPacket p.packet
    → IsPacket (poll_rounds budget readings p).packet
unfolding poll_rounds
poll_rounds-IsPacket zero readings p v = v
poll_rounds-IsPacket (suc budget) [] p v = v
poll_rounds-IsPacket (suc budget) (r ∷ readings) p v =
    let w =
      poll_rounds-IsPacket budget readings (take_byte p r.data_byte)
        (take_byte-IsPacket p r.data_byte v) in
    elim (Bool-cases (has r.status 0x20)) [ inl t ↦ rw t w | inr t ↦ rw t v ]

-- Whatever the ports give, `poll` leaves a packet of three cells with the index inside it, so that the
-- next byte has a cell.
pub poll-IsPacket :
    (packet : Packet) (readings : List Reading)
    → IsPacket packet
    → IsPacket (poll packet readings).1
unfolding poll
poll-IsPacket packet readings v = poll_rounds-IsPacket 256 readings _ v
