-- ===== src/Mouse.antt =====
-- kernel/src/drivers/mouse.rs: the assembly of the mouse's packets. What the ports give in one round
-- of the loop is an argument; the end of that list is a controller with nothing more to read.
pub mod Assembly
mod Tests
use imagineos.Base.{
  ℕ, zero, suc, ◌+◌, Bool, true, false, not, Option, none, some, List, [], ◌∷◌, ◌==◌, if◌then◌else◌,
}
use imagineos.Base.Lists.{get_or, set}
use imagineos.Base.Int.{ℤ, pos, negsuc, sub_ℕ, ◌+ℤ◌, ◌-ℤ◌}
use Prim.Native.Nat.{bit_and}

pub record MouseReport : Type 0 where
  pub delta_x : ℤ
  pub delta_y : ℤ
  pub left : Bool
  pub right : Bool

-- PACKET and PACKET_INDEX.
pub record Packet : Type 0 where
  pub cells : List ℕ
  pub index : ℕ

-- The second reading of the status port in a round, and the byte at the data port.
pub record Reading : Type 0 where
  pub status : ℕ
  pub data_byte : ℕ

-- `byte & mask != 0`
abbrev pub has : ℕ → ℕ → Bool
has byte mask = not (bit_and byte mask == 0)

pub decode_delta : ℕ → Bool → ℤ
decode_delta low negative = if negative then sub_ℕ low 256 else pos low

-- The variables of `poll`; there is a report once a packet was whole.
pub record Progress : Type 0 where
  pub packet : Packet
  pub report : Option MouseReport
  pub accumulated_x : ℤ
  pub accumulated_y : ℤ

-- A whole packet.
pub take_packet : Progress → Progress
take_packet p =
    let flags : ℕ = get_or p.packet.cells 0 0 in
    let x : ℤ =
      if has flags 0x40
      then p.accumulated_x
      else p.accumulated_x +ℤ decode_delta (get_or p.packet.cells 1 0) (has flags 0x10) in
    let y : ℤ =
      if has flags 0x80
      then p.accumulated_y
      else p.accumulated_y -ℤ decode_delta (get_or p.packet.cells 2 0) (has flags 0x20) in
    if not (has flags 0x08) then p else record p {
      report =
          some (record { delta_x = x; delta_y = y; left = has flags 0x01; right = has flags 0x02 });
      accumulated_x = x;
      accumulated_y = y;
    }

abbrev pub stored : Progress → ℕ → Progress
stored p byte = record p {
  packet = record { cells = set p.packet.cells p.packet.index byte; index = p.packet.index + 1 };
}

abbrev pub restarted : Progress → Progress
restarted p = record p { packet = record { cells = p.packet.cells; index = 0 } }

-- A byte of the mouse.
pub take_byte : Progress → ℕ → Progress
unfolding take_packet
take_byte p byte =
    if not ((stored p byte).packet.index == 3)
    then stored p byte
    else take_packet (restarted (stored p byte))

-- The loop of `poll`, with a budget of rounds. A byte of the keyboard ends it.
pub poll_rounds : ℕ → List Reading → Progress → Progress
poll_rounds zero readings p = p
poll_rounds (suc budget) [] p = p
poll_rounds (suc budget) (r ∷ readings) p =
    let rest = poll_rounds budget readings (take_byte p r.data_byte) in
    if has r.status 0x20 then rest else p

pub poll : Packet → List Reading → Option MouseReport × Packet
poll packet readings =
    let p : Progress =
      poll_rounds 256 readings
        (record { packet = packet; report = none; accumulated_x = pos 0; accumulated_y = pos 0 }) in
    (p.report, p.packet)
