-- ===== src/Permissions.antt =====
-- kernel/src/fs/permissions.rs: the access check on a file's mode bits.
pub mod Triads
mod Tests
use imagineos.Base.{ℕ, ◌/◌, ◌^◌, Bool, true, ◌==◌, if◌then◌else◌}
use Prim.Native.Nat.{bit_and}

-- Root passes; anyone else needs every requested bit in the one triad that applies.
pub allows : ℕ → ℕ → ℕ → ℕ → ℕ → ℕ → Bool
allows mode owner_uid owner_gid uid gid requested =
    let shift : ℕ = if uid == owner_uid then 6 else if gid == owner_gid then 3 else 0 in
    if uid == 0 then true else bit_and (mode / 2 ^ shift) requested == requested
