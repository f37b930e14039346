-- ===== src/Permissions/Tests.antt =====
-- The check at fixed modes.
use imagineos.Base.{◌≡◌, refl, true, false, ◌+◌, ◌*◌, ◌||◌, ◌==◌, arith}
use Prim.Native.Nat.{bit_and}
use imagineos.Permissions.{allows}
use imagineos.Permissions.Triads.{allows_lem}

-- 0o640
group_reads : allows 416 1000 1000 2000 1000 4 ≡ true
unfolding allows
group_reads = refl

others_do_not : allows 416 1000 1000 2000 2000 4 ≡ false
unfolding allows
others_do_not = refl

allows_lem_example :
    allows (6 * 64 + 4 * 8 + 0) 1000 1000 2000 1000 4 ≡ (2000 == 0) || (bit_and 4 4 == 4)
allows_lem_example =
    allows_lem 6 4 0 1000 1000 2000 1000 4 (omega arith) (omega arith) (omega arith) (omega arith)
