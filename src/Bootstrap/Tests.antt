-- ===== src/Bootstrap/Tests.antt =====
-- The ranges of a fixed boot.
use imagineos.Base.{◌≡◌, ◌↔◌, refl, true, List, [], ◌∷◌, arith, inl, inr}
use imagineos.Base.Lists.{All, length}
use imagineos.Memory.{PhysicalRange, Entry, init}
use imagineos.Memory.Regions.{IsAligned}
use imagineos.Memory.Reserve.{Fits, Sorted}
use imagineos.Memory.Pool.{Beside}
use imagineos.Memory.Frames.{allocate_many, Distinct}
use imagineos.Memory.Boot.{PageHeld}
use imagineos.Bootstrap.{handed_over, sort_and_merge_ranges, sort, insert, merge}
use imagineos.Bootstrap.Ranges.{Holds, sort_and_merge_ranges_lem}
use imagineos.Bootstrap.Handover.{handover_frames}

abbrev ranges : List PhysicalRange
ranges =
    record { start = 0x5000; length = 0x800 }
    ∷ record { start = 0x2000; length = 0x1000 }
    ∷ record { start = 0x2800; length = 0x1800 }
    ∷ []

sort_and_merge_run : sort_and_merge_ranges ranges ≡ (
  2,
  record { start = 0x2000; length = 0x2000 } ∷ record { start = 0x5000; length = 0x800 } ∷ [],
)
unfolding sort_and_merge_ranges sort insert merge
sort_and_merge_run = refl

ranges-Fits : All Fits ranges
ranges-Fits = (omega arith, (omega arith, (omega arith, tt)))

sort_and_merge_ranges_lem_example :
    let (count, merged) = sort_and_merge_ranges ranges in
    (count ≡ length merged)
    × Sorted merged
    × All Fits merged
    × (Holds merged 0x2900 ↔ Holds ranges 0x2900)
sort_and_merge_ranges_lem_example =
    sort_and_merge_ranges_lem ranges 0x2900 (omega arith) ranges-Fits

-- The count of the empty slice, which the loader never asks for.
empty_slice_run : sort_and_merge_ranges [] ≡ (1, [])
unfolding sort_and_merge_ranges sort
empty_slice_run = refl

abbrev entries : List Entry
entries = record { base = 0x1000; length = 0x9000; usable = true } ∷ []

handover_frames_example :
    let frames = allocate_many 5 (init entries 0x1000000 (handed_over ranges)).1 in
    All (λ p. IsAligned p × PageHeld entries p × Beside p 0x2900) frames × Distinct frames
handover_frames_example =
    handover_frames entries 0x1000000 ranges 5 0x2900 (tt, tt) ranges-Fits
      (inr (inl (omega arith, omega arith)))
