-- ===== src/Memory/Tests.antt =====
-- The allocator at a fixed memory map.
use imagineos.Base.{◌+◌, ◌≡◌, ◌↔◌, refl, true, false, some, List, [], ◌∷◌, arith, inl, inr}
use imagineos.Base.Lists.{All}
use imagineos.Memory.{
  Entry, PhysicalRange, FrameAllocator, init, allocate_frame, add_entries, add_entry,
  add_unreserved_regions, take_frame,
}
use imagineos.Memory.Regions.{IsAligned}
use imagineos.Memory.Reserve.{Fits, Sorted, AvoidsAll}
use imagineos.Memory.Apart.{Apart}
use imagineos.Memory.Init.{EntriesApart, HeldBy, init_regions}
use imagineos.Memory.Pool.{Free, Beside, IsPool}
use imagineos.Memory.Frames.{allocate_many, Distinct, allocate_frame-some}
use imagineos.Memory.Boot.{PageHeld, PageAvoids, boot_frames}

-- Two usable entries, the first not aligned, and a kernel image of three pages inside it.
abbrev entries : List Entry
entries =
    record { base = 0x1800; length = 0x8000; usable = true }
    ∷ record { base = 0xa000; length = 0x1000; usable = false }
    ∷ record { base = 0x10000; length = 0x2000; usable = true }
    ∷ []

abbrev reserved : List PhysicalRange
reserved = record { start = 0x3000; length = 0x2100 } ∷ record { start = 0x11000; length = 1 } ∷ []

-- The frames in the order of the calls, and the end of memory.
allocate_many_run :
    allocate_many 9 (init entries 0x1000000 reserved).1
    ≡ 0x2000 ∷ 0x6000 ∷ 0x7000 ∷ 0x8000 ∷ 0x10000 ∷ []
unfolding allocate_many allocate_frame init add_entries add_entry add_unreserved_regions take_frame
allocate_many_run = refl

entries-Apart : EntriesApart entries
entries-Apart = ((inr (inl refl), (inr (inr (inl (omega arith))), tt)), ((inl refl, tt), (tt, tt)))

reserved-Sorted : Sorted reserved
reserved-Sorted = ((omega arith, tt), (tt, tt))

reserved-Fits : All Fits reserved
reserved-Fits = (omega arith, (omega arith, tt))

boot_frames_example :
    let frames = allocate_many 9 (init entries 0x1000000 reserved).1 in
    All (λ p. IsAligned p × PageHeld entries p × PageAvoids reserved p) frames × Distinct frames
boot_frames_example =
    boot_frames entries 0x1000000 reserved 9 entries-Apart reserved-Sorted reserved-Fits

init_regions_example :
    let regions = (init entries 0 reserved).1.regions in
    All (HeldBy entries) regions × AvoidsAll reserved regions × Apart regions
init_regions_example = init_regions entries 0 reserved entries-Apart reserved-Sorted reserved-Fits

abbrev one_region : FrameAllocator
one_region = record {
  regions = record { next = 0x2000; limit = 0x4000 } ∷ [];
  current_region = 0;
  hhdm_offset = 0x100000;
}

abbrev left_over : FrameAllocator
left_over = record {
  regions = record { next = 0x3000; limit = 0x4000 } ∷ [];
  current_region = 0;
  hhdm_offset = 0x100000;
}

first_frame :
    allocate_frame one_region
    ≡ (some (record { physical_address = 0x2000; virtual_address = 0x102000 }), left_over)
unfolding allocate_frame take_frame
first_frame = refl

one_region-IsPool : IsPool one_region.regions
one_region-IsPool =
    ((record { next_aligned = refl; limit_aligned = refl; fits = omega arith }, tt), (tt, tt))

allocate_frame-some_example :
    IsAligned 0x2000
    × (0x102000 ≡ 0x2000 + 0x100000)
    × (Free left_over.regions 0x3010 ↔ (Free one_region.regions 0x3010 × Beside 0x2000 0x3010))
    × IsPool left_over.regions
    × Free one_region.regions (0x2000 + 0xfff)
allocate_frame-some_example =
    allocate_frame-some one_region
      (record { physical_address = 0x2000; virtual_address = 0x102000 }) left_over 0x3010 0xfff
      one_region-IsPool first_frame (omega arith)
