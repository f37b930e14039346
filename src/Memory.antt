-- ===== src/Memory.antt =====
-- kernel/src/mm/memory.rs: the allocator of physical frames.
pub mod Reserve
pub mod Regions
pub mod Apart
pub mod Init
pub mod Pool
pub mod Frames
pub mod Boot
mod Tests
use imagineos.Base.{
  ℕ, zero, suc, ◌+◌, ◌-◌, ◌*◌, ◌/◌, min, max, Bool, true, false, ◌&&◌, ◌||◌, not, Option, none,
  some, List, [], ◌∷◌, ◌++◌, ltb, leb, ◌==◌, if◌then◌else◌, checked_add, saturating_add,
}
use imagineos.Base.Lists.{length, get_elem?, set}

abbrev pub page_size : ℕ
page_size = 4096

abbrev pub max_regions : ℕ
max_regions = 128

-- `x & !(PAGE_SIZE - 1)`
abbrev pub align_down : ℕ → ℕ
align_down x = x / page_size * page_size

-- `PhysicalRange` of bootstrap/boot_info.rs.
pub record PhysicalRange : Type 0 where
  pub start : ℕ
  pub length : ℕ

-- What the allocator reads of an entry of Limine's memory map; `usable` says that its type is
-- `EntryType::USABLE`.
pub record Entry : Type 0 where
  pub base : ℕ
  pub length : ℕ
  pub usable : Bool

pub record Region : Type 0 where
  pub next : ℕ
  pub limit : ℕ

-- `regions` are the first `region_count` regions of the array; the others are never read.
pub record FrameAllocator : Type 0 where
  pub regions : List Region
  pub current_region : ℕ
  pub hhdm_offset : ℕ

-- `regions[region_count] = …; region_count += 1`, behind its test for room.
pub add_region : List Region → ℕ → ℕ → List Region
add_region regions from to =
    if ltb (length regions) max_regions
    then regions ++ record { next = from; limit = to } ∷ []
    else regions

-- How a round of the loop over the reserved ranges ends: by `return`, or with the next base.
pub data Cut : Type 0 where
  return : List Region → Cut
  continue : List Region → ℕ → Cut

pub cut_known : List Region → ℕ → ℕ → ℕ → ℕ → Cut
unfolding add_region
cut_known regions base end reserved_start reserved_end =
    let regions' =
      if ltb base reserved_start
      then add_region regions base (min reserved_start end)
      else regions in
    let base' = max base reserved_end in
    if leb reserved_end base || leb end reserved_start
    then continue regions base
    else if leb end base'
    then return regions'
    else continue regions' base'

-- The body of that loop.
pub cut : List Region → ℕ → ℕ → PhysicalRange → Cut
unfolding cut_known
cut regions base end range = elim (checked_add range.start range.length) [
  | none ↦ continue regions base
  | some reserved_end ↦
      cut_known regions base end (align_down range.start)
        (align_down (saturating_add reserved_end (page_size - 1)))
]

pub add_unreserved_regions : List Region → ℕ → ℕ → List PhysicalRange → List Region
unfolding cut add_region
add_unreserved_regions regions base end [] =
    if ltb base end then add_region regions base end else regions
add_unreserved_regions regions base end (range ∷ reserved) = elim (cut regions base end range) [
  | return regions' ↦ regions'
  | continue regions' base' ↦ add_unreserved_regions regions' base' end reserved
]

-- The body of the loop of `init`.
pub add_aligned : List Region → ℕ → ℕ → List PhysicalRange → List Region
add_aligned regions base end reserved =
    if ltb base end then add_unreserved_regions regions base end reserved else regions

pub add_checked : List Region → Option ℕ → Option ℕ → List PhysicalRange → List Region
add_checked regions none aligned reserved = regions
add_checked regions (some end) none reserved = regions
add_checked regions (some end) (some aligned) reserved =
    add_aligned regions (align_down aligned) (align_down end) reserved

pub add_entry : List Region → Entry → List PhysicalRange → List Region
unfolding add_aligned add_checked
add_entry regions entry reserved =
    if not entry.usable || length regions == max_regions
    then regions
    else add_checked regions (checked_add entry.base entry.length)
        (checked_add entry.base (page_size - 1)) reserved

pub add_entries : List Region → List Entry → List PhysicalRange → List Region
add_entries regions [] reserved = regions
add_entries regions (entry ∷ entries) reserved =
    add_entries (add_entry regions entry reserved) entries reserved

-- The number of frames in the regions.
pub frame_count : List Region → ℕ
frame_count [] = 0
frame_count (r ∷ rs) = (r.limit - r.next) / page_size + frame_count rs

pub init : List Entry → ℕ → List PhysicalRange → ℕ × FrameAllocator
init entries hhdm_offset reserved =
    let regions = add_entries [] entries reserved in
    (
      frame_count regions,
      record { regions = regions; current_region = 0; hhdm_offset = hhdm_offset },
    )

pub record Frame : Type 0 where
  pub physical_address : ℕ
  pub virtual_address : ℕ

pub frame_at : ℕ → Option ℕ → Option Frame
frame_at physical_address none = none
frame_at physical_address (some v) =
    some (record { physical_address = physical_address; virtual_address = v })

-- The branch that hands out the frame at `region.next`: on an overflow of the region nothing has
-- changed yet; on one of the virtual address the region has moved on.
pub take_frame : FrameAllocator → Region → Option ℕ → Option Frame × FrameAllocator
unfolding frame_at
take_frame a region none = (none, a)
take_frame a region (some next) = (
  frame_at region.next (checked_add region.next a.hhdm_offset),
  record a { regions = set a.regions a.current_region (record region { next = next }) },
)

-- The loop of `allocate_frame`; the first argument is the number of regions from
-- `current_region` on.
pub allocate_loop : ℕ → FrameAllocator → Option Frame × FrameAllocator
allocate_loop zero a = (none, a)
allocate_loop (suc n) a = elim (get_elem? a.regions a.current_region) [
  | none ↦ (none, a)
  | some region ↦ elim (ltb region.next region.limit) [
    | true ↦ take_frame a region (checked_add region.next page_size)
    | false ↦ allocate_loop n (record a { current_region = a.current_region + 1 })
  ]
]

pub allocate_frame : FrameAllocator → Option Frame × FrameAllocator
unfolding allocate_loop
allocate_frame a = allocate_loop (length a.regions - a.current_region) a

unfoldable pub phys_to_virt : FrameAllocator → ℕ → Option ℕ
phys_to_virt a physical_address = checked_add physical_address a.hhdm_offset
