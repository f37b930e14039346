-- ===== src/Bootstrap.antt =====
-- bootstrap/bootstrap.rs: the reserved ranges that the loader hands to the kernel, sorted and merged.
-- A slice of ranges is a list.
pub mod Ranges
pub mod Handover
mod Tests
use imagineos.Base.{
  ℕ, zero, suc, ◌+◌, ◌-◌, max, List, [], ◌∷◌, ltb, leb, if◌then◌else◌, u64_max, saturating_add,
}
use imagineos.Base.Lists.{take}
use imagineos.Memory.{PhysicalRange}

-- One round of the outer loop: the swaps take a range down past every range that starts later.
pub insert : PhysicalRange → List PhysicalRange → List PhysicalRange
insert r [] = r ∷ []
insert r (s ∷ sorted) =
    let rest = insert r sorted in if ltb r.start s.start then r ∷ s ∷ sorted else s ∷ rest

-- The rounds over the ranges that are left, with those before them in order.
pub sort : List PhysicalRange → List PhysicalRange → List PhysicalRange
sort sorted [] = sorted
sort sorted (r ∷ ranges) = sort (insert r sorted) ranges

-- `start.checked_add(length).unwrap_or(u64::MAX)`
abbrev pub end_of : PhysicalRange → ℕ
end_of r = saturating_add r.start r.length

-- The second loop, with `ranges[merged]` as `current`: the last value of `merged`, and the ranges from
-- `current` on.
pub merge : ℕ → PhysicalRange → List PhysicalRange → ℕ × List PhysicalRange
merge merged current [] = (merged, current ∷ [])
merge merged current (r ∷ ranges) =
    let rest = merge (merged + 1) r ranges in
    if leb r.start (end_of current)
    then merge merged (record current { length = max (end_of current) (end_of r) - current.start })
        ranges
    else (rest.0, current ∷ rest.1)

-- `merged + 1`, also for the empty slice, and the ranges at the front of the slice.
abbrev pub merge_all : List PhysicalRange → ℕ × List PhysicalRange
merge_all [] = (1, [])
merge_all (r ∷ ranges) = ((merge 0 r ranges).0 + 1, (merge 0 r ranges).1)

-- The count that the function returns, and the merged ranges that the call leaves at the front of the
-- slice.
pub sort_and_merge_ranges : List PhysicalRange → ℕ × List PhysicalRange
sort_and_merge_ranges ranges = merge_all (sort [] ranges)

-- The ranges that the kernel gets: the loader cuts the slice at the returned count.
abbrev pub handed_over : List PhysicalRange → List PhysicalRange
handed_over ranges = take (sort_and_merge_ranges ranges).0 (sort_and_merge_ranges ranges).1
