-- ===== src/Bootstrap/Handover.antt =====
-- The loader's ranges and the kernel's frames together.
use imagineos.Base.{ℕ, List, [], ◌∷◌, ◌≤◌, ◌≡◌, arith, inl, inr}
use imagineos.Base.Lists.{All, length, take_all}
use imagineos.Memory.{PhysicalRange, Entry, init}
use imagineos.Memory.Regions.{IsAligned, All-map}
use imagineos.Memory.Reserve.{Fits}
use imagineos.Memory.Init.{EntriesApart}
use imagineos.Memory.Pool.{Beside}
use imagineos.Memory.Frames.{allocate_many, Distinct}
use imagineos.Memory.Boot.{PageHeld, PageAvoids, boot_frames}
use imagineos.Bootstrap.{sort_and_merge_ranges, handed_over}
use imagineos.Bootstrap.Ranges.{Holds, sort_and_merge_ranges_lem}

PageAvoids-Beside : (rs : List PhysicalRange) (p x : ℕ) → PageAvoids rs p → Holds rs x → Beside p x
PageAvoids-Beside [] p x a h = absurd h
PageAvoids-Beside (r ∷ rs) p x (inl a, b) (inl h) = inr (omega (arith, h.0))
PageAvoids-Beside (r ∷ rs) p x (inr a, b) (inl h) = inl (omega (arith, h.1))
PageAvoids-Beside (r ∷ rs) p x (a, b) (inr h) = PageAvoids-Beside rs p x b h

Holds-some : (rs : List PhysicalRange) (x : ℕ) → Holds rs x → 1 ≤ length rs
Holds-some [] x h = absurd h
Holds-some (r ∷ rs) x h = omega arith

-- If the usable entries of the memory map do not overlap and the loader's ranges, in any order and
-- overlapping as they may, fit the address space, then the frames that the kernel gets after `init`
-- with the ranges handed over hold no byte `x` of the loader's ranges, lie in usable entries, are aligned,
-- and no two of them share a byte.
pub handover_frames :
    (entries : List Entry) (hhdm_offset : ℕ) (ranges : List PhysicalRange) (n x : ℕ)
    → EntriesApart entries
    → All Fits ranges
    → Holds ranges x
    → let frames = allocate_many n (init entries hhdm_offset (handed_over ranges)).1 in
      All (λ p. IsAligned p × PageHeld entries p × Beside p x) frames × Distinct frames
handover_frames entries hhdm_offset ranges n x a f h =
    let (count, s, g, same) = sort_and_merge_ranges_lem ranges x (Holds-some ranges x h) f in
    let merged : List PhysicalRange = (sort_and_merge_ranges ranges).1 in
    let cut : handed_over ranges ≡ merged =
      take_all (sort_and_merge_ranges ranges).0 merged (omega arith) in
    let (all, distinct) = boot_frames entries hhdm_offset merged n a s g in
    rw cut (
      All-map (λ p. IsAligned p × PageHeld entries p × PageAvoids merged p)
          (λ p. IsAligned p × PageHeld entries p × Beside p x)
          (λ p k. (k.0, k.1, PageAvoids-Beside merged p x k.2 (same.1 h)))
          (allocate_many n (init entries hhdm_offset merged).1) all,
      distinct,
    )
