-- ===== src/Memory/Boot.antt =====
-- `init` and `allocate_frame` together: what the kernel gets from the memory map at boot.
use imagineos.Base.{ℕ, ◌+◌, ◌≤◌, ◌≡◌, ◌⊎◌, true, List, [], ◌∷◌, arith, inl, inr}
use imagineos.Base.Lists.{All}
use imagineos.Memory.{Region, PhysicalRange, Entry, page_size, init}
use imagineos.Memory.Regions.{IsAligned, All-map}
use imagineos.Memory.Reserve.{Fits, Avoids, Sorted, AvoidsAll}
use imagineos.Memory.Init.{HeldBy, EntriesApart, init_regions}
use imagineos.Memory.Pool.{IsRun}
use imagineos.Memory.Frames.{FreePage, Distinct, allocate_many, allocate_many-Free}

-- The page from `p` on lies in one usable entry of the list.
abbrev pub PageHeld : List Entry → ℕ → Type 0
PageHeld [] p = ⊥
PageHeld (e ∷ es) p =
    (e.usable ≡ true) × (e.base ≤ p) × (p + page_size ≤ e.base + e.length) ⊎ PageHeld es p

-- No byte of the page is reserved.
abbrev pub PageAvoids : List PhysicalRange → ℕ → Type 0
PageAvoids reserved p =
    All (λ range. (p + page_size ≤ range.start) ⊎ (range.start + range.length ≤ p)) reserved

HeldBy-IsRun : (entries : List Entry) (r : Region) → HeldBy entries r → IsRun r
HeldBy-IsRun [] r h = absurd h
HeldBy-IsRun (e ∷ es) r (inl h) = record {
  next_aligned = h.next_aligned;
  limit_aligned = h.limit_aligned;
  fits = h.fits;
}
HeldBy-IsRun (e ∷ es) r (inr h) = HeldBy-IsRun es r h

-- A free page lies in a region whole.
record PageIn (r : Region) (p : ℕ) : Type 0 where
  low : r.next ≤ p
  high : p + page_size ≤ r.limit

FreePage-In :
    (P : Region → Type 0) (rs : List Region) (p : ℕ)
    → All IsRun rs
    → All P rs
    → FreePage rs p
    → (r : Region) × P r × PageIn r p
FreePage-In P [] p v h (a, f) = absurd f
FreePage-In P (r ∷ rs) p v h (a, inl (lo, hi)) =
    (r, h.0, record { low = lo; high = omega (arith, v.0.limit_aligned) })
FreePage-In P (r ∷ rs) p v h (a, inr f) = FreePage-In P rs p v.1 h.1 (a, f)

HeldBy-PageHeld :
    (entries : List Entry) (r : Region) (p : ℕ) → HeldBy entries r → PageIn r p → PageHeld entries p
HeldBy-PageHeld [] r p h i = absurd h
HeldBy-PageHeld (e ∷ es) r p (inl h) i =
    inl (h.is_usable, omega (arith, h.above, i.low), omega (arith, h.below, i.high))
HeldBy-PageHeld (e ∷ es) r p (inr h) i = inr (HeldBy-PageHeld es r p h i)

AvoidsAll-PageAvoids :
    (reserved : List PhysicalRange) (rs : List Region) (p : ℕ)
    → All IsRun rs
    → AvoidsAll reserved rs
    → FreePage rs p
    → PageAvoids reserved p
AvoidsAll-PageAvoids [] rs p v h f = tt
AvoidsAll-PageAvoids (range ∷ reserved) rs p v (h, hs) f =
    (beside (FreePage-In (Avoids range) rs p v h f), AvoidsAll-PageAvoids reserved rs p v hs f)
  where
    beside :
        (r : Region) × Avoids range r × PageIn r p
        → (p + page_size ≤ range.start) ⊎ (range.start + range.length ≤ p)
    beside (r, inl a, i) = inl (omega (arith, i.high))
    beside (r, inr a, i) = inr (omega (arith, i.low))

-- If the usable entries of the memory map do not overlap and the reserved ranges are sorted and fit
-- the address space, then the frames of any number of calls after `init` are page-aligned, lie each
-- in one usable entry, hold no reserved byte, and no two of them share a byte.
pub boot_frames :
    (entries : List Entry) (hhdm_offset : ℕ) (reserved : List PhysicalRange) (n : ℕ)
    → EntriesApart entries
    → Sorted reserved
    → All Fits reserved
    → let frames = allocate_many n (init entries hhdm_offset reserved).1 in
      All (λ p. IsAligned p × PageHeld entries p × PageAvoids reserved p) frames × Distinct frames
boot_frames entries hhdm_offset reserved n a so f =
    let (held, avoids, apart) = init_regions entries hhdm_offset reserved a so f in
    let runs = All-map (HeldBy entries) IsRun (HeldBy-IsRun entries) regions held in
    let (free, distinct) =
      allocate_many-Free n (init entries hhdm_offset reserved).1 (runs, apart) in
    (
      All-map (FreePage regions) (λ p. IsAligned p × PageHeld entries p × PageAvoids reserved p)
          (λ p fp. (
            fp.0,
            in_entry p (FreePage-In (HeldBy entries) regions p runs held fp),
            AvoidsAll-PageAvoids reserved regions p runs avoids fp,
          ))
          (allocate_many n (init entries hhdm_offset reserved).1) free,
      distinct,
    )
  where
    regions : List Region
    regions = (init entries hhdm_offset reserved).1.regions

    in_entry : (p : ℕ) → (r : Region) × HeldBy entries r × PageIn r p → PageHeld entries p
    in_entry p (r, h, i) = HeldBy-PageHeld entries r p h i
