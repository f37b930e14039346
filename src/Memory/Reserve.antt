-- ===== src/Memory/Reserve.antt =====
-- The loop over the reserved ranges: what it adds lies in the entry, page by page, and keeps away
-- from every range of a sorted list.
use imagineos.Base.{ℕ, ◌+◌, ◌≤◌, ◌<◌, ◌⊎◌, List, [], ◌∷◌, arith, inl, inr, u64_max, lt→ltb}
use imagineos.Base.Lists.{All}
use imagineos.Memory.{Region, PhysicalRange, Cut, return, continue, cut, add_unreserved_regions}
use imagineos.Memory.Regions.{
  IsAligned, IsPart, Added, same, more, CutOk, cut-CutOk, All-snoc, All-zip, add_region-Added,
}

IsPart-wider :
    {base base' end : ℕ} {r : Region} → base ≤ base' → IsPart base' end r → IsPart base end r
IsPart-wider h p = record {
  above = omega (arith, p.above);
  some_page = p.some_page;
  below = p.below;
  next_aligned = p.next_aligned;
  limit_aligned = p.limit_aligned;
}

-- A property of every part of the interval holds of what the loop adds.
module _ {ℓ} (P : Region → Type ℓ) where
  Added-All :
      (regions : List Region) (base end bound start : ℕ) {regions' : List Region}
      → Added regions base end bound start regions'
      → ((r : Region) → IsPart base end r → P r)
      → All P regions
      → All P regions'
  Added-All regions base end bound start (same e) p h = rw e h
  Added-All regions base end bound start (more r part b s e) p h =
      rw e (All-snoc P regions h (p r part))

  after_cut :
      (reserved : List PhysicalRange) (regions : List Region) (base end : ℕ) (range : PhysicalRange)
      (c : Cut)
      → CutOk regions base end range c
      → ((r : Region) → IsPart base end r → P r)
      → All P regions
      → ((regions' : List Region) (base' : ℕ)
          → base ≤ base'
          → base' < end
          → IsAligned base'
          → All P regions'
          → All P (add_unreserved_regions regions' base' end reserved))
      → All P (elim c [
        | return regions' ↦ regions'
        | continue regions' base' ↦ add_unreserved_regions regions' base' end reserved
      ])
  after_cut reserved regions base end range (return regions') ok p h k =
      Added-All regions base end _ _ ok p h
  after_cut reserved regions base end range (continue regions' base') (added, le, al, lt, _) p h k =
      k regions' base' le lt al (Added-All regions base end _ _ added p h)

  pub add_unreserved_regions-All :
      (reserved : List PhysicalRange) (regions : List Region) (base end : ℕ)
      → base < end
      → end ≤ u64_max
      → IsAligned base
      → IsAligned end
      → ((r : Region) → IsPart base end r → P r)
      → All P regions
      → All P (add_unreserved_regions regions base end reserved)
  unfolding add_unreserved_regions
  add_unreserved_regions-All [] regions base end h m a b p q = rw (lt→ltb base end h) (
      Added-All regions base end end end
        (add_region-Added regions base end end end end h (omega arith) (omega arith) (omega arith) a
          b)
        p q)
  add_unreserved_regions-All (range ∷ reserved) regions base end h m a b p q =
      after_cut reserved regions base end range (cut regions base end range)
        (cut-CutOk regions base end range h m a b) p q
        λ regions' base' le lt al q'.
          add_unreserved_regions-All reserved regions' base' end lt m al b
            (λ r part. p r (IsPart-wider le part)) q'

abbrev pub Fits : PhysicalRange → Type 0
Fits range = range.start + range.length ≤ u64_max

-- No byte of the region is a byte of the range.
abbrev pub Avoids : PhysicalRange → Region → Type 0
Avoids range r = (r.limit ≤ range.start) ⊎ (range.start + range.length ≤ r.next)

-- In the order of their starts.
abbrev pub Sorted : List PhysicalRange → Type 0
Sorted [] = Unit
Sorted (r ∷ rs) = All (λ s. r.start ≤ s.start) rs × Sorted rs

abbrev pub AvoidsAll : List PhysicalRange → List Region → Type 0
AvoidsAll reserved regions = All (λ range. All (Avoids range) regions) reserved

-- A region that ends before a range starts avoids it and all that start later.
Added-Avoids :
    (range : PhysicalRange) (regions : List Region) (base end bound start : ℕ)
    {regions' : List Region}
    → Added regions base end bound start regions'
    → start ≤ range.start
    → All (Avoids range) regions
    → All (Avoids range) regions'
Added-Avoids range regions base end bound start (same e) h v = rw e v
Added-Avoids range regions base end bound start (more r part b s e) h v =
    rw e (All-snoc (Avoids range) regions v (inl (omega arith)))

cut-AvoidsAll :
    (range : PhysicalRange) (reserved : List PhysicalRange) (regions : List Region)
    (base end bound : ℕ) {regions' : List Region}
    → Added regions base end bound range.start regions'
    → All (λ s. range.start ≤ s.start) reserved
    → AvoidsAll reserved regions
    → AvoidsAll reserved regions'
cut-AvoidsAll range reserved regions base end bound added =
    All-zip (λ s. range.start ≤ s.start) (λ s. All (Avoids s) regions) _
      (λ s le v. Added-Avoids s regions base end bound range.start added le v) reserved

IsPart-Avoids :
    (range : PhysicalRange) {base end : ℕ} (r : Region)
    → (end ≤ range.start) ⊎ (range.start + range.length ≤ base)
    → IsPart base end r
    → Avoids range r
IsPart-Avoids range r (inl h) p = inl (omega (arith, p.below))
IsPart-Avoids range r (inr h) p = inr (omega (arith, p.above))

pub add_unreserved_regions-AvoidsAll :
    (reserved : List PhysicalRange) (regions : List Region) (base end : ℕ)
    → base < end
    → end ≤ u64_max
    → IsAligned base
    → IsAligned end
    → Sorted reserved
    → All Fits reserved
    → AvoidsAll reserved regions
    → AvoidsAll reserved (add_unreserved_regions regions base end reserved)
unfolding add_unreserved_regions
add_unreserved_regions-AvoidsAll [] regions base end h m a b so f v = tt
add_unreserved_regions-AvoidsAll (range ∷ reserved) regions base end h m a b so f v =
    after (cut regions base end range) (cut-CutOk regions base end range h m a b)
      λ regions' base' lt al w.
        add_unreserved_regions-AvoidsAll reserved regions' base' end lt m al b so.1 f.1 w
  where
    Next : List Region → Type 0
    Next result = All (Avoids range) result × AvoidsAll reserved result

    after :
        (c : Cut)
        → CutOk regions base end range c
        → ((regions' : List Region) (base' : ℕ)
            → base' < end
            → IsAligned base'
            → AvoidsAll reserved regions'
            → AvoidsAll reserved (add_unreserved_regions regions' base' end reserved))
        → Next (elim c [
          | return regions' ↦ regions'
          | continue regions' base' ↦ add_unreserved_regions regions' base' end reserved
        ])
    after (return regions') ok k = (
      Added-Avoids range regions base end end range.start ok (omega arith) v.0,
      cut-AvoidsAll range reserved regions base end end ok so.0 v.1,
    )
    after (continue regions' base') (added, le, al, lt, clear) k = (
      add_unreserved_regions-All (Avoids range) reserved regions' base' end lt m al b
          (λ r part. IsPart-Avoids range r (clear f.0) part)
          (Added-Avoids range regions base end base' range.start added (omega arith) v.0),
      k regions' base' lt al (cut-AvoidsAll range reserved regions base end base' added so.0 v.1),
    )
