-- ===== src/Memory/Apart.antt =====
-- The loop over the reserved ranges adds regions that share no page.
use imagineos.Base.{ℕ, ◌≤◌, ◌<◌, ◌⊎◌, List, [], ◌∷◌, ◌++◌, arith, inl, inr, u64_max, lt→ltb}
use imagineos.Base.Lists.{All}
use imagineos.Memory.{Region, PhysicalRange, Cut, return, continue, cut, add_unreserved_regions}
use imagineos.Memory.Regions.{
  IsAligned, IsPart, Added, same, more, CutOk, cut-CutOk, All-snoc, All-map, add_region-Added,
}

abbrev pub Disjoint : Region → Region → Type 0
Disjoint a b = (a.limit ≤ b.next) ⊎ (b.limit ≤ a.next)

-- No two regions share a page.
abbrev pub Apart : List Region → Type 0
Apart [] = Unit
Apart (r ∷ rs) = All (Disjoint r) rs × Apart rs

abbrev pub Outside : ℕ → ℕ → Region → Type 0
Outside base end r = (r.limit ≤ base) ⊎ (end ≤ r.next)

Apart-snoc :
    (rs : List Region) (x : Region) → Apart rs → All (λ r. Disjoint r x) rs → Apart (rs ++ x ∷ [])
Apart-snoc [] x h k = (tt, tt)
Apart-snoc (r ∷ rs) x h k = (All-snoc (Disjoint r) rs h.0 k.0, Apart-snoc rs x h.1 k.1)

Added-Apart :
    (regions : List Region) (base end bound start : ℕ) {regions' : List Region}
    → Added regions base end bound start regions'
    → Apart regions
    → All (Outside base end) regions
    → Apart regions'
Added-Apart regions base end bound start (same e) h o = rw e h
Added-Apart regions base end bound start (more x part b s e) h o = rw e (
    Apart-snoc regions x h (
      All-map (Outside base end) (λ r. Disjoint r x) (λ r out. Outside-Disjoint part out) regions
        o))
  where
    Outside-Disjoint : {r : Region} → IsPart base end x → Outside base end r → Disjoint r x
    Outside-Disjoint p (inl h) = inl (omega (arith, p.above))
    Outside-Disjoint p (inr h) = inr (omega (arith, p.below))

Added-Outside :
    (regions : List Region) (base end bound start : ℕ) {regions' : List Region}
    → Added regions base end bound start regions'
    → base ≤ bound
    → All (Outside base end) regions
    → All (Outside bound end) regions'
Added-Outside regions base end bound start (same e) h o =
    rw e (All-map (Outside base end) (Outside bound end) (λ r out. later out) regions o)
  where
    later : {r : Region} → Outside base end r → Outside bound end r
    later (inl p) = inl (omega arith)
    later (inr p) = inr p
Added-Outside regions base end bound start (more x part b s e) h o = rw e (
    All-snoc (Outside bound end) regions
      (All-map (Outside base end) (Outside bound end) (λ r out. later out) regions o) (inl b))
  where
    later : {r : Region} → Outside base end r → Outside bound end r
    later (inl p) = inl (omega arith)
    later (inr p) = inr p

pub add_unreserved_regions-Apart :
    (reserved : List PhysicalRange) (regions : List Region) (base end : ℕ)
    → base < end
    → end ≤ u64_max
    → IsAligned base
    → IsAligned end
    → Apart regions
    → All (Outside base end) regions
    → Apart (add_unreserved_regions regions base end reserved)
unfolding add_unreserved_regions
add_unreserved_regions-Apart [] regions base end h m a b p o = rw (lt→ltb base end h) (
    Added-Apart regions base end end end
      (add_region-Added regions base end end end end h (omega arith) (omega arith) (omega arith) a
        b)
      p o)
add_unreserved_regions-Apart (range ∷ reserved) regions base end h m a b p o =
    after (cut regions base end range) (cut-CutOk regions base end range h m a b)
      λ regions' base' lt al p' o'.
        add_unreserved_regions-Apart reserved regions' base' end lt m al b p' o'
  where
    after :
        (c : Cut)
        → CutOk regions base end range c
        → ((regions' : List Region) (base' : ℕ)
            → base' < end
            → IsAligned base'
            → Apart regions'
            → All (Outside base' end) regions'
            → Apart (add_unreserved_regions regions' base' end reserved))
        → Apart (elim c [
          | return regions' ↦ regions'
          | continue regions' base' ↦ add_unreserved_regions regions' base' end reserved
        ])
    after (return regions') ok k = Added-Apart regions base end end range.start ok p o
    after (continue regions' base') (added, le, al, lt, clear) k =
        k regions' base' lt al (Added-Apart regions base end base' range.start added p o)
          (Added-Outside regions base end base' range.start added le o)
