-- ===== src/Memory/Init.antt =====
-- What `init` hands to the allocator: pages of usable entries that nothing has reserved, each once.
use imagineos.Base.{
  ℕ, ◌+◌, ◌-◌, ◌≤◌, ◌<◌, ◌≡◌, ◌⊎◌, true, false, ◌||◌, not, List, [], ◌∷◌, arith, inl, inr, u64_max,
  ltb, leb, ◌==◌, Bool-cases, ltb→lt,
}
use imagineos.Base.Lists.{length, All}
use imagineos.Memory.{
  Region, PhysicalRange, Entry, max_regions, page_size, add_unreserved_regions, add_aligned,
  add_checked, add_entry, add_entries, init, align_down,
}
use imagineos.Memory.Regions.{IsAligned, IsPart, All-map, All-zip}
use imagineos.Memory.Reserve.{
  Fits, Sorted, AvoidsAll, add_unreserved_regions-All, add_unreserved_regions-AvoidsAll,
}
use imagineos.Memory.Apart.{Apart, Outside, add_unreserved_regions-Apart}

-- The whole pages of an entry go through the loop over the reserved ranges, or nothing happens.
record Pages (entry : Entry) (base end : ℕ) : Type 0 where
  is_usable : entry.usable ≡ true
  some_page : base < end
  fits : end ≤ u64_max
  base_aligned : IsAligned base
  end_aligned : IsAligned end
  above : entry.base ≤ base
  below : end ≤ entry.base + entry.length

add_entry-cases :
    (regions : List Region) (entry : Entry) (reserved : List PhysicalRange)
    → (add_entry regions entry reserved ≡ regions)
      ⊎ ((base : ℕ) × (end : ℕ) × Pages entry base end
          × (add_entry regions entry reserved ≡ add_unreserved_regions regions base end reserved))
unfolding add_entry add_checked add_aligned
add_entry-cases regions entry reserved =
    elim (Bool-cases (not entry.usable || length regions == max_regions)) [
      | inl t ↦ inl (rw t)
      | inr t ↦ elim (Bool-cases (leb (entry.base + entry.length) u64_max)) [
        | inr u ↦ inl (rw (t, u))
        | inl u ↦ elim (Bool-cases (leb (entry.base + (page_size - 1)) u64_max)) [
          | inr w ↦ inl (rw (t, u, w))
          | inl w ↦
              elim (Bool-cases (
                ltb (align_down (entry.base + (page_size - 1)))
                  (align_down (entry.base + entry.length)))) [
                    | inr z ↦ inl (rw (t, u, w, z))
                    | inl z ↦ inr (
                      align_down (entry.base + (page_size - 1)),
                      align_down (entry.base + entry.length),
                      record {
                        is_usable = ground arith;
                        some_page = ltb→lt _ _ z;
                        fits = ground arith;
                        base_aligned = omega arith;
                        end_aligned = omega arith;
                        above = omega arith;
                        below = omega arith;
                      },
                      rw (t, u, w, z),
                    )
                  ]
        ]
      ]
    ]

-- Whole pages of a usable entry.
pub record InEntry (entry : Entry) (r : Region) : Type 0 where
  pub is_usable : entry.usable ≡ true
  pub above : entry.base ≤ r.next
  pub below : r.limit ≤ entry.base + entry.length
  pub some_page : r.next < r.limit
  pub next_aligned : IsAligned r.next
  pub limit_aligned : IsAligned r.limit
  pub fits : r.limit ≤ u64_max

-- Some entry of the list holds the region.
abbrev pub HeldBy : List Entry → Region → Type 0
HeldBy [] r = ⊥
HeldBy (entry ∷ entries) r = InEntry entry r ⊎ HeldBy entries r

IsPart-InEntry :
    {entry : Entry} {base end : ℕ} {r : Region}
    → Pages entry base end
    → IsPart base end r
    → InEntry entry r
IsPart-InEntry g p = record {
  is_usable = g.is_usable;
  above = omega (arith, p.above, g.above);
  below = omega (arith, p.below, g.below);
  some_page = p.some_page;
  next_aligned = p.next_aligned;
  limit_aligned = p.limit_aligned;
  fits = omega (arith, p.below, g.fits);
}

add_entry-All :
    (P : Region → Type 0) (regions : List Region) (entry : Entry) (reserved : List PhysicalRange)
    → ((r : Region) → InEntry entry r → P r)
    → All P regions
    → All P (add_entry regions entry reserved)
add_entry-All P regions entry reserved p h = elim (add_entry-cases regions entry reserved) [
  | inl e ↦ rw e h
  | inr (base, end, g, e) ↦ rw e (
      add_unreserved_regions-All P reserved regions base end g.some_page g.fits g.base_aligned
        g.end_aligned (λ r part. p r (IsPart-InEntry g part)) h)
]

add_entries-All :
    (P : Region → Type 0) (entries : List Entry) (regions : List Region)
    (reserved : List PhysicalRange)
    → ((r : Region) → HeldBy entries r → P r)
    → All P regions
    → All P (add_entries regions entries reserved)
unfolding add_entries
add_entries-All P [] regions reserved p h = h
add_entries-All P (entry ∷ entries) regions reserved p h =
    add_entries-All P entries (add_entry regions entry reserved) reserved (λ r held. p r (inr held))
      (add_entry-All P regions entry reserved (λ r held. p r (inl held)) h)

add_entry-AvoidsAll :
    (regions : List Region) (entry : Entry) (reserved : List PhysicalRange)
    → Sorted reserved
    → All Fits reserved
    → AvoidsAll reserved regions
    → AvoidsAll reserved (add_entry regions entry reserved)
add_entry-AvoidsAll regions entry reserved so f h = elim (add_entry-cases regions entry reserved) [
  | inl e ↦ rw e h
  | inr (base, end, g, e) ↦ rw e (
      add_unreserved_regions-AvoidsAll reserved regions base end g.some_page g.fits g.base_aligned
        g.end_aligned so f h)
]

add_entries-AvoidsAll :
    (entries : List Entry) (regions : List Region) (reserved : List PhysicalRange)
    → Sorted reserved
    → All Fits reserved
    → AvoidsAll reserved regions
    → AvoidsAll reserved (add_entries regions entries reserved)
unfolding add_entries
add_entries-AvoidsAll [] regions reserved so f h = h
add_entries-AvoidsAll (entry ∷ entries) regions reserved so f h =
    add_entries-AvoidsAll entries (add_entry regions entry reserved) reserved so f
      (add_entry-AvoidsAll regions entry reserved so f h)

-- Two entries share no byte, or one of them is not usable.
abbrev pub SharesNone : Entry → Entry → Type 0
SharesNone e f =
    (e.usable ≡ false)
    ⊎ (f.usable ≡ false)
    ⊎ (e.base + e.length ≤ f.base)
    ⊎ (f.base + f.length ≤ e.base)

abbrev pub EntriesApart : List Entry → Type 0
EntriesApart [] = Unit
EntriesApart (e ∷ es) = All (SharesNone e) es × EntriesApart es

abbrev OutsideEntry : Entry → Region → Type 0
OutsideEntry e = Outside e.base (e.base + e.length)

-- The regions so far keep out of an entry that is still to come.
abbrev Clear : List Region → Entry → Type 0
Clear regions e = (e.usable ≡ false) ⊎ All (OutsideEntry e) regions

InEntry-Outside :
    (e f : Entry) (r : Region) → f.usable ≡ true → SharesNone e f → InEntry e r → OutsideEntry f r
InEntry-Outside e f r u (inl n) p = cc p.is_usable
InEntry-Outside e f r u (inr (inl n)) p = cc
InEntry-Outside e f r u (inr (inr (inl h))) p = inl (omega (arith, p.below))
InEntry-Outside e f r u (inr (inr (inr h))) p = inr (omega (arith, p.above))

add_entry-Clear :
    (regions : List Region) (e f : Entry) (reserved : List PhysicalRange)
    → SharesNone e f
    → Clear regions f
    → Clear (add_entry regions e reserved) f
add_entry-Clear regions e f reserved s (inl n) = inl n
add_entry-Clear regions e f reserved s (inr h) = elim (Bool-cases f.usable) [
  | inl u ↦
      inr (add_entry-All (OutsideEntry f) regions e reserved (λ r p. InEntry-Outside e f r u s p) h)
  | inr u ↦ inl u
]

add_entry-Apart :
    (regions : List Region) (e : Entry) (reserved : List PhysicalRange)
    → Clear regions e
    → Apart regions
    → Apart (add_entry regions e reserved)
add_entry-Apart regions e reserved c h = elim (add_entry-cases regions e reserved) [
  | inl q ↦ rw q h
  | inr (base, end, g, q) ↦ rw q (
      add_unreserved_regions-Apart reserved regions base end g.some_page g.fits g.base_aligned
        g.end_aligned h (narrow g c))
]
  where
    shrink :
        {base end : ℕ} → Pages e base end → (r : Region) → OutsideEntry e r → Outside base end r
    shrink g r (inl p) = inl (omega (arith, g.above))
    shrink g r (inr p) = inr (omega (arith, g.below))

    narrow : {base end : ℕ} → Pages e base end → Clear regions e → All (Outside base end) regions
    narrow g (inl n) = cc g.is_usable
    narrow {base} {end} g (inr o) = All-map (OutsideEntry e) (Outside base end) (shrink g) regions o

add_entries-Apart :
    (entries : List Entry) (regions : List Region) (reserved : List PhysicalRange)
    → EntriesApart entries
    → All (Clear regions) entries
    → Apart regions
    → Apart (add_entries regions entries reserved)
unfolding add_entries
add_entries-Apart [] regions reserved a c h = h
add_entries-Apart (e ∷ es) regions reserved a c h =
    add_entries-Apart es (add_entry regions e reserved) reserved a.1
      (All-zip (SharesNone e) (Clear regions) (Clear (add_entry regions e reserved))
        (λ f s k. add_entry-Clear regions e f reserved s k) es a.0 c.1)
      (add_entry-Apart regions e reserved c.0 h)

All-Clear : (entries : List Entry) → All (Clear []) entries
All-Clear [] = tt
All-Clear (e ∷ es) = (inr tt, All-Clear es)

none_reserved : (reserved : List PhysicalRange) → AvoidsAll reserved []
none_reserved [] = tt
none_reserved (r ∷ rs) = (tt, none_reserved rs)

-- If the usable entries of the memory map do not overlap and the reserved ranges are sorted and fit
-- the address space, then every region of the allocator is a run of whole pages of one usable
-- entry, holds no byte of any reserved range, and shares no page with another region.
pub init_regions :
    (entries : List Entry) (hhdm_offset : ℕ) (reserved : List PhysicalRange)
    → EntriesApart entries
    → Sorted reserved
    → All Fits reserved
    → let regions = (init entries hhdm_offset reserved).1.regions in
      All (HeldBy entries) regions × AvoidsAll reserved regions × Apart regions
unfolding init
init_regions entries hhdm_offset reserved a so f = (
  add_entries-All (HeldBy entries) entries [] reserved (λ r h. h) tt,
  add_entries-AvoidsAll entries [] reserved so f (none_reserved reserved),
  add_entries-Apart entries [] reserved a (All-Clear entries) tt,
)
