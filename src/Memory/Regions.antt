-- ===== src/Memory/Regions.antt =====
-- What every region satisfies, by one induction over the reserved ranges.
use native.Mathlib.Decide.{dec_lt}
use imagineos.Base.{
  ℕ, ◌+◌, ◌-◌, ◌%◌, ◌≤◌, ◌<◌, min, max, ◌≡◌, ◌⊎◌, refl, ◌||◌, List, [], ◌∷◌, ◌++◌, arith, ltb, leb,
  if◌then◌else◌, Bool-cases, inl, inr, u64_max, saturating_add,
}
use imagineos.Base.Lists.{length, All}
use imagineos.Memory.{
  Region, PhysicalRange, page_size, max_regions, align_down, Cut, return, continue, cut, cut_known,
  add_region,
}

abbrev pub IsAligned : ℕ → Type 0
IsAligned x = x % page_size ≡ 0

-- A part of `from` to `to` in whole pages that is not empty.
pub record IsPart (from to : ℕ) (r : Region) : Type 0 where
  pub above : from ≤ r.next
  pub some_page : r.next < r.limit
  pub below : r.limit ≤ to
  pub next_aligned : IsAligned r.next
  pub limit_aligned : IsAligned r.limit

pub All-snoc {ℓ} :
    {A : Type 0} (P : A → Type ℓ) (xs : List A) {x : A} → All P xs → P x → All P (xs ++ x ∷ [])
All-snoc P [] h p = (p, tt)
All-snoc P (y ∷ xs) h p = (h.0, All-snoc P xs h.1 p)

pub All-map {ℓ κ} :
    {A : Type 0} (P : A → Type ℓ) (Q : A → Type κ)
    → ((x : A) → P x → Q x)
    → (xs : List A) → All P xs
    → All Q xs
All-map P Q f [] h = tt
All-map P Q f (x ∷ xs) h = (f x h.0, All-map P Q f xs h.1)

pub All-zip {ℓ κ ι} :
    {A : Type 0} (P : A → Type ℓ) (Q : A → Type κ) (R : A → Type ι)
    → ((x : A) → P x → Q x → R x)
    → (xs : List A) → All P xs
    → All Q xs
    → All R xs
All-zip P Q R f [] h k = tt
All-zip P Q R f (x ∷ xs) h k = (f x h.0 k.0, All-zip P Q R f xs h.1 k.1)

-- A round adds at most one region, which ends before the reserved range and before `bound`.
pub data Added (regions : List Region) (base end bound start : ℕ) (regions' : List Region)
    : Type 0 where
  same : regions' ≡ regions → Added regions base end bound start regions'
  more :
      (r : Region)
      → IsPart base end r
      → r.limit ≤ bound
      → r.limit ≤ start
      → regions' ≡ regions ++ r ∷ []
      → Added regions base end bound start regions'

-- Behind a round the range is out of the way: it starts behind `end` or ends before the new base.
-- A range that does not fit the address space is passed over.
abbrev pub CutOk : List Region → ℕ → ℕ → PhysicalRange → Cut → Type 0
CutOk regions base end range (return regions') = Added regions base end end range.start regions'
CutOk regions base end range (continue regions' base') =
    Added regions base end base' range.start regions'
    × (base ≤ base')
    × IsAligned base'
    × (base' < end)
    × (range.start + range.length ≤ u64_max
        → (end ≤ range.start) ⊎ (range.start + range.length ≤ base'))

pub add_region-Added :
    (regions : List Region) (base end to bound start : ℕ)
    → base < to
    → to ≤ end
    → to ≤ bound
    → to ≤ start
    → IsAligned base
    → IsAligned to
    → Added regions base end bound start (add_region regions base to)
unfolding add_region
add_region-Added regions base end to bound start h h1 h2 h3 a b =
    elim (Bool-cases (ltb (length regions) max_regions)) [
      | inl room ↦ rw room (
          more (record { next = base; limit = to })
            (record {
              above = omega arith;
              some_page = h;
              below = h1;
              next_aligned = a;
              limit_aligned = b;
            })
            h2 h3 refl)
      | inr full ↦ rw full (same refl)
    ]

-- The region before the reserved range.
before-Added :
    (regions : List Region) (base end bound start : ℕ)
    → base < end
    → min (align_down start) end ≤ bound
    → IsAligned base
    → IsAligned end
    → Added regions base end bound start (
        if ltb base (align_down start)
        then add_region regions base (min (align_down start) end)
        else regions)
before-Added regions base end bound start h hb a b =
    elim (Bool-cases (ltb base (align_down start))) [
      | inl t ↦ rw t (
          add_region-Added regions base end (min (align_down start) end) bound start (ground arith)
            (omega arith) hb (omega arith) a (omega arith))
      | inr t ↦ rw t (same refl)
    ]

-- Rounded up, the end of a range covers it, or passes every page that a region can have.
reserved_end_lem :
    (start length end : ℕ)
    → end ≤ u64_max
    → IsAligned end
    → start + length ≤ u64_max
    → (start + length ≤ align_down (saturating_add (start + length) (page_size - 1)))
      ⊎ (end ≤ align_down (saturating_add (start + length) (page_size - 1)))
reserved_end_lem start length end m b v = elim (dec_lt (u64_max - 4095) (start + length)) [
  | yes p ↦ inr (omega arith)
  | no p ↦ inl (omega arith)
]

align_max : (x y : ℕ) → IsAligned x → IsAligned y → IsAligned (max x y)
align_max x y a b = elim (dec_lt x y) [
  | yes p ↦ let e : max x y ≡ y = omega arith in rw e b
  | no p ↦ let e : max x y ≡ x = omega arith in rw e a
]

skip_clear :
    (start length base end : ℕ)
    → base < end
    → end ≤ u64_max
    → IsAligned end
    → start + length ≤ u64_max
    → (align_down (saturating_add (start + length) (page_size - 1)) ≤ base)
      ⊎ (end ≤ align_down start)
    → (end ≤ start) ⊎ (start + length ≤ base)
skip_clear start length base end h m b v (inl c) =
    inr (omega (arith, reserved_end_lem start length end m b v))
skip_clear start length base end h m b v (inr c) = inl (omega arith)

cut_known-CutOk :
    (regions : List Region) (base end : ℕ) (range : PhysicalRange)
    → base < end
    → end ≤ u64_max
    → IsAligned base
    → IsAligned end
    → CutOk regions base end range (
        cut_known regions base end
          (align_down range.start)
          (align_down (saturating_add (range.start + range.length) (page_size - 1))))
unfolding cut_known
cut_known-CutOk regions base end range h m a b =
    let s : ℕ = align_down range.start in
    let e : ℕ = align_down (saturating_add (range.start + range.length) (page_size - 1)) in
    elim (Bool-cases (leb e base || leb end s)) [
      | inl t ↦ rw t (
        same refl,
        omega arith,
        a,
        h,
        λ v. (skip_clear range.start range.length base end h m b v (ground arith)),
      )
      | inr t ↦ elim (Bool-cases (leb end (max base e))) [
        | inl u ↦ rw (t, u) (before-Added regions base end end range.start h (omega arith) a b)
        | inr u ↦
            rw (t, u)
              (
                before-Added regions base end (max base e) range.start h (omega arith) a b,
                omega arith,
                (align_max base e a (omega arith)),
                (ground arith),
                λ v. inr (ground (arith, reserved_end_lem range.start range.length end m b v)),
              )
      ]
    ]

pub cut-CutOk :
    (regions : List Region) (base end : ℕ) (range : PhysicalRange)
    → base < end
    → end ≤ u64_max
    → IsAligned base
    → IsAligned end
    → CutOk regions base end range (cut regions base end range)
unfolding cut
cut-CutOk regions base end range h m a b =
    elim (Bool-cases (leb (range.start + range.length) u64_max)) [
      | inl fits ↦ rw (fits, cut, CutOk) (cut_known-CutOk regions base end range h m a b)
      | inr wraps ↦
          rw (wraps, cut, CutOk) (same refl, omega arith, a, h, λ v. absurd (ground arith))
    ]
