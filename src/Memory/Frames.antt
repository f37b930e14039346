-- ===== src/Memory/Frames.antt =====
-- `allocate_frame` hands out free pages, each once, until none is left.
use imagineos.Base.{
  ℕ, zero, suc, ◌+◌, ◌<◌, ◌≡◌, ◌↔◌, refl, sym, ◌∙◌, Option, none, some, List, [], ◌∷◌, arith, inl,
  inr, ltb, Bool-cases, Option-cases, checked_add, ltb→lt,
}
use imagineos.Base.Lists.{All, get_elem?, set}
use imagineos.Memory.{
  Region, Frame, FrameAllocator, page_size, frame_at, take_frame, allocate_loop, allocate_frame,
}
use imagineos.Memory.Regions.{IsAligned, All-map}
use imagineos.Memory.Pool.{
  Free, IsRun, IsPool, advance, All-get, set-IsPool, Beside, Free-set, Free-get,
}

-- How the loop ends: at a region that has a page, or behind the last one.
data Ends (a : FrameAllocator) : Option Frame × FrameAllocator → Type 0 where
  at :
      (i : ℕ) (r : Region) {out : Option Frame × FrameAllocator}
      → get_elem? a.regions i ≡ some r
      → r.next < r.limit
      → out ≡ take_frame (record a { current_region = i }) r (checked_add r.next page_size)
      → Ends a out
  over :
      (i : ℕ) {out : Option Frame × FrameAllocator}
      → out ≡ (none, record a { current_region = i })
      → Ends a out

allocate_loop-Ends : (n : ℕ) (a : FrameAllocator) → Ends a (allocate_loop n a)
unfolding allocate_loop
allocate_loop-Ends zero a = over a.current_region refl
allocate_loop-Ends (suc n) a = elim (Option-cases (get_elem? a.regions a.current_region)) [
  | inr e ↦ rw (e, allocate_loop) (over a.current_region refl)
  | inl (r, e) ↦ elim (Bool-cases (ltb r.next r.limit)) [
    | inl t ↦ rw (e, t, allocate_loop) (at a.current_region r e (ltb→lt _ _ t) refl)
    | inr t ↦
        rw (e, t, allocate_loop)
          (move (allocate_loop-Ends n (record a { current_region = a.current_region + 1 })))
  ]
]
  where
    move :
        {out : Option Frame × FrameAllocator}
        → Ends (record a { current_region = a.current_region + 1 }) out
        → Ends a out
    move (at i r e h o) = at i r e h o
    move (over i o) = over i o

-- The frame lies at the first page of a region, and that page alone is no longer free.
pub record Handed (a : FrameAllocator) (f : Frame) (a' : FrameAllocator) : Type 0 where
  pub index : ℕ
  pub region : Region
  pub found : get_elem? a.regions index ≡ some region
  pub some_page : region.next < region.limit
  pub physical : f.physical_address ≡ region.next
  pub virtual : f.virtual_address ≡ region.next + a.hhdm_offset
  pub left : a'.regions ≡ set a.regions index (advance region)
  pub offset : a'.hhdm_offset ≡ a.hhdm_offset

take_frame-Handed :
    (a : FrameAllocator) (r : Region) (f : Frame) (a' : FrameAllocator)
    → get_elem? a.regions a.current_region ≡ some r
    → r.next < r.limit
    → take_frame a r (checked_add r.next page_size) ≡ (some f, a')
    → Handed a f a'
unfolding take_frame frame_at
take_frame-Handed a r f a' g h e = record {
  index = a.current_region;
  region = r;
  found = g;
  some_page = h;
  physical = ground arith;
  virtual = ground arith;
  left = ground arith;
  offset = ground arith;
}

allocate_frame-Handed :
    (a : FrameAllocator) (f : Frame) (a' : FrameAllocator)
    → allocate_frame a ≡ (some f, a')
    → Handed a f a'
unfolding allocate_frame
allocate_frame-Handed a f a' e = of (allocate_loop-Ends _ a)
  where
    of : Ends a (allocate_frame a) → Handed a f a'
    of (at i r g h o) =
        let m = take_frame-Handed (record a { current_region = i }) r f a' g h (sym o ∙ e) in
        record {
          index = m.index;
          region = m.region;
          found = m.found;
          some_page = m.some_page;
          physical = m.physical;
          virtual = m.virtual;
          left = m.left;
          offset = m.offset;
        }
    of (over i o) = cc

-- From a pool of aligned regions that share no page: a frame is page-aligned and is mapped at the offset
-- of the direct map; its byte at any offset `byte` below the page size was free; a byte `x` is free
-- afterwards exactly if it was free before and lies beside the frame; the rest is such a pool again.
pub allocate_frame-some :
    (a : FrameAllocator) (f : Frame) (a' : FrameAllocator) (x byte : ℕ)
    → IsPool a.regions
    → allocate_frame a ≡ (some f, a')
    → byte < page_size
    → IsAligned f.physical_address
      × (f.virtual_address ≡ f.physical_address + a.hhdm_offset)
      × (Free a'.regions x ↔ (Free a.regions x × Beside f.physical_address x))
      × IsPool a'.regions
      × Free a.regions (f.physical_address + byte)
allocate_frame-some a f a' x byte v e lt =
    let m = allocate_frame-Handed a f a' e in
    let run : IsRun m.region = All-get IsRun a.regions m.index v.0 m.found in
    rw (m.left, m.physical)
      (
        run.next_aligned,
        m.virtual,
        Free-set a.regions m.index x v m.found m.some_page,
        set-IsPool a.regions m.index v m.found,
        Free-get a.regions m.index (m.region.next + byte) m.found
            (omega arith, omega (arith, run.next_aligned, run.limit_aligned, m.some_page)),
      )

-- The addresses that `n` calls in a row answer with; a call that answers none ends the row.
unfoldable pub allocate_many : ℕ → FrameAllocator → List ℕ
allocate_many zero a = []
allocate_many (suc n) a =
    let (o, a') = allocate_frame a in
    elim o [ none ↦ [] | some f ↦ f.physical_address ∷ allocate_many n a' ]

abbrev pub BesideAll : List ℕ → ℕ → Type 0
BesideAll ps p = All (λ q. Beside q p) ps

-- No two of the pages share a byte.
abbrev pub Distinct : List ℕ → Type 0
Distinct [] = Unit
Distinct (p ∷ ps) = All (λ q. Beside p q) ps × Distinct ps

-- A whole page is free.
abbrev pub FreePage : List Region → ℕ → Type 0
FreePage rs p = IsAligned p × Free rs p

pub allocate_many-Free :
    (n : ℕ) (a : FrameAllocator)
    → IsPool a.regions
    → All (FreePage a.regions) (allocate_many n a) × Distinct (allocate_many n a)
unfolding allocate_many
allocate_many-Free zero a v = (tt, tt)
allocate_many-Free (suc n) a v = of (allocate_frame a) refl (λ a' v'. allocate_many-Free n a' v')
  where
    Good : List ℕ → Type 0
    Good ps = All (FreePage a.regions) ps × Distinct ps

    of :
        (o : Option Frame × FrameAllocator)
        → allocate_frame a ≡ o
        → ((a' : FrameAllocator)
            → IsPool a'.regions
            → All (FreePage a'.regions) (allocate_many n a') × Distinct (allocate_many n a'))
        → Good (elim o.0 [ none ↦ [] | some f ↦ f.physical_address ∷ allocate_many n o.1 ])
    of (none, a') e k = (tt, tt)
    of (some f, a') e k =
        let (al, _, _, v', here) = allocate_frame-some a f a' 0 0 v e (omega arith) in
        let (free, distinct) = k a' v' in
        let m = allocate_frame-Handed a f a' e in
        (
          (
            (
              al,
              rw m.physical
                  (Free-get a.regions m.index m.region.next m.found (omega arith, m.some_page)),
            ),
            All-map (FreePage a'.regions) (FreePage a.regions)
                (λ p fp. (fp.0, ((allocate_frame-some a f a' p 0 v e (omega arith)).2.0 fp.1).0))
                (allocate_many n a') free,
          ),
          (
            All-map (FreePage a'.regions) (λ q. Beside f.physical_address q)
                (λ p fp. ((allocate_frame-some a f a' p 0 v e (omega arith)).2.0 fp.1).1)
                (allocate_many n a') free,
            distinct,
          ),
        )
