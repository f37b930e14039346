-- ===== src/Bootstrap/Ranges.antt =====
-- The merged ranges are in order and hold the same bytes.
use native.Mathlib.Decide.{dec_lt}
use imagineos.Base.{
  ℕ, ◌+◌, ◌-◌, ◌≤◌, ◌<◌, ◌≡◌, max, ◌⊎◌, ◌↔◌, List, [], ◌∷◌, ltb, leb, arith, Bool-cases, inl, inr,
}
use imagineos.Base.Lists.{All, length}
use imagineos.Memory.{PhysicalRange}
use imagineos.Memory.Reserve.{Fits, Sorted}
use imagineos.Memory.Regions.{All-map}
use imagineos.Bootstrap.{insert, sort, end_of, merge, merge_all, sort_and_merge_ranges}

-- The byte at `x` lies in one of the ranges.
abbrev pub Holds : List PhysicalRange → ℕ → Type 0
Holds [] x = ⊥
Holds (r ∷ rs) x = (r.start ≤ x) × (x < r.start + r.length) ⊎ Holds rs x

abbrev From : ℕ → PhysicalRange → Type 0
From n s = n ≤ s.start

insert-All {ℓ} :
    (P : PhysicalRange → Type ℓ) (r : PhysicalRange) (rs : List PhysicalRange)
    → P r
    → All P rs
    → All P (insert r rs)
unfolding insert
insert-All P r [] p h = (p, tt)
insert-All P r (s ∷ rs) p h = elim (Bool-cases (ltb r.start s.start)) [
  | inl t ↦ rw t (p, h)
  | inr t ↦ rw t (h.0, insert-All P r rs p h.1)
]

insert-Sorted : (r : PhysicalRange) (rs : List PhysicalRange) → Sorted rs → Sorted (insert r rs)
unfolding insert
insert-Sorted r [] h = (tt, tt)
insert-Sorted r (s ∷ rs) h = elim (Bool-cases (ltb r.start s.start)) [
  | inl t ↦
      rw t ((ground arith, All-map (From s.start) (From r.start) (λ q le. ground arith) rs h.0), h)
  | inr t ↦
      rw (t, insert) (insert-All (From s.start) r rs (ground arith) h.0, insert-Sorted r rs h.1)
]

insert-Holds :
    (r : PhysicalRange) (rs : List PhysicalRange) (x : ℕ) → Holds (insert r rs) x ↔ Holds (r ∷ rs) x
unfolding insert
insert-Holds r [] x = (λ h. h, λ h. h)
insert-Holds r (s ∷ rs) x = elim (Bool-cases (ltb r.start s.start)) [
  | inl t ↦ rw t (λ h. h, λ h. h)
  | inr t ↦ rw t (to (insert-Holds r rs x).0, from (insert-Holds r rs x).1)
]
  where
    to :
        (Holds (insert r rs) x → Holds (r ∷ rs) x)
        → Holds (s ∷ insert r rs) x
        → Holds (r ∷ s ∷ rs) x
    to ih (inl h) = inr (inl h)
    to ih (inr h) = elim (ih h) [ inl k ↦ inl k | inr k ↦ inr (inr k) ]

    from :
        (Holds (r ∷ rs) x → Holds (insert r rs) x)
        → Holds (r ∷ s ∷ rs) x
        → Holds (s ∷ insert r rs) x
    from ih (inl h) = inr (ih (inl h))
    from ih (inr (inl h)) = inl h
    from ih (inr (inr h)) = inr (ih (inr h))

-- What the rounds keep, from the ranges in order and the ranges that are left.
record Sorts (sorted ranges out : List PhysicalRange) (x : ℕ) : Type 0 where
  in_order : Sorted out
  fits : All Fits out
  to : Holds out x → Holds sorted x ⊎ Holds ranges x
  from : Holds sorted x ⊎ Holds ranges x → Holds out x

sort-Sorts :
    (sorted ranges : List PhysicalRange) (x : ℕ)
    → Sorted sorted
    → All Fits sorted
    → All Fits ranges
    → Sorts sorted ranges (sort sorted ranges) x
unfolding sort
sort-Sorts sorted [] x h f g = record {
  in_order = h;
  fits = f;
  to = λ k. inl k;
  from = λ k. elim k [ inl a ↦ a | inr a ↦ absurd a ];
}
sort-Sorts sorted (r ∷ ranges) x h f g =
    let s =
      sort-Sorts (insert r sorted) ranges x (insert-Sorted r sorted h)
        (insert-All Fits r sorted g.0 f) g.1 in
    let (a, b) = insert-Holds r sorted x in
    record {
      in_order = s.in_order;
      fits = s.fits;
      to = λ k. elim (s.to k) [
        | inl p ↦ elim (a p) [ inl q ↦ inr (inl q) | inr q ↦ inl q ]
        | inr p ↦ inr (inr p)
      ];
      from = λ k. s.from (elim k [
        | inl p ↦ inl (b (inr p))
        | inr p ↦ elim p [ inl q ↦ inl (b (inl q)) | inr q ↦ inr q ]
      ]);
    }

-- What the second loop gives, from the range that it is at.
record Merges (current : PhysicalRange) (ranges out : List PhysicalRange) (x : ℕ) : Type 0 where
  in_order : Sorted out
  fits : All Fits out
  from_here : All (From current.start) out
  to : Holds out x → Holds (current ∷ ranges) x
  from : Holds (current ∷ ranges) x → Holds out x

-- The range that takes in the next one.
abbrev joined : PhysicalRange → PhysicalRange → PhysicalRange
joined c r = record c { length = max (end_of c) (end_of r) - c.start }

joined-Holds :
    (c r : PhysicalRange) (rs : List PhysicalRange) (x : ℕ)
    → Fits c
    → Fits r
    → c.start ≤ r.start
    → r.start ≤ end_of c
    → Holds (joined c r ∷ rs) x ↔ Holds (c ∷ r ∷ rs) x
joined-Holds c r rs x f g lo hi = (to, from)
  where
    to : Holds (joined c r ∷ rs) x → Holds (c ∷ r ∷ rs) x
    to (inl h) = elim (dec_lt x (c.start + c.length)) [
      | yes lt ↦ inl (h.0, lt)
      | no ge ↦ inr (inl (omega (arith, h.1), omega (arith, h.1)))
    ]
    to (inr h) = inr (inr h)

    from : Holds (c ∷ r ∷ rs) x → Holds (joined c r ∷ rs) x
    from (inl h) = inl (h.0, omega (arith, h.1))
    from (inr (inl h)) = inl (omega (arith, h.0), omega (arith, h.1))
    from (inr (inr h)) = inr h

merge-Merges :
    (n : ℕ) (c : PhysicalRange) (rs : List PhysicalRange) (x : ℕ)
    → Sorted (c ∷ rs)
    → All Fits (c ∷ rs)
    → Merges c rs (merge n c rs).1 x
unfolding merge
merge-Merges n c [] x h f = record {
  in_order = (tt, tt);
  fits = f;
  from_here = (omega arith, tt);
  to = λ k. k;
  from = λ k. k;
}
merge-Merges n c (r ∷ rs) x h f = elim (Bool-cases (leb r.start (end_of c))) [
  | inl t ↦
      let m = merge-Merges n (joined c r) rs x (h.0.1, h.1.1) (omega (arith, f.0, f.1.0), f.1.1) in
      let (a, b) = joined-Holds c r rs x f.0 f.1.0 h.0.0 (ground arith) in
      rw t (record {
        in_order = m.in_order;
        fits = m.fits;
        from_here = m.from_here;
        to = λ k. a (m.to k);
        from = λ k. m.from (b k);
      })
  | inr t ↦
      let m = merge-Merges (n + 1) r rs x h.1 f.1 in
      rw t (record {
        in_order = (
          All-map (From r.start) (From c.start) (λ q le. omega (arith, h.0.0))
              (merge (n + 1) r rs).1 m.from_here,
          m.in_order,
        );
        fits = (f.0, m.fits);
        from_here = (
          omega arith,
          All-map (From r.start) (From c.start) (λ q le. omega (arith, h.0.0))
              (merge (n + 1) r rs).1 m.from_here,
        );
        to = λ k. elim k [ inl p ↦ inl p | inr p ↦ inr (m.to p) ];
        from = λ k. elim k [ inl p ↦ inl p | inr p ↦ inr (m.from p) ];
      })
]

-- The loop counts the ranges that it has behind it.
length-merge :
    (n : ℕ) (c : PhysicalRange) (rs : List PhysicalRange)
    → (merge n c rs).0 + 1 ≡ n + length (merge n c rs).1
unfolding merge
length-merge n c [] = omega arith
length-merge n c (r ∷ rs) = elim (Bool-cases (leb r.start (end_of c))) [
  | inl t ↦ rw t (length-merge n (joined c r) rs)
  | inr t ↦ let ih = length-merge (n + 1) r rs in rw t (omega arith)
]

length-insert : (r : PhysicalRange) (rs : List PhysicalRange) → length (insert r rs) ≡ 1 + length rs
unfolding insert
length-insert r [] = omega arith
length-insert r (s ∷ rs) = elim (Bool-cases (ltb r.start s.start)) [
  | inl t ↦ rw t (omega arith)
  | inr t ↦ rw t (omega (arith, length-insert r rs))
]

length-sort :
    (sorted ranges : List PhysicalRange)
    → length (sort sorted ranges) ≡ length sorted + length ranges
unfolding sort
length-sort sorted [] = omega arith
length-sort sorted (r ∷ ranges) =
    omega (arith, length-sort (insert r sorted) ranges, length-insert r sorted)

-- If there is a range and the ranges fit the address space, `sort_and_merge_ranges` returns the number
-- of ranges that it leaves at the front; these are sorted by their starts, fit too, and hold exactly
-- the bytes that the given ranges hold.
pub sort_and_merge_ranges_lem :
    (ranges : List PhysicalRange) (x : ℕ)
    → 1 ≤ length ranges
    → All Fits ranges
    → let (count, merged) = sort_and_merge_ranges ranges in
      (count ≡ length merged) × Sorted merged × All Fits merged × (Holds merged x ↔ Holds ranges x)
unfolding sort_and_merge_ranges
sort_and_merge_ranges_lem ranges x some_range f =
    of (sort [] ranges) (omega (arith, length-sort [] ranges)) (sort-Sorts [] ranges x tt tt f)
  where
    of :
        (rs : List PhysicalRange)
        → 1 ≤ length rs
        → Sorts [] ranges rs x
        → let (count, merged) = merge_all rs in
          (count ≡ length merged)
          × Sorted merged
          × All Fits merged
          × (Holds merged x ↔ Holds ranges x)
    of [] l s = absurd (omega arith)
    of (c ∷ rs) l s =
        let m = merge-Merges 0 c rs x s.in_order s.fits in
        (
          omega (arith, length-merge 0 c rs),
          m.in_order,
          m.fits,
          (
            λ k. elim (s.to (m.to k)) [ inl a ↦ absurd a | inr a ↦ a ],
            λ k. m.from (s.from (inr k)),
          ),
        )
