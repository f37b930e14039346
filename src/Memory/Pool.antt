-- ===== src/Memory/Pool.antt =====
-- The pages that the allocator still has, and what moving one region's `next` does to them.
use native.Mathlib.Decide.{dec_lt}
use imagineos.Base.{
  ℕ, zero, suc, ◌+◌, ◌≤◌, ◌<◌, ◌≡◌, ◌⊎◌, ◌↔◌, some, List, [], ◌∷◌, arith, inl, inr, u64_max,
}
use imagineos.Base.Lists.{All, get_elem?, set}
use imagineos.Memory.{Region, page_size}
use imagineos.Memory.Regions.{IsAligned, All-map}
use imagineos.Memory.Apart.{Disjoint, Apart}

-- The byte at `x` lies in a page that has not been handed out.
abbrev pub Free : List Region → ℕ → Type 0
Free [] x = ⊥
Free (r ∷ rs) x = (r.next ≤ x) × (x < r.limit) ⊎ Free rs x

-- A region that the allocator may cut pages from.
pub record IsRun (r : Region) : Type 0 where
  pub next_aligned : IsAligned r.next
  pub limit_aligned : IsAligned r.limit
  pub fits : r.limit ≤ u64_max

abbrev pub IsPool : List Region → Type 0
IsPool rs = All IsRun rs × Apart rs

-- The region without its first page.
abbrev pub advance : Region → Region
advance r = record r { next = r.next + page_size }

pub All-get {ℓ} :
    (P : Region → Type ℓ) (rs : List Region) (i : ℕ) {r : Region}
    → All P rs
    → get_elem? rs i ≡ some r
    → P r
All-get P [] i h e = cc
All-get P (q ∷ rs) zero {r} h e = let e' : q ≡ r = cc in rw (← e') h.0
All-get P (q ∷ rs) (suc i) h e = All-get P rs i h.1 e

All-set {ℓ} :
    (P : Region → Type ℓ) (rs : List Region) (i : ℕ) (r : Region)
    → All P rs
    → P r
    → All P (set rs i r)
All-set P [] i r h p = tt
All-set P (q ∷ rs) zero r h p = (p, h.1)
All-set P (q ∷ rs) (suc i) r h p = (h.0, All-set P rs i r h.1 p)

Disjoint-advance_right : (q r : Region) → Disjoint q r → Disjoint q (advance r)
Disjoint-advance_right q r (inl h) = inl (omega arith)
Disjoint-advance_right q r (inr h) = inr h

Disjoint-advance_left : (r q : Region) → Disjoint r q → Disjoint (advance r) q
Disjoint-advance_left r q (inl h) = inl h
Disjoint-advance_left r q (inr h) = inr (omega arith)

Apart-set :
    (rs : List Region) (i : ℕ) {r : Region}
    → Apart rs
    → get_elem? rs i ≡ some r
    → Apart (set rs i (advance r))
Apart-set [] i h e = tt
Apart-set (q ∷ rs) zero {r} h e =
    let e' : q ≡ r = cc in
    (rw (← e') (All-map (Disjoint q) (Disjoint (advance q)) (Disjoint-advance_left q) rs h.0), h.1)
Apart-set (q ∷ rs) (suc i) {r} h e = (
  All-set (Disjoint q) rs i (advance r) h.0
      (Disjoint-advance_right q r (All-get (Disjoint q) rs i h.0 e)),
  Apart-set rs i h.1 e,
)

pub set-IsPool :
    (rs : List Region) (i : ℕ) {r : Region}
    → IsPool rs
    → get_elem? rs i ≡ some r
    → IsPool (set rs i (advance r))
set-IsPool rs i {r} (runs, apart) e =
    let run : IsRun r = All-get IsRun rs i runs e in
    (
      All-set IsRun rs i (advance r) runs (record {
        next_aligned = omega (arith, run.next_aligned);
        limit_aligned = run.limit_aligned;
        fits = run.fits;
      }),
      Apart-set rs i apart e,
    )

-- A byte of a region is not free in the regions apart from it.
not-Free :
    (r : Region) (rs : List Region) (x : ℕ)
    → All (Disjoint r) rs
    → (r.next ≤ x) × (x < r.limit)
    → Free rs x
    → ⊥
not-Free r [] x d h f = f
not-Free r (q ∷ rs) x (inl d, ds) h (inl f) = omega arith
not-Free r (q ∷ rs) x (inr d, ds) h (inl f) = omega arith
not-Free r (q ∷ rs) x (d, ds) h (inr f) = not-Free r rs x ds h f

pub Free-get :
    (rs : List Region) (i x : ℕ) {r : Region}
    → get_elem? rs i ≡ some r
    → (r.next ≤ x) × (x < r.limit)
    → Free rs x
Free-get [] i x e h = cc
Free-get (q ∷ rs) zero x {r} e h = let e' : q ≡ r = cc in inl (rw e' h)
Free-get (q ∷ rs) (suc i) x e h = inr (Free-get rs i x e h)

-- A byte outside the page from `p` on.
abbrev pub Beside : ℕ → ℕ → Type 0
Beside p x = (x < p) ⊎ (p + page_size ≤ x)

whole_page : {r : Region} → IsRun r → r.next < r.limit → r.next + page_size ≤ r.limit
whole_page v h = omega (arith, v.next_aligned, v.limit_aligned)

in_or_Beside : (p x : ℕ) → Beside p x ⊎ ((p ≤ x) × (x < p + page_size))
in_or_Beside p x = elim (dec_lt x p) [
  | yes h ↦ inl (inl h)
  | no h ↦ elim (dec_lt x (p + page_size)) [
    | yes k ↦ inr (omega arith, k)
    | no k ↦ inl (inr (omega arith))
  ]
]

-- What is free behind a region lies beside its first page.
behind :
    (r : Region) (rs : List Region) (x : ℕ)
    → IsRun r
    → r.next < r.limit
    → All (Disjoint r) rs
    → Free rs x
    → Beside r.next x
behind r rs x v h d f = elim (in_or_Beside r.next x) [
  | inl b ↦ b
  | inr (lo, hi) ↦ absurd (not-Free r rs x d (lo, omega (arith, whole_page v h)) f)
]

Beside-other :
    (q r : Region) (x : ℕ)
    → IsRun r
    → r.next < r.limit
    → Disjoint q r
    → (q.next ≤ x) × (x < q.limit)
    → Beside r.next x
Beside-other q r x v h (inl d) f = inl (omega arith)
Beside-other q r x v h (inr d) f = inr (omega (arith, whole_page v h))

-- What is free once a page is gone.
pub Free-set :
    (rs : List Region) (i x : ℕ) {r : Region}
    → IsPool rs
    → get_elem? rs i ≡ some r
    → r.next < r.limit
    → Free (set rs i (advance r)) x ↔ (Free rs x × Beside r.next x)
Free-set [] i x v e h = cc
Free-set (q ∷ rs) zero x {r} ((run, runs), (d, apart)) e h = let e' : q ≡ r = cc in rw e' (to, from)
  where
    d' : All (Disjoint r) rs
    d' = let e' : q ≡ r = cc in rw (← e') d

    run' : IsRun r
    run' = let e' : q ≡ r = cc in rw (← e') run

    to : Free (advance r ∷ rs) x → Free (r ∷ rs) x × Beside r.next x
    to (inl k) = (inl (omega arith), inr k.0)
    to (inr f) = (inr f, behind r rs x run' h d' f)

    from : Free (r ∷ rs) x × Beside r.next x → Free (advance r ∷ rs) x
    from (inl k, inl b) = absurd (omega arith)
    from (inl k, inr b) = inl (b, k.1)
    from (inr f, b) = inr f
Free-set (q ∷ rs) (suc i) x {r} ((run, runs), (d, apart)) e h =
    (to (Free-set rs i x (runs, apart) e h), from (Free-set rs i x (runs, apart) e h))
  where
    to :
        (Free (set rs i (advance r)) x ↔ (Free rs x × Beside r.next x))
        → Free (q ∷ set rs i (advance r)) x
        → Free (q ∷ rs) x × Beside r.next x
    to ih (inl k) =
        (inl k, Beside-other q r x (All-get IsRun rs i runs e) h (All-get (Disjoint q) rs i d e) k)
    to ih (inr f) = (inr (ih.0 f).0, (ih.0 f).1)

    from :
        (Free (set rs i (advance r)) x ↔ (Free rs x × Beside r.next x))
        → Free (q ∷ rs) x × Beside r.next x
        → Free (q ∷ set rs i (advance r)) x
    from ih (inl k, b) = inl k
    from ih (inr f, b) = inr (ih.1 (f, b))
