-- ===== src/Ipc/Counts.antt =====
-- kernel/src/ipc.rs: what the operations do to the two counts of each pipe.
use mathlib.Core.Path.{subst}
use imagineos.Base.{
  ℕ, zero, suc, ◌+◌, ◌≤◌, ◌≡◌, ◌≢◌, refl, sym, ◌∙◌, inl, inr, ◌⊎◌, true, false, none, some, [], ◌∷◌,
  arith,
}
use mathlib.Core.Option.{some-injective}
use imagineos.Base.Lists.{get_elem?, set}
use imagineos.Ipc.{Pipe, Table, Result, with_pipe, update, when_open, pipe}

-- The pipe is open with these counts, one of them at least; or it is closed and both are zero.
abbrev pub Holds : Pipe → ℕ → ℕ → Type 0
Holds p r w =
    (p.is_open ≡ true) × (p.readers ≡ r) × (p.writers ≡ w) × (1 ≤ r + w)
    ⊎ ((p.is_open ≡ false) × (r ≡ 0) × (w ≡ 0))

-- Each pipe has the counts that the two functions give for its index.
abbrev pub Balanced : Table → (ℕ → ℕ) → (ℕ → ℕ) → Type 0
Balanced [] f g = (id : ℕ) → (f id ≡ 0) × (g id ≡ 0)
Balanced (p ∷ t) f g = Holds p (f 0) (g 0) × Balanced t (λ i. f (suc i)) (λ i. g (suc i))

-- One more at an index.
pub record IsBump (f f' : ℕ → ℕ) (id : ℕ) : Type 0 where
  pub here : f' id ≡ suc (f id)
  pub away : (j : ℕ) → j ≢ id → f' j ≡ f j

pub Balanced-cong :
    (t : Table) (f g f' g' : ℕ → ℕ)
    → ((j : ℕ) → f j ≡ f' j)
    → ((j : ℕ) → g j ≡ g' j)
    → Balanced t f g
    → Balanced t f' g'
Balanced-cong [] f g f' g' a b h = λ id. (sym (a id) ∙ (h id).0, sym (b id) ∙ (h id).1)
Balanced-cong (p ∷ t) f g f' g' a b (h, hs) = (
  subst (λ r. Holds p r (g' 0)) (a 0) (subst (λ w. Holds p (f 0) w) (b 0) h),
  Balanced-cong t (λ i. f (suc i)) (λ i. g (suc i)) (λ i. f' (suc i)) (λ i. g' (suc i))
      (λ j. a (suc j)) (λ j. b (suc j)) hs,
)

pub Balanced-get :
    (t : Table) (id : ℕ) (f g : ℕ → ℕ)
    → Balanced t f g
    → 1 ≤ f id + g id
    → (p : Pipe) × (get_elem? t id ≡ some p)
      × (p.is_open ≡ true)
      × (p.readers ≡ f id)
      × (p.writers ≡ g id)
Balanced-get [] id f g h n = let a = (h id).0 in let b = (h id).1 in absurd (omega arith)
Balanced-get (p ∷ t) zero f g (inl (o, r, w, m), hs) n = (p, refl, o, r, w)
Balanced-get (p ∷ t) zero f g (inr (o, r, w), hs) n = absurd (omega arith)
Balanced-get (p ∷ t) (suc id) f g (h, hs) n =
    Balanced-get t id (λ i. f (suc i)) (λ i. g (suc i)) hs n

pub Balanced-set :
    (t : Table) (id : ℕ) (f g f' g' : ℕ → ℕ) {q : Pipe} (p : Pipe)
    → get_elem? t id ≡ some q
    → ((j : ℕ) → j ≢ id → f' j ≡ f j)
    → ((j : ℕ) → j ≢ id → g' j ≡ g j)
    → Holds p (f' id) (g' id)
    → Balanced t f g
    → Balanced (set t id p) f' g'
Balanced-set [] id f g f' g' p e a b k h = cc
Balanced-set (x ∷ t) zero f g f' g' p e a b k (h, hs) = (
  k,
  Balanced-cong t (λ i. f (suc i)) (λ i. g (suc i)) (λ i. f' (suc i)) (λ i. g' (suc i))
      (λ j. sym (a (suc j) (λ z. omega arith))) (λ j. sym (b (suc j) (λ z. omega arith))) hs,
)
Balanced-set (x ∷ t) (suc id) f g f' g' p e a b k (h, hs) = (
  subst (λ r. Holds x r (g' 0)) (sym (a 0 (λ z. omega arith)))
      (subst (λ w. Holds x (f 0) w) (sym (b 0 (λ z. omega arith))) h),
  Balanced-set t id (λ i. f (suc i)) (λ i. g (suc i)) (λ i. f' (suc i)) (λ i. g' (suc i)) p e
      (λ j n. a (suc j) (λ z. n (omega arith))) (λ j n. b (suc j) (λ z. n (omega arith))) k hs,
)

-- An operation on one open pipe.
pub with_open :
    {A : Type 0} (t : Table) (id : ℕ) (p : Pipe) (op : Pipe → Result A × Pipe)
    → get_elem? t id ≡ some p
    → p.is_open ≡ true
    → with_pipe t id op ≡ ((op p).0, set t id (op p).1)
unfolding with_pipe pipe when_open update
with_open t id p op e o = rw (e, o) refl

pub Balanced-at :
    (t : Table) (id : ℕ) (f g : ℕ → ℕ) {p : Pipe}
    → Balanced t f g
    → get_elem? t id ≡ some p
    → Holds p (f id) (g id)
Balanced-at [] id f g h e = cc
Balanced-at (x ∷ t) zero f g (h, hs) e = subst (λ q. Holds q (f 0) (g 0)) (some-injective _ _ e) h
Balanced-at (x ∷ t) (suc id) f g (h, hs) e = Balanced-at t id (λ i. f (suc i)) (λ i. g (suc i)) hs e

pub with_none :
    {A : Type 0} (t : Table) (id : ℕ) (op : Pipe → Result A × Pipe)
    → get_elem? t id ≡ none
    → (with_pipe t id op).1 ≡ t
unfolding with_pipe pipe when_open update
with_none t id op e = rw e refl

pub with_closed :
    {A : Type 0} (t : Table) (id : ℕ) (p : Pipe) (op : Pipe → Result A × Pipe)
    → get_elem? t id ≡ some p
    → p.is_open ≡ false
    → (with_pipe t id op).1 ≡ t
unfolding with_pipe pipe when_open update
with_closed t id p op e o = rw (e, o) refl
