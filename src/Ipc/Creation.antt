-- ===== src/Ipc/Creation.antt =====
-- kernel/src/ipc.rs: a pipe that is made has one of each end, and had none.
use mathlib.Core.Path.{subst}
use imagineos.Base.{
  ℕ, zero, suc, ◌+◌, ◌≡◌, refl, sym, ap, ◌∙◌, inl, inr, Option, none, some, [], ◌∷◌, arith,
}
use mathlib.Core.Option.{some-injective}
use imagineos.Base.Lists.{get_elem?, set, replicate}
use imagineos.Ipc.{
  Pipe, Table, Result, ok, err, PipeError, create, create_at, created, free_slot, empty,
}
use imagineos.Ipc.Counts.{Balanced, IsBump, Balanced-set}

free_slot-closed :
    (t : Table) (i : ℕ) (f g : ℕ → ℕ) {n : ℕ}
    → Balanced t f g
    → free_slot t i ≡ some n
    → (k : ℕ) × (q : Pipe) × (n ≡ i + k) × (get_elem? t k ≡ some q) × (f k ≡ 0) × (g k ≡ 0)
unfolding free_slot
free_slot-closed [] i f g h e = cc
free_slot-closed (p ∷ t) i f g (inr (o, r, w), hs) e =
    let x = rw o at e in (0, p, omega (arith, some-injective _ _ x), refl, r, w)
free_slot-closed (p ∷ t) i f g (inl (o, r, w, m), hs) e =
    let x = rw o at e in
    let (k, q, a, b, c, d) = free_slot-closed t (i + 1) (λ j. f (suc j)) (λ j. g (suc j)) hs x in
    (suc k, q, omega arith, b, c, d)

ok-injective : {n id : ℕ} → ◌≡◌ {A = Result ℕ} (ok n) (ok id) → n ≡ id
ok-injective e = cc

-- A new pipe has one of each end, and had none.
pub create-Balanced :
    (t : Table) (f g f' g' : ℕ → ℕ) (id : ℕ)
    → Balanced t f g
    → (create t).0 ≡ ok id
    → IsBump f f' id
    → IsBump g g' id
    → Balanced (create t).1 f' g'
unfolding create create_at created
create-Balanced t f g f' g' id h e bf bg = by_slot (free_slot t 0) refl e
  where
    at_slot :
        (k : ℕ) {q : Pipe}
        → k ≡ id
        → get_elem? t k ≡ some q
        → f k ≡ 0
        → g k ≡ 0
        → Balanced (set t k created) f' g'
    at_slot k p b c d =
        Balanced-set t k f g f' g' created b (λ j n. bf.away j (λ z. n (z ∙ sym p)))
          (λ j n. bg.away j (λ z. n (z ∙ sym p)))
          (inl (
            refl,
            sym (ap f' p ∙ bf.here ∙ ap (λ x. suc (f x)) (sym p) ∙ ap (λ x. suc x) c),
            sym (ap g' p ∙ bg.here ∙ ap (λ x. suc (g x)) (sym p) ∙ ap (λ x. suc x) d),
            omega (arith, ap f' p ∙ bf.here),
          ))
          h

    by_slot :
        (o : Option ℕ)
        → free_slot t 0 ≡ o
        → (create_at t o).0 ≡ ok id
        → Balanced (create_at t o).1 f' g'
    by_slot none s x = cc
    by_slot (some n) s x =
        let named = ok-injective x in
        let (k, q, a, b, c, d) = free_slot-closed t 0 f g h s in
        subst (λ m. Balanced (set t m created) f' g') (omega arith)
          (at_slot k (omega (arith, named)) b c d)

pub create-err : (t : Table) {x : PipeError} → (create t).0 ≡ err x → (create t).1 ≡ t
unfolding create create_at
create-err t {x} e = by_slot (free_slot t 0) e
  where
    by_slot : (o : Option ℕ) → (create_at t o).0 ≡ err x → (create_at t o).1 ≡ t
    by_slot none e = refl
    by_slot (some n) e = cc

-- The pipe that is taken had no ends.
pub create-zero :
    (t : Table) (f g : ℕ → ℕ) (id : ℕ)
    → Balanced t f g
    → (create t).0 ≡ ok id
    → (f id ≡ 0) × (g id ≡ 0)
unfolding create create_at
create-zero t f g id h e = by_slot (free_slot t 0) refl e
  where
    by_slot :
        (o : Option ℕ) → free_slot t 0 ≡ o → (create_at t o).0 ≡ ok id → (f id ≡ 0) × (g id ≡ 0)
    by_slot none s x = cc
    by_slot (some n) s x =
        let named = ok-injective x in
        let (k, q, a, b, c, d) = free_slot-closed t 0 f g h s in
        subst (λ m. (f m ≡ 0) × (g m ≡ 0)) (omega (arith, a, named)) (c, d)

-- Closed pipes.
pub Balanced-replicate :
    (n : ℕ) (f g : ℕ → ℕ) → ((j : ℕ) → (f j ≡ 0) × (g j ≡ 0)) → Balanced (replicate n empty) f g
Balanced-replicate zero f g h = h
Balanced-replicate (suc n) f g h = (
  inr (refl, (h 0).0, (h 0).1),
  Balanced-replicate n (λ i. f (suc i)) (λ i. g (suc i)) (λ j. h (suc j)),
)
