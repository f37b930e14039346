-- ===== src/Ipc/Ends.antt =====
-- kernel/src/ipc.rs: an end that is opened or closed changes one count of one pipe.
use mathlib.Core.Path.{subst}
use imagineos.Base.{
  ℕ, ◌+◌, ◌-◌, ◌≤◌, ◌<◌, ◌≡◌, refl, sym, ap, inl, inr, true, ◌&&◌, ◌==◌, Bool-cases, Option-cases,
  saturating_add, u64_max, arith,
}
use imagineos.Base.Lists.{get_elem?}
use imagineos.Ipc.{
  Pipe, Table, ok, add_reader, add_writer, close_reader, close_writer, recycle, release_reader,
  release_writer,
}
use imagineos.Ipc.Counts.{
  Holds, Balanced, IsBump, Balanced-get, Balanced-set, with_open, Balanced-at, with_none,
  with_closed,
}

pub add_reader-Balanced :
    (t : Table) (id : ℕ) (f g f' : ℕ → ℕ)
    → Balanced t f g
    → 1 ≤ f id + g id
    → f id < u64_max
    → IsBump f f' id
    → ((add_reader t id).0 ≡ ok tt) × Balanced (add_reader t id).1 f' g
unfolding add_reader
add_reader-Balanced t id f g f' h n m b =
    let (p, e, o, r, w) = Balanced-get t id f g h n in
    let s =
      with_open t id p (λ p. (ok tt, record p { readers = saturating_add p.readers 1 })) e o in
    let here = b.here in
    rw s (
      refl,
      Balanced-set t id f g f' g (record p { readers = saturating_add p.readers 1 }) e b.away
          (λ j k. refl) (inl (o, omega (arith, r, m, here), w, omega arith)) h,
    )

pub add_writer-Balanced :
    (t : Table) (id : ℕ) (f g g' : ℕ → ℕ)
    → Balanced t f g
    → 1 ≤ f id + g id
    → g id < u64_max
    → IsBump g g' id
    → ((add_writer t id).0 ≡ ok tt) × Balanced (add_writer t id).1 f g'
unfolding add_writer
add_writer-Balanced t id f g g' h n m b =
    let (p, e, o, r, w) = Balanced-get t id f g h n in
    let s =
      with_open t id p (λ p. (ok tt, record p { writers = saturating_add p.writers 1 })) e o in
    let here = b.here in
    rw s (
      refl,
      Balanced-set t id f g f g' (record p { writers = saturating_add p.writers 1 }) e (λ j k. refl)
          b.away (inl (o, r, omega (arith, w, m, here), omega arith)) h,
    )

-- A pipe that has lost an end.
recycle-Holds :
    (p : Pipe) (r w : ℕ) → p.is_open ≡ true → p.readers ≡ r → p.writers ≡ w → Holds (recycle p) r w
unfolding recycle
recycle-Holds p r w o e1 e2 = elim (Bool-cases (p.readers == 0 && p.writers == 0)) [
  | inl z ↦ let a : r ≡ 0 = ground arith in rw z (inr (refl, a, ground arith))
  | inr z ↦ rw z (inl (o, e1, e2, ground arith))
]

pub close_reader-Balanced :
    (t : Table) (id : ℕ) (f g f' : ℕ → ℕ)
    → Balanced t f g
    → IsBump f' f id
    → Balanced (close_reader t id) f' g
unfolding close_reader release_reader
close_reader-Balanced t id f g f' h b =
    let here = b.here in
    let (p, e, o, r, w) = Balanced-get t id f g h (omega arith) in
    let s = with_open t id p (λ p. (ok tt, release_reader p)) e o in
    subst (λ x. Balanced x f' g) (sym (ap (λ x. x.1) s))
      (Balanced-set t id f g f' g (release_reader p) e (λ j n. sym (b.away j n)) (λ j n. refl)
        (recycle-Holds (record p { readers = p.readers - 1 }) (f' id) (g id) o (omega arith) w) h)

pub close_writer-Balanced :
    (t : Table) (id : ℕ) (f g g' : ℕ → ℕ)
    → Balanced t f g
    → IsBump g' g id
    → Balanced (close_writer t id) f g'
unfolding close_writer release_writer
close_writer-Balanced t id f g g' h b =
    let here = b.here in
    let (p, e, o, r, w) = Balanced-get t id f g h (omega arith) in
    let s = with_open t id p (λ p. (ok tt, release_writer p)) e o in
    subst (λ x. Balanced x f g') (sym (ap (λ x. x.1) s))
      (Balanced-set t id f g f g' (release_writer p) e (λ j n. refl) (λ j n. sym (b.away j n))
        (recycle-Holds (record p { writers = p.writers - 1 }) (f id) (g' id) o r (omega arith)) h)

-- Where a pipe has no readers, closing a reader once more changes no count.
pub close_reader-zero :
    (t : Table) (id : ℕ) (f g : ℕ → ℕ)
    → Balanced t f g
    → f id ≡ 0
    → Balanced (close_reader t id) f g
unfolding close_reader release_reader
close_reader-zero t id f g h z = elim (Option-cases (get_elem? t id)) [
  | inr e ↦ subst (λ x. Balanced x f g) (sym (with_none t id _ e)) h
  | inl (p, e) ↦ elim (Bool-cases p.is_open) [
    | inl o ↦
        subst (λ x. Balanced x f g) (sym (ap (λ x. x.1) (with_open t id p _ e o)))
          (Balanced-set t id f g f g (release_reader p) e (λ j n. refl) (λ j n. refl)
            (again p o (Balanced-at t id f g h e)) h)
    | inr o ↦ subst (λ x. Balanced x f g) (sym (with_closed t id p _ e o)) h
  ]
]
  where
    again :
        (p : Pipe)
        → p.is_open ≡ true
        → Holds p (f id) (g id)
        → Holds (release_reader p) (f id) (g id)
    again p o (inl (q, r, w, m)) =
        recycle-Holds (record p { readers = p.readers - 1 }) (f id) (g id) q (omega arith) w
    again p o (inr (q, r, w)) = cc
