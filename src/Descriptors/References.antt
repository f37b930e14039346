-- ===== src/Descriptors/References.antt =====
-- What taking and releasing references does to the counts of the pipes.
use imagineos.Base.{
  ℕ, ◌+◌, ◌≤◌, ◌<◌, ◌≡◌, ◌≢◌, refl, List, [], ◌∷◌, ◌==◌, false, u64_max, if◌then◌else◌, arith,
}
use imagineos.Ipc
use imagineos.Ipc.{Table}
use imagineos.Ipc.Counts.{Balanced, Balanced-cong, IsBump}
use imagineos.Ipc.Ends.{
  add_reader-Balanced, add_writer-Balanced, close_reader-Balanced, close_writer-Balanced,
}
use imagineos.Descriptors.{
  Descriptor, DescriptorKind, closed, stdin, stdout, stderr, file, pipe_read, pipe_write, take_end,
  release_end, take_reference, release_pipe_reference, release_each,
}
use imagineos.Descriptors.Processes.{take_each}
use imagineos.Descriptors.Weights.{end_reads, end_writes, reads, writes, sum}

pub IsBump-end :
    (f f' : ℕ → ℕ) (at : ℕ) → ((j : ℕ) → f' j ≡ f j + (if at == j then 1 else 0)) → IsBump f f' at
IsBump-end f f' at h = record {
  here = let e = h at in ground arith;
  away = λ j n. let e = h j in let m = apart j n in ground arith;
}
  where
    apart : (j : ℕ) → j ≢ at → (at == j) ≡ false
    apart j n = ground arith

nothing_more : (f f' : ℕ → ℕ) → ((j : ℕ) → f' j ≡ f j + 0) → (j : ℕ) → f j ≡ f' j
nothing_more f f' h j = omega (arith, h j)

pub take_end-Balanced :
    (k : DescriptorKind) (at : ℕ) (t : Table) (f g f' g' : ℕ → ℕ)
    → Balanced t f g
    → end_reads k at at + end_writes k at at ≤ f at + g at
    → f at < u64_max
    → g at < u64_max
    → ((j : ℕ) → f' j ≡ f j + end_reads k at j)
    → ((j : ℕ) → g' j ≡ g j + end_writes k at j)
    → ((take_end k at t).0 ≡ Ipc.Result.ok tt) × Balanced (take_end k at t).1 f' g'
unfolding take_end
take_end-Balanced pipe_read at t f g f' g' h n m k a b =
    let (r, x) = add_reader-Balanced t at f g f' h (ground arith) m (IsBump-end f f' at a) in
    (r, Balanced-cong (Ipc.add_reader t at).1 f' g f' g' (λ j. refl) (nothing_more g g' b) x)
take_end-Balanced pipe_write at t f g f' g' h n m k a b =
    let (r, x) = add_writer-Balanced t at f g g' h (ground arith) k (IsBump-end g g' at b) in
    (r, Balanced-cong (Ipc.add_writer t at).1 f g' f' g' (nothing_more f f' a) (λ j. refl) x)
take_end-Balanced closed at t f g f' g' h n m k a b =
    (refl, Balanced-cong t f g f' g' (nothing_more f f' a) (nothing_more g g' b) h)
take_end-Balanced stdin at t f g f' g' h n m k a b =
    (refl, Balanced-cong t f g f' g' (nothing_more f f' a) (nothing_more g g' b) h)
take_end-Balanced stdout at t f g f' g' h n m k a b =
    (refl, Balanced-cong t f g f' g' (nothing_more f f' a) (nothing_more g g' b) h)
take_end-Balanced stderr at t f g f' g' h n m k a b =
    (refl, Balanced-cong t f g f' g' (nothing_more f f' a) (nothing_more g g' b) h)
take_end-Balanced file at t f g f' g' h n m k a b =
    (refl, Balanced-cong t f g f' g' (nothing_more f f' a) (nothing_more g g' b) h)

nothing_less : (f f' : ℕ → ℕ) → ((j : ℕ) → f j ≡ f' j + 0) → (j : ℕ) → f j ≡ f' j
nothing_less f f' h j = omega (arith, h j)

pub release_end-Balanced :
    (k : DescriptorKind) (at : ℕ) (t : Table) (f g f' g' : ℕ → ℕ)
    → Balanced t f g
    → ((j : ℕ) → f j ≡ f' j + end_reads k at j)
    → ((j : ℕ) → g j ≡ g' j + end_writes k at j)
    → Balanced (release_end k at t) f' g'
unfolding release_end
release_end-Balanced pipe_read at t f g f' g' h a b =
    Balanced-cong (Ipc.close_reader t at) f' g f' g' (λ j. refl) (nothing_less g g' b)
      (close_reader-Balanced t at f g f' h (IsBump-end f' f at a))
release_end-Balanced pipe_write at t f g f' g' h a b =
    Balanced-cong (Ipc.close_writer t at) f g' f' g' (nothing_less f f' a) (λ j. refl)
      (close_writer-Balanced t at f g g' h (IsBump-end g' g at b))
release_end-Balanced closed at t f g f' g' h a b =
    Balanced-cong t f g f' g' (nothing_less f f' a) (nothing_less g g' b) h
release_end-Balanced stdin at t f g f' g' h a b =
    Balanced-cong t f g f' g' (nothing_less f f' a) (nothing_less g g' b) h
release_end-Balanced stdout at t f g f' g' h a b =
    Balanced-cong t f g f' g' (nothing_less f f' a) (nothing_less g g' b) h
release_end-Balanced stderr at t f g f' g' h a b =
    Balanced-cong t f g f' g' (nothing_less f f' a) (nothing_less g g' b) h
release_end-Balanced file at t f g f' g' h a b =
    Balanced-cong t f g f' g' (nothing_less f f' a) (nothing_less g g' b) h

pub release_each-Balanced :
    (ds : List Descriptor) (t : Table) (f g f' g' : ℕ → ℕ)
    → Balanced t f g
    → ((j : ℕ) → f j ≡ f' j + sum (reads j) ds)
    → ((j : ℕ) → g j ≡ g' j + sum (writes j) ds)
    → Balanced (release_each ds t) f' g'
unfolding release_each release_pipe_reference
release_each-Balanced [] t f g f' g' h a b =
    Balanced-cong t f g f' g' (nothing_less f f' a) (nothing_less g g' b) h
release_each-Balanced (d ∷ ds) t f g f' g' h a b =
    release_each-Balanced ds (release_end d.kind d.pipe t) (λ j. f' j + sum (reads j) ds)
      (λ j. g' j + sum (writes j) ds) f' g'
      (release_end-Balanced d.kind d.pipe t f g (λ j. f' j + sum (reads j) ds)
        (λ j. g' j + sum (writes j) ds) h (λ j. omega (arith, a j)) (λ j. omega (arith, b j)))
      (λ j. refl) (λ j. refl)

pub take_each-Balanced :
    (ds : List Descriptor) (t : Table) (f g f' g' : ℕ → ℕ)
    → Balanced t f g
    → ((j : ℕ) → (sum (reads j) ds ≤ f j) × (sum (writes j) ds ≤ g j))
    → ((j : ℕ) → (f j + sum (reads j) ds ≤ 10000) × (g j + sum (writes j) ds ≤ 10000))
    → ((j : ℕ) → f' j ≡ f j + sum (reads j) ds)
    → ((j : ℕ) → g' j ≡ g j + sum (writes j) ds)
    → Balanced (take_each ds t) f' g'
unfolding take_each take_reference
take_each-Balanced [] t f g f' g' h m n a b =
    Balanced-cong t f g f' g' (nothing_more f f' a) (nothing_more g g' b) h
take_each-Balanced (d ∷ ds) t f g f' g' h m n a b =
    let (m1, m2) = m d.pipe in
    let (n1, n2) = n d.pipe in
    let (r, x) =
      take_end-Balanced d.kind d.pipe t f g (λ j. f j + reads j d) (λ j. g j + writes j d) h
        (omega arith) (omega arith) (omega arith) (λ j. refl) (λ j. refl) in
    take_each-Balanced ds (take_end d.kind d.pipe t).1 (λ j. f j + reads j d)
      (λ j. g j + writes j d) f' g' x (λ j. (omega (arith, (m j).0), omega (arith, (m j).1)))
      (λ j. (omega (arith, (n j).0), omega (arith, (n j).1))) (λ j. omega (arith, a j))
      (λ j. omega (arith, b j))
