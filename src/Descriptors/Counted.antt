-- ===== src/Descriptors/Counted.antt =====
-- The operations of a process on its own table keep the counts of the pipes exact.
use mathlib.Core.Path.{subst}
use imagineos.Base.{
  ℕ, suc, ◌+◌, ◌<◌, ◌≡◌, refl, sym, ap, ◌∙◌, Bool-cases, Option, none, some, Option-cases, true,
  false, inl, inr, arith,
}
use imagineos.Base.Lists.{get_or, set}
use imagineos.Ipc
use imagineos.Ipc.Counts.{Balanced, Balanced-cong}
use imagineos.Descriptors.{
  Descriptor, Files, is_closed, closed_descriptor, held, table_at, with_table, find_closed,
  after_standard, place, allocated, allocate, allocate_descriptor, max_open_fds,
  release_pipe_reference, close_descriptor, take_reference,
}
use imagineos.Descriptors.References.{release_end-Balanced, take_end-Balanced}
use imagineos.Descriptors.Weights.{
  reads, writes, readers_in, writers_in, IsSlots, readers_in_bound, writers_in_bound,
}
use imagineos.Descriptors.Places.{
  put_at, put_at-IsPut, put_at-IsSlots, held_reads, held_writes, is_closed-reads, is_closed-lt,
  find_closed_lem, get_or-after_standard, current-IsSlot,
}

-- The pipes count the descriptors of all tables, and `a` readers and `b` writers that the kernel
-- has in hand.
pub record Owes (f : Files) (a b : ℕ → ℕ) : Type 0 where
  pub places : IsSlots f.slots f.current
  pub balance : Balanced f.pipes (λ j. readers_in f.slots j + a j) (λ j. writers_in f.slots j + b j)

abbrev pub nothing : ℕ → ℕ
nothing j = 0

-- The pipes count exactly the descriptors of all tables.
abbrev pub IsCounted : Files → Type 0
IsCounted f = Owes f nothing nothing

pub Owes-cong :
    (f : Files) (a b a' b' : ℕ → ℕ)
    → ((j : ℕ) → a j ≡ a' j)
    → ((j : ℕ) → b j ≡ b' j)
    → Owes f a b
    → Owes f a' b'
Owes-cong f a b a' b' p q o = record {
  places = o.places;
  balance =
      Balanced-cong f.pipes (λ j. readers_in f.slots j + a j) (λ j. writers_in f.slots j + b j)
        (λ j. readers_in f.slots j + a' j) (λ j. writers_in f.slots j + b' j)
        (λ j. omega (arith, p j)) (λ j. omega (arith, q j)) o.balance;
}

-- A descriptor in hand is released.
pub release-Owes :
    (f : Files) (d : Descriptor) (a b a' b' : ℕ → ℕ)
    → Owes f a b
    → ((j : ℕ) → a j ≡ a' j + reads j d)
    → ((j : ℕ) → b j ≡ b' j + writes j d)
    → Owes (record f { pipes = release_pipe_reference d f.pipes }) a' b'
unfolding release_pipe_reference
release-Owes f d a b a' b' o p q = record {
  places = o.places;
  balance =
      release_end-Balanced d.kind d.pipe f.pipes (λ j. readers_in f.slots j + a j)
        (λ j. writers_in f.slots j + b j) (λ j. readers_in f.slots j + a' j)
        (λ j. writers_in f.slots j + b' j) o.balance (λ j. omega (arith, p j))
        (λ j. omega (arith, q j));
}

-- A reference to what the current process has open is taken.
pub take-Owes :
    (f : Files) (fd : ℕ)
    → IsCounted f
    → is_closed (held f fd) ≡ false
    → ((take_reference (held f fd) f.pipes).0 ≡ Ipc.Result.ok tt)
      × Owes
          (record f { pipes = (take_reference (held f fd) f.pipes).1 })
          (λ j. reads j (held f fd))
          (λ j. writes j (held f fd))
unfolding take_reference
take-Owes f fd o c =
    let d = held f fd in
    let n = (current-IsSlot f o.places).0 in
    let l = is_closed-lt (table_at f f.current) fd c in
    let k = o.places.count in
    let (r, x) =
      take_end-Balanced d.kind d.pipe f.pipes (λ j. readers_in f.slots j + nothing j)
        (λ j. writers_in f.slots j + nothing j) (λ j. readers_in f.slots j + reads j d)
        (λ j. writers_in f.slots j + writes j d) o.balance
        (omega (
          arith,
          held_reads f o.places fd d.pipe (omega arith),
          held_writes f o.places fd d.pipe (omega arith),
        ))
        (omega (arith, readers_in_bound f.slots d.pipe o.places.each))
        (omega (arith, writers_in_bound f.slots d.pipe o.places.each)) (λ j. omega arith)
        (λ j. omega arith) in
    (r, record { places = o.places; balance = x })

-- A descriptor is put in a place of the current table; what was there is in hand.
pub put-Owes :
    (f : Files) (fd : ℕ) (d : Descriptor) (a b a' b' : ℕ → ℕ)
    → fd < max_open_fds
    → Owes f a b
    → ((j : ℕ) → a j + reads j (held f fd) ≡ a' j + reads j d)
    → ((j : ℕ) → b j + writes j (held f fd) ≡ b' j + writes j d)
    → Owes (with_table f f.current (set (table_at f f.current) fd d)) a' b'
unfolding put_at
put-Owes f fd d a b a' b' h o p q =
    let e = put_at-IsPut f o.places fd d h in
    record {
      places = put_at-IsSlots f o.places fd d;
      balance =
          Balanced-cong f.pipes (λ j. readers_in f.slots j + a j) (λ j. writers_in f.slots j + b j)
            (λ j. readers_in (put_at f fd d) j + a' j) (λ j. writers_in (put_at f fd d) j + b' j)
            (λ j. omega (arith, e.more_reads j, p j)) (λ j. omega (arith, e.more_writes j, q j))
            o.balance;
    }

pub close-Owes :
    (f : Files) (fd : ℕ) (a b : ℕ → ℕ) → Owes f a b → Owes (close_descriptor f fd).1 a b
unfolding close_descriptor
close-Owes f fd a b o = elim (Bool-cases (is_closed (held f fd))) [
  | inl c ↦ rw c o
  | inr c ↦
      let n = (current-IsSlot f o.places).0 in
      let l = is_closed-lt (table_at f f.current) fd c in
      let d = held f fd in
      rw c (
        release-Owes (with_table f f.current (set (table_at f f.current) fd closed_descriptor)) d
          (λ j. a j + reads j d) (λ j. b j + writes j d) a b
          (put-Owes f fd closed_descriptor a b (λ j. a j + reads j d) (λ j. b j + writes j d)
            (omega arith) o (λ j. omega arith) (λ j. omega arith))
          (λ j. refl) (λ j. refl))
]

-- What `allocate_descriptor` answers: the descriptor has a place that was closed, or all are open.
abbrev pub Placed : Files → Descriptor → (ℕ → ℕ) → (ℕ → ℕ) → Option ℕ × Files → Type 0
Placed f d a b (none, f') =
    (f' ≡ f) × (find_closed (after_standard (table_at f f.current)) 3 ≡ none)
Placed f d a b (some fd, f') =
    Owes f' a b
    × (fd < max_open_fds)
    × (is_closed (held f fd) ≡ true)
    × (f' ≡ with_table f f.current (set (table_at f f.current) fd d))
    × (find_closed (after_standard (table_at f f.current)) 3 ≡ some fd)

allocate-none :
    (f : Files) (d : Descriptor)
    → find_closed (after_standard (table_at f f.current)) 3 ≡ none
    → allocate_descriptor f d ≡ (none, f)
unfolding allocate_descriptor allocated allocate place
allocate-none f d e = ap (λ o. allocated f (place (table_at f f.current) d o)) e

allocate-some :
    (f : Files) (d : Descriptor) (fd : ℕ)
    → find_closed (after_standard (table_at f f.current)) 3 ≡ some fd
    → allocate_descriptor f d ≡ (some fd, with_table f f.current (set (table_at f f.current) fd d))
unfolding allocate_descriptor allocated allocate place
allocate-some f d fd e = ap (λ o. allocated f (place (table_at f f.current) d o)) e

pub allocate-Placed :
    (f : Files) (d : Descriptor) (a b : ℕ → ℕ)
    → Owes f (λ j. a j + reads j d) (λ j. b j + writes j d)
    → Placed f d a b (allocate_descriptor f d)
allocate-Placed f d a b o =
    elim (Option-cases (find_closed (after_standard (table_at f f.current)) 3)) [
      | inr e ↦ subst (λ r. Placed f d a b r) (sym (allocate-none f d e)) (refl, e)
      | inl (fd, e) ↦
          let (k, p, q, c) = find_closed_lem (after_standard (table_at f f.current)) 3 fd e in
          let (l, same) = get_or-after_standard (table_at f f.current) k q in
          let n = (current-IsSlot f o.places).0 in
          let at = λ (x : ℕ) (y : x ≡ suc (suc (suc k))).
            ap (λ i. is_closed (get_or (table_at f f.current) i closed_descriptor)) y
            ∙ ap is_closed same
            ∙ c in
          let was = at fd (omega arith) in
          subst (λ r. Placed f d a b r) (sym (allocate-some f d fd e))
            (
              put-Owes f fd d (λ j. a j + reads j d) (λ j. b j + writes j d) a b (omega arith) o
                  (λ j. omega (arith, (is_closed-reads (held f fd) j was).0))
                  (λ j. omega (arith, (is_closed-reads (held f fd) j was).1)),
              omega arith,
              was,
              refl,
              e,
            )
    ]
