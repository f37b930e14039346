-- ===== src/Descriptors/Weights.antt =====
-- How many descriptors of all tables hold an end of a pipe.
use imagineos.Base.{
  ℕ, zero, suc, ◌+◌, ◌*◌, ◌≤◌, ◌<◌, ◌≡◌, List, [], ◌∷◌, ◌==◌, false, true, if◌then◌else◌, arith,
}
use imagineos.Base.Lists.{length, get_or, set, All}
use imagineos.Descriptors.Processes.{is_alive}
use imagineos.Descriptors.{
  unused, max_open_fds, max_processes, closed, stdin, stdout, stderr, file, Descriptor,
  DescriptorKind, Slot, pipe_read, pipe_write,
}

-- What an end of this kind adds to the readers and to the writers of a pipe.
abbrev pub end_reads : DescriptorKind → ℕ → ℕ → ℕ
end_reads pipe_read at id = if at == id then 1 else 0
end_reads _ at id = 0

abbrev pub end_writes : DescriptorKind → ℕ → ℕ → ℕ
end_writes pipe_write at id = if at == id then 1 else 0
end_writes _ at id = 0

abbrev pub reads : ℕ → Descriptor → ℕ
reads id d = end_reads d.kind d.pipe id

abbrev pub writes : ℕ → Descriptor → ℕ
writes id d = end_writes d.kind d.pipe id

pub end_reads-le : (k : DescriptorKind) (at id : ℕ) → end_reads k at id ≤ 1
end_reads-le pipe_read at id = ground arith
end_reads-le closed at id = omega arith
end_reads-le stdin at id = omega arith
end_reads-le stdout at id = omega arith
end_reads-le stderr at id = omega arith
end_reads-le file at id = omega arith
end_reads-le pipe_write at id = omega arith

pub end_writes-le : (k : DescriptorKind) (at id : ℕ) → end_writes k at id ≤ 1
end_writes-le pipe_write at id = ground arith
end_writes-le closed at id = omega arith
end_writes-le stdin at id = omega arith
end_writes-le stdout at id = omega arith
end_writes-le stderr at id = omega arith
end_writes-le file at id = omega arith
end_writes-le pipe_read at id = omega arith

module _ {A : Type 0} where
  abbrev pub sum : (A → ℕ) → List A → ℕ
  sum w [] = 0
  sum w (x ∷ xs) = w x + sum w xs

  pub sum-set :
      (w : A → ℕ) (xs : List A) (i : ℕ) (v d : A)
      → i < length xs
      → sum w (set xs i v) + w (get_or xs i d) ≡ sum w xs + w v
  sum-set w [] i v d h = absurd (omega arith)
  sum-set w (x ∷ xs) zero v d h = omega arith
  sum-set w (x ∷ xs) (suc i) v d h = omega (arith, sum-set w xs i v d (omega arith))

  pub sum_bound : (w : A → ℕ) (xs : List A) → ((x : A) → w x ≤ 1) → sum w xs ≤ length xs
  sum_bound w [] h = omega arith
  sum_bound w (x ∷ xs) h = omega (arith, sum_bound w xs h, h x)

  pub sum-get_or :
      (w : A → ℕ) (xs : List A) (i : ℕ) (d : A) → i < length xs → w (get_or xs i d) ≤ sum w xs
  sum-get_or w [] i d h = absurd (omega arith)
  sum-get_or w (x ∷ xs) zero d h = omega arith
  sum-get_or w (x ∷ xs) (suc i) d h = omega (arith, sum-get_or w xs i d (omega arith))

abbrev pub slot_readers : ℕ → Slot → ℕ
slot_readers id s = sum (reads id) s.table

abbrev pub slot_writers : ℕ → Slot → ℕ
slot_writers id s = sum (writes id) s.table

-- The descriptors of all tables that read the pipe, and those that write to it.
abbrev pub readers_in : List Slot → ℕ → ℕ
readers_in ss id = sum (slot_readers id) ss

abbrev pub writers_in : List Slot → ℕ → ℕ
writers_in ss id = sum (slot_writers id) ss

-- A process that is gone holds no pipe.
abbrev pub IsSlot : Slot → Type 0
IsSlot s =
    (length s.table ≡ max_open_fds)
    × (is_alive s ≡ false → (id : ℕ) → (slot_readers id s ≡ 0) × (slot_writers id s ≡ 0))

-- The slots are whole, and the current process is alive.
pub record IsSlots (ss : List Slot) (current : ℕ) : Type 0 where
  pub count : length ss ≡ max_processes
  pub each : All IsSlot ss
  pub running : is_alive (get_or ss current unused) ≡ true

pub readers_in_bound : (ss : List Slot) (id : ℕ) → All IsSlot ss → readers_in ss id ≤ 24 * length ss
readers_in_bound [] id h = omega arith
readers_in_bound (s ∷ ss) id ((n, e), h) =
    let b = sum_bound (reads id) s.table (λ d. end_reads-le d.kind d.pipe id) in
    omega (arith, readers_in_bound ss id h)

pub writers_in_bound : (ss : List Slot) (id : ℕ) → All IsSlot ss → writers_in ss id ≤ 24 * length ss
writers_in_bound [] id h = omega arith
writers_in_bound (s ∷ ss) id ((n, e), h) =
    let b = sum_bound (writes id) s.table (λ d. end_writes-le d.kind d.pipe id) in
    omega (arith, writers_in_bound ss id h)

pub All-set :
    {A : Type 0} (P : A → Type 0) (xs : List A) (i : ℕ) (v : A)
    → All P xs
    → P v
    → All P (set xs i v)
All-set P [] i v h p = h
All-set P (x ∷ xs) zero v (h, hs) p = (p, hs)
All-set P (x ∷ xs) (suc i) v (h, hs) p = (h, All-set P xs i v hs p)

pub All-get_or :
    {A : Type 0} (P : A → Type 0) (xs : List A) (i : ℕ) (d : A)
    → All P xs
    → i < length xs
    → P (get_or xs i d)
All-get_or P [] i d h n = absurd (omega arith)
All-get_or P (x ∷ xs) zero d (h, hs) n = h
All-get_or P (x ∷ xs) (suc i) d (h, hs) n = All-get_or P xs i d hs (omega arith)

-- What is alive is in the table.
pub is_alive-lt : (ss : List Slot) (i : ℕ) → is_alive (get_or ss i unused) ≡ true → i < length ss
unfolding is_alive
is_alive-lt [] i h = cc
is_alive-lt (s ∷ ss) zero h = omega arith
is_alive-lt (s ∷ ss) (suc i) h = omega (arith, is_alive-lt ss i h)
