-- ===== src/Descriptors/Places.antt =====
-- A descriptor in its place: what a change of the current table does to the counts.
use mathlib.Core.Option.{some-injective}
use imagineos.Base.{
  ℕ, zero, suc, ◌+◌, ◌≤◌, ◌<◌, ◌≡◌, refl, ap, ◌∙◌, List, [], ◌∷◌, Bool-cases, some, true, false,
  inl, inr, arith,
}
use imagineos.Base.Lists.{length, get_or, set, get_or-set_self, length-set}
use imagineos.Descriptors.{
  Descriptor, DescriptorKind, DescriptorTable, Files, Slot, closed, stdin, stdout, stderr, file,
  pipe_read, pipe_write, is_closed, closed_descriptor, held, table_at, with_table, unused,
  find_closed, after_standard, max_open_fds,
}
use imagineos.Descriptors.Processes.{is_alive}
use imagineos.Descriptors.Weights.{
  end_reads, end_writes, reads, writes, sum-set, sum-get_or, readers_in, writers_in, slot_readers,
  slot_writers, IsSlot, IsSlots, All-set, All-get_or, is_alive-lt,
}

pub closed_reads :
    (k : DescriptorKind) (at j : ℕ)
    → is_closed (record closed_descriptor { kind = k; pipe = at }) ≡ true
    → (end_reads k at j ≡ 0) × (end_writes k at j ≡ 0)
unfolding is_closed
closed_reads closed at j h = (refl, refl)
closed_reads stdin at j h = cc
closed_reads stdout at j h = cc
closed_reads stderr at j h = cc
closed_reads file at j h = cc
closed_reads pipe_read at j h = cc
closed_reads pipe_write at j h = cc

pub is_closed-reads :
    (d : Descriptor) (j : ℕ) → is_closed d ≡ true → (reads j d ≡ 0) × (writes j d ≡ 0)
unfolding is_closed
is_closed-reads d j h = closed_reads d.kind d.pipe j h

pub is_closed-lt :
    (t : List Descriptor) (i : ℕ) → is_closed (get_or t i closed_descriptor) ≡ false → i < length t
unfolding is_closed
is_closed-lt [] i h = cc
is_closed-lt (d ∷ t) zero h = omega arith
is_closed-lt (d ∷ t) (suc i) h = omega (arith, is_closed-lt t i h)

pub find_closed_lem :
    (ds : List Descriptor) (i n : ℕ)
    → find_closed ds i ≡ some n
    → (k : ℕ) × (n ≡ i + k) × (k < length ds) × (is_closed (get_or ds k closed_descriptor) ≡ true)
unfolding find_closed
find_closed_lem [] i n e = cc
find_closed_lem (d ∷ ds) i n e = elim (Bool-cases (is_closed d)) [
  | inl c ↦ let x = rw c at e in (0, omega (arith, some-injective _ _ x), omega arith, c)
  | inr c ↦
      let (k, a, b, q) = find_closed_lem ds (i + 1) n (rw c at e) in
      (suc k, omega arith, omega arith, q)
]

pub get_or-after_standard :
    (t : DescriptorTable) (k : ℕ)
    → k < length (after_standard t)
    → (3 + k < length t)
      × (get_or t (suc (suc (suc k))) closed_descriptor
          ≡ get_or (after_standard t) k closed_descriptor)
get_or-after_standard [] k h = absurd (omega arith)
get_or-after_standard (a ∷ []) k h = absurd (omega arith)
get_or-after_standard (a ∷ b ∷ []) k h = absurd (omega arith)
get_or-after_standard (a ∷ b ∷ c ∷ t) k h = (omega arith, refl)

-- What the table of a slot weighs is part of what all weigh.
pub record IsPut (ss ss' : List Slot) (old new : Descriptor) : Type 0 where
  pub more_reads : (j : ℕ) → readers_in ss' j + reads j old ≡ readers_in ss j + reads j new
  pub more_writes : (j : ℕ) → writers_in ss' j + writes j old ≡ writers_in ss j + writes j new

unfoldable pub put_at : Files → ℕ → Descriptor → List Slot
put_at f fd d = (with_table f f.current (set (table_at f f.current) fd d)).slots

module _ (f : Files) (s : IsSlots f.slots f.current) where
  pub current-lt : f.current < length f.slots
  current-lt = is_alive-lt f.slots f.current s.running

  pub current-IsSlot : IsSlot (get_or f.slots f.current unused)
  current-IsSlot = All-get_or IsSlot f.slots f.current unused s.each current-lt

  pub held_reads : (fd j : ℕ) → fd < max_open_fds → reads j (held f fd) ≤ readers_in f.slots j
  held_reads fd j h =
      let n = current-IsSlot.0 in
      omega (
        arith,
        sum-get_or (reads j) (table_at f f.current) fd closed_descriptor (omega arith),
        sum-get_or (slot_readers j) f.slots f.current unused current-lt,
      )

  pub held_writes : (fd j : ℕ) → fd < max_open_fds → writes j (held f fd) ≤ writers_in f.slots j
  held_writes fd j h =
      let n = current-IsSlot.0 in
      omega (
        arith,
        sum-get_or (writes j) (table_at f f.current) fd closed_descriptor (omega arith),
        sum-get_or (slot_writers j) f.slots f.current unused current-lt,
      )

  pub put_at-IsPut :
      (fd : ℕ) (d : Descriptor) → fd < max_open_fds → IsPut f.slots (put_at f fd d) (held f fd) d
  unfolding put_at
  put_at-IsPut fd d h =
      let n = current-IsSlot.0 in
      let t = table_at f f.current in
      let new = record (get_or f.slots f.current unused) { table = set t fd d } in
      record {
        more_reads = λ j. omega (
          arith,
          sum-set (reads j) t fd d closed_descriptor (omega arith),
          sum-set (slot_readers j) f.slots f.current new unused current-lt,
        );
        more_writes = λ j. omega (
          arith,
          sum-set (writes j) t fd d closed_descriptor (omega arith),
          sum-set (slot_writers j) f.slots f.current new unused current-lt,
        );
      }

  -- A process that is alive may hold anything.
  alive-IsSlot :
      (t : DescriptorTable)
      → length t ≡ max_open_fds
      → IsSlot (record (get_or f.slots f.current unused) { table = t })
  unfolding is_alive
  alive-IsSlot t n = (n, λ h. let r = s.running in cc)

  pub put_at-IsSlots : (fd : ℕ) (d : Descriptor) → IsSlots (put_at f fd d) f.current
  unfolding put_at is_alive
  put_at-IsSlots fd d =
      let t = set (table_at f f.current) fd d in
      let n = current-IsSlot.0 in
      let new = record (get_or f.slots f.current unused) { table = t } in
      record {
        count = length-set f.slots f.current new ∙ s.count;
        each =
            All-set IsSlot f.slots f.current new s.each
              (alive-IsSlot t (length-set (table_at f f.current) fd d ∙ n));
        running = ap is_alive (get_or-set_self f.slots f.current new unused current-lt) ∙ s.running;
      }
