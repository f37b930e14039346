-- ===== src/Descriptors/Creation.antt =====
-- kernel/src/abi/syscall.rs, `create_pipe`: the counts are exact on every way out.
use mathlib.Core.Path.{subst}
use imagineos.Base.{
  ℕ, ◌+◌, ◌<◌, ◌≡◌, refl, sym, ap, ◌∙◌, Bool, Bool-cases, Option, none, some, true, false, inl, inr,
  arith,
}
use imagineos.Base.Lists.{get_or, set, get_or-set_self}
use imagineos.Ipc
use imagineos.Ipc.Counts.{Balanced}
use imagineos.Ipc.Creation.{create-Balanced, create-err, create-zero}
use imagineos.Ipc.Ends.{close_reader-zero}
use imagineos.Descriptors.{
  Descriptor, Files, pipe_read, pipe_write, pipe_end, held, table_at, with_table, unused,
  find_closed, after_standard, is_closed, closed_descriptor, allocate_descriptor, max_open_fds,
  close_descriptor, release_end, create_pipe, create_ends, deliver_ends, close_end,
}
use imagineos.Descriptors.References.{release_end-Balanced, IsBump-end}
use imagineos.Descriptors.Weights.{
  end_reads, end_writes, reads, writes, readers_in, writers_in, IsSlots,
}
use imagineos.Descriptors.Places.{
  put_at, put_at-IsPut, is_closed-reads, current-IsSlot, current-lt, put_at-IsSlots,
}
use imagineos.Descriptors.Counted.{
  Owes, IsCounted, nothing, Owes-cong, close-Owes, Placed, allocate-Placed,
}

abbrev pub read_of : ℕ → ℕ → ℕ
read_of id j = end_reads pipe_read id j

abbrev pub write_of : ℕ → ℕ → ℕ
write_of id j = end_writes pipe_write id j

-- Both ends in hand are dropped.
drop_ends :
    (f : Files) (id : ℕ)
    → Owes f (read_of id) (write_of id)
    → IsCounted (record f { pipes = Ipc.close_writer (Ipc.close_reader f.pipes id) id })
unfolding release_end
drop_ends f id o =
    let x =
      release_end-Balanced pipe_read id f.pipes (λ j. readers_in f.slots j + read_of id j)
        (λ j. writers_in f.slots j + write_of id j) (λ j. readers_in f.slots j + nothing j)
        (λ j. writers_in f.slots j + write_of id j) o.balance (λ j. omega arith)
        (λ j. omega arith) in
    record {
      places = o.places;
      balance =
          release_end-Balanced pipe_write id (Ipc.close_reader f.pipes id)
            (λ j. readers_in f.slots j + nothing j) (λ j. writers_in f.slots j + write_of id j)
            (λ j. readers_in f.slots j + nothing j) (λ j. writers_in f.slots j + nothing j) x
            (λ j. omega arith) (λ j. omega arith);
    }

-- The reading end was closed before; the pipe has no other.
drop_writer :
    (f : Files) (id : ℕ)
    → readers_in f.slots id ≡ 0
    → Owes f nothing (write_of id)
    → IsCounted (record f { pipes = Ipc.close_writer (Ipc.close_reader f.pipes id) id })
unfolding release_end
drop_writer f id z o = record {
  places = o.places;
  balance =
      release_end-Balanced pipe_write id (Ipc.close_reader f.pipes id)
        (λ j. readers_in f.slots j + nothing j) (λ j. writers_in f.slots j + write_of id j)
        (λ j. readers_in f.slots j + nothing j) (λ j. writers_in f.slots j + nothing j)
        (close_reader-zero f.pipes id (λ j. readers_in f.slots j + nothing j)
          (λ j. writers_in f.slots j + write_of id j) o.balance (omega (arith, z)))
        (λ j. omega arith) (λ j. omega arith);
}

close_slots :
    (f : Files) (fd : ℕ)
    → is_closed (held f fd) ≡ false
    → (close_descriptor f fd).1.slots ≡ put_at f fd closed_descriptor
unfolding close_descriptor put_at
close_slots f fd c = rw c refl

-- An end that was put in a closed place and closed again.
close_again :
    (f : Files) (fd : ℕ) (d : Descriptor) (j : ℕ)
    → IsSlots f.slots f.current
    → fd < max_open_fds
    → is_closed (held f fd) ≡ true
    → is_closed d ≡ false
    → readers_in
        (close_descriptor (with_table f f.current (set (table_at f f.current) fd d)) fd).1.slots
        j
      ≡ readers_in f.slots j
unfolding put_at
close_again f fd d j s h was is =
    let f2 = with_table f f.current (set (table_at f f.current) fd d) in
    let new = record (get_or f.slots f.current unused) {
      table = set (table_at f f.current) fd d;
    } in
    let n = (current-IsSlot f s).0 in
    let here =
      ap (λ x. get_or x.table fd closed_descriptor)
        (get_or-set_self f.slots f.current new unused (current-lt f s))
      ∙ get_or-set_self (table_at f f.current) fd d closed_descriptor (omega arith) in
    let first = put_at-IsPut f s fd d h in
    let second = put_at-IsPut f2 (put_at-IsSlots f s fd d) fd closed_descriptor h in
    let zero_before = (is_closed-reads (held f fd) j was).0 in
    let same = ap (λ x. reads j x) here in
    ap (λ x. readers_in x j) (close_slots f2 fd (ap is_closed here ∙ is))
    ∙ omega (arith, first.more_reads j, second.more_reads j, zero_before, same)

module _ (id : ℕ) (delivered : Bool) where
  -- The ends are in hand, and `f` is the state before they get places.
  deliver-both :
      (f2 : Files) (r : ℕ) (w : Option ℕ × Files)
      → Placed f2 (pipe_end pipe_write id) nothing nothing w
      → Owes f2 nothing (write_of id)
      → readers_in (close_descriptor f2 r).1.slots id ≡ 0
      → IsCounted (deliver_ends id delivered (some r) w).1
  unfolding deliver_ends close_end
  deliver-both f2 r (some w, f3) p o z = elim (Bool-cases delivered) [
    | inl y ↦ rw y p.0
    | inr y ↦ rw y (
        close-Owes (close_descriptor f3 r).1 w nothing nothing
          (close-Owes f3 r nothing nothing p.0))
  ]
  deliver-both f2 r (none, f3) (e, x) o z =
      drop_writer (close_descriptor f3 r).1 id
        (subst (λ x. readers_in (close_descriptor x r).1.slots id ≡ 0) (sym e) z)
        (close-Owes f3 r nothing (write_of id)
          (subst (λ x. Owes x nothing (write_of id)) (sym e) o))

  deliver-IsCounted :
      (f : Files) (r : Option ℕ × Files)
      → Owes f (read_of id) (write_of id)
      → readers_in f.slots id ≡ 0
      → Placed f (pipe_end pipe_read id) nothing (write_of id) r
      → IsCounted
          (deliver_ends id delivered r.0 (allocate_descriptor r.1 (pipe_end pipe_write id))).1
  unfolding deliver_ends close_end is_closed
  deliver-IsCounted f (some r, f2) o z (o2, h, was, is, x) =
      deliver-both f2 r (allocate_descriptor f2 (pipe_end pipe_write id))
        (allocate-Placed f2 (pipe_end pipe_write id) nothing nothing (
          Owes-cong f2 nothing (write_of id) (λ j. nothing j + reads j (pipe_end pipe_write id))
            (λ j. nothing j + writes j (pipe_end pipe_write id)) (λ j. refl) (λ j. omega arith) o2))
        o2
        (subst (λ x. readers_in (close_descriptor x r).1.slots id ≡ 0) (sym is)
          (close_again f r (pipe_end pipe_read id) id o.places h was refl ∙ z))
  deliver-IsCounted f (none, f2) o z (e, x) =
      no_place f2 (allocate_descriptor f2 (pipe_end pipe_write id))
        (subst (λ y. find_closed (after_standard (table_at y y.current)) 3 ≡ none) (sym e) x)
        (subst (λ y. Owes y (read_of id) (write_of id)) (sym e) o)
        (allocate-Placed f2 (pipe_end pipe_write id) (read_of id) nothing (
          Owes-cong f2 (read_of id) (write_of id)
            (λ j. read_of id j + reads j (pipe_end pipe_write id))
            (λ j. nothing j + writes j (pipe_end pipe_write id)) (λ j. omega arith)
            (λ j. omega arith) (subst (λ y. Owes y (read_of id) (write_of id)) (sym e) o)))
    where
      no_place :
          (f2 : Files) (w : Option ℕ × Files)
          → find_closed (after_standard (table_at f2 f2.current)) 3 ≡ none
          → Owes f2 (read_of id) (write_of id)
          → Placed f2 (pipe_end pipe_write id) (read_of id) nothing w
          → IsCounted (deliver_ends id delivered none w).1
      no_place f2 (none, f3) x o (e, y) =
          drop_ends f3 id (subst (λ y. Owes y (read_of id) (write_of id)) (sym e) o)
      no_place f2 (some w, f3) x o (p, h, was, is, y) = let z = sym x ∙ y in cc

create_ends-IsCounted :
    (f : Files) (delivered : Bool) (r : Ipc.Result ℕ × Ipc.Table)
    → IsCounted f
    → Ipc.create f.pipes ≡ r
    → IsCounted (create_ends f delivered r).1
unfolding create_ends
create_ends-IsCounted f delivered (Ipc.Result.err x, pipes) o e =
    subst (λ t. IsCounted (record f { pipes = t }))
      (sym (create-err f.pipes (ap (λ y. y.0) e)) ∙ ap (λ y. y.1) e) o
create_ends-IsCounted f delivered (Ipc.Result.ok id, pipes) o e =
    let (z, v) =
      create-zero f.pipes (λ j. readers_in f.slots j + nothing j)
        (λ j. writers_in f.slots j + nothing j) id o.balance (ap (λ y. y.0) e) in
    let made =
      create-Balanced f.pipes (λ j. readers_in f.slots j + nothing j)
        (λ j. writers_in f.slots j + nothing j) (λ j. readers_in f.slots j + read_of id j)
        (λ j. writers_in f.slots j + write_of id j) id o.balance (ap (λ y. y.0) e)
        (IsBump-end (λ j. readers_in f.slots j + nothing j)
          (λ j. readers_in f.slots j + read_of id j) id (λ j. omega arith))
        (IsBump-end (λ j. writers_in f.slots j + nothing j)
          (λ j. writers_in f.slots j + write_of id j) id (λ j. omega arith)) in
    let f1 = record f { pipes = pipes } in
    let owed = owes pipes (ap (λ y. y.1) e) made in
    deliver-IsCounted id delivered f1 (allocate_descriptor f1 (pipe_end pipe_read id)) owed
      (omega (arith, z))
      (allocate-Placed f1 (pipe_end pipe_read id) nothing (write_of id) (
        Owes-cong f1 (read_of id) (write_of id) (λ j. nothing j + reads j (pipe_end pipe_read id))
          (λ j. write_of id j + writes j (pipe_end pipe_read id)) (λ j. omega arith)
          (λ j. omega arith) owed))
  where
    owes :
        (t : Ipc.Table)
        → (Ipc.create f.pipes).1 ≡ t
        → Balanced
            (Ipc.create f.pipes).1
            (λ j. readers_in f.slots j + read_of id j)
            (λ j. writers_in f.slots j + write_of id j)
        → Owes (record f { pipes = t }) (read_of id) (write_of id)
    owes t p b = record {
      places = o.places;
      balance =
          subst
            (λ t.
              Balanced t (λ j. readers_in f.slots j + read_of id j)
                (λ j. writers_in f.slots j + write_of id j))
            p b;
    }

pub create_pipe-IsCounted :
    (f : Files) (delivered : Bool) → IsCounted f → IsCounted (create_pipe f delivered).1
unfolding create_pipe
create_pipe-IsCounted f delivered o = create_ends-IsCounted f delivered (Ipc.create f.pipes) o refl
