-- ===== src/Descriptors/Calls.antt =====
-- `duplicate_descriptor`, `duplicate_descriptor_to`, `update_descriptor` and `create_pipe` keep the
-- counts of the pipes exact.
use mathlib.Core.Path.{subst}
use imagineos.Base.{
  ℕ, ◌+◌, ◌<◌, ◌≡◌, sym, Bool-cases, Option, none, some, inl, inr, leb, ◌==◌, arith,
}
use imagineos.Base.Lists.{set}
use imagineos.Ipc
use imagineos.Descriptors.{
  Descriptor, Files, is_closed, held, table_at, with_table, allocate_descriptor, max_open_fds,
  update_descriptor, duplicate_descriptor, duplicate_with, or_give_back, duplicate_descriptor_to,
  replace_with, take_reference, close_end,
}
use imagineos.Descriptors.Weights.{reads, writes}
use imagineos.Descriptors.Places.{current-IsSlot, is_closed-lt}
use imagineos.Descriptors.Counted.{
  Owes, IsCounted, nothing, Owes-cong, release-Owes, take-Owes, put-Owes, close-Owes, Placed,
  allocate-Placed,
}

or_give_back-IsCounted :
    (f : Files) (d : Descriptor) (r : Option ℕ × Files)
    → Owes f (λ j. reads j d) (λ j. writes j d)
    → Placed f d nothing nothing r
    → IsCounted (or_give_back d r).1
unfolding or_give_back
or_give_back-IsCounted f d (none, f') o (e, n) =
    release-Owes f' d (λ j. reads j d) (λ j. writes j d) nothing nothing
      (subst (λ x. Owes x (λ j. reads j d) (λ j. writes j d)) (sym e) o) (λ j. omega arith)
      (λ j. omega arith)
or_give_back-IsCounted f d (some fd, f') o p = p.0

duplicate_with-IsCounted :
    (f : Files) (d : Descriptor) (r : Ipc.Result Unit × Ipc.Table)
    → r.0 ≡ Ipc.Result.ok tt
    → Owes (record f { pipes = r.1 }) (λ j. reads j d) (λ j. writes j d)
    → IsCounted (duplicate_with f d r).1
unfolding duplicate_with
duplicate_with-IsCounted f d (Ipc.Result.err e, pipes) k o = cc
duplicate_with-IsCounted f d (Ipc.Result.ok u, pipes) k o =
    or_give_back-IsCounted (record f { pipes = pipes }) d
      (allocate_descriptor (record f { pipes = pipes }) d) o
      (allocate-Placed (record f { pipes = pipes }) d nothing nothing
        (Owes-cong (record f { pipes = pipes }) (λ j. reads j d) (λ j. writes j d)
          (λ j. nothing j + reads j d) (λ j. nothing j + writes j d) (λ j. omega arith)
          (λ j. omega arith) o))

pub duplicate_descriptor-IsCounted :
    (f : Files) (fd : ℕ) → IsCounted f → IsCounted (duplicate_descriptor f fd).1
unfolding duplicate_descriptor
duplicate_descriptor-IsCounted f fd o = elim (Bool-cases (is_closed (held f fd))) [
  | inl c ↦ rw c o
  | inr c ↦
      let (r, x) = take-Owes f fd o c in
      rw c (duplicate_with-IsCounted f (held f fd) (take_reference (held f fd) f.pipes) r x)
]

replace_with-IsCounted :
    (f : Files) (d : Descriptor) (target : ℕ) (r : Ipc.Result Unit × Ipc.Table)
    → target < max_open_fds
    → r.0 ≡ Ipc.Result.ok tt
    → Owes (record f { pipes = r.1 }) (λ j. reads j d) (λ j. writes j d)
    → IsCounted (replace_with f d target r).1
unfolding replace_with
replace_with-IsCounted f d target (Ipc.Result.err e, pipes) h k o = cc
replace_with-IsCounted f d target (Ipc.Result.ok u, pipes) h k o =
    let f1 = record f { pipes = pipes } in
    let old = held f target in
    release-Owes (with_table f1 f1.current (set (table_at f1 f1.current) target d)) old
      (λ j. reads j old) (λ j. writes j old) nothing nothing
      (put-Owes f1 target d (λ j. reads j d) (λ j. writes j d) (λ j. reads j old)
        (λ j. writes j old) h o (λ j. omega arith) (λ j. omega arith))
      (λ j. omega arith) (λ j. omega arith)

pub duplicate_descriptor_to-IsCounted :
    (f : Files) (source target : ℕ)
    → IsCounted f
    → IsCounted (duplicate_descriptor_to f source target).1
unfolding duplicate_descriptor_to
duplicate_descriptor_to-IsCounted f source target o = elim (Bool-cases (leb max_open_fds target)) [
  | inl a ↦ rw a o
  | inr a ↦ elim (Bool-cases (is_closed (held f source))) [
    | inl c ↦ rw (a, c) o
    | inr c ↦ elim (Bool-cases (source == target)) [
      | inl e ↦ rw (a, c, e) o
      | inr e ↦
          let (r, x) = take-Owes f source o c in
          rw (a, c, e)
            (replace_with-IsCounted f (held f source) target
              (take_reference (held f source) f.pipes) (ground arith) r x)
    ]
  ]
]

-- The calls that update a descriptor keep its kind and its pipe.
pub update_descriptor-IsCounted :
    (f : Files) (fd : ℕ) (d : Descriptor)
    → IsCounted f
    → ((j : ℕ) → (reads j d ≡ reads j (held f fd)) × (writes j d ≡ writes j (held f fd)))
    → IsCounted (update_descriptor f fd d).1
unfolding update_descriptor
update_descriptor-IsCounted f fd d o same = elim (Bool-cases (is_closed (held f fd))) [
  | inl c ↦ rw c o
  | inr c ↦
      let n = (current-IsSlot f o.places).0 in
      let l = is_closed-lt (table_at f f.current) fd c in
      rw c (
        put-Owes f fd d nothing nothing nothing nothing (omega arith) o
          (λ j. omega (arith, (same j).0)) (λ j. omega (arith, (same j).1)))
]

pub close_end-Owes :
    (f : Files) (e : Option ℕ) (a b : ℕ → ℕ) → Owes f a b → Owes (close_end e f) a b
unfolding close_end
close_end-Owes f none a b o = o
close_end-Owes f (some fd) a b o = close-Owes f fd a b o
