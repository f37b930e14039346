-- ===== src/Ipc/Traffic.antt =====
-- kernel/src/ipc.rs: `read` and `write` leave the counts alone, and what they answer by them.
use mathlib.Core.Path.{subst}
use imagineos.Base.{
  ℕ, zero, suc, ◌+◌, ◌-◌, ◌%◌, min, ◌≡◌, refl, sym, ap, ◌∙◌, inl, inr, ◌⊎◌, true, false, some, List,
  [], ◌∷◌, ◌==◌, ==→eq, ◌⊎◌, arith, Bool-cases, Option-cases, if◌then◌else◌,
}
use imagineos.Base.Lists.{get_elem?, get_or, set, length, take}
use imagineos.Ipc.{
  Pipe, Table, Result, ok, err, PipeError, with_pipe, read, write, read_pipe, write_pipe, take_out,
  put_in, pipe_capacity,
}
use imagineos.Ipc.Counts.{
  Holds, Balanced, Balanced-set, with_open, Balanced-at, with_none, with_closed,
}

-- An operation that leaves the ends of a pipe alone.
kept-Balanced :
    {A : Type 0} (t : Table) (id : ℕ) (op : Pipe → Result A × Pipe) (f g : ℕ → ℕ)
    → ((p : Pipe) (r w : ℕ) → Holds p r w → Holds (op p).1 r w)
    → Balanced t f g
    → Balanced (with_pipe t id op).1 f g
kept-Balanced t id op f g keeps h = elim (Option-cases (get_elem? t id)) [
  | inr e ↦ subst (λ x. Balanced x f g) (sym (with_none t id op e)) h
  | inl (p, e) ↦ elim (Bool-cases p.is_open) [
    | inl o ↦
        subst (λ x. Balanced x f g) (sym (ap (λ x. x.1) (with_open t id p op e o)))
          (Balanced-set t id f g f g (op p).1 e (λ j n. refl) (λ j n. refl)
            (keeps p (f id) (g id) (Balanced-at t id f g h e)) h)
    | inr o ↦ subst (λ x. Balanced x f g) (sym (with_closed t id p op e o)) h
  ]
]

take_out-Holds :
    (n offset : ℕ) (p : Pipe) (output : List ℕ) (r w : ℕ)
    → Holds p r w
    → Holds (take_out n offset p output).0 r w
unfolding take_out
take_out-Holds zero offset p output r w h = h
take_out-Holds (suc n) offset p output r w h =
    take_out-Holds n (offset + 1) (record p { head = (p.head + 1) % pipe_capacity })
      (set output offset (get_or p.buffer p.head 0)) r w h

put_in-Holds : (bytes : List ℕ) (p : Pipe) (r w : ℕ) → Holds p r w → Holds (put_in bytes p) r w
unfolding put_in
put_in-Holds [] p r w h = h
put_in-Holds (byte ∷ bytes) p r w h =
    put_in-Holds bytes
      (record p { buffer = set p.buffer p.tail byte; tail = (p.tail + 1) % pipe_capacity }) r w h

pub read-Balanced :
    (t : Table) (id : ℕ) (output : List ℕ) (f g : ℕ → ℕ)
    → Balanced t f g
    → Balanced (read t id output).1 f g
unfolding read read_pipe
read-Balanced t id output f g h =
    kept-Balanced t id (λ p. read_pipe p output) f g
      (λ p r w k. elim (Bool-cases (p.length == 0)) [
        | inl e ↦ elim (Bool-cases (p.writers == 0)) [ inl x ↦ rw (e, x) k | inr x ↦ rw (e, x) k ]
        | inr e ↦ rw e (take_out-Holds (min (length output) p.length) 0 p output r w k)
      ])
      h

pub write-Balanced :
    (t : Table) (id : ℕ) (input : List ℕ) (f g : ℕ → ℕ)
    → Balanced t f g
    → Balanced (write t id input).1 f g
unfolding write write_pipe
write-Balanced t id input f g h =
    kept-Balanced t id (λ p. write_pipe p input) f g
      (λ p r w k.
        let n = min (length input) (pipe_capacity - p.length) in
        let after = put_in-Holds (take n input) p r w k in
        elim (Bool-cases (p.readers == 0)) [
          | inl a ↦ rw a k
          | inr a ↦ elim (Bool-cases (length input == 0)) [
            | inl b ↦ rw (a, b) k
            | inr b ↦ elim (Bool-cases (p.length == pipe_capacity)) [
              | inl c ↦ rw (a, b, c) k
              | inr c ↦ rw (a, b, c) after
            ]
          ]
        ])
      h

pub read-empty :
    (t : Table) (id : ℕ) (p : Pipe) (output : List ℕ)
    → get_elem? t id ≡ some p
    → p.is_open ≡ true
    → p.length ≡ 0
    → (read t id output).0 ≡ (if p.writers == 0 then ok (0, output) else err PipeError.would_block)
unfolding read read_pipe
read-empty t id p output e o n =
    ap (λ x. x.0) (with_open t id p (λ p. read_pipe p output) e o)
    ∙ answer (Bool-cases (p.writers == 0))
  where
    answer :
        ((p.writers == 0) ≡ true) ⊎ ((p.writers == 0) ≡ false)
        → (read_pipe p output).0
          ≡ (if p.writers == 0 then ok (0, output) else err PipeError.would_block)
    answer (inl w) = rw (n, w) refl
    answer (inr w) = rw (n, w) refl

pub write-empty :
    (t : Table) (id : ℕ) (p : Pipe) (input : List ℕ)
    → get_elem? t id ≡ some p
    → p.is_open ≡ true
    → p.length ≡ 0
    → (write t id input).0
      ≡ (if p.readers == 0 then err PipeError.broken else ok (min (length input) pipe_capacity))
unfolding write write_pipe
write-empty t id p input e o n =
    ap (λ x. x.0) (with_open t id p (λ p. write_pipe p input) e o)
    ∙ answer (Bool-cases (p.readers == 0)) (Bool-cases (length input == 0))
  where
    answer :
        ((p.readers == 0) ≡ true) ⊎ ((p.readers == 0) ≡ false)
        → ((length input == 0) ≡ true) ⊎ ((length input == 0) ≡ false)
        → (write_pipe p input).0
          ≡ (if p.readers == 0 then err PipeError.broken else ok (min (length input) pipe_capacity))
    answer (inl r) m = rw (n, r) refl
    answer (inr r) (inl m) =
        let z = ==→eq (length input) 0 m in rw (n, r, m) (ap (λ x. ok x) (omega arith))
    answer (inr r) (inr m) = rw (n, r, m) refl
