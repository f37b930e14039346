-- ===== src/Ipc/Transfer.antt =====
-- The two copying loops of a pipe, in closed form.
use mathlib.Core.List.{append_assoc, append-nil}
use imagineos.Base.{
  ℕ, zero, suc, ◌+◌, ◌%◌, ◌≤◌, ◌<◌, ◌≡◌, refl, sym, ap, ◌∙◌, List, [], ◌∷◌, ◌++◌, arith,
}
use imagineos.Base.Lists.{length, get_or, set, drop, length-set}
use imagineos.Base.Ring.{span, span-mod, span-set_end}
use imagineos.Ipc.{Pipe, pipe_capacity, take_out, put_in}

-- Bytes stored one after the other from index `i` on.
abbrev pub overwrite : List ℕ → ℕ → List ℕ → List ℕ
overwrite out i [] = out
overwrite out i (b ∷ bs) = overwrite (set out i b) (suc i) bs

overwrite-cons :
    (x : ℕ) (out : List ℕ) (i : ℕ) (bs : List ℕ)
    → overwrite (x ∷ out) (suc i) bs ≡ x ∷ overwrite out i bs
overwrite-cons x out i [] = refl
overwrite-cons x out i (b ∷ bs) = overwrite-cons x (set out i b) (suc i) bs

pub overwrite-zero :
    (out bs : List ℕ) → length bs ≤ length out → overwrite out 0 bs ≡ bs ++ drop (length bs) out
overwrite-zero out [] h = refl
overwrite-zero [] (b ∷ bs) h = absurd (omega arith)
overwrite-zero (x ∷ out) (b ∷ bs) h =
    overwrite-cons b out 0 bs ∙ ap (λ t. b ∷ t) (overwrite-zero out bs (omega arith))

-- `read` moves `head` over the bytes of the span and stores exactly these.
pub take_out_lem :
    (n offset : ℕ) (p : Pipe) (output : List ℕ)
    → p.head < pipe_capacity
    → take_out n offset p output ≡ (
      record p { head = (p.head + n) % pipe_capacity },
      overwrite output offset (span 0 pipe_capacity p.buffer p.head n),
    )
unfolding take_out
take_out_lem zero offset p output h = ap (λ k. (record p { head = k }, output)) (omega arith)
take_out_lem (suc n) offset p output h = ground (
  arith,
  take_out_lem n (offset + 1) (record p { head = (p.head + 1) % pipe_capacity })
      (set output offset (get_or p.buffer p.head 0)),
  span-mod 0 pipe_capacity p.buffer (p.head + 1) n,
)

-- `write` moves `tail`, keeps the array's size and all other fields, and appends to the span.
pub record Stored (p : Pipe) (bytes : List ℕ) (p' : Pipe) : Type 0 where
  pub same : p' ≡ record p { buffer = p'.buffer; tail = (p.tail + length bytes) % pipe_capacity }
  pub cells : length p'.buffer ≡ length p.buffer
  pub content :
      (n : ℕ)
      → p.tail ≡ (p.head + n) % pipe_capacity
      → n + length bytes ≤ pipe_capacity
      → span 0 pipe_capacity p'.buffer p.head (n + length bytes)
        ≡ span 0 pipe_capacity p.buffer p.head n ++ bytes

stored_end :
    (p : Pipe) (n b : ℕ)
    → length p.buffer ≡ pipe_capacity
    → p.tail ≡ (p.head + n) % pipe_capacity
    → n < pipe_capacity
    → span 0 pipe_capacity (set p.buffer p.tail b) p.head (n + 1)
      ≡ span 0 pipe_capacity p.buffer p.head n ++ b ∷ []
stored_end p n b c e f = rw e (span-set_end 0 pipe_capacity p.buffer p.head n b f (omega arith))

pub put_in-Stored :
    (bytes : List ℕ) (p : Pipe)
    → p.tail < pipe_capacity
    → length p.buffer ≡ pipe_capacity
    → Stored p bytes (put_in bytes p)
unfolding put_in
put_in-Stored [] p t c = record {
  same = ap (λ k. record p { tail = k }) (omega arith);
  cells = refl;
  content = λ n e f. ap (span 0 pipe_capacity p.buffer p.head) (omega arith) ∙ sym (append-nil _);
}
put_in-Stored (b ∷ bytes) p t c =
    let p1 : Pipe = record p {
      buffer = set p.buffer p.tail b;
      tail = (p.tail + 1) % pipe_capacity;
    } in
    let rest : Stored p1 bytes (put_in bytes p1) =
      put_in-Stored bytes p1 (omega arith) (length-set p.buffer p.tail b ∙ c) in
    record {
      same =
          rest.same
          ∙ ap
              (λ k. record (put_in bytes p1) {
                is_open = p.is_open;
                readers = p.readers;
                writers = p.writers;
                head = p.head;
                length = p.length;
                tail = k;
              })
              (omega arith);
      cells = rest.cells ∙ length-set p.buffer p.tail b;
      content = λ n e f.
          ap (span 0 pipe_capacity (put_in bytes p1).buffer p.head) (omega arith)
          ∙ rest.content (n + 1) (omega arith) (omega arith)
          ∙ ap (λ t. t ++ bytes) (stored_end p n b c e (omega arith))
          ∙ append_assoc (span 0 pipe_capacity p.buffer p.head n) (b ∷ []) bytes;
    }
