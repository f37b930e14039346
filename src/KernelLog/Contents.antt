-- ===== src/KernelLog/Contents.antt =====
-- The log holds the last `capacity` bytes of all that was appended.
use mathlib.Core.List.{append_assoc, append-nil}
use native.Mathlib.Decide.{ℕ_discrete}
use imagineos.Base.{
  ℕ, ◌+◌, ◌-◌, ◌%◌, ◌≤◌, ◌<◌, min, ◌≡◌, ◌≢◌, refl, sym, ap, ap₂, ◌∙◌, List, [], ◌∷◌, ◌++◌, arith,
  ltb, Bool-cases, inl, inr, ltb→lt,
}
use imagineos.Base.Lists.{
  length, set, take, drop, last, length-set, length-append, length-take, length-drop,
  take-append_length, drop_cong, drop-drop, drop_all, last-append_left, last-append_right,
  drop-append,
}
use imagineos.Base.Ring.{
  span, length-span, span_cong, span-set_cell, span_split, span-slice, span-append,
}
use imagineos.KernelLog.{LogBuffer, capacity, push, push_all, append, copy_at, copy_ring, read}

pub record IsLog (l : LogBuffer) : Type 0 where
  pub cells : length l.bytes ≡ capacity
  pub next_in : l.next < capacity
  pub fits : l.length ≤ capacity

-- The position of the oldest byte.
abbrev oldest : LogBuffer → ℕ
oldest l = l.next + capacity - l.length

-- The bytes in the log, oldest first.
unfoldable pub contents : LogBuffer → List ℕ
contents l = span 0 capacity l.bytes (oldest l) l.length

length-contents : (l : LogBuffer) → length (contents l) ≡ l.length
unfolding contents
length-contents l = length-span 0 capacity l.bytes (oldest l) l.length

push-IsLog : (l : LogBuffer) (b : ℕ) → IsLog l → IsLog (push l b)
unfolding push
push-IsLog l b v = record {
  cells = length-set l.bytes l.next b ∙ v.cells;
  next_in = omega arith;
  fits = omega arith;
}

contents-push_room :
    (l : LogBuffer) (b : ℕ)
    → IsLog l
    → l.length ≢ capacity
    → contents (push l b) ≡ contents l ++ b ∷ []
unfolding contents push
contents-push_room l b v ne =
    span_cong 0 capacity (set l.bytes l.next b) (oldest (push l b)) (oldest l) _ (l.length + 1)
      (omega arith) (omega arith)
    ∙ span-set_cell 0 capacity l.bytes (oldest l) l.length l.next b (omega arith) (omega arith)
        (omega arith)

contents-push_full :
    (l : LogBuffer) (b : ℕ)
    → IsLog l
    → l.length ≡ capacity
    → contents (push l b) ≡ drop 1 (contents l) ++ b ∷ []
unfolding contents push
contents-push_full l b v e =
    span_cong 0 capacity (set l.bytes l.next b) (oldest (push l b)) (oldest l + 1) _
      (l.length - 1 + 1) (omega arith) (omega arith)
    ∙ span-set_cell 0 capacity l.bytes (oldest l + 1) (l.length - 1) l.next b (omega arith)
        (omega arith) (omega arith)
    ∙ ap (λ t. t ++ b ∷ [])
        (sym (span_split 0 capacity l.bytes (oldest l) 1 l.length (omega arith)).1)

last_all : (xs : List ℕ) → length xs ≤ capacity → last capacity xs ≡ xs
last_all xs h = drop_cong _ 0 xs (omega arith)

last_snoc :
    (xs : List ℕ) (b : ℕ)
    → length xs ≡ capacity
    → last capacity (xs ++ b ∷ []) ≡ drop 1 xs ++ b ∷ []
last_snoc xs b e =
    drop_cong (length (xs ++ b ∷ []) - capacity) 1 (xs ++ b ∷ [])
      (omega (arith, length-append xs (b ∷ [])))
    ∙ drop-append 1 xs (b ∷ [])
    ∙ ap (λ t. drop 1 xs ++ t) (drop_cong (1 - length xs) 0 (b ∷ []) (omega arith))

contents-push :
    (l : LogBuffer) (b : ℕ) → IsLog l → contents (push l b) ≡ last capacity (contents l ++ b ∷ [])
contents-push l b v = elim (ℕ_discrete l.length capacity) [
  | yes e ↦ contents-push_full l b v e ∙ sym (last_snoc (contents l) b (length-contents l ∙ e))
  | no ne ↦
      contents-push_room l b v ne
      ∙ sym (
          last_all (contents l ++ b ∷ [])
            (omega (arith, length-append (contents l) (b ∷ []), length-contents l, v.fits)))
]

push_all_lem :
    (l : LogBuffer) (bs : List ℕ)
    → IsLog l
    → IsLog (push_all l bs) × (contents (push_all l bs) ≡ last capacity (contents l ++ bs))
unfolding push_all
push_all_lem l [] v = (
  v,
  sym (
      ap (λ t. last capacity t) (append-nil (contents l))
      ∙ last_all (contents l) (omega (arith, length-contents l, v.fits))),
)
push_all_lem l (b ∷ bs) v =
    let (v', e) = push_all_lem (push l b) bs (push-IsLog l b v) in
    (
      v',
      e
          ∙ ap (λ t. last capacity (t ++ bs)) (contents-push l b v)
          ∙ last-append_left capacity (contents l ++ b ∷ []) bs
          ∙ ap (λ t. last capacity t) (append_assoc (contents l) (b ∷ []) bs),
    )

-- After `append` the log holds the last `capacity` bytes of what it held followed by the input,
-- however long the input is, and its indices are in range.
pub append_lem :
    (l : LogBuffer) (bs : List ℕ)
    → IsLog l
    → IsLog (append l bs) × (contents (append l bs) ≡ last capacity (contents l ++ bs))
unfolding append
append_lem l bs v = elim (Bool-cases (ltb capacity (length bs))) [
  | inl e ↦ rw e (
      let (v', f) = push_all_lem l (last capacity bs) v in
      (v', f ∙ last-append_right capacity (contents l) bs))
  | inr e ↦ rw e (push_all_lem l bs v)
]

copy_zero :
    (output source : List ℕ) → copy_at output 0 source ≡ source ++ drop (length source) output
unfolding copy_at
copy_zero output source =
    ap (λ t. source ++ t) (drop_cong (0 + length source) (length source) output (omega arith))

-- Two copies end to end are one copy.
copy_twice :
    (n : ℕ) (output xs ys : List ℕ)
    → length xs ≡ n
    → copy_at (copy_at output 0 xs) n ys ≡ (xs ++ ys) ++ drop (length (xs ++ ys)) output
copy_twice n output xs ys e =
    ap (λ t. copy_at t n ys) (copy_zero output xs)
    ∙ unfold copy_at in
      ap₂ ◌++◌ (take-append_length n xs (drop (length xs) output) e) (ap (λ t. ys ++ t) tail)
      ∙ sym (append_assoc xs ys _)
  where
    tail : drop (n + length ys) (xs ++ drop (length xs) output) ≡ drop (length (xs ++ ys)) output
    tail =
        drop-append (n + length ys) xs (drop (length xs) output)
        ∙ ap₂ ◌++◌ (drop_all (n + length ys) xs (omega arith)) (drop-drop _ (length xs) output)
        ∙ drop_cong (length xs + (n + length ys - length xs)) (length (xs ++ ys)) output
            (omega (arith, length-append xs ys))

copy_ring_lem :
    (bytes : List ℕ) (start count : ℕ) (output : List ℕ)
    → length bytes ≡ capacity
    → start < capacity
    → count ≤ capacity
    → copy_ring bytes start count output ≡ span 0 capacity bytes start count ++ drop count output
unfolding copy_ring
copy_ring_lem bytes start count output e h h' = elim (Bool-cases (ltb first count)) [
  | inl more ↦ rw more (
      copy_twice first output (take first (drop start bytes)) (take (count - first) bytes)
        (omega (arith, length-take first (drop start bytes), length-drop start bytes))
      ∙ placed _ (ap₂ ◌++◌ front (back (omega (arith, ltb→lt _ _ more))) ∙ joined))
  | inr all ↦ rw all (
      copy_zero output (take first (drop start bytes))
      ∙ placed _ (front ∙ span_cong 0 capacity bytes start start first count refl (ground arith)))
]
  where
    first : ℕ
    first = min count (capacity - start)

    front : take first (drop start bytes) ≡ span 0 capacity bytes start first
    front = sym (span-slice 0 capacity bytes start first e (omega arith))

    back :
        first < count
        → take (count - first) bytes ≡ span 0 capacity bytes (start + first) (count - first)
    back more =
        sym (span-slice 0 capacity bytes 0 (count - first) e (omega arith))
        ∙ span_cong 0 capacity bytes 0 (start + first) (count - first) (count - first) (omega arith)
            refl

    joined :
        span 0 capacity bytes start first ++ span 0 capacity bytes (start + first) (count - first)
        ≡ span 0 capacity bytes start count
    joined =
        sym (span-append 0 capacity bytes start first (count - first))
        ∙ span_cong 0 capacity bytes start start (first + (count - first)) count refl (omega arith)

    placed :
        (xs : List ℕ)
        → xs ≡ span 0 capacity bytes start count
        → xs ++ drop (length xs) output ≡ span 0 capacity bytes start count ++ drop count output
    placed xs p =
        ap₂ (λ s n. s ++ drop n output) p (ap length p ∙ length-span 0 capacity bytes start count)

-- `read` copies the newest bytes that fit into the front of the caller's buffer, oldest first, says
-- how many, and leaves the rest of the buffer as it was.
pub read_lem :
    (l : LogBuffer) (output : List ℕ)
    → IsLog l
    → let n = min (length (contents l)) (length output) in
      read l output ≡ (n, last n (contents l) ++ drop n output)
unfolding read
read_lem l output v = rw length-contents (
    ap (λ t. (count, t))
      (copy_ring_lem l.bytes start count output v.cells (omega arith) (omega (arith, v.fits))
        ∙ ap (λ t. t ++ drop count output) newest))
  where
    count : ℕ
    count = min l.length (length output)

    start : ℕ
    start = (oldest l + (l.length - count)) % capacity

    newest : span 0 capacity l.bytes start count ≡ drop (l.length - count) (contents l)
    newest =
        unfold contents in
        span_cong 0 capacity l.bytes start (oldest l + (l.length - count)) count
          (l.length - (l.length - count)) (omega arith) (omega arith)
        ∙ sym (span_split 0 capacity l.bytes (oldest l) (l.length - count) l.length (omega arith)).1
