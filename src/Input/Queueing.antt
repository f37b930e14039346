-- ===== src/Input/Queueing.antt =====
-- `push` and `poll` on the ring are `enqueue` and the removal of the front on the list.
use native.Mathlib.Decide.{ℕ_discrete}
use mathlib.Core.List.{head?}
use imagineos.Base.{
  suc, ◌+◌, ◌-◌, ◌%◌, ◌<◌, ◌≡◌, ◌≢◌, refl, sym, ap, ◌∙◌, Bool, true, false, ◌&&◌, not, List, [],
  ◌∷◌, ◌++◌, ◌==◌, if◌then◌else◌, arith, Bool-cases, inl, inr,
}
use imagineos.Base.Lists.{length, get_or, set, drop, length-set, take_cong}
use imagineos.Base.Ring.{span, span_cong, span-set_cell, span_split, span-append}
use imagineos.Input.{InputEvent, Queue, capacity, empty, newest, make_room, store, push, poll}
use imagineos.Input.Spec.{enqueue, is_move, ends_in_move, without_last, ends_in_move-snoc}
use imagineos.Input.Invariant.{IsRing, waiting, length-waiting}

store_lem :
    (e : InputEvent) (q : Queue)
    → IsRing q
    → q.length < capacity
    → IsRing (store e q) × (waiting (store e q) ≡ waiting q ++ e ∷ [])
unfolding store waiting
store_lem e q v h = (
  record {
    cells = length-set q.events q.tail e ∙ v.cells;
    head_in = v.head_in;
    tail_at = omega (arith, v.tail_at);
    fits = omega arith;
  },
  span-set_cell empty capacity q.events q.head q.length q.tail e v.tail_at h
      (omega (arith, v.cells)),
)

make_room_lem :
    (q : Queue)
    → IsRing q
    → IsRing (make_room q)
      × ((make_room q).length < capacity)
      × (waiting (make_room q)
          ≡ (if length (waiting q) == capacity then drop 1 (waiting q) else waiting q))
unfolding make_room
make_room_lem q v = elim (Bool-cases (q.length == capacity)) [
  | inl e ↦
      rw (length-waiting q, e)
        (
          record {
            cells = v.cells;
            head_in = omega arith;
            tail_at = ground (arith, v.tail_at);
            fits = omega (arith, v.fits);
          },
          ground arith,
          unfold waiting in
              span_cong empty capacity q.events ((q.head + 1) % capacity) (q.head + 1)
                (q.length - 1) (q.length - 1) (omega arith) refl
              ∙ sym (span_split empty capacity q.events q.head 1 q.length (ground arith)).1,
        )
  | inr e ↦ rw (length-waiting q, e) (v, ground arith, refl)
]

-- A ring that is not empty is what stands before its newest event, and that event.
newest_lem :
    (q : Queue)
    → IsRing q
    → q.length ≢ 0
    → waiting q
      ≡ span empty capacity q.events q.head (q.length - 1) ++ get_or q.events (newest q) empty ∷ []
unfolding waiting
newest_lem q v h =
    span_cong empty capacity q.events q.head q.head q.length (q.length - 1 + 1) refl (omega arith)
    ∙ span-append empty capacity q.events q.head (q.length - 1) 1
    ∙ ap (λ i. span empty capacity q.events q.head (q.length - 1) ++ get_or q.events i empty ∷ [])
        (omega (arith, v.tail_at))

replace_lem :
    (e : InputEvent) (q : Queue)
    → IsRing q
    → q.length ≢ 0
    → let q' = record q { events = set q.events (newest q) e } in
      IsRing q' × (waiting q' ≡ without_last (waiting q) ++ e ∷ [])
unfolding waiting
replace_lem e q v h = (
  record {
    cells = length-set q.events (newest q) e ∙ v.cells;
    head_in = v.head_in;
    tail_at = v.tail_at;
    fits = v.fits;
  },
  span_cong empty capacity (set q.events (newest q) e) q.head q.head q.length (q.length - 1 + 1)
        refl (omega arith)
      ∙ span-set_cell empty capacity q.events q.head (q.length - 1) (newest q) e
          (omega (arith, v.tail_at)) (omega arith) (omega (arith, v.cells))
      ∙ ap (λ t. t ++ e ∷ [])
          (sym (span_split empty capacity q.events q.head (q.length - 1) q.length (omega arith)).0
            ∙ take_cong (q.length - 1) (length (waiting q) - 1) (waiting q)
                (omega (arith, length-waiting q))),
)

waiting_none : (q : Queue) → q.length ≡ 0 → waiting q ≡ []
unfolding waiting
waiting_none q z = rw z

-- Whether the newest event is a movement, on the ring and on the list.
ends_lem :
    (q : Queue)
    → IsRing q
    → (not (q.length == 0) && is_move (get_or q.events (newest q) empty)) ≡ ends_in_move (waiting q)
ends_lem q v = elim (ℕ_discrete q.length 0) [
  | yes z ↦ ground (arith, waiting_none q z)
  | no ne ↦ rw (newest_lem q v ne, ends_in_move-snoc) (ground arith)
]

if_snoc :
    (l r : List InputEvent) (b : Bool) (e : InputEvent) (w : List InputEvent)
    → w ≡ (if b then l else r)
    → w ++ e ∷ [] ≡ (if b then l ++ e ∷ [] else r ++ e ∷ [])
if_snoc l r true e w h = ap (λ t. t ++ e ∷ []) h
if_snoc l r false e w h = ap (λ t. t ++ e ∷ []) h

front_lem :
    (q : Queue)
    → IsRing q
    → q.length ≢ 0
    → waiting q
      ≡ get_or q.events q.head empty ∷ span empty capacity q.events (q.head + 1) (q.length - 1)
unfolding waiting
front_lem q v ne =
    span_cong empty capacity q.events q.head q.head q.length (suc (q.length - 1)) refl (omega arith)
    ∙ ap (λ i. get_or q.events i empty ∷ span empty capacity q.events (q.head + 1) (q.length - 1))
        (omega (arith, v.head_in))

-- `push` on the ring is `enqueue` on the list of waiting events: it takes the place of a movement
-- that waits last if it is one, gives up the oldest event of a full queue, and the ring stays in order.
pub push_lem :
    (e : InputEvent) (q : Queue)
    → IsRing q
    → IsRing (push e q) × (waiting (push e q) ≡ enqueue e (waiting q))
unfolding push enqueue
push_lem e q v = elim (Bool-cases (is_move e && ends_in_move (waiting q))) [
  | inl c ↦ rw (ends_lem q v, c, push) (replace_lem e q v (ground (arith, waiting_none q)))
  | inr c ↦
      let (v1, room, w1) = make_room_lem q v in
      let (v2, w2) = store_lem e (make_room q) v1 room in
      rw (ends_lem q v, c, push) (v2, w2 ∙ if_snoc _ _ _ e _ w1)
]

-- `poll` hands out the oldest waiting event and keeps the others in order; it answers none exactly
-- when nothing waits.
pub poll_lem :
    (q : Queue)
    → IsRing q
    → let (r, q') = poll q in
      IsRing q' × (r ≡ head? (waiting q)) × (waiting q' ≡ drop 1 (waiting q))
unfolding poll
poll_lem q v = elim (ℕ_discrete q.length 0) [
  | yes z ↦
      rw (waiting_none q z) (ground (arith, v), ground arith, ground (arith, waiting_none q z))
  | no ne ↦ rw (front_lem q v ne) (ground (arith, v), ground arith, ground (arith, after_poll))
]
  where
    after_poll :
        waiting (record q { head = (q.head + 1) % capacity; length = q.length - 1 })
        ≡ span empty capacity q.events (q.head + 1) (q.length - 1)
    after_poll =
        unfold waiting in
        span_cong empty capacity q.events ((q.head + 1) % capacity) (q.head + 1) (q.length - 1)
          (q.length - 1) (omega arith) refl
