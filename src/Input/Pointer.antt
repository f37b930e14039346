-- ===== src/Input/Pointer.antt =====
-- The pointer, its buttons, and the queue under any sequence of calls.
use imagineos.Base.{
  ℕ, ◌≡◌, refl, sym, ap, ap₂, ◌∙◌, Bool, true, false, ◌&&◌, ◌||◌, Option, none, some, List, [], ◌∷◌,
  ◌==◌, if◌then◌else◌, arith, Bool-cases, inl, inr,
}
use imagineos.Base.Int.{ℤ, pos, negsuc, ◌+ℤ◌, ◌≤ℤ◌}
use imagineos.Input.{
  InputEvent, Queue, empty, new, push, poll, capture, release, push_key, push_pointer, move_pointer,
  clamp_pointer, clamp, largest, push_pointer_button, press, was_pressed, set_pressed, button_event,
  bool_eq, Call, take_over, give_back, next_event, key, move, screen, click, step, run, make_room,
  store, input_mouse_move, pointer,
}
use imagineos.Input.Spec.{enqueue, NoTwoMoves, NoTwoMoves-enqueue, NoTwoMoves-drop}
use imagineos.Input.Invariant.{IsRing, IsOnScreen, waiting, new-IsRing, new-IsOnScreen}
use imagineos.Input.Queueing.{push_lem, poll_lem}

-- `push` touches the ring alone.
pub push_frame :
    (e : InputEvent) (q : Queue)
    → let q' = push e q in
      q' ≡ record q { events = q'.events; head = q'.head; tail = q'.tail; length = q'.length }
unfolding push make_room store
push_frame e q = ground arith

clamp_within : (v hi : ℤ) → pos 0 ≤ℤ hi → (pos 0 ≤ℤ clamp v (pos 0) hi) × (clamp v (pos 0) hi ≤ℤ hi)
unfolding clamp
clamp_within v hi h = ground arith

push-IsOnScreen : (e : InputEvent) (q : Queue) → IsOnScreen q → IsOnScreen (push e q)
push-IsOnScreen e q v = ground (arith, push_frame e q, v)

move_pointer-IsOnScreen : (dx dy : ℤ) (q : Queue) → IsOnScreen q → IsOnScreen (move_pointer dx dy q)
unfolding move_pointer
move_pointer-IsOnScreen dx dy q v = ground (
  arith,
  clamp_within (q.pointer_x +ℤ dx) q.pointer_max_x,
  clamp_within (q.pointer_y +ℤ dy) q.pointer_max_y,
)

largest_nonneg : (v : ℤ) → pos 0 ≤ℤ largest v
unfolding largest
largest_nonneg (pos n) = omega arith
largest_nonneg (negsuc n) = omega arith

clamp_pointer-IsOnScreen : (w h : ℤ) (q : Queue) → IsOnScreen (clamp_pointer w h q)
unfolding clamp_pointer
clamp_pointer-IsOnScreen w h q =
    let (l, r) = clamp_within q.pointer_x (largest w) (largest_nonneg w) in
    let (t, b) = clamp_within q.pointer_y (largest h) (largest_nonneg h) in
    record { left = l; right = r; top = t; bottom = b }

-- What holds of the queue at all times.
pub record IsSound (q : Queue) : Type 0 where
  pub ring : IsRing q
  pub screen : IsOnScreen q
  pub apart : NoTwoMoves (waiting q)

push-IsSound : (e : InputEvent) (q : Queue) → IsSound q → IsSound (push e q)
push-IsSound e q v =
    let (r, w) = push_lem e q v.ring in
    record {
      ring = r;
      screen = push-IsOnScreen e q v.screen;
      apart = rw w (NoTwoMoves-enqueue e (waiting q) v.apart);
    }

-- A change of the pointer, the buttons or the owner leaves the ring.
record SameRing (q q' : Queue) : Type 0 where
  events : q'.events ≡ q.events
  head : q'.head ≡ q.head
  tail : q'.tail ≡ q.tail
  count : q'.length ≡ q.length

waiting-SameRing : (q q' : Queue) → SameRing q q' → waiting q' ≡ waiting q
unfolding waiting
waiting-SameRing q q' s = ground (arith, s.events, s.head, s.count)

IsRing-SameRing : (q q' : Queue) → SameRing q q' → IsRing q → IsRing q'
IsRing-SameRing q q' s v = ground (arith, s, v)

move_pointer-SameRing : (dx dy : ℤ) (q : Queue) → SameRing q (move_pointer dx dy q)
unfolding move_pointer
move_pointer-SameRing dx dy q = record { events = refl; head = refl; tail = refl; count = refl }

set_pressed-SameRing : (b : ℕ) (p : Bool) (q : Queue) → SameRing q (set_pressed b p q)
unfolding set_pressed
set_pressed-SameRing b p q = ground arith

abbrev moved_event : Queue → InputEvent
moved_event q = record empty { kind = input_mouse_move; x = q.pointer_x; y = q.pointer_y }

-- `push_pointer` moves the pointer to the sum of its position and the delta, clamped to the screen,
-- and enqueues one movement event that carries the new position.
pub push_pointer_lem :
    (dx dy : ℤ) (q : Queue)
    → IsRing q
    → let q' = push_pointer dx dy q in
      (q'.pointer_x ≡ clamp (q.pointer_x +ℤ dx) (pos 0) q.pointer_max_x)
      × (q'.pointer_y ≡ clamp (q.pointer_y +ℤ dy) (pos 0) q.pointer_max_y)
      × (waiting q'
          ≡ enqueue
              (record empty { kind = input_mouse_move; x = q'.pointer_x; y = q'.pointer_y })
              (waiting q))
unfolding push_pointer
push_pointer_lem dx dy q v = (
  unfold move_pointer in ap (λ (r : Queue). r.pointer_x) frame,
  unfold move_pointer in ap (λ (r : Queue). r.pointer_y) frame,
  (push_lem (moved_event q1) q1 (IsRing-SameRing q q1 same v)).1
      ∙ ap₂ enqueue (ap moved_event (sym frame)) (waiting-SameRing q q1 same),
)
  where
    q1 : Queue
    q1 = move_pointer dx dy q

    same : SameRing q q1
    same = move_pointer-SameRing dx dy q

    frame : push (moved_event q1) q1 ≡ record q1 {
      events = (push (moved_event q1) q1).events;
      head = (push (moved_event q1) q1).head;
      tail = (push (moved_event q1) q1).tail;
      length = (push (moved_event q1) q1).length;
    }
    frame = push_frame (moved_event q1) q1

-- Is the reported state another one?
abbrev pub differ : Bool → Bool → Bool
differ true true = false
differ true false = true
differ false true = true
differ false false = false

-- With the ring in order, `push_pointer_button` of button 1, the left one, or of button 2, the
-- right one, in another state than its last one enqueues one event, of the kind of a button, with
-- the place of the pointer, the number of the button, and 1 for pressed or 0 for released. Any
-- other call leaves the waiting events. The named button then has the reported state, the other one
-- and the pointer stay.
pub push_pointer_button_lem :
    (b : ℕ) (p : Bool) (q : Queue)
    → IsRing q
    → let q' = push_pointer_button b p q in
      (waiting q' ≡ (
        if (b == 1 && differ q.left_pressed p) || (b == 2 && differ q.right_pressed p)
        then enqueue
            (record {
              kind = 3;
              key = 0;
              x = q.pointer_x;
              y = q.pointer_y;
              button = b;
              pressed = if p then 1 else 0;
            })
            (waiting q)
        else waiting q))
      × (q'.left_pressed ≡ (if b == 1 then p else q.left_pressed))
      × (q'.right_pressed ≡ (if b == 2 then p else q.right_pressed))
      × (pointer q' ≡ pointer q)
unfolding push_pointer_button press
push_pointer_button_lem b p q v =
    let q1 : Queue = set_pressed b p q in
    let same : SameRing q q1 = set_pressed-SameRing b p q in
    let (ring, w) = push_lem (button_event b p q) q1 (IsRing-SameRing q q1 same v) in
    unfold set_pressed in
    (
      ground (arith, w, waiting-SameRing q q1 same),
      ground (arith, push_frame (button_event b p q) q1),
      ground (arith, push_frame (button_event b p q) q1),
      ground (arith, push_frame (button_event b p q) q1),
    )

SameRing-IsSound : (q q' : Queue) → SameRing q q' → IsOnScreen q' → IsSound q → IsSound q'
SameRing-IsSound q q' s o v = record {
  ring = IsRing-SameRing q q' s v.ring;
  screen = o;
  apart = rw (waiting-SameRing q q' s) v.apart;
}

poll-IsOnScreen : (q : Queue) → IsOnScreen q → IsOnScreen (poll q).1
unfolding poll
poll-IsOnScreen q v = ground (arith, v)

set_pressed-IsOnScreen :
    (b : ℕ) (p : Bool) (q : Queue) → IsOnScreen q → IsOnScreen (set_pressed b p q)
unfolding set_pressed
set_pressed-IsOnScreen b p q v = ground (arith, v)

press-IsSound :
    (b : ℕ) (p : Bool) (q : Queue) (o : Option Bool) → IsSound q → IsSound (press b p q o)
unfolding press
press-IsSound b p q none v = v
press-IsSound b p q (some was) v = elim (Bool-cases (bool_eq was p)) [
  | inl e ↦ simp e v
  | inr e ↦ simp e (
      push-IsSound (button_event b p q) (set_pressed b p q) (
        SameRing-IsSound q _ (set_pressed-SameRing b p q) (set_pressed-IsOnScreen b p q v.screen)
          v))
]

step-IsSound : (q : Queue) (c : Call) → IsSound q → IsSound (step q c)
unfolding step
step-IsSound q take_over v =
    unfold capture waiting in
    record {
      ring = record {
        cells = v.ring.cells;
        head_in = omega arith;
        tail_at = omega arith;
        fits = omega arith;
      };
      screen = record {
        left = v.screen.left;
        right = v.screen.right;
        top = v.screen.top;
        bottom = v.screen.bottom;
      };
      apart = tt;
    }
step-IsSound q give_back v =
    unfold release in
    SameRing-IsSound q _ (record { events = refl; head = refl; tail = refl; count = refl })
      (record {
        left = v.screen.left;
        right = v.screen.right;
        top = v.screen.top;
        bottom = v.screen.bottom;
      })
      v
step-IsSound q next_event v =
    let (ring, _, rest) = poll_lem q v.ring in
    record {
      ring = ring;
      screen = poll-IsOnScreen q v.screen;
      apart = rw rest (NoTwoMoves-drop (waiting q) v.apart);
    }
step-IsSound q (key c) v = unfold push_key in push-IsSound _ q v
step-IsSound q (move dx dy) v =
    unfold push_pointer in
    push-IsSound _ _ (
      SameRing-IsSound q _ (move_pointer-SameRing dx dy q)
        (move_pointer-IsOnScreen dx dy q v.screen) v)
step-IsSound q (screen w h) v =
    SameRing-IsSound q _
      (unfold clamp_pointer in record { events = refl; head = refl; tail = refl; count = refl })
      (clamp_pointer-IsOnScreen w h q) v
step-IsSound q (click b p) v = unfold push_pointer_button in press-IsSound b p q (was_pressed b q) v

-- Under any sequence of calls the ring stays in order, the pointer on the screen, and no two
-- movement events wait next to one another.
pub run-IsSound : (q : Queue) (cs : List Call) → IsSound q → IsSound (run q cs)
unfolding run
run-IsSound q [] v = v
run-IsSound q (c ∷ cs) v = run-IsSound (step q c) cs (step-IsSound q c v)

pub new-IsSound : IsSound new
unfolding waiting new
new-IsSound = record { ring = new-IsRing; screen = new-IsOnScreen; apart = tt }
