-- ===== src/Input.antt =====
-- kernel/src/input.rs: the queue of input events for the display server. The global `QUEUE` is a
-- record that every function takes and gives back.
pub mod Spec
pub mod Invariant
pub mod Queueing
pub mod Pointer
mod Tests
use imagineos.Base.{
  ℕ, zero, suc, ◌+◌, ◌-◌, ◌%◌, Bool, true, false, ◌&&◌, not, Option, none, some, List, [], ◌∷◌,
  ◌==◌, if◌then◌else◌,
}
use imagineos.Base.Lists.{get_or, set, replicate}
use imagineos.Base.Int.{ℤ, pos, negsuc, ◌+ℤ◌, ltb_ℤ, pos_part, neg_part}

abbrev pub capacity : ℕ
capacity = 128

-- INPUT_KEY, INPUT_MOUSE_MOVE and INPUT_MOUSE_BUTTON of shared/abi.
abbrev pub input_key : ℕ
input_key = 1

abbrev pub input_mouse_move : ℕ
input_mouse_move = 2

abbrev pub input_mouse_button : ℕ
input_mouse_button = 3

pub record InputEvent : Type 0 where
  pub kind : ℕ
  pub key : ℕ
  pub x : ℤ
  pub y : ℤ
  pub button : ℕ
  pub pressed : ℕ

abbrev pub empty : InputEvent
empty = record { kind = 0; key = 0; x = pos 0; y = pos 0; button = 0; pressed = 0 }

pub record Queue : Type 0 where
  pub events : List InputEvent
  pub head : ℕ
  pub tail : ℕ
  pub length : ℕ
  pub captured : Bool
  pub pointer_x : ℤ
  pub pointer_y : ℤ
  pub pointer_max_x : ℤ
  pub pointer_max_y : ℤ
  pub left_pressed : Bool
  pub right_pressed : Bool

-- MAX_POINTER
abbrev pub max_pointer : ℕ
max_pointer = 4096

unfoldable pub new : Queue
new = record {
  events = replicate capacity empty;
  head = 0;
  tail = 0;
  length = 0;
  captured = false;
  pointer_x = pos 0;
  pointer_y = pos 0;
  pointer_max_x = pos (max_pointer - 1);
  pointer_max_y = pos (max_pointer - 1);
  left_pressed = false;
  right_pressed = false;
}

-- The cell of the newest event.
abbrev pub newest : Queue → ℕ
newest q = (q.tail + capacity - 1) % capacity

-- The full queue gives up its oldest event.
pub make_room : Queue → Queue
make_room q =
    if q.length == capacity
    then record q { head = (q.head + 1) % capacity; length = q.length - 1 }
    else q

pub store : InputEvent → Queue → Queue
store event q = record q {
  events = set q.events q.tail event;
  tail = (q.tail + 1) % capacity;
  length = q.length + 1;
}

pub push : InputEvent → Queue → Queue
unfolding make_room store
push event q =
    if event.kind == input_mouse_move
      && (not (q.length == 0) && (get_or q.events (newest q) empty).kind == input_mouse_move)
    then record q { events = set q.events (newest q) event }
    else store event (make_room q)

unfoldable pub capture : Queue → Queue
capture q = record q { captured = true; head = 0; tail = 0; length = 0 }

unfoldable pub release : Queue → Queue
release q = record q { captured = false }

abbrev pub is_captured : Queue → Bool
is_captured q = q.captured

-- A `char` is its code point.
unfoldable pub push_key : ℕ → Queue → Queue
push_key character q = push (record empty { kind = input_key; key = character }) q

-- `i32::clamp`, for `lo ≤ hi`.
pub clamp : ℤ → ℤ → ℤ → ℤ
clamp v lo hi = if ltb_ℤ v lo then lo else if ltb_ℤ hi v then hi else v

pub move_pointer : ℤ → ℤ → Queue → Queue
move_pointer delta_x delta_y q = record q {
  pointer_x = clamp (q.pointer_x +ℤ delta_x) (pos 0) q.pointer_max_x;
  pointer_y = clamp (q.pointer_y +ℤ delta_y) (pos 0) q.pointer_max_y;
}

pub push_pointer : ℤ → ℤ → Queue → Queue
push_pointer delta_x delta_y q =
    let q' = move_pointer delta_x delta_y q in
    push (record empty { kind = input_mouse_move; x = q'.pointer_x; y = q'.pointer_y }) q'

-- `side.saturating_sub(1).max(0)`: an i32 is at least -2^31, so only the sign of `side` matters.
pub largest : ℤ → ℤ
largest (pos n) = pos (n - 1)
largest (negsuc n) = pos 0

pub clamp_pointer : ℤ → ℤ → Queue → Queue
clamp_pointer width height q = record q {
  pointer_max_x = largest width;
  pointer_max_y = largest height;
  pointer_x = clamp q.pointer_x (pos 0) (largest width);
  pointer_y = clamp q.pointer_y (pos 0) (largest height);
}

abbrev pub bool_eq : Bool → Bool → Bool
bool_eq true b = b
bool_eq false b = not b

abbrev pub bit : Bool → ℕ
bit true = 1
bit false = 0

-- The state of the button that a number names; `none` is the early return.
abbrev pub was_pressed : ℕ → Queue → Option Bool
was_pressed button q =
    if button == 1 then some q.left_pressed else if button == 2 then some q.right_pressed else none

pub set_pressed : ℕ → Bool → Queue → Queue
set_pressed button pressed q =
    if button == 1
    then record q { left_pressed = pressed }
    else if button == 2
    then record q { right_pressed = pressed }
    else q

abbrev pub button_event : ℕ → Bool → Queue → InputEvent
button_event button pressed q = record empty {
  kind = input_mouse_button;
  x = q.pointer_x;
  y = q.pointer_y;
  button = button;
  pressed = bit pressed;
}

pub press : ℕ → Bool → Queue → Option Bool → Queue
press button pressed q none = q
press button pressed q (some was) =
    if bool_eq was pressed
    then q
    else push (button_event button pressed q) (set_pressed button pressed q)

pub push_pointer_button : ℕ → Bool → Queue → Queue
push_pointer_button button pressed q = press button pressed q (was_pressed button q)

pub poll : Queue → Option InputEvent × Queue
poll q = if q.length == 0 then (none, q) else (
  some (get_or q.events q.head empty),
  record q { head = (q.head + 1) % capacity; length = q.length - 1 },
)

abbrev pub pointer : Queue → ℤ × ℤ
pointer q = (q.pointer_x, q.pointer_y)

-- Who calls: the display server, the keyboard and mouse drivers, in any order.
pub data Call : Type 0 where
  take_over give_back next_event : Call
  key : ℕ → Call
  move screen : ℤ → ℤ → Call
  click : ℕ → Bool → Call

pub step : Queue → Call → Queue
step q take_over = capture q
step q give_back = release q
step q next_event = (poll q).1
step q (key c) = push_key c q
step q (move dx dy) = push_pointer dx dy q
step q (screen w h) = clamp_pointer w h q
step q (click b p) = push_pointer_button b p q

pub run : Queue → List Call → Queue
run q [] = q
run q (c ∷ cs) = run (step q c) cs
