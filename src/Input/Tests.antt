-- ===== src/Input/Tests.antt =====
-- Runs of the input queue at fixed inputs.
use mathlib.Core.List.{head?}
use imagineos.Base.{◌≡◌, true, false, ◌&&◌, ◌||◌, List, [], ◌∷◌, ◌==◌, if◌then◌else◌}
use imagineos.Base.Lists.{drop}
use imagineos.Base.Int.{pos, negsuc, ◌+ℤ◌}
use imagineos.Input.{
  Queue, Call, take_over, key, move, screen, click, next_event, empty, new, clamp, run, push, poll,
  push_pointer, push_pointer_button, input_mouse_move, pointer,
}
use imagineos.Input.Spec.{enqueue}
use imagineos.Input.Invariant.{IsRing, new-IsRing, waiting}
use imagineos.Input.Queueing.{push_lem, poll_lem}
use imagineos.Input.Pointer.{
  IsSound, new-IsSound, differ, push_pointer_lem, push_pointer_button_lem, run-IsSound,
}

-- On a screen of 10 by 10 the pointer stops at its edges, and two moves leave one event.
abbrev session : List Call
session =
    take_over
    ∷ screen (pos 10) (pos 10)
    ∷ move (pos 50) (negsuc 3)
    ∷ move (negsuc 1) (pos 4)
    ∷ click 1 true
    ∷ key 97
    ∷ next_event
    ∷ []

run-IsSound_example : IsSound (run new session)
run-IsSound_example = run-IsSound new session new-IsSound

abbrev after : Queue
after = run new session

after-IsRing : IsRing after
after-IsRing = run-IsSound_example.ring

push_lem_example :
    IsRing (push (record empty { kind = 2; x = pos 3 }) after)
    × (waiting (push (record empty { kind = 2; x = pos 3 }) after)
        ≡ enqueue (record empty { kind = 2; x = pos 3 }) (waiting after))
push_lem_example = push_lem (record empty { kind = 2; x = pos 3 }) after after-IsRing

poll_lem_example :
    let (r, q') = poll after in
    IsRing q' × (r ≡ head? (waiting after)) × (waiting q' ≡ drop 1 (waiting after))
poll_lem_example = poll_lem after after-IsRing

push_pointer_lem_example :
    let q' = push_pointer (pos 7) (negsuc 0) new in
    (q'.pointer_x ≡ clamp (pos 0 +ℤ pos 7) (pos 0) (pos 4095))
    × (q'.pointer_y ≡ clamp (pos 0 +ℤ negsuc 0) (pos 0) (pos 4095))
    × (waiting q'
        ≡ enqueue
            (record empty { kind = input_mouse_move; x = q'.pointer_x; y = q'.pointer_y })
            (waiting new))
unfolding new
push_pointer_lem_example = push_pointer_lem (pos 7) (negsuc 0) new new-IsRing

push_pointer_button_lem_example :
    let q' = push_pointer_button 1 true new in
    (waiting q' ≡ (
      if (1 == 1 && differ false true) || (1 == 2 && differ false true)
      then enqueue
          (record { kind = 3; key = 0; x = pos 0; y = pos 0; button = 1; pressed = 1 })
          (waiting new)
      else waiting new))
    × (q'.left_pressed ≡ (if 1 == 1 then true else false))
    × (q'.right_pressed ≡ (if 1 == 2 then true else false))
    × (pointer q' ≡ (pos 0, pos 0))
unfolding new
push_pointer_button_lem_example = push_pointer_button_lem 1 true new new-IsRing
