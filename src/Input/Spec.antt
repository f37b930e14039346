-- ===== src/Input/Spec.antt =====
-- The queue of events as a list, oldest first: what a client of the input queue may assume.
use mathlib.Core.Path.{subst, sym}
use imagineos.Base.{
  ◌-◌, ◌≡◌, refl, ap, ◌∙◌, Bool, true, false, ◌&&◌, List, [], ◌∷◌, ◌++◌, ◌==◌, if◌then◌else◌, arith,
  Bool-cases, inl, inr,
}
use imagineos.Base.Lists.{length, take, drop, length-append, take-append_length, take_cong}
use imagineos.Input.{InputEvent, input_mouse_move, capacity}

abbrev pub is_move : InputEvent → Bool
is_move e = e.kind == input_mouse_move

abbrev pub ends_in_move : List InputEvent → Bool
ends_in_move [] = false
ends_in_move (e ∷ []) = is_move e
ends_in_move (e ∷ f ∷ q) = ends_in_move (f ∷ q)

abbrev pub without_last : List InputEvent → List InputEvent
without_last q = take (length q - 1) q

-- A movement behind a movement takes its place; a full queue loses its oldest event.
unfoldable pub enqueue : InputEvent → List InputEvent → List InputEvent
enqueue e q =
    if is_move e && ends_in_move q
    then without_last q ++ e ∷ []
    else if length q == capacity
    then drop 1 q ++ e ∷ []
    else q ++ e ∷ []

pub ends_in_move-snoc :
    (q : List InputEvent) (e : InputEvent) → ends_in_move (q ++ e ∷ []) ≡ is_move e
ends_in_move-snoc [] e = refl
ends_in_move-snoc (a ∷ []) e = refl
ends_in_move-snoc (a ∷ b ∷ q) e = ends_in_move-snoc (b ∷ q) e

pub without_last-snoc : (q : List InputEvent) (e : InputEvent) → without_last (q ++ e ∷ []) ≡ q
without_last-snoc q e =
    take_cong (length (q ++ e ∷ []) - 1) (length q) (q ++ e ∷ [])
      (omega (arith, length-append q (e ∷ [])))
    ∙ take-append_length (length q) q (e ∷ []) refl

-- No two movements stand next to one another.
abbrev pub NoTwoMoves : List InputEvent → Type 0
NoTwoMoves [] = Unit
NoTwoMoves (e ∷ []) = Unit
NoTwoMoves (e ∷ f ∷ q) = ((is_move e && is_move f) ≡ false) × NoTwoMoves (f ∷ q)

NoTwoMoves-snoc :
    (q : List InputEvent) (e : InputEvent)
    → NoTwoMoves q
    → (ends_in_move q && is_move e) ≡ false
    → NoTwoMoves (q ++ e ∷ [])
NoTwoMoves-snoc [] e h n = tt
NoTwoMoves-snoc (a ∷ []) e h n = (n, tt)
NoTwoMoves-snoc (a ∷ b ∷ q) e (p, h) n = (p, NoTwoMoves-snoc (b ∷ q) e h n)

-- A movement may take the place of one.
NoTwoMoves-replace :
    (q : List InputEvent) (a e : InputEvent)
    → NoTwoMoves (q ++ a ∷ [])
    → is_move a ≡ true
    → NoTwoMoves (q ++ e ∷ [])
NoTwoMoves-replace [] a e h m = tt
NoTwoMoves-replace (b ∷ []) a e h m = (ground arith, tt)
NoTwoMoves-replace (b ∷ c ∷ q) a e (p, h) m = (p, NoTwoMoves-replace (c ∷ q) a e h m)

pub NoTwoMoves-drop : (q : List InputEvent) → NoTwoMoves q → NoTwoMoves (drop 1 q)
NoTwoMoves-drop [] h = tt
NoTwoMoves-drop (a ∷ []) h = tt
NoTwoMoves-drop (a ∷ b ∷ q) h = h.1

ends_in_move-drop : (q : List InputEvent) → ends_in_move q ≡ false → ends_in_move (drop 1 q) ≡ false
ends_in_move-drop [] h = refl
ends_in_move-drop (a ∷ []) h = refl
ends_in_move-drop (a ∷ b ∷ q) h = h

snoc-cases :
    (q : List InputEvent)
    → ends_in_move q ≡ true
    → (r : List InputEvent) × (a : InputEvent) × (q ≡ r ++ a ∷ []) × (is_move a ≡ true)
snoc-cases [] h = cc
snoc-cases (a ∷ []) h = ([], a, refl, h)
snoc-cases (a ∷ b ∷ q) h =
    let (r, c, e, m) = snoc-cases (b ∷ q) h in (a ∷ r, c, ap (λ t. a ∷ t) e, m)

-- The coalescing keeps movements apart.
pub NoTwoMoves-enqueue :
    (e : InputEvent) (q : List InputEvent) → NoTwoMoves q → NoTwoMoves (enqueue e q)
unfolding enqueue
NoTwoMoves-enqueue e q h = elim (Bool-cases (is_move e && ends_in_move q)) [
  | inl c ↦
      let (r, a, eq, m) = snoc-cases q (ground arith) in
      rw c (
        subst (λ t. NoTwoMoves (t ++ e ∷ [])) (sym (ap without_last eq ∙ without_last-snoc r a))
          (NoTwoMoves-replace r a e (subst NoTwoMoves eq h) m))
  | inr c ↦ elim (Bool-cases (length q == capacity)) [
    | inl f ↦
        rw (c, f)
          (NoTwoMoves-snoc (drop 1 q) e (NoTwoMoves-drop q h) (ground (arith, ends_in_move-drop q)))
    | inr f ↦ rw (c, f) (NoTwoMoves-snoc q e h (ground arith))
  ]
]
