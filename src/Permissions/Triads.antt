-- ===== src/Permissions/Triads.antt =====
-- The check reads one triad of the mode.
use imagineos.Base.{
  ℕ, ◌+◌, ◌*◌, ◌/◌, ◌%◌, ◌<◌, ◌≡◌, refl, ap, ◌∙◌, true, ◌||◌, ◌==◌, if◌then◌else◌, arith,
  Bool-cases, inl, inr,
}
use Prim.Native.Nat.{bit_and}
use imagineos.Base.Bits.{agree_up_to, agree_up_to-at}
use imagineos.Permissions.{allows}

-- A mode of nine bits and a request of three, in one number.
abbrev whole : ℕ → ℕ
whole n = bit_and (n / 8) (n % 8)

abbrev low : ℕ → ℕ
low n = bit_and (n / 8 % 8) (n % 8)

low_table : agree_up_to whole low 4095 ≡ true
unfolding agree_up_to
low_table = refl

-- Only the lowest triad of a number meets a request of three bits.
bit_and-low : (m r : ℕ) → m < 512 → r < 8 → bit_and m r ≡ bit_and (m % 8) r
bit_and-low m r h k =
    let e1 : (m * 8 + r) / 8 ≡ m = omega arith in
    let e2 : (m * 8 + r) % 8 ≡ r = omega arith in
    let t : whole (m * 8 + r) ≡ low (m * 8 + r) =
      agree_up_to-at whole low 4095 (m * 8 + r) (omega arith) low_table in
    rw (e1, e2) at t

-- For a mode of three triads and a request of three bits: root may do everything; otherwise the
-- owner's triad alone counts for the owner, the group's for another member of the group, and the last
-- one for everybody else, and all the requested bits have to be set in it.
pub allows_lem :
    (owner group others owner_uid owner_gid uid gid requested : ℕ)
    → owner < 8
    → group < 8
    → others < 8
    → requested < 8
    → let triad : ℕ =
        if uid == owner_uid then owner else if gid == owner_gid then group else others in
      allows (owner * 64 + group * 8 + others) owner_uid owner_gid uid gid requested
      ≡ (uid == 0) || (bit_and triad requested == requested)
unfolding allows
allows_lem owner group others owner_uid owner_gid uid gid requested a b c d =
    elim (Bool-cases (uid == 0)) [
      | inl z ↦ rw z refl
      | inr z ↦ elim (Bool-cases (uid == owner_uid)) [
        | inl o ↦
            rw (z, o)
              (at ((owner * 64 + group * 8 + others) / 64) owner (omega arith) (omega arith))
        | inr o ↦ elim (Bool-cases (gid == owner_gid)) [
          | inl g ↦
              rw (z, o, g)
                (at ((owner * 64 + group * 8 + others) / 8) group (omega arith) (omega arith))
          | inr g ↦
              rw (z, o, g)
                (at ((owner * 64 + group * 8 + others) / 1) others (omega arith) (omega arith))
        ]
      ]
    ]
  where
    at :
        (m t : ℕ)
        → m < 512
        → m % 8 ≡ t
        → (bit_and m requested == requested) ≡ (bit_and t requested == requested)
    at m t h e =
        ap (λ n. n == requested) (bit_and-low m requested h d ∙ ap (λ n. bit_and n requested) e)
