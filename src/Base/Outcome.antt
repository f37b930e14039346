-- ===== src/Base/Outcome.antt =====
-- `Result` with the error first, `?`, and little-endian fields of a byte slice.
use imagineos.Base.{
  ℕ, ◌+◌, ◌*◌, ◌≡◌, refl, Bool, true, false, Option, none, some, List, [], ◌∷◌, leb, if◌then◌else◌,
}
use imagineos.Base.Lists.{length, take, drop}

pub data Outcome (E A : Type 0) : Type 0 where
  ok : A → Outcome E A
  err : E → Outcome E A

-- `let a = m?; f(a)`
unfoldable pub bind : {E A B : Type 0} → Outcome E A → (A → Outcome E B) → Outcome E B
bind (ok a) f = f a
bind (err e) f = err e

-- `o.ok_or(e)`
unfoldable pub ok_or : {E A : Type 0} → Option A → E → Outcome E A
ok_or (some a) e = ok a
ok_or none e = err e

-- `bytes.get(offset..offset + count)`
abbrev pub slice : List ℕ → ℕ → ℕ → Option (List ℕ)
slice bytes offset count =
    if leb (offset + count) (length bytes) then some (take count (drop offset bytes)) else none

-- `from_le_bytes`
abbrev pub from_le_bytes : List ℕ → ℕ
from_le_bytes [] = 0
from_le_bytes (b ∷ bs) = b + 256 * from_le_bytes bs

-- `if c { return Err(e); }` and what follows it.
unfoldable pub reject : {E A : Type 0} → Bool → E → Outcome E A → Outcome E A
reject c e r = if c then err e else r

-- `if c { return Ok(None); }` and what follows it.
unfoldable pub skip : {E A : Type 0} → Bool → Outcome E (Option A) → Outcome E (Option A)
skip c r = if c then ok none else r

pub bind-ok :
    {E A B : Type 0} {m : Outcome E A} {f : A → Outcome E B} {b : B}
    → bind m f ≡ ok b
    → (a : A) × (m ≡ ok a) × (f a ≡ ok b)
unfolding bind
bind-ok {m = ok a} h = (a, refl, h)
bind-ok {m = err e} h = cc

pub ok_or-ok : {E A : Type 0} {o : Option A} (e : E) {a : A} → ok_or o e ≡ ok a → o ≡ some a
unfolding ok_or
ok_or-ok {o = some x} e h = cc
ok_or-ok {o = none} e h = cc

pub reject-ok :
    {E A : Type 0} {c : Bool} (e : E) {r : Outcome E A} {a : A}
    → reject c e r ≡ ok a
    → (c ≡ false) × (r ≡ ok a)
unfolding reject
reject-ok {c = true} e h = cc
reject-ok {c = false} e h = (refl, h)

pub skip-ok :
    {E A : Type 0} {c : Bool} {r : Outcome E (Option A)} {a : A}
    → skip c r ≡ ok (some a)
    → (c ≡ false) × (r ≡ ok (some a))
unfolding skip
skip-ok {c = true} h = cc
skip-ok {c = false} h = (refl, h)

pub ok-injective : {E A : Type 0} {a b : A} → ◌≡◌ {A = Outcome E A} (ok a) (ok b) → a ≡ b
ok-injective h = cc
