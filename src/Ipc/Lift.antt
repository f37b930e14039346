-- ===== src/Ipc/Lift.antt =====
-- Lookup and update of a table, for any operation on one open pipe.
use mathlib.Core.Option
use mathlib.Core.Option.{some-injective}
use mathlib.Core.Path.{subst}
use imagineos.Base.{
  ℕ, zero, suc, ◌≡◌, refl, sym, ap, ◌∙◌, true, Option, none, some, [], ◌∷◌, map, if◌then◌else◌,
  Bool-cases, inl, inr,
}
use imagineos.Base.Lists.{get_elem?, set}
use imagineos.Ipc.{Pipe, Table, Result, update, when_open, with_pipe}
use imagineos.Ipc.Channel
use imagineos.Ipc.Channel.{Channel, Slots}
use imagineos.Ipc.Invariant.{IsPipe, IsTable, queued}

abbrev pub chan : Pipe → Channel
chan p = record { readers = p.readers; writers = p.writers; queue = queued p }

abbrev pub channel : Pipe → Option Channel
channel p = if p.is_open then some (chan p) else none

abbrev pub slots : Table → Slots
slots = map channel

-- `f` on an open pipe is `g` on its channel, and gives a pipe that is in order.
pub record Refines {A : Type 0} (f : Pipe → Result A × Pipe)
    (g : Channel → Result A × Option Channel) : Type 0 where
  pub valid : (p : Pipe) → IsPipe p → p.is_open ≡ true → IsPipe (f p).1
  pub same : (p : Pipe) → IsPipe p → p.is_open ≡ true → ((f p).0, channel (f p).1) ≡ g (chan p)

pub map-set : (t : Table) (id : ℕ) (p : Pipe) → slots (set t id p) ≡ set (slots t) id (channel p)
map-set [] id p = refl
map-set (q ∷ t) zero p = refl
map-set (q ∷ t) (suc id) p = ap (λ s. channel q ∷ s) (map-set t id p)

get_elem?-map : (t : Table) (id : ℕ) → get_elem? (slots t) id ≡ Option.map channel (get_elem? t id)
get_elem?-map [] id = refl
get_elem?-map (q ∷ t) zero = refl
get_elem?-map (q ∷ t) (suc id) = get_elem?-map t id

pub IsTable-get : (t : Table) (id : ℕ) {p : Pipe} → IsTable t → get_elem? t id ≡ some p → IsPipe p
IsTable-get [] id h e = cc
IsTable-get (q ∷ t) zero {p} h e = subst IsPipe (cc) h.0
IsTable-get (q ∷ t) (suc id) h e = IsTable-get t id h.1 e

pub IsTable-set : (t : Table) (id : ℕ) {p : Pipe} → IsTable t → IsPipe p → IsTable (set t id p)
IsTable-set [] id h v = h
IsTable-set (q ∷ t) zero h v = (v, h.1)
IsTable-set (q ∷ t) (suc id) h v = (h.0, IsTable-set t id h.1 v)

module _ {A : Type 0} {f : Pipe → Result A × Pipe} {g : Channel → Result A × Option Channel}
    (r : Refines f g) where
  update-same :
      (t : Table) (id : ℕ) (o : Option Pipe)
      → ((p : Pipe) → o ≡ some p → IsPipe p)
      → let (reply, t') = update t id f (when_open o) in
        (reply, slots t') ≡ Channel.on_slot (slots t) id g (Option.map channel o)
  unfolding update when_open
  update-same t id none v = refl
  update-same t id (some p) v = elim (Bool-cases p.is_open) [
    | inl e ↦ simp e (
        rw map-set (
          ap (λ (out : Result A × Option Channel). (out.0, set (slots t) id out.1))
            (r.same p (v p refl) e)))
    | inr e ↦ simp e
  ]

  pub with_pipe-same :
      (t : Table) (id : ℕ)
      → IsTable t
      → let (reply, t') = with_pipe t id f in (reply, slots t') ≡ Channel.at_slot (slots t) id g
  unfolding with_pipe
  with_pipe-same t id v =
      update-same t id (get_elem? t id) (λ p e. IsTable-get t id v e)
      ∙ ap (Channel.on_slot (slots t) id g) (sym (get_elem?-map t id))

  update-IsTable :
      (t : Table) (id : ℕ) (o : Option Pipe)
      → ((p : Pipe) → o ≡ some p → IsPipe p)
      → IsTable t
      → IsTable (update t id f (when_open o)).1
  unfolding update when_open
  update-IsTable t id none v h = h
  update-IsTable t id (some p) v h = elim (Bool-cases p.is_open) [
    | inl e ↦ simp e (IsTable-set t id h (r.valid p (v p refl) e))
    | inr e ↦ simp e h
  ]

  pub with_pipe-IsTable : (t : Table) (id : ℕ) → IsTable t → IsTable (with_pipe t id f).1
  unfolding with_pipe
  with_pipe-IsTable t id h = update-IsTable t id (get_elem? t id) (λ p e. IsTable-get t id h e) h
