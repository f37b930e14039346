-- ===== src/Descriptors/Lifecycle.antt =====
-- Processes that end and are collected keep the counts of the pipes exact.
use mathlib.Core.Path.{subst}
use imagineos.Base.{
  ℕ, zero, suc, ◌+◌, ◌<◌, ◌≡◌, ◌≢◌, refl, sym, ap, ◌∙◌, Bool, List, [], ◌∷◌, Bool-cases, true,
  false, inl, inr, ◌&&◌, not, arith,
}
use imagineos.Base.Lists.{length, get_or, set, get_or-set_self, get_or-set_ne, length-set}
use imagineos.Ipc.Counts.{Balanced-cong}
use imagineos.Descriptors.{
  Descriptor, DescriptorTable, Files, Slot, table_at, unused, release_descriptors, all_closed,
}
use imagineos.Descriptors.Processes.{is_alive, exit_current, exit_to, reap, switch}
use imagineos.Descriptors.References.{release_each-Balanced}
use imagineos.Descriptors.Weights.{
  reads, writes, sum, sum-set, readers_in, writers_in, IsSlot, IsSlots, slot_readers, slot_writers,
  All-set, All-get_or,
}
use imagineos.Descriptors.Places.{current-IsSlot, current-lt}
use imagineos.Descriptors.Counted.{IsCounted, nothing}

all_closed-weights :
    (ds : List Descriptor) (j : ℕ)
    → (sum (reads j) (all_closed ds) ≡ 0) × (sum (writes j) (all_closed ds) ≡ 0)
all_closed-weights [] j = (refl, refl)
all_closed-weights (d ∷ ds) j = let (a, b) = all_closed-weights ds j in (omega arith, omega arith)

length-all_closed : (ds : List Descriptor) → length (all_closed ds) ≡ length ds
length-all_closed [] = refl
length-all_closed (d ∷ ds) = omega (arith, length-all_closed ds)

-- A slot gets another process or another state, and its table another weight.
pub set_slot :
    (ss : List Slot) (current i : ℕ) (s : Slot)
    → IsSlots ss current
    → i < length ss
    → i ≢ current
    → IsSlot s
    → IsSlots (set ss i s) current
unfolding is_alive
set_slot ss current i s w h n g = record {
  count = length-set ss i s ∙ w.count;
  each = All-set IsSlot ss i s w.each g;
  running = ap is_alive (get_or-set_ne ss i current s unused n) ∙ w.running;
}

-- The slots after the current process has ended; another goes on.
pub exit_to-IsCounted :
    (f : Files) (next : ℕ) → IsCounted f → IsCounted (exit_to f (exit_current f) next)
unfolding exit_to exit_current release_descriptors
exit_to-IsCounted f next o = elim (Bool-cases (is_alive (get_or ss next unused))) [
  | inl a ↦ rw a (record {
    places = record {
      count = length-set s1 f.current gone ∙ length-set f.slots f.current shut ∙ o.places.count;
      each =
          All-set IsSlot s1 f.current gone
            (All-set IsSlot f.slots f.current shut o.places.each shut-IsSlot) gone-IsSlot;
      running = a;
    };
    balance =
        release_each-Balanced t f.pipes (λ j. readers_in f.slots j + nothing j)
          (λ j. writers_in f.slots j + nothing j) (λ j. readers_in ss j + nothing j)
          (λ j. writers_in ss j + nothing j) o.balance (λ j. fewer_readers j)
          (λ j. fewer_writers j);
  })
  | inr a ↦ rw a o
]
  where
    t : DescriptorTable
    t = table_at f f.current

    shut : Slot
    shut = record (get_or f.slots f.current unused) { table = all_closed t }

    s1 : List Slot
    s1 = set f.slots f.current shut

    gone : Slot
    gone = record (get_or s1 f.current unused) { zombie = true }

    ss : List Slot
    ss = set s1 f.current gone

    lt : f.current < length f.slots
    lt = current-lt f o.places

    same : get_or s1 f.current unused ≡ shut
    same = get_or-set_self f.slots f.current shut unused lt

    no_pipes : (j : ℕ) → (slot_readers j shut ≡ 0) × (slot_writers j shut ≡ 0)
    no_pipes j = all_closed-weights t j

    shut-IsSlot : IsSlot shut
    shut-IsSlot = (length-all_closed t ∙ (current-IsSlot f o.places).0, λ h j. no_pipes j)

    gone-weights : (j : ℕ) → (slot_readers j gone ≡ 0) × (slot_writers j gone ≡ 0)
    gone-weights j =
        (ap (slot_readers j) same ∙ (no_pipes j).0, ap (slot_writers j) same ∙ (no_pipes j).1)

    gone-IsSlot : IsSlot gone
    gone-IsSlot = (
      ap (λ x. length x.table) same ∙ length-all_closed t ∙ (current-IsSlot f o.places).0,
      λ h j. gone-weights j,
    )

    fewer_readers :
        (j : ℕ) → readers_in f.slots j + nothing j ≡ readers_in ss j + nothing j + sum (reads j) t
    fewer_readers j = omega (
      arith,
      sum-set (slot_readers j) f.slots f.current shut unused lt,
      sum-set (slot_readers j) s1 f.current gone unused
          (omega (arith, lt, length-set f.slots f.current shut)),
      (no_pipes j).0,
      (gone-weights j).0,
    )

    fewer_writers :
        (j : ℕ) → writers_in f.slots j + nothing j ≡ writers_in ss j + nothing j + sum (writes j) t
    fewer_writers j = omega (
      arith,
      sum-set (slot_writers j) f.slots f.current shut unused lt,
      sum-set (slot_writers j) s1 f.current gone unused
          (omega (arith, lt, length-set f.slots f.current shut)),
      (no_pipes j).1,
      (gone-weights j).1,
    )

pub switch-IsCounted : (f : Files) (slot : ℕ) → IsCounted f → IsCounted (switch f slot)
unfolding switch
switch-IsCounted f slot o = elim (Bool-cases (is_alive (get_or f.slots slot unused))) [
  | inl a ↦ rw a (record {
    places = record { count = o.places.count; each = o.places.each; running = a };
    balance = o.balance;
  })
  | inr a ↦ rw a o
]

both_true : (a b : Bool) → (a && b) ≡ true → (a ≡ true) × (b ≡ true)
both_true true true h = (refl, refl)
both_true true false h = cc
both_true false b h = cc

gone_is_dead : (a z : Bool) → (a && z) ≡ true → (a && not z) ≡ false
gone_is_dead true true h = refl
gone_is_dead true false h = cc
gone_is_dead false z h = refl

active-lt : (ss : List Slot) (i : ℕ) → (get_or ss i unused).active ≡ true → i < length ss
active-lt [] i h = cc
active-lt (s ∷ ss) zero h = omega arith
active-lt (s ∷ ss) (suc i) h = omega (arith, active-lt ss i h)

-- The current process is alive.
pub not_current :
    (f : Files) (slot : ℕ)
    → IsSlots f.slots f.current
    → is_alive (get_or f.slots slot unused) ≡ false
    → slot ≢ f.current
not_current f slot p dead e =
    let r = p.running in let d = ap (λ i. is_alive (get_or f.slots i unused)) e in cc

pub reap-IsCounted : (f : Files) (slot : ℕ) → IsCounted f → IsCounted (reap f slot)
unfolding reap is_alive
reap-IsCounted f slot o = elim (Bool-cases (s.active && s.zombie)) [
  | inr a ↦ subst IsCounted (sym (kept a)) o
  | inl a ↦ subst IsCounted (sym (emptied a)) (collected (dead a) (inside a) (other a))
]
  where
    s : Slot
    s = get_or f.slots slot unused

    s' : Slot
    s' = record s { active = false; zombie = false }

    kept : (s.active && s.zombie) ≡ false → reap f slot ≡ f
    kept a = rw a refl

    emptied : (s.active && s.zombie) ≡ true → reap f slot ≡ record f { slots = set f.slots slot s' }
    emptied a = rw a refl

    dead : (s.active && s.zombie) ≡ true → is_alive s ≡ false
    dead a = gone_is_dead s.active s.zombie a

    inside : (s.active && s.zombie) ≡ true → slot < length f.slots
    inside a = active-lt f.slots slot (both_true s.active s.zombie a).0

    other : (s.active && s.zombie) ≡ true → slot ≢ f.current
    other a e = not_current f slot o.places (dead a) e

    collected :
        is_alive s ≡ false
        → slot < length f.slots
        → slot ≢ f.current
        → IsCounted (record f { slots = set f.slots slot s' })
    collected d l n =
        let g = All-get_or IsSlot f.slots slot unused o.places.each l in
        record {
          places = set_slot f.slots f.current slot s' o.places l n (g.0, λ h. g.1 d);
          balance =
              Balanced-cong f.pipes (λ j. readers_in f.slots j + nothing j)
                (λ j. writers_in f.slots j + nothing j)
                (λ j. readers_in (set f.slots slot s') j + nothing j)
                (λ j. writers_in (set f.slots slot s') j + nothing j)
                (λ j. omega (arith, sum-set (slot_readers j) f.slots slot s' unused l))
                (λ j. omega (arith, sum-set (slot_writers j) f.slots slot s' unused l)) o.balance;
        }
