-- ===== src/Gpt/Search.antt =====
-- What `partition` and `find_partition` answer with.
use mathlib.Core.Path.{subst}
use imagineos.Base.{
  same_bytes, ℕ, zero, suc, ◌+◌, ◌≤◌, ◌<◌, ◌≡◌, refl, sym, ap, ◌∙◌, true, false, ◌||◌, Option, none,
  some, List, arith, ltb, Bool-cases, inl, inr,
}
use mathlib.Core.Option.{some-injective}
use native.Mathlib.Decide.{ℕ_discrete}
use imagineos.Base.Outcome.{ok, bind-ok, reject-ok, skip-ok, ok-injective}
use imagineos.Gpt.{
  BlockDevice, Gpt, Partition, decode, partition, matches, find_from, find_partition,
}

-- The partition lies within the usable blocks.
pub record IsUsable (g : Gpt) (p : Partition) : Type 0 where
  pub first : g.first_usable_lba ≤ p.first_lba
  pub some_block : p.first_lba ≤ p.last_lba
  pub last : p.last_lba ≤ g.last_usable_lba

usable :
    (g : Gpt) (p q : Partition)
    → (ltb q.first_lba g.first_usable_lba
        || (ltb g.last_usable_lba q.last_lba || ltb q.last_lba q.first_lba))
      ≡ false
    → q ≡ p
    → IsUsable g p
usable g p q t e =
    subst (IsUsable g) e
      (record { first = ground arith; some_block = ground arith; last = ground arith })

decode_lem :
    (g : Gpt) (entry : List ℕ) (p : Partition) → decode g entry ≡ ok (some p) → IsUsable g p
unfolding decode
decode_lem g entry p h =
    let (_, h1) = skip-ok h in
    let (t, h2) = reject-ok _ h1 in usable g p _ t (some-injective _ _ (ok-injective h2))

partition-IsUsable :
    (device : BlockDevice) (g : Gpt) (index : ℕ) (p : Partition)
    → partition device g index ≡ ok (some p)
    → (index < g.entry_count) × IsUsable g p
unfolding partition
partition-IsUsable device g index p h =
    let (t, h1) = skip-ok h in let (_, _, h2) = bind-ok h1 in (ground arith, decode_lem g _ p h2)

-- The entry at an index is empty or of another type.
abbrev pub Differs : BlockDevice → Gpt → List ℕ → ℕ → Type 0
Differs device g type_guid i =
    (o : Option Partition) × (partition device g i ≡ ok o) × (matches device type_guid o ≡ none)

matches-some :
    (device : BlockDevice) (type_guid : List ℕ) (o : Option Partition) (p : Partition)
    → matches device type_guid o ≡ some p
    → (o ≡ some p) × (same_bytes p.type_guid type_guid ≡ true)
matches-some device type_guid none p h = cc
matches-some device type_guid (some q) p h = elim (Bool-cases (same_bytes q.type_guid type_guid)) [
  | inl t ↦
      let e : q ≡ p = some-injective q p (rw (← h, t, matches) refl) in
      (ap some e, ap (λ (r : Partition). same_bytes r.type_guid type_guid) (sym e) ∙ t)
  | inr t ↦ let e : none ≡ some p = rw (← h, t, matches) refl in cc
]

-- The index that a search ends at, with the entries before it.
pub record Found (device : BlockDevice) (g : Gpt) (type_guid : List ℕ) (p : Partition) (from i : ℕ)
    : Type 0 where
  pub at : partition device g i ≡ ok (some p)
  pub same_type : same_bytes p.type_guid type_guid ≡ true
  pub behind : from ≤ i
  pub first : (j : ℕ) → from ≤ j → j < i → Differs device g type_guid j

find_from_lem :
    (device : BlockDevice) (n : ℕ) (g : Gpt) (from : ℕ) (type_guid : List ℕ) (p : Partition)
    → find_from device n g from type_guid ≡ ok p
    → (i : ℕ) × Found device g type_guid p from i
unfolding find_from
find_from_lem device zero g from type_guid p h = cc
find_from_lem device (suc n) g from type_guid p h =
    let (o, e, h1) = bind-ok h in
    of o e (matches device type_guid o) refl h1 (find_from_lem device n g (from + 1) type_guid p)
  where
    of :
        (o : Option Partition)
        → partition device g from ≡ ok o
        → (m : Option Partition) → matches device type_guid o ≡ m
        → elim m [ some q ↦ ok q | none ↦ find_from device n g (from + 1) type_guid ] ≡ ok p
        → (find_from device n g (from + 1) type_guid ≡ ok p
            → (i : ℕ) × Found device g type_guid p (from + 1) i)
        → (i : ℕ) × Found device g type_guid p from i
    of o e (some q) m h ih =
        let q≡p : q ≡ p = ok-injective h in
        let (f, s) = matches-some device type_guid o p (m ∙ ap some q≡p) in
        (
          from,
          record {
            at = e ∙ ap ok f;
            same_type = s;
            behind = omega arith;
            first = λ j lo hi. absurd (omega arith);
          },
        )
    of o e none m h ih =
        let (i, f) = ih h in
        (
          i,
          record {
            at = f.at;
            same_type = f.same_type;
            behind = omega (arith, f.behind);
            first = λ j lo hi. elim (ℕ_discrete from j) [
              | yes q ↦ (o, ap (partition device g) (sym q) ∙ e, m)
              | no q ↦ f.first j (omega arith) hi
            ];
          },
        )

-- `find_partition` answers with the first entry of the table that has the type asked for: it stands
-- at an index below the count, every entry before it is empty or of another type, and the partition
-- lies within the usable blocks.
pub find_partition_lem :
    (device : BlockDevice) (g : Gpt) (type_guid : List ℕ) (p : Partition)
    → find_partition device g type_guid ≡ ok p
    → (i : ℕ) × Found device g type_guid p 0 i × (i < g.entry_count) × IsUsable g p
unfolding find_partition
find_partition_lem device g type_guid p h =
    let (i, f) = find_from_lem device g.entry_count g 0 type_guid p h in
    let (lt, u) = partition-IsUsable device g i p f.at in (i, f, lt, u)
