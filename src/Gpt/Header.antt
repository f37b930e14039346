-- ===== src/Gpt/Header.antt =====
-- What a header has passed when `read_primary` accepts it.
use mathlib.Core.Path.{subst}
use native.Mathlib.Decide.{ℕ_discrete}
use imagineos.Base.{
  Bool-cases, if◌then◌else◌, checked_mul, ℕ, zero, suc, ◌+◌, ◌-◌, ◌*◌, ◌/◌, ◌%◌, ◌≤◌, ◌<◌, ◌≡◌, ◌⊎◌,
  refl, Bool, true, false, ◌||◌, not, some, List, arith, ltb, leb, ◌==◌, checked_add, inl, inr,
}
use imagineos.Base.Lists.{take, drop}
use imagineos.Base.Outcome.{ok, skip, bind, bind-ok, ok_or-ok, reject-ok, ok-injective}
use imagineos.Gpt.{
  BlockDevice, Gpt, sector_size, is_bad_header, fields, read_u32, read_u64, check_sums,
  check_entries, read_primary, partition, decode,
}

-- The table lies behind the header and ends before the usable blocks, which lie on the disk; an
-- entry has one of three sizes.
pub record IsGpt (device : BlockDevice) (g : Gpt) : Type 0 where
  pub behind_header : 2 ≤ g.entries_lba
  pub before_usable :
      g.entries_lba + (g.entry_count * g.entry_size + 511) / sector_size ≤ g.first_usable_lba
  pub some_usable : g.first_usable_lba ≤ g.last_usable_lba
  pub on_disk : g.last_usable_lba < device.sector_count
  pub some_entry : 0 < g.entry_count
  pub few_entries : g.entry_count ≤ 128
  pub size : (g.entry_size ≡ 128) ⊎ (g.entry_size ≡ 256) ⊎ (g.entry_size ≡ 512)

-- Whether a test holds of every size up to one.
holds_up_to : (ℕ → Bool) → ℕ → Bool
holds_up_to test zero = test zero
holds_up_to test (suc most) = if test (suc most) then holds_up_to test most else false

holds_up_to-at :
    (test : ℕ → Bool) (most size : ℕ)
    → size ≤ most
    → holds_up_to test most ≡ true
    → test size ≡ true
unfolding holds_up_to
holds_up_to-at test zero size le h = let e : size ≡ 0 = omega arith in rw e h
holds_up_to-at test (suc most) size le h = elim (Bool-cases (test (suc most))) [
  | inr f ↦ let e : false ≡ true = rw f at h in cc
  | inl t ↦ elim (ℕ_discrete size (suc most)) [
    | yes e ↦ rw e t
    | no ne ↦ holds_up_to-at test most size (omega arith) (rw t at h)
  ]
]

abbrev size_test : ℕ → Bool
size_test s =
    ltb s 128
    || (not (s % 8 == 0)
        || (not (sector_size % s == 0) || ((s == 128) || ((s == 256) || (s == 512)))))

size_table : holds_up_to size_test 512 ≡ true
unfolding holds_up_to
size_table = refl

size_cases :
    (s : ℕ)
    → (ltb s 128 || (ltb 512 s || (not (s % 8 == 0) || not (sector_size % s == 0)))) ≡ false
    → (s ≡ 128) ⊎ (s ≡ 256) ⊎ (s ≡ 512)
size_cases s h =
    let t : size_test s ≡ true = holds_up_to-at size_test 512 s (ground arith) size_table in
    ground arith

check_sums-ok :
    (device : BlockDevice) (sector : List ℕ) (g g' : Gpt) (n : ℕ)
    → check_sums device sector g n ≡ ok g'
    → g ≡ g'
unfolding check_sums
check_sums-ok device sector g g' n h =
    let (_, h1) = reject-ok _ h in
    let (_, _, h2) = bind-ok h1 in let (_, h3) = reject-ok _ h2 in ok-injective h3

entries_fit :
    (entries_lba first count size bytes rounded end : ℕ)
    → checked_mul count size ≡ some bytes
    → checked_add bytes (sector_size - 1) ≡ some rounded
    → checked_add entries_lba (rounded / sector_size) ≡ some end
    → (ltb entries_lba 2 || ltb first end) ≡ false
    → (2 ≤ entries_lba) × (entries_lba + (count * size + 511) / sector_size ≤ first)
entries_fit entries_lba first count size bytes rounded end a b c t =
    let e1 : bytes ≡ count * size = ground arith in
    let e2 : rounded ≡ bytes + 511 = ground arith in
    let e3 : end ≡ entries_lba + rounded / sector_size = ground arith in
    (ground arith, ground arith)

or-false : (a b : Bool) → (a || b) ≡ false → (a ≡ false) × (b ≡ false)
or-false a b h = (ground arith, ground arith)

header_lem :
    (device : BlockDevice) (header_size current_lba backup_lba : ℕ) (g : Gpt)
    → is_bad_header device.sector_count header_size current_lba backup_lba g ≡ false
    → (2 ≤ g.entries_lba)
      × (g.entries_lba + (g.entry_count * g.entry_size + 511) / sector_size ≤ g.first_usable_lba)
    → IsGpt device g
header_lem device header_size current_lba backup_lba g h v =
    let (_, h1) = or-false (ltb header_size 92) _ h in
    let (_, h2) = or-false (ltb sector_size header_size) _ h1 in
    let (_, h3) = or-false (not (current_lba == 1)) _ h2 in
    let (_, h4) = or-false (leb device.sector_count backup_lba) _ h3 in
    let (_, h5) = or-false (leb backup_lba g.last_usable_lba) _ h4 in
    let (_, h6) = or-false (ltb g.first_usable_lba 2) _ h5 in
    let (a, h7) = or-false _ _ h6 in
    let (b, h8) = or-false _ _ h7 in
    let (c, h9) = or-false _ _ h8 in
    let (d, h10) = or-false _ _ h9 in
    record {
      behind_header = v.0;
      before_usable = v.1;
      some_usable = clear_ltb a;
      on_disk = clear_leb b;
      some_entry = clear_zero c;
      few_entries = clear_ltb d;
      size = size_cases g.entry_size h10;
    }
  where
    clear_ltb : {x y : ℕ} → ltb x y ≡ false → y ≤ x
    clear_ltb h = ground arith

    clear_leb : {x y : ℕ} → leb x y ≡ false → y < x
    clear_leb h = ground arith

    clear_zero : {x : ℕ} → (x == 0) ≡ false → 0 < x
    clear_zero h = ground arith

-- A table that `read_primary` accepts lies behind the header and ends before the first usable
-- block; the usable blocks are some and on the disk; there are 1 to 128 entries of 128, 256 or 512
-- bytes.
pub read_primary_lem :
    (device : BlockDevice) (g : Gpt) → read_primary device ≡ ok g → IsGpt device g
unfolding read_primary check_entries
read_primary_lem device g h =
    let (sector, _, h1) = bind-ok h in
    let (_, h2) = reject-ok _ h1 in
    let (t, h3) = reject-ok _ h2 in
    let (bytes, a, h4) = bind-ok h3 in
    let (rounded, b, h5) = bind-ok h4 in
    let (end, c, h6) = bind-ok h5 in
    let (u, h7) = reject-ok _ h6 in
    rw (← check_sums-ok device sector (fields sector) g _ h7) (
      header_lem device (read_u32 sector 12) (read_u64 sector 24) (read_u64 sector 32)
        (fields sector) t
        (entries_fit _ _ _ _ bytes rounded end (ok_or-ok _ a) (ok_or-ok _ b) (ok_or-ok _ c) u))

-- In a table that fits so, the bytes of an entry lie in one sector, and that one before the usable
-- blocks.
entry_place :
    (device : BlockDevice) (g : Gpt) (index : ℕ)
    → IsGpt device g
    → index < g.entry_count
    → (index * g.entry_size % sector_size + g.entry_size ≤ sector_size)
      × (2 ≤ g.entries_lba + index * g.entry_size / sector_size)
      × (g.entries_lba + index * g.entry_size / sector_size < g.first_usable_lba)
entry_place device g index v lt = of g.entry_size v.size v.before_usable
  where
    InFront : ℕ → Type 0
    InFront s = g.entries_lba + (g.entry_count * s + 511) / sector_size ≤ g.first_usable_lba

    slot_128 : InFront 128 → g.entries_lba + index * 128 / sector_size < g.first_usable_lba
    slot_128 b = omega arith

    slot_256 : InFront 256 → g.entries_lba + index * 256 / sector_size < g.first_usable_lba
    slot_256 b = omega arith

    slot_512 : InFront 512 → g.entries_lba + index * 512 / sector_size < g.first_usable_lba
    slot_512 b = omega arith

    of :
        (s : ℕ)
        → (s ≡ 128) ⊎ (s ≡ 256) ⊎ (s ≡ 512)
        → g.entries_lba + (g.entry_count * s + 511) / sector_size ≤ g.first_usable_lba
        → (index * s % sector_size + s ≤ sector_size)
          × (2 ≤ g.entries_lba + index * s / sector_size)
          × (g.entries_lba + index * s / sector_size < g.first_usable_lba)
    of s (inl e) b =
        rw e (omega arith, omega (arith, v.behind_header), slot_128 (subst (λ s. InFront s) e b))
    of s (inr (inl e)) b =
        rw e (omega arith, omega (arith, v.behind_header), slot_256 (subst (λ s. InFront s) e b))
    of s (inr (inr e)) b =
        rw e (omega arith, omega (arith, v.behind_header), slot_512 (subst (λ s. InFront s) e b))

-- In a table that has the places and sizes of `IsGpt`, entry `index`, below the count, stands
-- `index` times the size of an entry behind the start of the table on the disk. If that is `offset`
-- bytes, fewer than 512, into sector `lba`, and this sector can be read, then the sector is behind
-- the header and before the first usable block, the entry ends within it, and `partition` decodes
-- the entry's bytes there.
pub partition_lem :
    (device : BlockDevice) (g : Gpt) (index lba offset : ℕ) (sector : List ℕ)
    → IsGpt device g
    → index < g.entry_count
    → offset < 512
    → lba * 512 + offset ≡ g.entries_lba * 512 + index * g.entry_size
    → device.read_sector lba ≡ ok sector
    → (2 ≤ lba)
      × (lba < g.first_usable_lba)
      × (offset + g.entry_size ≤ 512)
      × (partition device g index ≡ decode g (take g.entry_size (drop offset sector)))
unfolding partition skip bind
partition_lem device g index lba offset sector v lt small e r =
    let (fits, lo, hi) = entry_place device g index v lt in
    let at_lba : g.entries_lba + index * g.entry_size / sector_size ≡ lba = omega arith in
    let at_offset : index * g.entry_size % sector_size ≡ offset = omega arith in
    let below : leb g.entry_count index ≡ false = ground arith in
    (rw at_lba at lo, rw at_lba at hi, rw at_offset at fits, rw (below, at_lba, at_offset, r) refl)
