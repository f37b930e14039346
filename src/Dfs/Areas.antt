-- ===== src/Dfs/Areas.antt =====
-- kernel/src/fs/dfs.rs, `make_layout` and `bitmap_location`: the areas of the file system on its
-- partition, and the bits that stand for its sectors.
use mathlib.Core.Path.{subst}
use imagineos.Base.{
  ℕ, ◌+◌, ◌-◌, ◌*◌, ◌/◌, ◌%◌, ◌≤◌, ◌<◌, ◌≡◌, refl, false, true, inl, inr, some, leb, ltb,
  checked_add, u64_max, Bool-cases, arith,
}
use imagineos.Base.Outcome.{ok, reject, bind-ok, ok_or-ok, reject-ok, ok-injective}
use imagineos.Dfs.{
  Layout, make_layout, bitmap_location, journal_sectors, inode_count, bits_per_sector,
}

-- The superblock, the journal, the inodes, the bitmap and the data follow one another inside the
-- partition, and the bitmap has a bit for every sector.
pub record IsPlaced (start sectors : ℕ) (l : Layout) : Type 0 where
  pub from_start : l.start_lba ≡ start
  pub whole : l.sectors ≡ sectors
  pub journal : l.journal_lba ≡ start + 1
  pub inodes : l.inode_lba ≡ l.journal_lba + journal_sectors
  pub bitmap : l.bitmap_lba ≡ l.inode_lba + inode_count
  pub first_free : l.data_lba ≡ l.bitmap_lba + l.bitmap_sectors
  pub room : l.data_lba < start + sectors
  pub in_range : start + sectors ≤ u64_max
  pub enough_bits : sectors ≤ l.bitmap_sectors * bits_per_sector

checked_add-some : (a b c : ℕ) → checked_add a b ≡ some c → c ≡ a + b
checked_add-some a b c h = elim (Bool-cases (leb (a + b) u64_max)) [
  | inl e ↦ let x = rw e at h in cc
  | inr e ↦ let x = rw e at h in cc
]

-- The layout that is made of a partition has its areas one after another inside the partition,
-- without overflow, with data sectors left, and with enough bits for all sectors.
pub make_layout-IsPlaced :
    (start sectors : ℕ) (l : Layout) → make_layout start sectors ≡ ok l → IsPlaced start sectors l
unfolding make_layout
make_layout-IsPlaced start sectors l h =
    let (rounded, e1, h1) = bind-ok h in
    let (journal, e2, h2) = bind-ok h1 in
    let (inode, e3, h3) = bind-ok h2 in
    let (bitmap, e4, h4) = bind-ok h3 in
    let (first, e5, h5) = bind-ok h4 in
    let (fits, h6) = reject-ok _ h5 in
    let p1 = checked_add-some sectors 4095 rounded (ok_or-ok _ e1) in
    let p2 = checked_add-some start 1 journal (ok_or-ok _ e2) in
    let p3 = checked_add-some journal journal_sectors inode (ok_or-ok _ e3) in
    let p4 = checked_add-some inode inode_count bitmap (ok_or-ok _ e4) in
    let p5 = checked_add-some bitmap (rounded / bits_per_sector) first (ok_or-ok _ e5) in
    subst (IsPlaced start sectors) (ok-injective h6) (record {
      from_start = refl;
      whole = refl;
      journal = p2;
      inodes = p3;
      bitmap = p4;
      first_free = p5;
      room = ground arith;
      in_range = ground arith;
      enough_bits = omega (arith, p1);
    })

-- On a made layout every sector of the partition has its bit: a sector of the bitmap area and a bit
-- inside it, from which the sector can be computed back.
pub bitmap_location-total :
    (start sectors lba : ℕ) (l : Layout)
    → make_layout start sectors ≡ ok l
    → start ≤ lba
    → lba < start + sectors
    → (at bit : ℕ) × (bitmap_location l lba ≡ ok (at, bit))
      × (l.bitmap_lba ≤ at)
      × (at < l.data_lba)
      × (bit < bits_per_sector)
      × (start + (at - l.bitmap_lba) * bits_per_sector + bit ≡ lba)
unfolding bitmap_location reject
bitmap_location-total start sectors lba l h below above =
    let p = make_layout-IsPlaced start sectors l h in
    (
      l.bitmap_lba + (lba - l.start_lba) / bits_per_sector,
      (lba - l.start_lba) % bits_per_sector,
      rw (not_below p, inside p, in_bitmap p) refl,
      omega arith,
      omega (arith, p.first_free, p.from_start, p.enough_bits),
      omega arith,
      omega (arith, p.from_start),
    )
  where
    not_below : IsPlaced start sectors l → ltb lba l.start_lba ≡ false
    not_below p = let e = p.from_start in ground arith

    inside : IsPlaced start sectors l → ltb (lba - l.start_lba) l.sectors ≡ true
    inside p = let e = p.from_start in let f = p.whole in ground arith

    in_bitmap :
        IsPlaced start sectors l
        → leb l.bitmap_sectors ((lba - l.start_lba) / bits_per_sector) ≡ false
    in_bitmap p = let e = p.from_start in let f = p.enough_bits in ground arith
