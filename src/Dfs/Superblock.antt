-- ===== src/Dfs/Superblock.antt =====
-- kernel/src/fs/dfs.rs, `write_superblock` and `read_superblock`: the first sector of the file
-- system.
use imagineos.Base.{
  ℕ, ◌+◌, ◌≤◌, ◌≡◌, refl, sym, ap, ◌∙◌, Bool, not, true, false, ◌||◌, List, [], ◌∷◌, ◌==◌, eq→==,
  same_bytes, u64_max, arith,
}
use imagineos.Base.Lists.{take, drop, replicate, length}
use imagineos.Base.Bytes.{
  to_le_bytes, copy_from_slice, Fits, from_le_bytes-to_le_bytes, copy_from_slice-here,
  copy_from_slice-before,
}
use imagineos.Base.Outcome.{Outcome, ok, bind, reject, from_le_bytes}
use imagineos.Gpt.{BlockError, sector_size, crc32}
use imagineos.Dfs.{
  Sector, Layout, DfsError, invalid_filesystem, at_block, make_layout, journal_sectors, inode_count,
  Request, write_sector,
}
use imagineos.Dfs.Disk.{Disk, put, put-here, after, reading}
use imagineos.Dfs.Areas.{IsPlaced, make_layout-IsPlaced}

-- "DREAMDFS"
abbrev pub magic : List ℕ
magic = 0x44 ∷ 0x52 ∷ 0x45 ∷ 0x41 ∷ 0x4d ∷ 0x44 ∷ 0x46 ∷ 0x53 ∷ []

abbrev pub version : ℕ
version = 1

-- The sector before its checksum.
pub superblock_fields : Layout → Sector
superblock_fields l = copy_from_slice 68 (to_le_bytes 8 l.data_lba) (
    copy_from_slice 60 (to_le_bytes 8 l.bitmap_sectors) (
      copy_from_slice 52 (to_le_bytes 8 l.bitmap_lba) (
        copy_from_slice 48 (to_le_bytes 4 inode_count) (
          copy_from_slice 40 (to_le_bytes 8 l.inode_lba) (
            copy_from_slice 32 (to_le_bytes 8 l.journal_lba) (
              copy_from_slice 24 (to_le_bytes 8 journal_sectors) (
                copy_from_slice 16 (to_le_bytes 8 l.sectors) (
                  copy_from_slice 8 (to_le_bytes 4 version)
                    (copy_from_slice 0 magic (replicate sector_size 0))))))))))

pub superblock : Layout → Sector
unfolding superblock_fields
superblock l =
    copy_from_slice 508 (to_le_bytes 4 (crc32 (take 508 (superblock_fields l))))
      (superblock_fields l)

pub write_superblock : Layout → List Request
write_superblock l = write_sector l.start_lba (superblock l) ∷ []

abbrev pub field_u32 : Sector → ℕ → ℕ
field_u32 sector offset = from_le_bytes (take 4 (drop offset sector))

abbrev pub field_u64 : Sector → ℕ → ℕ
field_u64 sector offset = from_le_bytes (take 8 (drop offset sector))

-- The first three tests of `read_superblock`.
pub is_foreign : Sector → Bool
is_foreign sector =
    not (same_bytes (take 8 sector) magic)
    || (not (field_u32 sector 8 == version)
        || not (crc32 (take 508 sector) == field_u32 sector 508))

-- The sector names another layout.
pub is_other_layout : Sector → Layout → Bool
is_other_layout sector l =
    not (field_u64 sector 16 == l.sectors)
    || (not (field_u64 sector 24 == journal_sectors)
        || (not (field_u64 sector 32 == l.journal_lba)
            || (not (field_u64 sector 40 == l.inode_lba)
                || (not (field_u32 sector 48 == inode_count)
                    || (not (field_u64 sector 52 == l.bitmap_lba)
                        || (not (field_u64 sector 60 == l.bitmap_sectors)
                            || not (field_u64 sector 68 == l.data_lba)))))))

pub read_superblock : (ℕ → Outcome BlockError Sector) → ℕ → ℕ → Outcome DfsError Layout
read_superblock read start_lba sectors = bind (at_block (read start_lba)) (λ sector.
    reject (is_foreign sector) invalid_filesystem (
      bind (make_layout start_lba sectors)
        (λ l. reject (is_other_layout sector l) invalid_filesystem (ok l))))

-- What is read of the sector before its checksum.
fields_kept :
    (count at : ℕ) (l : Layout)
    → at + count ≤ 508
    → take count (drop at (superblock l)) ≡ take count (drop at (superblock_fields l))
unfolding superblock
fields_kept count at l h =
    copy_from_slice-before count at 508 (to_le_bytes 4 (crc32 (take 508 (superblock_fields l))))
      (superblock_fields l) h

Fits-u64 : (v : ℕ) → v ≤ u64_max → Fits 8 v
Fits-u64 v h = omega arith

length-superblock_fields : (l : Layout) → length (superblock_fields l) ≡ sector_size
unfolding superblock_fields
length-superblock_fields l = refl

checksum_kept : (l : Layout) → field_u32 (superblock l) 508 ≡ crc32 (take 508 (superblock_fields l))
unfolding superblock crc32
checksum_kept l =
    let crc = crc32 (take 508 (superblock_fields l)) in
    ap from_le_bytes (
      copy_from_slice-here 4 508 (to_le_bytes 4 crc) (superblock_fields l) refl
        (omega (arith, length-superblock_fields l)))
    ∙ from_le_bytes-to_le_bytes 4 crc (omega arith)

-- A field of eight bytes, from what the bytes are before the checksum.
u64_kept :
    (l : Layout) (at v : ℕ)
    → at + 8 ≤ 508
    → take 8 (drop at (superblock_fields l)) ≡ to_le_bytes 8 v
    → v ≤ u64_max
    → (field_u64 (superblock l) at == v) ≡ true
u64_kept l at v h e b =
    eq→== (field_u64 (superblock l) at) v
      (ap from_le_bytes (fields_kept 8 at l h ∙ e) ∙ from_le_bytes-to_le_bytes 8 v (Fits-u64 v b))

own_sector : (l : Layout) → is_foreign (superblock l) ≡ false
unfolding is_foreign superblock_fields
own_sector l =
    let m = fields_kept 8 0 l (omega arith) in
    let v = fields_kept 4 8 l (omega arith) in
    let c = fields_kept 508 0 l (omega arith) in
    let k = checksum_kept l in
    let same =
      eq→== (crc32 (take 508 (superblock_fields l))) (crc32 (take 508 (superblock_fields l)))
        refl in
    rw (m, v, c, k, same) refl

own_layout :
    (start sectors : ℕ) (l : Layout)
    → IsPlaced start sectors l
    → is_other_layout (superblock l) l ≡ false
unfolding is_other_layout superblock_fields
own_layout start sectors l p =
    let room = p.room in
    let range = p.in_range in
    let f = p.first_free in
    rw
      (
        u64_kept l 16 l.sectors (omega arith) refl (omega (arith, p.whole)),
        u64_kept l 24 journal_sectors (omega arith) refl (omega arith),
        u64_kept l 32 l.journal_lba (omega arith) refl
            (omega (arith, p.journal, p.inodes, p.bitmap)),
        u64_kept l 40 l.inode_lba (omega arith) refl (omega (arith, p.inodes, p.bitmap)),
        fields_kept 4 48 l (omega arith),
        u64_kept l 52 l.bitmap_lba (omega arith) refl (omega (arith, p.bitmap)),
        u64_kept l 60 l.bitmap_sectors (omega arith) refl (omega (arith, p.bitmap)),
        u64_kept l 68 l.data_lba (omega arith) refl (omega (arith, p.bitmap)),
      )
      refl

-- The superblock that is written for a made layout is read back as that layout.
pub read_superblock-write_superblock :
    (start sectors : ℕ) (l : Layout) (d : Disk)
    → make_layout start sectors ≡ ok l
    → read_superblock (reading (after d (write_superblock l))) start sectors ≡ ok l
unfolding read_superblock write_superblock bind reject
read_superblock-write_superblock start sectors l d h =
    let p = make_layout-IsPlaced start sectors l h in
    let at_start =
      ap (put d l.start_lba (superblock l)) (sym p.from_start)
      ∙ put-here d l.start_lba (superblock l) in
    rw (at_start, own_sector l, h, own_layout start sectors l p) refl
