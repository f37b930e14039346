-- ===== src/Dfs/Node/Codec.antt =====
-- kernel/src/fs/dfs.rs: a node is what its sector decodes to.
use imagineos.Base.{ℕ, ◌+◌, ◌*◌, ◌^◌, ◌≤◌, ◌<◌, ◌≡◌, ◌⊎◌, refl, ◌∙◌, List, [], ◌∷◌, arith}
use imagineos.Base.Lists.{length, take, drop, All}
use imagineos.Base.Bytes.{
  to_le_bytes, copy_from_slice, length-copy_from_slice, copy_from_slice-here,
  copy_from_slice-before,
}
use imagineos.Dfs.{Sector}
use imagineos.Dfs.Node.{
  Extent, Inode, put_extents, max_extents, max_path, node_file, node_directory,
}

-- An extent in the widths of its fields that has a sector.
pub record IsExtent (e : Extent) : Type 0 where
  pub start_width : e.start_lba < 2 ^ 64
  pub logical_width : e.logical_start < 2 ^ 32
  pub count_width : e.sector_count < 2 ^ 32
  pub some_sector : 1 ≤ e.sector_count

-- A file or directory that a sector can hold.
pub record IsInode (n : Inode) : Type 0 where
  pub no_zero : All (λ b. 1 ≤ b) n.path
  pub path_fits : length n.path ≤ max_path
  pub kinds : (n.kind ≡ node_file) ⊎ ((n.kind ≡ node_directory) × (n.extents ≡ []))
  pub extents_fit : length n.extents ≤ max_extents
  pub extents_good : All IsExtent n.extents
  pub size_width : n.size < 2 ^ 64
  pub mode_width : n.mode < 2 ^ 16
  pub uid_width : n.uid < 2 ^ 32
  pub gid_width : n.gid < 2 ^ 32

pub length-put_extents :
    (i : ℕ) (es : List Extent) (s : Sector) → length (put_extents i es s) ≡ length s
unfolding put_extents
length-put_extents i [] s = refl
length-put_extents i (e ∷ es) s =
    length-put_extents (i + 1) es _
    ∙ length-copy_from_slice (280 + i * 16 + 12) (to_le_bytes 4 e.sector_count) _
    ∙ length-copy_from_slice (280 + i * 16 + 8) (to_le_bytes 4 e.logical_start) _
    ∙ length-copy_from_slice (280 + i * 16) (to_le_bytes 8 e.start_lba) s

pub put_extents-before :
    (count at i : ℕ) (es : List Extent) (s : Sector)
    → at + count ≤ 280 + i * 16
    → take count (drop at (put_extents i es s)) ≡ take count (drop at s)
unfolding put_extents
put_extents-before count at i [] s h = refl
put_extents-before count at i (e ∷ es) s h =
    put_extents-before count at (i + 1) es _ (omega arith)
    ∙ copy_from_slice-before count at (280 + i * 16 + 12) (to_le_bytes 4 e.sector_count) _
        (omega arith)
    ∙ copy_from_slice-before count at (280 + i * 16 + 8) (to_le_bytes 4 e.logical_start) _
        (omega arith)
    ∙ copy_from_slice-before count at (280 + i * 16) (to_le_bytes 8 e.start_lba) s h

-- The sector has the extents from the one with index `i` on.
abbrev pub Held : Sector → ℕ → List Extent → Type 0
Held s i [] = Unit
Held s i (e ∷ es) =
    (take 8 (drop (280 + i * 16) s) ≡ to_le_bytes 8 e.start_lba)
    × (take 4 (drop (280 + i * 16 + 8) s) ≡ to_le_bytes 4 e.logical_start)
    × (take 4 (drop (280 + i * 16 + 12) s) ≡ to_le_bytes 4 e.sector_count)
    × Held s (i + 1) es

pub put_extents-Held :
    (i : ℕ) (es : List Extent) (s : Sector)
    → 280 + (i + length es) * 16 ≤ length s
    → Held (put_extents i es s) i es
unfolding put_extents
put_extents-Held i [] s h = tt
put_extents-Held i (e ∷ es) s h =
    let s1 = copy_from_slice (280 + i * 16) (to_le_bytes 8 e.start_lba) s in
    let s2 = copy_from_slice (280 + i * 16 + 8) (to_le_bytes 4 e.logical_start) s1 in
    let s3 = copy_from_slice (280 + i * 16 + 12) (to_le_bytes 4 e.sector_count) s2 in
    let n1 = length-copy_from_slice (280 + i * 16) (to_le_bytes 8 e.start_lba) s in
    let n2 = length-copy_from_slice (280 + i * 16 + 8) (to_le_bytes 4 e.logical_start) s1 in
    let n3 = length-copy_from_slice (280 + i * 16 + 12) (to_le_bytes 4 e.sector_count) s2 in
    (
      put_extents-before 8 (280 + i * 16) (i + 1) es s3 (omega arith)
          ∙ copy_from_slice-before 8 (280 + i * 16) (280 + i * 16 + 12)
              (to_le_bytes 4 e.sector_count) s2 (omega arith)
          ∙ copy_from_slice-before 8 (280 + i * 16) (280 + i * 16 + 8)
              (to_le_bytes 4 e.logical_start) s1 (omega arith)
          ∙ copy_from_slice-here 8 (280 + i * 16) (to_le_bytes 8 e.start_lba) s refl (omega arith),
      put_extents-before 4 (280 + i * 16 + 8) (i + 1) es s3 (omega arith)
          ∙ copy_from_slice-before 4 (280 + i * 16 + 8) (280 + i * 16 + 12)
              (to_le_bytes 4 e.sector_count) s2 (omega arith)
          ∙ copy_from_slice-here 4 (280 + i * 16 + 8) (to_le_bytes 4 e.logical_start) s1 refl
              (omega (arith, n1)),
      put_extents-before 4 (280 + i * 16 + 12) (i + 1) es s3 (omega arith)
          ∙ copy_from_slice-here 4 (280 + i * 16 + 12) (to_le_bytes 4 e.sector_count) s2 refl
              (omega (arith, n1, n2)),
      put_extents-Held (i + 1) es s3 (omega (arith, n1, n2, n3)),
    )

pub checksum-Held :
    (i : ℕ) (es : List Extent) (crc : List ℕ) (s : Sector)
    → i + length es ≤ max_extents
    → Held s i es
    → Held (copy_from_slice 508 crc s) i es
checksum-Held i [] crc s h k = tt
checksum-Held i (e ∷ es) crc s h (a, b, c, k) = (
  copy_from_slice-before 8 (280 + i * 16) 508 crc s (omega arith) ∙ a,
  copy_from_slice-before 4 (280 + i * 16 + 8) 508 crc s (omega arith) ∙ b,
  copy_from_slice-before 4 (280 + i * 16 + 12) 508 crc s (omega arith) ∙ c,
  checksum-Held (i + 1) es crc s (omega arith) k,
)
