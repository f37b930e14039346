-- ===== src/Dfs/Node.antt =====
-- kernel/src/fs/dfs.rs, `Node`, `encode_node` and `decode_node`. The path and the extents of a node
-- are the lists of the parts in use.
pub mod Codec
pub mod RoundTrip
pub mod Decode
use imagineos.Base.{
  ℕ, zero, suc, ◌+◌, ◌*◌, ◌%◌, Bool, true, false, not, ◌&&◌, ◌||◌, List, [], ◌∷◌, ltb, ◌==◌,
  if◌then◌else◌,
}
use imagineos.Base.Lists.{length, take, drop, get_or, replicate}
use imagineos.Base.Bytes.{to_le_bytes, copy_from_slice}
use imagineos.Base.Outcome.{Outcome, ok, bind, reject, from_le_bytes}
use imagineos.Gpt.{sector_size, crc32}
use imagineos.Dfs.{Sector, DfsError, corrupt_metadata}

abbrev pub max_extents : ℕ
max_extents = 14

abbrev pub max_path : ℕ
max_path = 255

abbrev pub node_file : ℕ
node_file = 1

abbrev pub node_directory : ℕ
node_directory = 2

pub record Extent : Type 0 where
  pub start_lba : ℕ
  pub logical_start : ℕ
  pub sector_count : ℕ

pub record Inode : Type 0 where
  pub path : List ℕ
  pub kind : ℕ
  pub size : ℕ
  pub mode : ℕ
  pub uid : ℕ
  pub gid : ℕ
  pub extents : List Extent

-- `Node::EMPTY`
abbrev pub empty_node : Inode
empty_node = record { path = []; kind = 0; size = 0; mode = 0; uid = 0; gid = 0; extents = [] }

-- The extents from the one with index `i` on.
pub put_extents : ℕ → List Extent → Sector → Sector
put_extents i [] sector = sector
put_extents i (e ∷ es) sector = put_extents (i + 1) es (
    copy_from_slice (280 + i * 16 + 12) (to_le_bytes 4 e.sector_count) (
      copy_from_slice (280 + i * 16 + 8) (to_le_bytes 4 e.logical_start)
        (copy_from_slice (280 + i * 16) (to_le_bytes 8 e.start_lba) sector)))

-- The sector before the extents.
pub node_fields : Inode → Sector
node_fields n = copy_from_slice 268 (to_le_bytes 8 n.size) (
    copy_from_slice 264 (to_le_bytes 4 n.gid) (
      copy_from_slice 260 (to_le_bytes 4 n.uid) (
        copy_from_slice 258 (to_le_bytes 2 n.mode) (
          copy_from_slice 256 (n.kind ∷ length n.extents % 256 ∷ [])
            (copy_from_slice 0 n.path (replicate sector_size 0))))))

-- The sector before its checksum.
pub node_body : Inode → Sector
unfolding node_fields put_extents
node_body n = put_extents 0 n.extents (node_fields n)

pub node_sector : Inode → Sector
unfolding node_body
node_sector n = copy_from_slice 508 (to_le_bytes 4 (crc32 (take 508 (node_body n)))) (node_body n)

pub encode_node : Inode → Outcome DfsError Sector
unfolding node_sector
encode_node n =
    if n.kind == 0
    then ok (replicate sector_size 0)
    else reject (ltb max_path (length n.path) || ltb max_extents (length n.extents))
        corrupt_metadata (ok (node_sector n))

-- The bytes in front of the first zero.
pub up_to_zero : List ℕ → List ℕ
up_to_zero [] = []
up_to_zero (b ∷ bytes) = let rest = up_to_zero bytes in if b == 0 then [] else b ∷ rest

-- `n` extents, the first of which has index `i`.
pub read_extents : Sector → ℕ → ℕ → Outcome DfsError (List Extent)
read_extents sector zero i = ok []
read_extents sector (suc n) i =
    let rest = read_extents sector n (i + 1) in
    let count = from_le_bytes (take 4 (drop (280 + i * 16 + 12) sector)) in
    reject (count == 0) corrupt_metadata (
      bind rest (λ es. ok (
        record {
          start_lba = from_le_bytes (take 8 (drop (280 + i * 16) sector));
          logical_start = from_le_bytes (take 4 (drop (280 + i * 16 + 8) sector));
          sector_count = count;
        }
        ∷ es)))

pub decode_node : Sector → Outcome DfsError Inode
decode_node sector =
    let kind = get_or sector 256 0 in
    let count = get_or sector 257 0 in
    let path = up_to_zero (take 255 sector) in
    if kind == 0
    then ok empty_node
    else reject (not (crc32 (take 508 sector) == from_le_bytes (take 4 (drop 508 sector))))
        corrupt_metadata
        (reject
          (not ((kind == node_file) || (kind == node_directory)) || ltb max_path (length path))
          corrupt_metadata
          (reject (ltb max_extents count || ((kind == node_directory) && not (count == 0)))
            corrupt_metadata
            (bind (read_extents sector count 0) (λ extents. ok (record {
              path = path;
              kind = kind;
              size = from_le_bytes (take 8 (drop 268 sector));
              mode = from_le_bytes (take 2 (drop 258 sector));
              uid = from_le_bytes (take 4 (drop 260 sector));
              gid = from_le_bytes (take 4 (drop 264 sector));
              extents = extents;
            })))))
