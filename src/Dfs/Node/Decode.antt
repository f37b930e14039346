-- ===== src/Dfs/Node/Decode.antt =====
-- kernel/src/fs/dfs.rs: `decode_node` gives back the node that `encode_node` was given.
use imagineos.Base.{
  ℕ, ◌+◌, ◌≡◌, inl, inr, refl, false, not, ◌&&◌, ◌||◌, List, [], ◌∷◌, ltb, ◌==◌, eq→==, arith,
}
use imagineos.Base.Lists.{length, take, All}
use imagineos.Base.Bytes.{from_le_bytes-to_le_bytes, get_or-pair}
use imagineos.Base.Outcome.{ok, bind, reject}
use imagineos.Gpt.{crc32}
use imagineos.Dfs.{Sector}
use imagineos.Dfs.Node.{
  Extent, Inode, node_sector, encode_node, decode_node, read_extents, max_extents, max_path,
  node_file, node_directory,
}
use imagineos.Dfs.Node.Codec.{IsExtent, IsInode, Held}
use imagineos.Dfs.Node.RoundTrip.{node_sector-IsFields, node_sector-Held, checksum_here}

read_extents-Held :
    (s : Sector) (es : List Extent) (i : ℕ)
    → All IsExtent es
    → Held s i es
    → read_extents s (length es) i ≡ ok es
unfolding read_extents bind reject
read_extents-Held s [] i g h = refl
read_extents-Held s (e ∷ es) i (g, gs) (a, b, c, h) =
    let back8 = from_le_bytes-to_le_bytes 8 e.start_lba (omega (arith, g.start_width)) in
    let back4 = from_le_bytes-to_le_bytes 4 e.logical_start (omega (arith, g.logical_width)) in
    let back = from_le_bytes-to_le_bytes 4 e.sector_count (omega (arith, g.count_width)) in
    rw (a, b, c, back8, back4, back, some_sector, read_extents-Held s es (i + 1) gs h) refl
  where
    some_sector : (e.sector_count == 0) ≡ false
    some_sector = let m = g.some_sector in ground arith

-- The four tests of `decode_node`.
kind_set : (n : Inode) → IsInode n → (n.kind == 0) ≡ false
kind_set n g = let k = g.kinds in elim k [ inl e ↦ rw e refl | inr (e, f) ↦ rw e refl ]

kind_known :
    (n : Inode)
    → IsInode n
    → (not ((n.kind == node_file) || (n.kind == node_directory)) || ltb max_path (length n.path))
      ≡ false
kind_known n g = elim g.kinds [ inl e ↦ rw (e, short) refl | inr (e, f) ↦ rw (e, short) refl ]
  where
    short : ltb max_path (length n.path) ≡ false
    short = let h = g.path_fits in ground arith

extents_known :
    (n : Inode)
    → IsInode n
    → (ltb max_extents (length n.extents)
        || ((n.kind == node_directory) && not (length n.extents == 0)))
      ≡ false
extents_known n g = elim g.kinds [ inl e ↦ rw (e, few) refl | inr (e, f) ↦ rw (e, f) refl ]
  where
    few : ltb max_extents (length n.extents) ≡ false
    few = let h = g.extents_fit in ground arith

pub decode_node-node_sector : (n : Inode) → IsInode n → decode_node (node_sector n) ≡ ok n
unfolding decode_node bind reject
decode_node-node_sector n g =
    let f = node_sector-IsFields n g in
    let (kind, count) = get_or-pair 256 (node_sector n) n.kind (length n.extents) f.kinds in
    let same = eq→== (crc32 (take 508 (node_sector n))) (crc32 (take 508 (node_sector n))) refl in
    let size8 = from_le_bytes-to_le_bytes 8 n.size (omega (arith, g.size_width)) in
    let mode2 = from_le_bytes-to_le_bytes 2 n.mode (omega (arith, g.mode_width)) in
    let uid4 = from_le_bytes-to_le_bytes 4 n.uid (omega (arith, g.uid_width)) in
    let gid4 = from_le_bytes-to_le_bytes 4 n.gid (omega (arith, g.gid_width)) in
    let held =
      read_extents-Held (node_sector n) n.extents 0 g.extents_good (node_sector-Held n g) in
    rw
      (
        kind,
        kind_set n g,
        checksum_here n,
        same,
        f.path,
        kind_known n g,
        count,
        extents_known n g,
        held,
        f.size,
        f.mode,
        f.uid,
        f.gid,
        size8,
        mode2,
        uid4,
        gid4,
      )
      refl

-- A file or directory whose path, extents and numbers fit the sector is encoded, and the sector
-- decodes to the same node.
pub decode_node-encode_node :
    (n : Inode) → IsInode n → (s : Sector) × (encode_node n ≡ ok s) × (decode_node s ≡ ok n)
unfolding encode_node reject
decode_node-encode_node n g =
    (node_sector n, rw (kind_set n g, in_size) refl, decode_node-node_sector n g)
  where
    in_size : (ltb max_path (length n.path) || ltb max_extents (length n.extents)) ≡ false
    in_size = let p = g.path_fits in let q = g.extents_fit in ground arith
