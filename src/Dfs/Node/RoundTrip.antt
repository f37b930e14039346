-- ===== src/Dfs/Node/RoundTrip.antt =====
-- kernel/src/fs/dfs.rs: `decode_node` on what `encode_node` made.
use imagineos.Base.{
  ℕ, zero, suc, ◌+◌, ◌%◌, ◌≤◌, ◌≡◌, refl, sym, ap, ◌∙◌, false, List, [], ◌∷◌, ◌==◌, arith,
}
use imagineos.Base.Lists.{length, take, drop, replicate, length-replicate, All}
use imagineos.Base.Bytes.{
  to_le_bytes, copy_from_slice, from_le_bytes-to_le_bytes, length-copy_from_slice,
  copy_from_slice-here, copy_from_slice-before,
}
use imagineos.Base.Outcome.{from_le_bytes}
use imagineos.Gpt.{sector_size, crc32}
use imagineos.Dfs.{Sector}
use imagineos.Dfs.Node.{Inode, node_fields, node_body, node_sector, up_to_zero}
use imagineos.Dfs.Node.Codec.{
  IsInode, Held, length-put_extents, put_extents-before, put_extents-Held, checksum-Held,
}

up_to_zero-zeros : (m k : ℕ) → up_to_zero (take m (replicate k 0)) ≡ []
unfolding up_to_zero
up_to_zero-zeros zero k = refl
up_to_zero-zeros (suc m) zero = refl
up_to_zero-zeros (suc m) (suc k) = refl

up_to_zero-path :
    (path : List ℕ) (m k : ℕ)
    → All (λ b. 1 ≤ b) path
    → length path ≤ m
    → m ≤ k
    → up_to_zero (take m (copy_from_slice 0 path (replicate k 0))) ≡ path
unfolding up_to_zero
up_to_zero-path [] m zero nz h b = up_to_zero-zeros m zero
up_to_zero-path [] m (suc k) nz h b = up_to_zero-zeros m (suc k)
up_to_zero-path (c ∷ path) zero k nz h b = absurd (omega arith)
up_to_zero-path (c ∷ path) (suc m) zero nz h b = absurd (omega arith)
up_to_zero-path (c ∷ path) (suc m) (suc k) (n, nz) h b =
    rw (nonzero, up_to_zero-path path m k nz (omega arith) (omega arith)) refl
  where
    nonzero : (c == 0) ≡ false
    nonzero = ground arith

-- What is read of the fields in front of the extents.
pub record IsFields (s : Sector) (n : Inode) : Type 0 where
  pub path : up_to_zero (take 255 s) ≡ n.path
  pub kinds : take 2 (drop 256 s) ≡ n.kind ∷ length n.extents ∷ []
  pub mode : take 2 (drop 258 s) ≡ to_le_bytes 2 n.mode
  pub uid : take 4 (drop 260 s) ≡ to_le_bytes 4 n.uid
  pub gid : take 4 (drop 264 s) ≡ to_le_bytes 4 n.gid
  pub size : take 8 (drop 268 s) ≡ to_le_bytes 8 n.size

node_fields-IsFields : (n : Inode) → IsInode n → IsFields (node_fields n) n
unfolding node_fields
node_fields-IsFields n g =
    let w = n.kind ∷ length n.extents % 256 ∷ [] in
    let s0 = copy_from_slice 0 n.path (replicate sector_size 0) in
    let s1 = copy_from_slice 256 w s0 in
    let s2 = copy_from_slice 258 (to_le_bytes 2 n.mode) s1 in
    let s3 = copy_from_slice 260 (to_le_bytes 4 n.uid) s2 in
    let s4 = copy_from_slice 264 (to_le_bytes 4 n.gid) s3 in
    let z = length-replicate sector_size zero in
    let n0 = length-copy_from_slice 0 n.path (replicate sector_size 0) in
    let n1 = length-copy_from_slice 256 w s0 in
    let n2 = length-copy_from_slice 258 (to_le_bytes 2 n.mode) s1 in
    let n3 = length-copy_from_slice 260 (to_le_bytes 4 n.uid) s2 in
    let n4 = length-copy_from_slice 264 (to_le_bytes 4 n.gid) s3 in
    let before4 = λ (count at : ℕ) (h : at + count ≤ 268).
      copy_from_slice-before count at 268 (to_le_bytes 8 n.size) s4 h in
    let before3 = λ (count at : ℕ) (h : at + count ≤ 264).
      before4 count at (omega arith)
      ∙ copy_from_slice-before count at 264 (to_le_bytes 4 n.gid) s3 h in
    let before2 = λ (count at : ℕ) (h : at + count ≤ 260).
      before3 count at (omega arith)
      ∙ copy_from_slice-before count at 260 (to_le_bytes 4 n.uid) s2 h in
    let before1 = λ (count at : ℕ) (h : at + count ≤ 258).
      before2 count at (omega arith)
      ∙ copy_from_slice-before count at 258 (to_le_bytes 2 n.mode) s1 h in
    record {
      path =
          ap up_to_zero
            (before1 255 0 (omega arith) ∙ copy_from_slice-before 255 0 256 w s0 (omega arith))
          ∙ up_to_zero-path n.path 255 sector_size g.no_zero g.path_fits (omega arith);
      kinds =
          before1 2 256 (omega arith)
          ∙ copy_from_slice-here 2 256 w s0 refl (omega (arith, n0, z))
          ∙ ap (λ c. n.kind ∷ c ∷ []) (omega (arith, g.extents_fit));
      mode =
          before2 2 258 (omega arith)
          ∙ copy_from_slice-here 2 258 (to_le_bytes 2 n.mode) s1 refl (omega (arith, n0, n1, z));
      uid =
          before3 4 260 (omega arith)
          ∙ copy_from_slice-here 4 260 (to_le_bytes 4 n.uid) s2 refl (omega (arith, n0, n1, n2, z));
      gid =
          before4 4 264 (omega arith)
          ∙ copy_from_slice-here 4 264 (to_le_bytes 4 n.gid) s3 refl
              (omega (arith, n0, n1, n2, n3, z));
      size =
          copy_from_slice-here 8 268 (to_le_bytes 8 n.size) s4 refl
            (omega (arith, n0, n1, n2, n3, n4, z));
    }

length-node_fields : (n : Inode) → length (node_fields n) ≡ sector_size
unfolding node_fields
length-node_fields n =
    length-copy_from_slice 268 (to_le_bytes 8 n.size) _
    ∙ length-copy_from_slice 264 (to_le_bytes 4 n.gid) _
    ∙ length-copy_from_slice 260 (to_le_bytes 4 n.uid) _
    ∙ length-copy_from_slice 258 (to_le_bytes 2 n.mode) _
    ∙ length-copy_from_slice 256 (n.kind ∷ length n.extents % 256 ∷ []) _
    ∙ length-copy_from_slice 0 n.path (replicate sector_size 0)

-- What is read of the sector in front of its extents is what is read of those fields.
kept :
    (n : Inode) (count at : ℕ)
    → at + count ≤ 280
    → take count (drop at (node_sector n)) ≡ take count (drop at (node_fields n))
unfolding node_sector node_body
kept n count at h =
    copy_from_slice-before count at 508 (to_le_bytes 4 (crc32 (take 508 (node_body n))))
      (node_body n) (omega arith)
    ∙ put_extents-before count at 0 n.extents (node_fields n) h

pub node_sector-IsFields : (n : Inode) → IsInode n → IsFields (node_sector n) n
node_sector-IsFields n g =
    let f = node_fields-IsFields n g in
    record {
      path = ap up_to_zero (kept n 255 0 (omega arith)) ∙ f.path;
      kinds = kept n 2 256 (omega arith) ∙ f.kinds;
      mode = kept n 2 258 (omega arith) ∙ f.mode;
      uid = kept n 4 260 (omega arith) ∙ f.uid;
      gid = kept n 4 264 (omega arith) ∙ f.gid;
      size = kept n 8 268 (omega arith) ∙ f.size;
    }

pub node_sector-Held : (n : Inode) → IsInode n → Held (node_sector n) 0 n.extents
unfolding node_sector node_body
node_sector-Held n g = checksum-Held 0 n.extents _ (node_body n) (omega (arith, g.extents_fit)) (
    put_extents-Held 0 n.extents (node_fields n)
      (omega (arith, g.extents_fit, length-node_fields n)))

pub checksum_here :
    (n : Inode)
    → from_le_bytes (take 4 (drop 508 (node_sector n))) ≡ crc32 (take 508 (node_sector n))
unfolding node_sector node_body crc32
checksum_here n =
    let crc = crc32 (take 508 (node_body n)) in
    let size = length-put_extents 0 n.extents (node_fields n) ∙ length-node_fields n in
    ap from_le_bytes
      (copy_from_slice-here 4 508 (to_le_bytes 4 crc) (node_body n) refl (omega (arith, size)))
    ∙ from_le_bytes-to_le_bytes 4 crc (omega arith)
    ∙ ap crc32
        (sym (copy_from_slice-before 508 0 508 (to_le_bytes 4 crc) (node_body n) (omega arith)))
