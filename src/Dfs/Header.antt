-- ===== src/Dfs/Header.antt =====
-- kernel/src/fs/dfs.rs: the record that `commit_transaction` puts in front of the journal is what
-- `replay_journal` reads there.
use imagineos.Base.{ℕ, zero, ◌+◌, ◌*◌, ◌%◌, ◌≤◌, ◌≡◌, refl, ap, ◌∙◌, List, [], ◌∷◌, arith}
use imagineos.Base.Lists.{length, take, drop, replicate, length-replicate}
use imagineos.Base.Bytes.{
  to_le_bytes, copy_from_slice, length-to_le_bytes, length-copy_from_slice, copy_from_slice-here,
  copy_from_slice-before, copy_from_slice-after,
}
use imagineos.Dfs.{
  Sector, Transaction, put_targets, journal_header, journal_magic, transaction_checksum,
  transaction_sectors, sector_size,
}

length-put_targets : (i : ℕ) (t : Transaction) (h : Sector) → length (put_targets i t h) ≡ length h
unfolding put_targets
length-put_targets i [] h = refl
length-put_targets i ((target, bytes) ∷ t) h =
    length-put_targets (i + 1) t (copy_from_slice (16 + i * 8) (to_le_bytes 8 target) h)
    ∙ length-copy_from_slice (16 + i * 8) (to_le_bytes 8 target) h

put_targets-before :
    (count at i : ℕ) (t : Transaction) (h : Sector)
    → at + count ≤ 16 + i * 8
    → take count (drop at (put_targets i t h)) ≡ take count (drop at h)
unfolding put_targets
put_targets-before count at i [] h b = refl
put_targets-before count at i ((target, bytes) ∷ t) h b =
    put_targets-before count at (i + 1) t (copy_from_slice (16 + i * 8) (to_le_bytes 8 target) h)
      (omega arith)
    ∙ copy_from_slice-before count at (16 + i * 8) (to_le_bytes 8 target) h b

-- The header has the targets of the entries from the one with index `i` on.
abbrev pub Entries : Sector → ℕ → Transaction → Type 0
Entries h i [] = Unit
Entries h i ((target, bytes) ∷ t) =
    (take 8 (drop (16 + i * 8) h) ≡ to_le_bytes 8 target) × Entries h (i + 1) t

put_targets-Entries :
    (i : ℕ) (t : Transaction) (h : Sector)
    → 16 + (i + length t) * 8 ≤ length h
    → Entries (put_targets i t h) i t
unfolding put_targets
put_targets-Entries i [] h b = tt
put_targets-Entries i ((target, bytes) ∷ t) h b =
    let h' = copy_from_slice (16 + i * 8) (to_le_bytes 8 target) h in
    let n = length-copy_from_slice (16 + i * 8) (to_le_bytes 8 target) h in
    (
      put_targets-before 8 (16 + i * 8) (i + 1) t h' (omega arith)
          ∙ copy_from_slice-here 8 (16 + i * 8) (to_le_bytes 8 target) h
              (length-to_le_bytes 8 target) (omega arith),
      put_targets-Entries (i + 1) t h' (omega (arith, n)),
    )

crc-Entries :
    (i : ℕ) (t : Transaction) (crc : List ℕ) (h : Sector)
    → length crc ≡ 4
    → Entries h i t
    → Entries (copy_from_slice 10 crc h) i t
crc-Entries i [] crc h n e = tt
crc-Entries i ((target, bytes) ∷ t) crc h n (e, es) = (
  copy_from_slice-after 8 (16 + i * 8) 10 crc h (omega arith) ∙ e,
  crc-Entries (i + 1) t crc h n es,
)

-- What the fields of the header are.
pub record IsHeader (h : Sector) (t : Transaction) : Type 0 where
  pub magic : take 8 h ≡ journal_magic
  pub counts : take 2 (drop 8 h) ≡ 1 ∷ length t ∷ []
  pub checksum : take 4 (drop 10 h) ≡ to_le_bytes 4 (transaction_checksum t)
  pub entries : Entries h 0 t

pub journal_header-IsHeader :
    (t : Transaction) → length t ≤ transaction_sectors → IsHeader (journal_header t) t
unfolding journal_header
journal_header-IsHeader t small =
    let crc = to_le_bytes 4 (transaction_checksum t) in
    let blank = copy_from_slice 0 journal_magic (replicate sector_size 0) in
    let first = copy_from_slice 8 (1 ∷ length t % 256 ∷ []) blank in
    let n4 = length-to_le_bytes 4 (transaction_checksum t) in
    let n1 = length-replicate sector_size zero in
    let n2 = length-copy_from_slice 0 journal_magic (replicate sector_size 0) in
    let n3 = length-copy_from_slice 8 (1 ∷ length t % 256 ∷ []) blank in
    let n5 = length-put_targets 0 t first in
    record {
      magic =
          copy_from_slice-before 8 0 10 crc (put_targets 0 t first) (omega arith)
          ∙ put_targets-before 8 0 0 t first (omega arith)
          ∙ copy_from_slice-before 8 0 8 (1 ∷ length t % 256 ∷ []) blank (omega arith)
          ∙ copy_from_slice-here 8 0 journal_magic (replicate sector_size 0) refl
              (omega (arith, n1));
      counts =
          copy_from_slice-before 2 8 10 crc (put_targets 0 t first) (omega arith)
          ∙ put_targets-before 2 8 0 t first (omega arith)
          ∙ copy_from_slice-here 2 8 (1 ∷ length t % 256 ∷ []) blank refl (omega (arith, n1, n2))
          ∙ ap (λ c. 1 ∷ c ∷ []) (omega arith);
      checksum =
          copy_from_slice-here 4 10 crc (put_targets 0 t first) n4 (omega (arith, n1, n2, n3, n5));
      entries =
          crc-Entries 0 t crc (put_targets 0 t first) n4
            (put_targets-Entries 0 t first (omega (arith, n1, n2, n3, small)));
    }
