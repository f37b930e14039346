-- ===== src/Dfs.antt =====
-- kernel/src/fs/dfs.rs: the file system on a disk, its areas and its journal. A sector is the list
-- of its bytes. An operation that writes is the list of the requests it makes of the block device,
-- in order; each stands under `?` in the source, so a request that fails ends the list there.
pub mod Disk
pub mod Updates
pub mod Commit
pub mod Header
pub mod Replay
pub mod Recovery
pub mod Areas
pub mod Superblock
pub mod Node
pub mod Crash
mod Tests
pub mod Restart
use imagineos.Base.{
  ℕ, zero, suc, ◌+◌, ◌-◌, ◌*◌, ◌/◌, ◌%◌, Bool, true, not, ◌&&◌, ◌||◌, Option, none, some, List, [],
  ◌∷◌, ◌++◌, ltb, leb, ◌==◌, if◌then◌else◌, checked_add, u64_max, same_bytes,
}
use imagineos.Base.Lists.{length, take, drop, get_or, replicate}
use imagineos.Base.Bytes.{to_le_bytes, copy_from_slice}
use imagineos.Base.Outcome.{Outcome, ok, err, bind, ok_or, reject, from_le_bytes}
use imagineos.Gpt.{BlockError, crc32_update, complement, sector_size}

abbrev pub Sector : Type 0
Sector = List ℕ

-- "DFSTXN01"
abbrev pub journal_magic : List ℕ
journal_magic = 0x44 ∷ 0x46 ∷ 0x53 ∷ 0x54 ∷ 0x58 ∷ 0x4e ∷ 0x30 ∷ 0x31 ∷ []

abbrev pub journal_sectors : ℕ
journal_sectors = 17

abbrev pub inode_count : ℕ
inode_count = 256

abbrev pub transaction_sectors : ℕ
transaction_sectors = 16

abbrev pub bits_per_sector : ℕ
bits_per_sector = 4096

pub data DfsError : Type 0 where
  block : BlockError → DfsError
  invalid_filesystem corrupt_metadata invalid_path not_found not_directory : DfsError
  is_directory already_exists directory_not_empty no_space journal_full : DfsError

pub record Layout : Type 0 where
  pub start_lba : ℕ
  pub sectors : ℕ
  pub journal_lba : ℕ
  pub inode_lba : ℕ
  pub bitmap_lba : ℕ
  pub bitmap_sectors : ℕ
  pub data_lba : ℕ

-- `.map_err(DfsError::Block)`
abbrev pub at_block : {A : Type 0} → Outcome BlockError A → Outcome DfsError A
at_block (ok a) = ok a
at_block (err e) = err (block e)

pub make_layout : ℕ → ℕ → Outcome DfsError Layout
make_layout start_lba sectors =
    bind (ok_or (checked_add sectors (bits_per_sector - 1)) invalid_filesystem) (λ rounded.
      bind (ok_or (checked_add start_lba 1) invalid_filesystem) (λ journal_lba.
        bind (ok_or (checked_add journal_lba journal_sectors) invalid_filesystem) (λ inode_lba.
          bind (ok_or (checked_add inode_lba inode_count) invalid_filesystem) (λ bitmap_lba.
            bind (ok_or (checked_add bitmap_lba (rounded / bits_per_sector)) invalid_filesystem)
              (λ data_lba.
                reject
                  (leb sectors (data_lba - start_lba) || not (leb (start_lba + sectors) u64_max))
                  invalid_filesystem
                  (ok (record {
                    start_lba = start_lba;
                    sectors = sectors;
                    journal_lba = journal_lba;
                    inode_lba = inode_lba;
                    bitmap_lba = bitmap_lba;
                    bitmap_sectors = rounded / bits_per_sector;
                    data_lba = data_lba;
                  })))))))

-- The sector of the bitmap and the bit in it that stand for a sector.
pub bitmap_location : Layout → ℕ → Outcome DfsError (ℕ × ℕ)
bitmap_location l lba =
    let relative = lba - l.start_lba in
    reject (ltb lba l.start_lba || not (ltb relative l.sectors)) invalid_filesystem (
      reject (leb l.bitmap_sectors (relative / bits_per_sector)) corrupt_metadata
        (ok (l.bitmap_lba + relative / bits_per_sector, relative % bits_per_sector)))

-- The targets and the data of a transaction, pairwise; its length is the count.
abbrev pub Transaction : Type 0
Transaction = List (ℕ × Sector)

-- The data of the first entry for the target is replaced, where there is one.
pub replaced : Transaction → ℕ → Sector → Option Transaction
replaced [] lba sector = none
replaced ((target, bytes) ∷ t) lba sector =
    let rest = replaced t lba sector in
    if target == lba
    then some ((target, sector) ∷ t)
    else elim rest [ some t' ↦ some ((target, bytes) ∷ t') | none ↦ none ]

pub add : Transaction → ℕ → Sector → Outcome DfsError Transaction
add t lba sector = elim (replaced t lba sector) [
  | some t' ↦ ok t'
  | none ↦
      if length t == transaction_sectors then err journal_full else ok (t ++ (lba, sector) ∷ [])
]

pub data Request : Type 0 where
  write_sector : ℕ → Sector → Request
  flush : Request

pub transaction_crc : ℕ → Transaction → ℕ
transaction_crc crc [] = crc
transaction_crc crc ((target, bytes) ∷ t) =
    transaction_crc (crc32_update (crc32_update crc (to_le_bytes 8 target)) bytes) t

pub transaction_checksum : Transaction → ℕ
transaction_checksum t = complement (transaction_crc 0xffff_ffff t)

-- The sector is in the journal or outside the file system.
abbrev pub is_bad_target : Layout → ℕ → Bool
is_bad_target l lba =
    ltb lba l.start_lba
    || (leb (l.start_lba + l.sectors) lba
        || (leb l.journal_lba lba && ltb lba (l.journal_lba + journal_sectors)))

-- The targets in the header, from entry `i` on.
pub put_targets : ℕ → Transaction → Sector → Sector
put_targets i [] header = header
put_targets i ((target, bytes) ∷ t) header =
    put_targets (i + 1) t (copy_from_slice (16 + i * 8) (to_le_bytes 8 target) header)

pub journal_header : Transaction → Sector
journal_header t = copy_from_slice 10 (to_le_bytes 4 (transaction_checksum t)) (
    put_targets 0 t (
      copy_from_slice 8 (1 ∷ length t % 256 ∷ [])
        (copy_from_slice 0 journal_magic (replicate sector_size 0))))

-- The data goes to the sectors of the journal from `lba` on.
pub payload : ℕ → Transaction → List Request
payload lba [] = []
payload lba ((target, bytes) ∷ t) = write_sector lba bytes ∷ payload (lba + 1) t

pub write_targets : Transaction → List Request
write_targets [] = []
write_targets ((target, bytes) ∷ t) = write_sector target bytes ∷ write_targets t

pub clear_journal : Layout → List Request
clear_journal l = write_sector l.journal_lba (replicate sector_size 0) ∷ flush ∷ []

pub commit_transaction : Layout → Transaction → List Request
commit_transaction l t =
    payload (l.journal_lba + 1) t
    ++ (flush
        ∷ write_sector l.journal_lba (journal_header t)
        ∷ flush
        ∷ (write_targets t ++ (flush ∷ clear_journal l)))

-- The loop of `commit`.
pub add_updates : Layout → Transaction → List (ℕ × Sector) → Outcome DfsError Transaction
add_updates l t [] = ok t
add_updates l t ((lba, bytes) ∷ updates) =
    reject (is_bad_target l lba) invalid_filesystem
      (bind (add t lba bytes) (λ t'. add_updates l t' updates))

pub commit : Layout → List (ℕ × Sector) → Outcome DfsError (List Request)
commit l [] = ok []
commit l (u ∷ updates) =
    reject (ltb transaction_sectors (length (u ∷ updates))) journal_full
      (bind (add_updates l [] (u ∷ updates)) (λ t. ok (commit_transaction l t)))

-- `header.iter().all(|byte| *byte == 0)`
pub all_zero : List ℕ → Bool
all_zero [] = true
all_zero (b ∷ bytes) = (b == 0) && all_zero bytes

-- The entries of the record in the journal: `n` are left and the next has index `i`.
pub read_entries :
    Layout → (ℕ → Outcome BlockError Sector) → Sector → ℕ → ℕ → Outcome DfsError Transaction
read_entries l read header zero i = ok []
read_entries l read header (suc n) i =
    let rest = read_entries l read header n (i + 1) in
    let target = from_le_bytes (take 8 (drop (16 + i * 8) header)) in
    reject (is_bad_target l target) corrupt_metadata (
      bind (at_block (read (l.journal_lba + 1 + i)))
        (λ bytes. bind rest (λ t. ok ((target, bytes) ∷ t))))

-- What `replay_journal` does with the header it has read.
pub replay_header :
    Layout → (ℕ → Outcome BlockError Sector) → Sector → Outcome DfsError (List Request)
replay_header l read header =
    let version = get_or header 8 0 in
    let count = get_or header 9 0 in
    if all_zero header
    then ok []
    else reject (not (same_bytes (take 8 header) journal_magic)) corrupt_metadata (
        if version == 0
        then ok (clear_journal l)
        else reject (not (version == 1) || (count == 0 || ltb transaction_sectors count))
            corrupt_metadata
            (bind (read_entries l read header count 0) (λ t.
              reject (not (transaction_checksum t == from_le_bytes (take 4 (drop 10 header))))
                corrupt_metadata (ok (write_targets t ++ (flush ∷ clear_journal l))))))

pub replay_journal : Layout → (ℕ → Outcome BlockError Sector) → Outcome DfsError (List Request)
replay_journal l read = bind (at_block (read l.journal_lba)) (λ header. replay_header l read header)
