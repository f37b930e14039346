-- ===== src/Gpt.antt =====
-- kernel/src/fs/gpt.rs: the partition table of a disk. The disk is a parameter: what a sector reads
-- as, and how many sectors there are.
pub mod Header
pub mod Search
mod Tests
use imagineos.Base.{
  checked_mul, same_bytes, ℕ, zero, suc, ◌+◌, ◌-◌, ◌*◌, ◌/◌, ◌%◌, ◌^◌, min, Bool, true, false, ◌&&◌,
  ◌||◌, not, Option, none, some, List, [], ◌∷◌, ◌++◌, ltb, leb, ◌==◌, if◌then◌else◌, checked_add,
  u64_max,
}
use imagineos.Base.Lists.{length, take, drop, replicate}
use imagineos.Base.Outcome.{Outcome, ok, err, bind, ok_or, reject, skip, from_le_bytes}
use Prim.Native.Nat.{bit_and, bit_xor}

abbrev pub sector_size : ℕ
sector_size = 512

-- kernel/src/drivers/block.rs, with the two methods of the trait that the table is read through.
pub data BlockError : Type 0 where
  not_ready out_of_bounds device_error timeout : BlockError

pub record BlockDevice : Type 0 where
  pub read_sector : ℕ → Outcome BlockError (List ℕ)
  pub sector_count : ℕ

pub data GptError : Type 0 where
  block : BlockError → GptError
  invalid_signature invalid_header header_checksum entry_checksum : GptError
  invalid_partition partition_not_found : GptError

pub record Partition : Type 0 where
  pub type_guid : List ℕ
  pub unique_guid : List ℕ
  pub first_lba : ℕ
  pub last_lba : ℕ
  pub attributes : ℕ

pub record Gpt : Type 0 where
  pub first_usable_lba : ℕ
  pub last_usable_lba : ℕ
  pub entries_lba : ℕ
  pub entry_count : ℕ
  pub entry_size : ℕ

-- "EFI PART"
abbrev pub signature : List ℕ
signature = 0x45 ∷ 0x46 ∷ 0x49 ∷ 0x20 ∷ 0x50 ∷ 0x41 ∷ 0x52 ∷ 0x54 ∷ []

abbrev pub read_u32 : List ℕ → ℕ → ℕ
read_u32 bytes offset = from_le_bytes (take 4 (drop offset bytes))

abbrev pub read_u64 : List ℕ → ℕ → ℕ
read_u64 bytes offset = from_le_bytes (take 8 (drop offset bytes))

-- The inner loop of `crc32_update`.
unfoldable pub crc32_bits : ℕ → ℕ → ℕ
crc32_bits zero crc = crc
crc32_bits (suc n) crc =
    crc32_bits n (bit_xor (crc / 2) (bit_and 0xedb8_8320 ((2 ^ 32 - bit_and crc 1) % 2 ^ 32)))

unfoldable pub crc32_update : ℕ → List ℕ → ℕ
crc32_update crc [] = crc
crc32_update crc (byte ∷ bytes) = crc32_update (crc32_bits 8 (bit_xor crc byte)) bytes

abbrev pub complement : ℕ → ℕ
complement crc = 2 ^ 32 - 1 - crc

unfoldable pub crc32 : List ℕ → ℕ
crc32 bytes = complement (crc32_update (2 ^ 32 - 1) bytes)

-- `.map_err(GptError::Block)`
abbrev pub at_block : {A : Type 0} → Outcome BlockError A → Outcome GptError A
at_block (ok a) = ok a
at_block (err e) = err (block e)

-- The tests of `read_primary` on the fields of the header.
abbrev pub is_bad_header : ℕ → ℕ → ℕ → ℕ → Gpt → Bool
is_bad_header sectors header_size current_lba backup_lba g =
    ltb header_size 92
    || (ltb sector_size header_size
        || (not (current_lba == 1)
            || (leb sectors backup_lba
                || (leb backup_lba g.last_usable_lba
                    || (ltb g.first_usable_lba 2
                        || (ltb g.last_usable_lba g.first_usable_lba
                            || (leb sectors g.last_usable_lba
                                || ((g.entry_count == 0)
                                    || (ltb 128 g.entry_count
                                        || (ltb g.entry_size 128
                                            || (ltb 512 g.entry_size
                                                || (not (g.entry_size % 8 == 0)
                                                    || not (
                                                        sector_size % g.entry_size == 0)))))))))))))

-- `sector[16..20].fill(0)`
abbrev pub clear_checksum : List ℕ → List ℕ
clear_checksum sector = take 16 sector ++ (replicate 4 0 ++ drop 20 sector)

abbrev pub fields : List ℕ → Gpt
fields sector = record {
  first_usable_lba = read_u64 sector 40;
  last_usable_lba = read_u64 sector 48;
  entries_lba = read_u64 sector 72;
  entry_count = read_u32 sector 80;
  entry_size = read_u32 sector 84;
}

-- The partition whose entry is given, within the usable blocks.
pub decode : Gpt → List ℕ → Outcome GptError (Option Partition)
decode g entry =
    let p : Partition = record {
      type_guid = take 16 entry;
      unique_guid = take 16 (drop 16 entry);
      first_lba = read_u64 entry 32;
      last_lba = read_u64 entry 40;
      attributes = read_u64 entry 48;
    } in
    skip (same_bytes p.type_guid (replicate 16 0)) (
      reject
        (ltb p.first_lba g.first_usable_lba
          || (ltb g.last_usable_lba p.last_lba || ltb p.last_lba p.first_lba))
        invalid_partition (ok (some p)))

module _ (device : BlockDevice) where
  -- The loop of `partition_entries_checksum`, over so many sectors.
  pub checksum_from : ℕ → ℕ → ℕ → ℕ → Outcome GptError ℕ
  checksum_from zero checksum remaining lba = ok checksum
  checksum_from (suc n) checksum remaining lba = elim (remaining == 0) [
    | true ↦ ok checksum
    | false ↦ bind (at_block (device.read_sector lba)) λ sector.
        checksum_from n (crc32_update checksum (take (min remaining sector_size) sector))
          (remaining - min remaining sector_size) (lba + 1)
  ]

  -- Every round reads a sector, so there are at most as many as there are bytes.
  pub partition_entries_checksum : ℕ → ℕ → Outcome GptError ℕ
  partition_entries_checksum entries_lba entries_bytes =
      bind (checksum_from entries_bytes (2 ^ 32 - 1) entries_bytes entries_lba)
        λ checksum. ok (complement checksum)

  -- The two checksums, the last tests of `read_primary`.
  pub check_sums : List ℕ → Gpt → ℕ → Outcome GptError Gpt
  check_sums sector g entries_bytes =
      reject (not (crc32 (take (read_u32 sector 12) (clear_checksum sector)) == read_u32 sector 16))
        header_checksum
        (bind (partition_entries_checksum g.entries_lba entries_bytes)
          λ checksum. reject (not (checksum == read_u32 sector 88)) entry_checksum (ok g))

  -- The place of the entries, between the header and the usable blocks.
  pub check_entries : List ℕ → Gpt → Outcome GptError Gpt
  check_entries sector g =
      bind (ok_or (checked_mul g.entry_count g.entry_size) invalid_header) λ entries_bytes.
        bind (ok_or (checked_add entries_bytes (sector_size - 1)) invalid_header) λ rounded.
          bind (ok_or (checked_add g.entries_lba (rounded / sector_size)) invalid_header)
            λ entries_end.
              reject (ltb g.entries_lba 2 || ltb g.first_usable_lba entries_end) invalid_header
                (check_sums sector g entries_bytes)

  pub read_primary : Outcome GptError Gpt
  read_primary = bind (at_block (device.read_sector 1)) λ sector.
      reject (not (same_bytes (take 8 sector) signature)) invalid_signature (
        reject
          (is_bad_header device.sector_count (read_u32 sector 12) (read_u64 sector 24)
            (read_u64 sector 32) (fields sector))
          invalid_header (check_entries sector (fields sector)))

  pub partition : Gpt → ℕ → Outcome GptError (Option Partition)
  partition g index = skip (leb g.entry_count index) (
      bind (at_block (device.read_sector (g.entries_lba + index * g.entry_size / sector_size)))
        λ sector. decode g (take g.entry_size (drop (index * g.entry_size % sector_size) sector)))

  abbrev pub matches : List ℕ → Option Partition → Option Partition
  matches type_guid none = none
  matches type_guid (some p) = if same_bytes p.type_guid type_guid then some p else none

  -- The loop of `find_partition`, with `n` rounds left from `index` on.
  pub find_from : ℕ → Gpt → ℕ → List ℕ → Outcome GptError Partition
  find_from zero g index type_guid = err partition_not_found
  find_from (suc n) g index type_guid = bind (partition g index) λ found.
      elim (matches type_guid found) [ some p ↦ ok p | none ↦ find_from n g (index + 1) type_guid ]

  pub find_partition : Gpt → List ℕ → Outcome GptError Partition
  find_partition g type_guid = find_from g.entry_count g 0 type_guid
