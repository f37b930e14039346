-- ===== src/Gpt/Tests.antt =====
-- The table of a disk of 100 sectors.
use imagineos.Base.{ℕ, ◌+◌, ◌≤◌, ◌<◌, ◌≡◌, refl, List, [], ◌∷◌, ◌++◌, arith, ◌==◌, if◌then◌else◌}
use imagineos.Base.Lists.{replicate, take, drop}
use imagineos.Base.Outcome.{ok, bind, ok_or, reject, skip}
use imagineos.Gpt.{
  BlockDevice, Gpt, Partition, crc32, crc32_update, crc32_bits, read_primary, find_partition,
  check_entries, check_sums, partition_entries_checksum, checksum_from, decode, partition,
  find_from,
}
use imagineos.Gpt.Header.{IsGpt, read_primary_lem, partition_lem}
use imagineos.Gpt.Search.{Found, IsUsable, find_partition_lem}

-- The check value of CRC-32: that of the digits 1 to 9.
crc32_check : crc32 (49 ∷ 50 ∷ 51 ∷ 52 ∷ 53 ∷ 54 ∷ 55 ∷ 56 ∷ 57 ∷ []) ≡ 0xcbf43926
unfolding crc32 crc32_update crc32_bits
crc32_check = refl

abbrev guid : ℕ → List ℕ
guid n = n ∷ replicate 15 0

-- An unused entry and a partition of the blocks 40 to 49.
abbrev entries : List ℕ
entries =
    replicate 128 0
    ++ guid 7
    ++ guid 8
    ++ (40 ∷ replicate 7 0)
    ++ (49 ∷ replicate 7 0)
    ++ replicate 336 0

abbrev header : List ℕ
header =
    69
    ∷ 70
    ∷ 73
    ∷ 32
    ∷ 80
    ∷ 65
    ∷ 82
    ∷ 84
    ∷ 0
    ∷ 0
    ∷ 1
    ∷ 0
    ∷ 92
    ∷ 0
    ∷ 0
    ∷ 0
    ∷ 181
    ∷ 130
    ∷ 137
    ∷ 87
    ∷ 0
    ∷ 0
    ∷ 0
    ∷ 0
    ∷ 1
    ∷ 0
    ∷ 0
    ∷ 0
    ∷ 0
    ∷ 0
    ∷ 0
    ∷ 0
    ∷ 99
    ∷ 0
    ∷ 0
    ∷ 0
    ∷ 0
    ∷ 0
    ∷ 0
    ∷ 0
    ∷ 34
    ∷ 0
    ∷ 0
    ∷ 0
    ∷ 0
    ∷ 0
    ∷ 0
    ∷ 0
    ∷ 90
    ∷ 0
    ∷ 0
    ∷ 0
    ∷ 0
    ∷ 0
    ∷ 0
    ∷ 0
    ∷ 0
    ∷ 0
    ∷ 0
    ∷ 0
    ∷ 0
    ∷ 0
    ∷ 0
    ∷ 0
    ∷ 0
    ∷ 0
    ∷ 0
    ∷ 0
    ∷ 0
    ∷ 0
    ∷ 0
    ∷ 0
    ∷ 2
    ∷ 0
    ∷ 0
    ∷ 0
    ∷ 0
    ∷ 0
    ∷ 0
    ∷ 0
    ∷ 4
    ∷ 0
    ∷ 0
    ∷ 0
    ∷ 128
    ∷ 0
    ∷ 0
    ∷ 0
    ∷ 199
    ∷ 153
    ∷ 18
    ∷ 101
    ∷ replicate 420 0

abbrev disk : BlockDevice
disk = record {
  read_sector =
      λ lba. ok (if lba == 1 then header else if lba == 2 then entries else replicate 512 0);
  sector_count = 100;
}

abbrev table : Gpt
table = record {
  first_usable_lba = 34;
  last_usable_lba = 90;
  entries_lba = 2;
  entry_count = 4;
  entry_size = 128;
}

abbrev found : Partition
found = record {
  type_guid = guid 7;
  unique_guid = guid 8;
  first_lba = 40;
  last_lba = 49;
  attributes = 0;
}

read_primary_run : read_primary disk ≡ ok table
unfolding read_primary check_entries check_sums partition_entries_checksum checksum_from crc32
    crc32_update crc32_bits bind ok_or reject
read_primary_run = refl

find_partition_run : find_partition disk table (guid 7) ≡ ok found
unfolding find_partition find_from partition decode bind reject skip
find_partition_run = refl

read_primary_lem_example : IsGpt disk table
read_primary_lem_example = read_primary_lem disk table read_primary_run

partition_lem_example :
    (2 ≤ 2)
    × (2 < 34)
    × (128 + 128 ≤ 512)
    × (partition disk table 1 ≡ decode table (take 128 (drop 128 entries)))
partition_lem_example =
    partition_lem disk table 1 2 128 entries read_primary_lem_example (omega arith) (omega arith)
      refl refl

find_partition_lem_example :
    (i : ℕ) × Found disk table (guid 7) found 0 i × (i < 4) × IsUsable table found
find_partition_lem_example = find_partition_lem disk table (guid 7) found find_partition_run
