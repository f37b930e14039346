-- ===== src/Dfs/Tests.antt =====
-- Runs of the file system's areas, journal, superblock and nodes on one small partition.
use imagineos.Base.{
  ℕ, ◌+◌, ◌-◌, ◌*◌, ◌≤◌, ◌<◌, ◌^◌, ◌≡◌, ◌⊎◌, inl, inr, refl, List, [], ◌∷◌, ◌++◌, arith,
}
use imagineos.Base.Lists.{replicate}
use imagineos.Base.Outcome.{ok, err}
use imagineos.Gpt.{sector_size}
use imagineos.Dfs.{
  Sector, Layout, Transaction, Request, write_sector, flush, journal_full, invalid_filesystem,
  commit, make_layout, replay_journal, journal_header, write_targets, clear_journal,
  bitmap_location, bits_per_sector, corrupt_metadata,
}
use imagineos.Dfs.Disk.{Disk, put, after, Crash, reading}
use imagineos.Dfs.Areas.{IsPlaced, make_layout-IsPlaced, bitmap_location-total}
use imagineos.Dfs.Restart.{IsWhole, commit-IsWhole, commit-after}
use imagineos.Dfs.Superblock.{read_superblock, write_superblock, read_superblock-write_superblock}
use imagineos.Dfs.Node.{Inode, encode_node, decode_node, node_file}
use imagineos.Dfs.Node.Codec.{IsInode}
use imagineos.Dfs.Node.Decode.{decode_node-encode_node}

abbrev small : Layout
small = record {
  start_lba = 100;
  sectors = 5000;
  journal_lba = 101;
  inode_lba = 118;
  bitmap_lba = 374;
  bitmap_sectors = 2;
  data_lba = 376;
}

small_made : make_layout 100 5000 ≡ ok small
unfolding make_layout imagineos.Base.Outcome.bind imagineos.Base.Outcome.ok_or
    imagineos.Base.Outcome.reject
small_made = refl

-- A partition without room for data is refused.
no_room : make_layout 100 275 ≡ err invalid_filesystem
unfolding make_layout imagineos.Base.Outcome.bind imagineos.Base.Outcome.ok_or
    imagineos.Base.Outcome.reject
no_room = refl

make_layout-IsPlaced_example : IsPlaced 100 5000 small
make_layout-IsPlaced_example = make_layout-IsPlaced 100 5000 small small_made

bitmap_location-total_example :
    (at bit : ℕ) × (bitmap_location small 4500 ≡ ok (at, bit))
    × (374 ≤ at)
    × (at < 376)
    × (bit < bits_per_sector)
    × (100 + (at - 374) * bits_per_sector + bit ≡ 4500)
bitmap_location-total_example =
    bitmap_location-total 100 5000 4500 small small_made (omega arith) (omega arith)

abbrev blank : Disk
blank lba = replicate sector_size 0

abbrev sevens : Sector
sevens = replicate sector_size 7

abbrev nines : Sector
nines = replicate sector_size 9

abbrev two_updates : List (ℕ × Sector)
two_updates = (118, sevens) ∷ (374, nines) ∷ []

abbrev two_requests : List Request
two_requests =
    write_sector 102 sevens
    ∷ write_sector 103 nines
    ∷ flush
    ∷ write_sector 101 (journal_header two_updates)
    ∷ flush
    ∷ write_sector 118 sevens
    ∷ write_sector 374 nines
    ∷ flush
    ∷ write_sector 101 (replicate sector_size 0)
    ∷ flush
    ∷ []

two_committed : commit small two_updates ≡ ok two_requests
unfolding commit imagineos.Dfs.add_updates imagineos.Dfs.add imagineos.Dfs.replaced
    imagineos.Dfs.commit_transaction imagineos.Dfs.payload write_targets clear_journal
    imagineos.Base.Outcome.bind imagineos.Base.Outcome.reject
two_committed = refl

-- The record of the journal itself is no target.
journal_refused : commit small ((105, sevens) ∷ []) ≡ err invalid_filesystem
unfolding commit imagineos.Dfs.add_updates imagineos.Base.Outcome.bind imagineos.Base.Outcome.reject
journal_refused = refl

-- The power goes when the second target has been written and the first write was lost.
abbrev cut : Disk
cut = put (put (put (put blank 102 sevens) 103 nines) 101 (journal_header two_updates)) 374 nines

two_cut : Crash two_requests blank cut
two_cut = inr (inr (inr (inr (inr (inl (inr (inl refl)))))))

abbrev two_replayed : List Request
two_replayed =
    write_sector 118 sevens
    ∷ write_sector 374 nines
    ∷ flush
    ∷ write_sector 101 (replicate sector_size 0)
    ∷ flush
    ∷ []

two_found : replay_journal small (reading cut) ≡ ok two_replayed
unfolding replay_journal imagineos.Dfs.replay_header imagineos.Dfs.all_zero
    imagineos.Dfs.read_entries put journal_header imagineos.Dfs.put_targets
    imagineos.Dfs.transaction_checksum imagineos.Dfs.transaction_crc imagineos.Gpt.crc32_update
    imagineos.Gpt.crc32_bits write_targets clear_journal imagineos.Base.Outcome.bind
    imagineos.Base.Outcome.reject
two_found = refl

-- The restart is cut too, after it has written the first target.
abbrev cut_again : Disk
cut_again = put cut 118 sevens

commit-IsWhole_example :
    (replay : List Request) × (replay_journal small (reading cut_again) ≡ ok replay)
    × (IsWhole small (after cut_again replay) blank
        ⊎ IsWhole small (after cut_again replay) (after blank (write_targets two_updates)))
commit-IsWhole_example =
    commit-IsWhole 100 5000 small two_updates two_requests blank cut cut_again 1 small_made refl
      two_committed two_cut (two_replayed, cut_again, two_found, inl (inl (inr refl)), refl)

commit-after_example :
    IsWhole small (after blank two_requests) (after blank (write_targets two_updates))
commit-after_example = commit-after small two_updates two_requests blank refl two_committed

read_superblock-write_superblock_example :
    read_superblock (reading (after blank (write_superblock small))) 100 5000 ≡ ok small
read_superblock-write_superblock_example =
    read_superblock-write_superblock 100 5000 small blank small_made

-- "etc/motd" in two runs of sectors.
abbrev motd : Inode
motd = record {
  path = 101 ∷ 116 ∷ 99 ∷ 47 ∷ 109 ∷ 111 ∷ 116 ∷ 100 ∷ [];
  kind = node_file;
  size = 1500;
  mode = 420;
  uid = 1000;
  gid = 1000;
  extents =
      record { start_lba = 400; logical_start = 0; sector_count = 2 }
      ∷ record { start_lba = 410; logical_start = 2; sector_count = 1 }
      ∷ [];
}

motd-IsInode : IsInode motd
motd-IsInode = record {
  no_zero = (
    omega arith,
    (
      omega arith,
      (omega arith, (omega arith, (omega arith, (omega arith, (omega arith, (omega arith, tt)))))),
    ),
  );
  path_fits = omega arith;
  kinds = inl refl;
  extents_fit = omega arith;
  extents_good = (
    record {
      start_width = omega arith;
      logical_width = omega arith;
      count_width = omega arith;
      some_sector = omega arith;
    },
    (
      record {
        start_width = omega arith;
        logical_width = omega arith;
        count_width = omega arith;
        some_sector = omega arith;
      },
      tt,
    ),
  );
  size_width = omega arith;
  mode_width = omega arith;
  uid_width = omega arith;
  gid_width = omega arith;
}

decode_node-encode_node_example :
    (s : Sector) × (encode_node motd ≡ ok s) × (decode_node s ≡ ok motd)
decode_node-encode_node_example = decode_node-encode_node motd motd-IsInode
