-- ===== src/Dfs/Replay.antt =====
-- kernel/src/fs/dfs.rs, `replay_journal`: what it reads on a disk that holds a whole record.
use imagineos.Base.{
  ℕ, ◌+◌, ◌≤◌, ◌≡◌, refl, false, [], ◌∷◌, ◌++◌, ◌==◌, ltb, u64_max, arith, eq→==, ◌<◌,
}
use imagineos.Base.Lists.{length, take}
use imagineos.Base.Bytes.{Fits, from_le_bytes-to_le_bytes}
use imagineos.Base.Bytes.{get_or-pair}
use imagineos.Base.Outcome.{ok, bind, reject}
use imagineos.Dfs.{
  Sector, Layout, Transaction, journal_magic, transaction_checksum, is_bad_target, read_entries,
  replay_header, all_zero, write_targets, clear_journal, flush, transaction_sectors,
}
use imagineos.Dfs.Header.{IsHeader, Entries}
use imagineos.Dfs.Updates.{OnTargets}

-- A list that begins like the magic is not all zero.
all_zero-magic : (h : Sector) → take 8 h ≡ journal_magic → all_zero h ≡ false
unfolding all_zero
all_zero-magic [] e = cc
all_zero-magic (b ∷ h) e = rw first refl
  where
    first : b ≡ 0x44
    first = cc

-- The sectors behind the header hold the data of the entries from the one with index `i` on.
abbrev pub Payload : (ℕ → Sector) → ℕ → ℕ → Transaction → Type 0
Payload d journal i [] = Unit
Payload d journal i ((target, bytes) ∷ t) =
    (d (journal + 1 + i) ≡ bytes) × Payload d journal (i + 1) t

Fits-is_bad_target :
    (l : Layout) (target : ℕ)
    → l.start_lba + l.sectors ≤ u64_max
    → is_bad_target l target ≡ false
    → Fits 8 target
Fits-is_bad_target l target b g = omega (arith, inside)
  where
    inside : target < l.start_lba + l.sectors
    inside = ground arith

read_entries_lem :
    (l : Layout) (d : ℕ → Sector) (h : Sector) (t : Transaction) (i : ℕ)
    → l.start_lba + l.sectors ≤ u64_max
    → OnTargets l t
    → Entries h i t
    → Payload d l.journal_lba i t
    → read_entries l (λ lba. ok (d lba)) h (length t) i ≡ ok t
unfolding read_entries bind reject
read_entries_lem l d h [] i b on e p = refl
read_entries_lem l d h ((target, bytes) ∷ t) i b (g, on) (e, es) (p, ps) =
    let back = from_le_bytes-to_le_bytes 8 target (Fits-is_bad_target l target b g) in
    rw (e, back, g, read_entries_lem l d h t (i + 1) b on es ps, p) refl

Fits-transaction_checksum : (t : Transaction) → Fits 4 (transaction_checksum t)
unfolding transaction_checksum
Fits-transaction_checksum t = omega arith

-- A whole record is applied.
pub replay_header-IsHeader :
    (l : Layout) (d : ℕ → Sector) (h : Sector) (t : Transaction)
    → l.start_lba + l.sectors ≤ u64_max
    → IsHeader h t
    → 1 ≤ length t
    → length t ≤ transaction_sectors
    → OnTargets l t
    → Payload d l.journal_lba 0 t
    → replay_header l (λ lba. ok (d lba)) h ≡ ok (write_targets t ++ (flush ∷ clear_journal l))
unfolding replay_header bind reject
replay_header-IsHeader l d h t b f some1 small on p =
    let (version, count) = get_or-pair 8 h 1 (length t) f.counts in
    let back = from_le_bytes-to_le_bytes 4 (transaction_checksum t) (Fits-transaction_checksum t) in
    let same = eq→== (transaction_checksum t) (transaction_checksum t) refl in
    rw
      (
        all_zero-magic h f.magic,
        f.magic,
        version,
        count,
        nonzero,
        not_more,
        read_entries_lem l d h t 0 b on f.entries p,
        f.checksum,
        back,
        same,
      )
      refl
  where
    nonzero : (length t == 0) ≡ false
    nonzero = ground arith

    not_more : ltb transaction_sectors (length t) ≡ false
    not_more = ground arith
