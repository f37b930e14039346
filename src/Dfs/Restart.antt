-- ===== src/Dfs/Restart.antt =====
-- kernel/src/fs/dfs.rs, `commit` and the `replay_journal` of `mount`: a commit is whole or nothing.
use mathlib.Core.Path.{subst}
use imagineos.Base.{
  ℕ, zero, suc, ◌+◌, ◌≤◌, ◌≡◌, ◌⊎◌, refl, sym, ◌∙◌, inl, inr, List, [], ◌∷◌, ◌++◌, u64_max, arith,
}
use imagineos.Base.Lists.{length, replicate}
use imagineos.Base.Outcome.{ok, bind, ok-injective}
use imagineos.Gpt.{sector_size}
use imagineos.Dfs.{
  Sector, Layout, Transaction, Request, flush, write_targets, clear_journal, commit, make_layout,
  replay_journal, commit_transaction,
}
use imagineos.Dfs.Disk.{Disk, reading, after, Crash}
use imagineos.Dfs.Updates.{Sound}
use imagineos.Dfs.Commit.{commit-Sound}
use imagineos.Dfs.Replay.{replay_header-IsHeader}
use imagineos.Dfs.Recovery.{Outside, Prepared, Committed, Done, Recoverable}
use imagineos.Dfs.Areas.{IsPlaced, make_layout-IsPlaced}
use imagineos.Dfs.Crash.{apply-Done, apply-Crash, commit-Crash, commit-Done}

-- `n` restarts, each of which is stopped while it replays the journal.
abbrev pub Restarts : Layout → ℕ → Disk → Disk → Type 0
Restarts l zero d d' = d' ≡ d
Restarts l (suc n) d d' =
    (ops : List Request) × (m : Disk) × (replay_journal l (reading d) ≡ ok ops)
    × Crash ops d m
    × Restarts l n m d'

-- The disks agree on all sectors but the journal's, and the journal is clean.
abbrev pub IsWhole : Layout → Disk → Disk → Type 0
IsWhole l d e = (d l.journal_lba ≡ replicate sector_size 0) × ((a : ℕ) → Outside l a → d a ≡ e a)

replay-clean :
    (l : Layout) (d : Disk)
    → d l.journal_lba ≡ replicate sector_size 0
    → replay_journal l (reading d) ≡ ok []
unfolding replay_journal imagineos.Dfs.replay_header imagineos.Dfs.all_zero bind
replay-clean l d e = rw e refl

Restarts-Prepared :
    (l : Layout) (old : Disk) (n : ℕ) (d m : Disk)
    → Prepared l old d
    → Restarts l n d m
    → Prepared l old m
Restarts-Prepared l old zero d m p e = subst (Prepared l old) (sym e) p
Restarts-Prepared l old (suc n) d m p (ops, k, e, x, rest) =
    let same = ok-injective (sym (replay-clean l d p.clean) ∙ e) in
    let stay = subst (λ o. Crash o d k) (sym same) x in
    Restarts-Prepared l old n k m (subst (Prepared l old) (sym stay) p) rest

module _ (l : Layout) (old : Disk) (t : Transaction) (s : Sound l t) (some1 : 1 ≤ length t)
    (b : l.start_lba + l.sectors ≤ u64_max) where
  replay-Committed :
      (d : Disk)
      → Committed l old t d
      → replay_journal l (reading d) ≡ ok (write_targets t ++ (flush ∷ clear_journal l))
  unfolding replay_journal bind
  replay-Committed d c =
      replay_header-IsHeader l d (d l.journal_lba) t b c.header some1 s.at_most s.on_targets
        c.entries

  -- A restart that is stopped leaves a recoverable disk again.
  restart-Recoverable :
      (d m : Disk) (ops : List Request)
      → Recoverable l old t d
      → replay_journal l (reading d) ≡ ok ops
      → Crash ops d m
      → Recoverable l old t m
  restart-Recoverable d m ops (inl p) e x =
      let same = ok-injective (sym (replay-clean l d p.clean) ∙ e) in
      inl (subst (Prepared l old) (sym (subst (λ o. Crash o d m) (sym same) x)) p)
  restart-Recoverable d m ops (inr (inl c)) e x =
      let same = ok-injective (sym (replay-Committed d c) ∙ e) in
      inr (apply-Crash l old t s c (subst (λ o. Crash o d m) (sym same) x))
  restart-Recoverable d m ops (inr (inr p)) e x =
      let same = ok-injective (sym (replay-clean l d p.clean) ∙ e) in
      inr (inr (subst (Done l old t) (sym (subst (λ o. Crash o d m) (sym same) x)) p))

  Restarts-Recoverable :
      (n : ℕ) (d m : Disk) → Recoverable l old t d → Restarts l n d m → Recoverable l old t m
  Restarts-Recoverable zero d m r e = subst (Recoverable l old t) (sym e) r
  Restarts-Recoverable (suc n) d m r (ops, k, e, x, rest) =
      Restarts-Recoverable n k m (restart-Recoverable d k ops r e x) rest

  replay-Recoverable :
      (d : Disk)
      → Recoverable l old t d
      → (ops : List Request) × (replay_journal l (reading d) ≡ ok ops)
        × (IsWhole l (after d ops) old ⊎ IsWhole l (after d ops) (after old (write_targets t)))
  replay-Recoverable d (inl p) = ([], replay-clean l d p.clean, inl (p.clean, p.unchanged))
  replay-Recoverable d (inr (inl c)) =
      let done = apply-Done l old t d c in
      (
        write_targets t ++ (flush ∷ clear_journal l),
        replay-Committed d c,
        inr (done.clean, done.written),
      )
  replay-Recoverable d (inr (inr p)) = ([], replay-clean l d p.clean, inr (p.clean, p.written))

start_clean :
    (l : Layout) (old : Disk) → old l.journal_lba ≡ replicate sector_size 0 → Prepared l old old
start_clean l old e = record { clean = e; unchanged = λ a o. refl }

-- A commit on a disk with a clean journal is whole or nothing. The commit may stop at any of its
-- requests, because of a power cut or of an error of the device, with any of the writes since the
-- last flush lost; then any number of restarts may stop in the same way while they replay the
-- journal. The replay of the next restart is not refused, and once its requests are made the
-- journal is clean and the sectors outside the journal are all as before the commit, or they are
-- all as if its updates had been written in order.
pub commit-IsWhole :
    (start sectors : ℕ) (l : Layout) (updates : List (ℕ × Sector)) (ops : List Request)
    (old d d' : Disk) (n : ℕ)
    → make_layout start sectors ≡ ok l
    → old l.journal_lba ≡ replicate sector_size 0
    → commit l updates ≡ ok ops
    → Crash ops old d
    → Restarts l n d d'
    → (replay : List Request) × (replay_journal l (reading d') ≡ ok replay)
      × (IsWhole l (after d' replay) old
          ⊎ IsWhole l (after d' replay) (after old (write_targets updates)))
commit-IsWhole start sectors l updates ops old d d' n made clean e x rs =
    elim (commit-Sound l updates e) [
      | inl (none_made, none_asked) ↦
          let at_start = subst (λ o. Crash o old d) none_made x in
          let p =
            Restarts-Prepared l old n d d'
              (subst (Prepared l old) (sym at_start) (start_clean l old clean)) rs in
          ([], replay-clean l d' p.clean, inl (p.clean, p.unchanged))
      | inr (t, is, s, some1, same) ↦
          let r =
            commit-Crash l old t s (start_clean l old clean) (subst (λ o. Crash o old d) is x) in
          let b = bound (make_layout-IsPlaced start sectors l made) in
          let (replay, accepted, whole) =
            replay-Recoverable l old t s some1 b d'
              (Restarts-Recoverable l old t s some1 b n d d' r rs) in
          (
            replay,
            accepted,
            elim whole [ inl w ↦ inl w | inr (c, w) ↦ inr (c, λ a o. w a o ∙ same old a) ],
          )
    ]
  where
    bound : IsPlaced start sectors l → l.start_lba + l.sectors ≤ u64_max
    bound p = omega (arith, p.in_range, p.from_start, p.whole)

-- A commit that gets to its end on a disk with a clean journal leaves the journal clean, and the
-- sectors outside the journal as if its updates had been written in order.
pub commit-after :
    (l : Layout) (updates : List (ℕ × Sector)) (ops : List Request) (old : Disk)
    → old l.journal_lba ≡ replicate sector_size 0
    → commit l updates ≡ ok ops
    → IsWhole l (after old ops) (after old (write_targets updates))
unfolding write_targets
commit-after l updates ops old clean e = elim (commit-Sound l updates e) [
  | inl (none_made, none_asked) ↦
      subst (λ o. IsWhole l (after old o) (after old (write_targets updates))) (sym none_made)
        (subst (λ u. IsWhole l old (after old (write_targets u))) (sym none_asked)
          (clean, λ a o. refl))
  | inr (t, is, s, some1, same) ↦
      let done = commit-Done l old t old s (start_clean l old clean) in
      subst (λ o. IsWhole l (after old o) (after old (write_targets updates))) (sym is)
        (done.clean, λ a o. done.written a o ∙ same old a)
]
