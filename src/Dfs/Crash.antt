-- ===== src/Dfs/Crash.antt =====
-- kernel/src/fs/dfs.rs, `commit` and `replay_journal`: power cuts and failed requests in a commit
-- and in the restarts after it.
use mathlib.Core.Path.{subst}
use imagineos.Base.{ℕ, ◌+◌, ◌≤◌, ◌≡◌, ◌≢◌, ◌⊎◌, sym, ◌∙◌, inl, inr, List, [], ◌∷◌, ◌++◌, arith}
use imagineos.Base.Lists.{length, replicate, All}
use imagineos.Gpt.{sector_size}
use imagineos.Dfs.{
  Sector, Layout, Transaction, Request, write_sector, flush, payload, write_targets, clear_journal,
  journal_header, commit_transaction, transaction_sectors,
}
use imagineos.Dfs.Disk.{
  Disk, put, after, Crash, Keeps, put-here, put-there, after-append, Crash-append, Untouched,
  after_agree,
}
use imagineos.Dfs.Updates.{OnTargets, Sound}
use imagineos.Dfs.Header.{IsHeader}
use imagineos.Dfs.Recovery.{
  Outside, Outside-ne, Prepared, Committed, Done, Recoverable, is_bad_target-Outside, after-Keeps,
  payload-Keeps, payload-Payload, put-Payload, put-Committed,
}

module _ (l : Layout) (old : Disk) where
  put-target :
      (t : Transaction) (d : Disk) (target : ℕ) (s : Sector)
      → Outside l target
      → length t ≤ transaction_sectors
      → ((a : ℕ) → Untouched a t → a ≢ target)
      → Committed l old t d
      → Committed l old t (put d target s)
  put-target t d target s o h n c = record {
    header =
        subst (λ x. IsHeader x t)
          (sym (
            put-there d target s l.journal_lba
              (λ e. elim o [ inl m ↦ omega arith | inr m ↦ omega arith ])))
          c.header;
    entries =
        put-Payload l.journal_lba 0 t d target s
          (elim o [ inl m ↦ inl (omega arith) | inr m ↦ inr (omega arith) ]) c.entries;
    untouched = λ a p u. put-there d target s a (n a u) ∙ c.untouched a p u;
  }

  targets-Keeps :
      (t u : Transaction)
      → length t ≤ transaction_sectors
      → ((a : ℕ) → Untouched a t → Untouched a u)
      → OnTargets l u
      → All (Keeps (Committed l old t)) (write_targets u)
  unfolding write_targets
  targets-Keeps t [] h sub on = tt
  targets-Keeps t ((target, bytes) ∷ u) h sub (g, on) = (
    λ d c. put-target t d target bytes (is_bad_target-Outside l target g) h (λ a v. (sub a v).0) c,
    targets-Keeps t u h (λ a v. (sub a v).1) on,
  )

  put-Done :
      (t : Transaction) (d : Disk)
      → ((a : ℕ) → Outside l a → d a ≡ after old (write_targets t) a)
      → Done l old t (put d l.journal_lba (replicate sector_size 0))
  put-Done t d w = record {
    clean = put-here d l.journal_lba (replicate sector_size 0);
    written = λ a o.
        put-there d l.journal_lba (replicate sector_size 0) a
          (Outside-ne l old a l.journal_lba o (omega arith) (omega arith))
        ∙ w a o;
  }

  -- The second half of a commit, and all of a replay.
  targets_written :
      (t : Transaction) (d : Disk)
      → Committed l old t d
      → (a : ℕ) → Outside l a
      → after d (write_targets t) a ≡ after old (write_targets t) a
  targets_written t d c a o = after_agree a t d old (λ u. c.untouched a o u)

  pub apply-Done :
      (t : Transaction) (d : Disk)
      → Committed l old t d
      → Done l old t (after d (write_targets t ++ (flush ∷ clear_journal l)))
  unfolding clear_journal
  apply-Done t d c =
      subst (λ x. Done l old t x) (sym (after-append d (write_targets t) (flush ∷ clear_journal l)))
        (put-Done t (after d (write_targets t)) (targets_written t d c))

  pub apply-Crash :
      (t : Transaction) {d d' : Disk}
      → Sound l t
      → Committed l old t d
      → Crash (write_targets t ++ (flush ∷ clear_journal l)) d d'
      → Committed l old t d' ⊎ Done l old t d'
  unfolding clear_journal
  apply-Crash t {d} {d'} s c x =
      elim (Crash-append (Committed l old t) (write_targets t) (clear_journal l)
        (targets-Keeps t t s.at_most (λ a u. u) s.on_targets) c x) [
          | inl y ↦ inl y
          | inr y ↦ cleared y
        ]
    where
      all : Committed l old t (after d (write_targets t))
      all =
          after-Keeps (Committed l old t) (write_targets t) d
            (targets-Keeps t t s.at_most (λ a u. u) s.on_targets) c

      done : Done l old t (put (after d (write_targets t)) l.journal_lba (replicate sector_size 0))
      done = put-Done t (after d (write_targets t)) (targets_written t d c)

      cleared :
          Crash (clear_journal l) (after d (write_targets t)) d'
          → Committed l old t d' ⊎ Done l old t d'
      cleared (inl (inl e)) = inr (subst (Done l old t) (sym e) done)
      cleared (inl (inr e)) = inl (subst (Committed l old t) (sym e) all)
      cleared (inr (inl e)) = inr (subst (Done l old t) (sym e) done)
      cleared (inr (inr e)) = inr (subst (Done l old t) (sym e) done)

  Prepared-payload :
      (t : Transaction) (d : Disk)
      → length t ≤ transaction_sectors
      → Prepared l old d
      → Prepared l old (after d (payload (l.journal_lba + 1) t))
  Prepared-payload t d h p =
      after-Keeps (Prepared l old) (payload (l.journal_lba + 1) t) d
        (payload-Keeps l old 0 (l.journal_lba + 1) t (omega arith) (omega arith)) p

  committed :
      (t : Transaction) (d : Disk)
      → length t ≤ transaction_sectors
      → Prepared l old d
      → Committed l old t
          (put (after d (payload (l.journal_lba + 1) t)) l.journal_lba (journal_header t))
  committed t d h p =
      put-Committed l old t (after d (payload (l.journal_lba + 1) t)) h (Prepared-payload t d h p)
        (payload-Payload l.journal_lba 0 (l.journal_lba + 1) t d (omega arith))

  pub commit-Crash :
      (t : Transaction) {d d' : Disk}
      → Sound l t
      → Prepared l old d
      → Crash (commit_transaction l t) d d'
      → Recoverable l old t d'
  unfolding commit_transaction
  commit-Crash t {d} {d'} s p x =
      elim (Crash-append (Prepared l old) (payload (l.journal_lba + 1) t) rest
        (payload-Keeps l old 0 (l.journal_lba + 1) t (omega arith) (omega (arith, s.at_most))) p
        x) [ inl y ↦ inl y | inr y ↦ published y ]
    where
      rest : List Request
      rest =
          write_sector l.journal_lba (journal_header t)
          ∷ flush
          ∷ (write_targets t ++ (flush ∷ clear_journal l))

      paid : Disk
      paid = after d (payload (l.journal_lba + 1) t)

      c : Committed l old t (put paid l.journal_lba (journal_header t))
      c = committed t d s.at_most p

      published : Crash rest paid d' → Recoverable l old t d'
      published (inl (inl e)) = inr (inl (subst (Committed l old t) (sym e) c))
      published (inl (inr e)) =
          inl (subst (Prepared l old) (sym e) (Prepared-payload t d s.at_most p))
      published (inr (inl e)) = inr (inl (subst (Committed l old t) (sym e) c))
      published (inr (inr y)) = inr (apply-Crash t s c y)

  pub commit-Done :
      (t : Transaction) (d : Disk)
      → Sound l t
      → Prepared l old d
      → Done l old t (after d (commit_transaction l t))
  unfolding commit_transaction
  commit-Done t d s p =
      subst (Done l old t)
        (sym (
          after-append d (payload (l.journal_lba + 1) t) (
            flush
            ∷ write_sector l.journal_lba (journal_header t)
            ∷ flush
            ∷ (write_targets t ++ (flush ∷ clear_journal l)))))
        (apply-Done t
          (put (after d (payload (l.journal_lba + 1) t)) l.journal_lba (journal_header t))
          (committed t d s.at_most p))
