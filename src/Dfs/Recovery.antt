-- ===== src/Dfs/Recovery.antt =====
-- kernel/src/fs/dfs.rs, `commit_transaction` and `replay_journal`: the states of a disk that a
-- commit goes through, with what a stop at any point leaves.
use mathlib.Core.Path.{subst}
use imagineos.Base.{
  ℕ, ◌+◌, ◌≤◌, ◌<◌, ◌≡◌, ◌≢◌, ◌⊎◌, refl, sym, ap, ◌∙◌, inl, inr, false, List, [], ◌∷◌, arith,
}
use imagineos.Base.Lists.{length, replicate, All}
use imagineos.Dfs.{
  Sector, Layout, Transaction, Request, write_sector, flush, is_bad_target, payload, write_targets,
  journal_header, transaction_sectors, journal_sectors,
}
use imagineos.Dfs.Disk.{Disk, put, after, Keeps, put-here, put-there, Untouched}
use imagineos.Dfs.Header.{IsHeader, journal_header-IsHeader}
use imagineos.Dfs.Replay.{Payload}
use imagineos.Gpt.{sector_size}

-- A sector that is not in the journal.
abbrev pub Outside : Layout → ℕ → Type 0
Outside l a = (a < l.journal_lba) ⊎ (l.journal_lba + journal_sectors ≤ a)

pub is_bad_target-Outside : (l : Layout) (a : ℕ) → is_bad_target l a ≡ false → Outside l a
is_bad_target-Outside l a g = ground arith

pub after-Keeps :
    (I : Disk → Type 0) (ops : List Request) (d : Disk) → All (Keeps I) ops → I d → I (after d ops)
after-Keeps I [] d k i = i
after-Keeps I (write_sector a s ∷ ops) d (k, ks) i = after-Keeps I ops (put d a s) ks (k d i)
after-Keeps I (flush ∷ ops) d (k, ks) i = after-Keeps I ops d ks i

payload-below :
    (lba : ℕ) (t : Transaction) (d : Disk) (b : ℕ) → b < lba → after d (payload lba t) b ≡ d b
unfolding payload
payload-below lba [] d b h = refl
payload-below lba ((target, bytes) ∷ t) d b h =
    payload-below (lba + 1) t (put d lba bytes) b (omega arith)
    ∙ put-there d lba bytes b (λ e. omega arith)

pub payload-Payload :
    (journal i lba : ℕ) (t : Transaction) (d : Disk)
    → lba ≡ journal + 1 + i
    → Payload (after d (payload lba t)) journal i t
unfolding payload
payload-Payload journal i lba [] d e = tt
payload-Payload journal i lba ((target, bytes) ∷ t) d e = (
  ap (after (put d lba bytes) (payload (lba + 1) t)) (sym e)
      ∙ payload-below (lba + 1) t (put d lba bytes) lba (omega arith)
      ∙ put-here d lba bytes,
  payload-Payload journal (i + 1) (lba + 1) t (put d lba bytes) (omega arith),
)

-- A write outside the payload does not change it.
pub put-Payload :
    (journal i : ℕ) (t : Transaction) (d : Disk) (a : ℕ) (s : Sector)
    → (a ≤ journal) ⊎ (journal + 1 + i + length t ≤ a)
    → Payload d journal i t
    → Payload (put d a s) journal i t
put-Payload journal i [] d a s h p = tt
put-Payload journal i ((target, bytes) ∷ t) d a s h (p, ps) = (
  put-there d a s (journal + 1 + i) (λ e. elim h [ inl m ↦ omega arith | inr m ↦ omega arith ]) ∙ p,
  put-Payload journal (i + 1) t d a s (elim h [ inl m ↦ inl m | inr m ↦ inr (omega arith) ]) ps,
)

module _ (l : Layout) (old : Disk) where
  -- Nothing is in the journal, and no other sector has changed.
  pub record Prepared (d : Disk) : Type 0 where
    pub clean : d l.journal_lba ≡ replicate sector_size 0
    pub unchanged : (a : ℕ) → Outside l a → d a ≡ old a

  -- The journal has the whole transaction; some targets may be written.
  pub record Committed (t : Transaction) (d : Disk) : Type 0 where
    pub header : IsHeader (d l.journal_lba) t
    pub entries : Payload d l.journal_lba 0 t
    pub untouched : (a : ℕ) → Outside l a → Untouched a t → d a ≡ old a

  -- Nothing is in the journal, and all targets are written.
  pub record Done (t : Transaction) (d : Disk) : Type 0 where
    pub clean : d l.journal_lba ≡ replicate sector_size 0
    pub written : (a : ℕ) → Outside l a → d a ≡ after old (write_targets t) a

  -- A disk that a restart brings back to a whole state.
  abbrev pub Recoverable : Transaction → Disk → Type 0
  Recoverable t d = Prepared d ⊎ Committed t d ⊎ Done t d

  pub Outside-ne :
      (a b : ℕ) → Outside l a → l.journal_lba ≤ b → b < l.journal_lba + journal_sectors → a ≢ b
  Outside-ne a b o h k e = elim o [ inl m ↦ omega arith | inr m ↦ omega arith ]

  pub payload-Keeps :
      (i lba : ℕ) (t : Transaction)
      → lba ≡ l.journal_lba + 1 + i
      → i + length t ≤ transaction_sectors
      → All (Keeps Prepared) (payload lba t)
  unfolding payload
  payload-Keeps i lba [] e h = tt
  payload-Keeps i lba ((target, bytes) ∷ t) e h = (
    λ d p. record {
      clean = put-there d lba bytes l.journal_lba (λ x. omega arith) ∙ p.clean;
      unchanged = λ a o.
          put-there d lba bytes a (Outside-ne a lba o (omega arith) (omega arith))
          ∙ p.unchanged a o;
    },
    payload-Keeps (i + 1) (lba + 1) t (omega arith) (omega arith),
  )

  pub put-Committed :
      (t : Transaction) (d : Disk)
      → length t ≤ transaction_sectors
      → Prepared d
      → Payload d l.journal_lba 0 t
      → Committed t (put d l.journal_lba (journal_header t))
  put-Committed t d h p ps = record {
    header =
        subst (λ s. IsHeader s t) (sym (put-here d l.journal_lba (journal_header t)))
          (journal_header-IsHeader t h);
    entries =
        put-Payload l.journal_lba 0 t d l.journal_lba (journal_header t) (inl (omega arith)) ps;
    untouched = λ a o u.
        put-there d l.journal_lba (journal_header t) a
          (Outside-ne a l.journal_lba o (omega arith) (omega arith))
        ∙ p.unchanged a o;
  }
