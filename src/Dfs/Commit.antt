-- ===== src/Dfs/Commit.antt =====
-- kernel/src/fs/dfs.rs, `commit`: the transaction that its updates become.
use mathlib.Core.Path.{subst}
use imagineos.Base.{ℕ, ◌+◌, ◌≤◌, min, ◌≡◌, sym, ◌⊎◌, refl, ◌∙◌, inl, inr, List, [], ◌∷◌, arith}
use imagineos.Base.Lists.{length}
use imagineos.Base.Outcome.{ok, bind-ok, reject-ok, ok-injective}
use imagineos.Dfs.{
  Sector, Layout, Transaction, add_updates, write_targets, Request, commit, commit_transaction,
}
use imagineos.Dfs.Disk.{Disk, put, after, after_agree}
use imagineos.Dfs.Updates.{Sound, add-Sound}

-- The updates of `commit`, in order, have the effect of the transaction they become.
pub add_updates-Sound :
    (l : Layout) (t : Transaction) (updates : List (ℕ × Sector)) {t' : Transaction}
    → Sound l t
    → add_updates l t updates ≡ ok t'
    → Sound l t'
      × (min 1 (length t + length updates) ≤ length t')
      × ((d : Disk) (b : ℕ)
          → after d (write_targets t') b
            ≡ after (after d (write_targets t)) (write_targets updates) b)
unfolding add_updates write_targets
add_updates-Sound l t [] sound e =
    subst
      (λ x.
        Sound l x
        × (min 1 (length t + 0) ≤ length x)
        × ((d : Disk) (b : ℕ) → after d (write_targets x) b ≡ after d (write_targets t) b))
      (ok-injective e) (sound, omega arith, λ d b. refl)
add_updates-Sound l t ((lba, s) ∷ updates) sound e =
    let (good, e1) = reject-ok _ e in
    let (t1, added, e2) = bind-ok e1 in
    let (sound1, some1, ext) = add-Sound l t lba s sound good added in
    let (sound2, more, same) = add_updates-Sound l t1 updates sound1 e2 in
    (
      sound2,
      omega (arith, more, some1),
      λ d b.
          same d b
          ∙ after_agree b updates (after d (write_targets t1))
              (put (after d (write_targets t)) lba s) (λ u. ext d b),
    )

pub commit-Sound :
    (l : Layout) (updates : List (ℕ × Sector)) {ops : List Request}
    → commit l updates ≡ ok ops
    → (ops ≡ []) × (updates ≡ [])
      ⊎ ((t : Transaction) × (ops ≡ commit_transaction l t)
          × Sound l t
          × (1 ≤ length t)
          × ((d : Disk) (b : ℕ) → after d (write_targets t) b ≡ after d (write_targets updates) b))
unfolding commit add_updates write_targets
commit-Sound l [] e = inl (sym (ok-injective e), refl)
commit-Sound l (u ∷ updates) e =
    let (small, e1) = reject-ok _ e in
    let (t, added, e2) = bind-ok e1 in
    let (sound, more, same) = add_updates-Sound l [] (u ∷ updates) none_yet added in
    inr (t, sym (ok-injective e2), sound, omega (arith, more), same)
  where
    none_yet : Sound l []
    none_yet = record { on_targets = tt; distinct = tt; at_most = omega arith }
