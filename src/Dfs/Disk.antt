-- ===== src/Dfs/Disk.antt =====
-- The disk under kernel/src/fs/dfs.rs: what requests do to it, and what a power cut or a failed
-- request leaves. A sector is written whole or not at all. Writes since the last flush may be lost
-- one by one; a flush makes all writes before it last.
use imagineos.Base.{
  ℕ, ◌≡◌, ◌≢◌, ◌⊎◌, inl, inr, refl, sym, ap, ◌∙◌, List, [], ◌∷◌, ◌++◌, ◌==◌, false, if◌then◌else◌,
  ==→eq, eq→==, Bool-cases,
}
use imagineos.Base.Lists.{All}
use mathlib.Core.Path.{subst}
use imagineos.Base.Outcome.{Outcome, ok}
use imagineos.Gpt.{BlockError}
use imagineos.Dfs.{Sector, Transaction, Request, write_sector, flush, write_targets}

abbrev pub Disk : Type 0
Disk = ℕ → Sector

-- A device whose reads give what is on the disk.
abbrev pub reading : Disk → ℕ → Outcome BlockError Sector
reading d lba = ok (d lba)

unfoldable pub put : Disk → ℕ → Sector → Disk
put d a s b = if b == a then s else d b

-- What the requests make of the disk, when all of them succeed.
abbrev pub after : Disk → List Request → Disk
after d [] = d
after d (write_sector a s ∷ ops) = after (put d a s) ops
after d (flush ∷ ops) = after d ops

-- The writes up to the next flush, each kept or lost.
abbrev pub Torn : List Request → Disk → Disk → Type 0
Torn [] d d' = d' ≡ d
Torn (flush ∷ ops) d d' = d' ≡ d
Torn (write_sector a s ∷ ops) d d' = Torn ops (put d a s) d' ⊎ Torn ops d d'

-- What the disk may be when the requests stop at any point.
abbrev pub Crash : List Request → Disk → Disk → Type 0
Crash [] d d' = d' ≡ d
Crash (flush ∷ ops) d d' = (d' ≡ d) ⊎ Crash ops d d'
Crash (write_sector a s ∷ ops) d d' = Torn (write_sector a s ∷ ops) d d' ⊎ Crash ops (put d a s) d'

abbrev pub Keeps : (Disk → Type 0) → Request → Type 0
Keeps I (write_sector a s) = (d : Disk) → I d → I (put d a s)
Keeps I flush = Unit

pub put-here : (d : Disk) (a : ℕ) (s : Sector) → put d a s a ≡ s
unfolding put
put-here d a s = let e = eq→== a a refl in rw e

pub put-there : (d : Disk) (a : ℕ) (s : Sector) (b : ℕ) → b ≢ a → put d a s b ≡ d b
unfolding put
put-there d a s b h = elim (Bool-cases (b == a)) [ inl e ↦ absurd (h (==→eq b a e)) | inr e ↦ rw e ]

pub after-append : (d : Disk) (xs ys : List Request) → after d (xs ++ ys) ≡ after (after d xs) ys
after-append d [] ys = refl
after-append d (write_sector a s ∷ xs) ys = after-append (put d a s) xs ys
after-append d (flush ∷ xs) ys = after-append d xs ys

module _ (I : Disk → Type 0) where
  Torn-append :
      (ws ops : List Request) {d d' : Disk}
      → All (Keeps I) ws
      → I d
      → Torn (ws ++ flush ∷ ops) d d'
      → I d'
  Torn-append [] ops k i c = subst I (sym c) i
  Torn-append (write_sector a s ∷ ws) ops {d} (k, ks) i (inl c) = Torn-append ws ops ks (k d i) c
  Torn-append (write_sector a s ∷ ws) ops (k, ks) i (inr c) = Torn-append ws ops ks i c
  Torn-append (flush ∷ ws) ops (k, ks) i c = subst I (sym c) i

  -- What each write up to a flush keeps holds when they stop before it; or all of them last.
  pub Crash-append :
      (ws ops : List Request) {d d' : Disk}
      → All (Keeps I) ws
      → I d
      → Crash (ws ++ flush ∷ ops) d d'
      → I d' ⊎ Crash ops (after d ws) d'
  Crash-append [] ops k i (inl c) = inl (subst I (sym c) i)
  Crash-append [] ops k i (inr c) = inr c
  Crash-append (write_sector a s ∷ ws) ops k i (inl c) =
      inl (Torn-append (write_sector a s ∷ ws) ops k i c)
  Crash-append (write_sector a s ∷ ws) ops {d} (k, ks) i (inr c) = Crash-append ws ops ks (k d i) c
  Crash-append (flush ∷ ws) ops (k, ks) i (inl c) = inl (subst I (sym c) i)
  Crash-append (flush ∷ ws) ops (k, ks) i (inr c) = Crash-append ws ops ks i c

-- No entry of the transaction has this target.
abbrev pub Untouched : ℕ → Transaction → Type 0
Untouched a [] = Unit
Untouched a ((target, bytes) ∷ t) = (a ≢ target) × Untouched a t

pub after-Untouched :
    (a : ℕ) (t : Transaction) (d : Disk) → Untouched a t → after d (write_targets t) a ≡ d a
unfolding write_targets
after-Untouched a [] d h = refl
after-Untouched a ((target, bytes) ∷ t) d (h, hs) =
    after-Untouched a t (put d target bytes) hs ∙ put-there d target bytes a h

-- Two disks that agree at a sector, if no entry is for it, agree there after the transaction.
pub after_agree :
    (a : ℕ) (t : Transaction) (d e : Disk)
    → (Untouched a t → d a ≡ e a)
    → after d (write_targets t) a ≡ after e (write_targets t) a
unfolding write_targets
after_agree a [] d e h = h tt
after_agree a ((target, bytes) ∷ t) d e h =
    after_agree a t (put d target bytes) (put e target bytes) (λ u.
      elim (Bool-cases (a == target)) [
        | inl same ↦
            let p = ==→eq a target same in
            ap (put d target bytes) p
            ∙ put-here d target bytes
            ∙ sym (ap (put e target bytes) p ∙ put-here e target bytes)
        | inr other ↦
            put-there d target bytes a (apart other)
            ∙ h (apart other, u)
            ∙ sym (put-there e target bytes a (apart other))
      ])
  where
    apart : (a == target) ≡ false → a ≢ target
    apart other p = let same = eq→== a target p in cc
