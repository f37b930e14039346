-- ===== src/Dfs/Updates.antt =====
-- kernel/src/fs/dfs.rs, `Transaction::add` and the loop of `commit`: the transaction that a list of
-- updates becomes.
use mathlib.Core.Path.{subst}
use imagineos.Base.{
  ℕ, ◌≤◌, ◌<◌, ◌≡◌, ◌≢◌, refl, sym, ap, ◌∙◌, inl, inr, false, Option, none, some, [], ◌∷◌, ◌++◌,
  ◌==◌, if◌then◌else◌, ==→eq, eq→==, Bool-cases, arith,
}
use imagineos.Base.Lists.{length, length-append}
use imagineos.Base.Outcome.{ok, err, ok-injective}
use imagineos.Dfs.{
  Sector, Layout, Transaction, journal_full, replaced, add, is_bad_target, write_targets,
  transaction_sectors,
}
use imagineos.Dfs.Disk.{
  Disk, put, after, put-here, put-there, Untouched, after-Untouched, after_agree,
}

abbrev pub OnTargets : Layout → Transaction → Type 0
OnTargets l [] = Unit
OnTargets l ((target, bytes) ∷ t) = (is_bad_target l target ≡ false) × OnTargets l t

-- No target has two entries.
abbrev pub Distinct : Transaction → Type 0
Distinct [] = Unit
Distinct ((target, bytes) ∷ t) = Untouched target t × Distinct t

-- `t'` has the effect of `t` and then a write.
abbrev pub Extends : Transaction → ℕ → Sector → Transaction → Type 0
Extends t lba s t' =
    (d : Disk) (b : ℕ) → after d (write_targets t') b ≡ put (after d (write_targets t)) lba s b

abbrev pub Same : Layout → Transaction → ℕ → Sector → Transaction → Type 0
Same l t lba s t' =
    (length t' ≡ length t)
    × (1 ≤ length t)
    × (OnTargets l t → OnTargets l t')
    × ((a : ℕ) → Untouched a t → Untouched a t')
    × (Distinct t → Distinct t' × Extends t lba s t')

abbrev pub Replaced : Layout → Transaction → ℕ → Sector → Option Transaction → Type 0
Replaced l t lba s none = Untouched lba t
Replaced l t lba s (some t') = Same l t lba s t'

replaced-here :
    (l : Layout) (t : Transaction) (target : ℕ) (bytes s : Sector)
    → Same l ((target, bytes) ∷ t) target s ((target, s) ∷ t)
unfolding write_targets
replaced-here l t target bytes s = (refl, omega arith, λ h. h, λ a h. h, λ h. (h, same h.0))
  where
    same : Untouched target t → Extends ((target, bytes) ∷ t) target s ((target, s) ∷ t)
    same u d b = elim (Bool-cases (b == target)) [
      | inl e ↦
          let p = ==→eq b target e in
          ap (after (put d target s) (write_targets t)) p
          ∙ after-Untouched target t (put d target s) u
          ∙ put-here d target s
          ∙ sym (
              ap (put (after (put d target bytes) (write_targets t)) target s) p
              ∙ put-here (after (put d target bytes) (write_targets t)) target s)
      | inr e ↦
          after_agree b t (put d target s) (put d target bytes) (λ v.
            put-there d target s b (λ p. let q = eq→== b target p in cc)
            ∙ sym (put-there d target bytes b (λ p. let q = eq→== b target p in cc)))
          ∙ sym (
              put-there (after (put d target bytes) (write_targets t)) target s b
                (λ p. let q = eq→== b target p in cc))
    ]

replaced-later :
    (l : Layout) (t : Transaction) (target : ℕ) (bytes : Sector) (lba : ℕ) (s : Sector)
    (t' : Transaction)
    → Same l t lba s t'
    → Same l ((target, bytes) ∷ t) lba s ((target, bytes) ∷ t')
unfolding write_targets
replaced-later l t target bytes lba s t' (n, m, on, un, ext) = (
  omega (arith, n),
  omega arith,
  λ (h, hs). (h, on hs),
  λ a (h, hs). (h, un a hs),
  λ (h, hs). ((un target h, (ext hs).0), λ d b. (ext hs).1 (put d target bytes) b),
)

pub replaced_lem :
    (l : Layout) (t : Transaction) (lba : ℕ) (s : Sector) → Replaced l t lba s (replaced t lba s)
unfolding replaced
replaced_lem l [] lba s = tt
replaced_lem l ((target, bytes) ∷ t) lba s =
    let ih = replaced_lem l t lba s in
    elim (Bool-cases (target == lba)) [
      | inl e ↦ rw e (
          subst (λ a. Same l ((target, bytes) ∷ t) a s ((target, s) ∷ t)) (==→eq target lba e)
            (replaced-here l t target bytes s))
      | inr e ↦ rw e (later (λ p. let q = eq→== target lba (sym p) in cc) (replaced t lba s) ih)
    ]
  where
    later :
        lba ≢ target
        → (o : Option Transaction) → Replaced l t lba s o
        → Replaced l
            ((target, bytes) ∷ t)
            lba
            s
            (elim o [ some t' ↦ some ((target, bytes) ∷ t') | none ↦ none ])
    later n none h = (n, h)
    later n (some t') h = replaced-later l t target bytes lba s t' h

-- What holds of a transaction between updates.
pub record Sound (l : Layout) (t : Transaction) : Type 0 where
  pub on_targets : OnTargets l t
  pub distinct : Distinct t
  pub at_most : length t ≤ transaction_sectors

Untouched-snoc :
    (a : ℕ) (t : Transaction) (lba : ℕ) (s : Sector)
    → Untouched a t
    → a ≢ lba
    → Untouched a (t ++ (lba, s) ∷ [])
Untouched-snoc a [] lba s u n = (n, tt)
Untouched-snoc a ((target, bytes) ∷ t) lba s (h, u) n = (h, Untouched-snoc a t lba s u n)

Distinct-snoc :
    (t : Transaction) (lba : ℕ) (s : Sector)
    → Untouched lba t
    → Distinct t
    → Distinct (t ++ (lba, s) ∷ [])
Distinct-snoc [] lba s u d = (tt, tt)
Distinct-snoc ((target, bytes) ∷ t) lba s (h, u) (v, d) =
    (Untouched-snoc target t lba s v (λ p. h (sym p)), Distinct-snoc t lba s u d)

OnTargets-snoc :
    (l : Layout) (t : Transaction) (lba : ℕ) (s : Sector)
    → is_bad_target l lba ≡ false
    → OnTargets l t
    → OnTargets l (t ++ (lba, s) ∷ [])
OnTargets-snoc l [] lba s g on = (g, tt)
OnTargets-snoc l ((target, bytes) ∷ t) lba s g (h, on) = (h, OnTargets-snoc l t lba s g on)

after-snoc :
    (t : Transaction) (lba : ℕ) (s : Sector) (d : Disk)
    → after d (write_targets (t ++ (lba, s) ∷ [])) ≡ put (after d (write_targets t)) lba s
unfolding write_targets
after-snoc [] lba s d = refl
after-snoc ((target, bytes) ∷ t) lba s d = after-snoc t lba s (put d target bytes)

pub add-Sound :
    (l : Layout) (t : Transaction) (lba : ℕ) (s : Sector) {t' : Transaction}
    → Sound l t
    → is_bad_target l lba ≡ false
    → add t lba s ≡ ok t'
    → Sound l t' × (1 ≤ length t') × Extends t lba s t'
unfolding add
add-Sound l t lba s {t'} sound good e = by_case (replaced t lba s) (replaced_lem l t lba s) e
  where
    snoc :
        Untouched lba t
        → length t < transaction_sectors
        → (x : Transaction) → t ++ (lba, s) ∷ [] ≡ x
        → Sound l x × (1 ≤ length x) × Extends t lba s x
    snoc u n x p =
        subst (λ x. Sound l x × (1 ≤ length x) × Extends t lba s x) p
          (
            record {
              on_targets = OnTargets-snoc l t lba s good sound.on_targets;
              distinct = Distinct-snoc t lba s u sound.distinct;
              at_most = omega (arith, length-append t ((lba, s) ∷ []));
            },
            omega (arith, length-append t ((lba, s) ∷ [])),
            λ d b. ap (λ disk. disk b) (after-snoc t lba s d),
          )

    lt_of : (length t == transaction_sectors) ≡ false → length t < transaction_sectors
    lt_of room = let m = sound.at_most in ground arith

    by_case :
        (o : Option Transaction)
        → Replaced l t lba s o
        → elim o [
          | some x ↦ ok x
          | none ↦
              if length t == transaction_sectors then err journal_full else ok (t ++ (lba, s) ∷ [])
        ]
          ≡ ok t'
        → Sound l t' × (1 ≤ length t') × Extends t lba s t'
    by_case none u h = elim (Bool-cases (length t == transaction_sectors)) [
      | inl full ↦ let x = rw full at h in cc
      | inr room ↦ let x = ok-injective (rw room at h) in snoc u (lt_of room) t' x
    ]
    by_case (some x) (n, m, on, un, ext) h =
        subst (λ x. Sound l x × (1 ≤ length x) × Extends t lba s x) (ok-injective h)
          (
            record {
              on_targets = on sound.on_targets;
              distinct = (ext sound.distinct).0;
              at_most = omega (arith, n, sound.at_most);
            },
            omega (arith, n, m),
            (ext sound.distinct).1,
          )
