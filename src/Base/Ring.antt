-- ===== src/Base/Ring.antt =====
-- Circular buffers: the pipes, the input queue and the kernel log keep their data in an array that
-- is read and written modulo its capacity. `span` is the abstract content, addressed by positions
-- that are never reduced, so that most laws need no reasoning about `%`.
use Prim.Native.Nat.{ℕ, zero, suc, ◌+◌, ◌-◌, ◌%◌, ◌≤◌, ◌<◌}
use mathlib.Core.Path.{◌≡◌, refl, ap, ap₂, sym, ◌∙◌}
use mathlib.Core.Logic.{◌≢◌}
use mathlib.Core.List.{List, [], ◌∷◌, ◌++◌}
use native.Mathlib.Decide.{dec_lt}
use native.Mathlib.Nat.{mod-lt, mod-add-mod, mod-eq_of_lt, mod-eq-sub-mod, mod-mod}
use native.Mathlib.Omega.{arith}
use imagineos.Base.Lists.{
  length, get_or, set, get_or-set_self, get_or-set_ne, take, drop, take-append_length,
  drop-append_length, drop-cons,
}

-- Two positions less than a whole turn apart are different cells.
pub mod-ne : (c a k : ℕ) → 0 < k → k < c → (a + k) % c ≢ a % c
mod-ne c a k hk hc = elim (dec_lt (a % c + k) c) [
  | yes p ↦ omega (arith, mod-add-mod a c k, mod-eq_of_lt p)
  | no p ↦ omega (
    arith,
    mod-lt a {m = c} (omega arith),
    mod-add-mod a c k,
    mod-eq-sub-mod {n = a % c + k} {m = c} (omega arith),
    mod-eq_of_lt {n = a % c + k - c} {m = c} (omega (arith, mod-lt a {m = c} (omega arith))),
  )
]

module _ {ℓ} {A : Type ℓ} (d : A) (c : ℕ) where
  -- The `n` items from position `k` on.
  abbrev pub span : List A → ℕ → ℕ → List A
  span buf k zero = []
  span buf k (suc n) = get_or buf (k % c) d ∷ span buf (k + 1) n

  pub length-span : (buf : List A) (k n : ℕ) → length (span buf k n) ≡ n
  length-span buf k zero = refl
  length-span buf k (suc n) = ap suc (length-span buf (k + 1) n)

  -- A position and its cell start the same span.
  pub span-mod : (buf : List A) (k n : ℕ) → span buf (k % c) n ≡ span buf k n
  span-mod buf k zero = refl
  span-mod buf k (suc n) =
      ap₂ (λ i t. get_or buf i d ∷ t) (mod-mod k c)
        (sym (span-mod buf (k % c + 1) n)
          ∙ ap (λ i. span buf i n) (mod-add-mod k c 1)
          ∙ span-mod buf (k + 1) n)

  pub span_cong :
      (buf : List A) (k k' n n' : ℕ) → k % c ≡ k' % c → n ≡ n' → span buf k n ≡ span buf k' n'
  span_cong buf k k' n n' e e' = sym (span-mod buf k n) ∙ ap₂ (span buf) e e' ∙ span-mod buf k' n'

  pub span-append :
      (buf : List A) (k m n : ℕ) → span buf k (m + n) ≡ span buf k m ++ span buf (k + m) n
  span-append buf k zero n = ap₂ (span buf) (omega arith) (omega arith)
  span-append buf k (suc m) n =
      ap (span buf k) sum
      ∙ ap (λ t. get_or buf (k % c) d ∷ t)
          (span-append buf (k + 1) m n ∙ ap (λ i. span buf (k + 1) m ++ span buf i n) shift)
    where
      sum : suc m + n ≡ suc (m + n)
      sum = omega arith

      shift : k + 1 + m ≡ k + suc m
      shift = omega arith

  -- The first `m` of a span, and the others.
  pub span_split :
      (buf : List A) (k m n : ℕ)
      → m ≤ n
      → (take m (span buf k n) ≡ span buf k m) × (drop m (span buf k n) ≡ span buf (k + m) (n - m))
  span_split buf k m n h =
      let whole : span buf k n ≡ span buf k m ++ span buf (k + m) (n - m) =
        ap (span buf k) sum ∙ span-append buf k m (n - m) in
      (
        ap (take m) whole ∙ take-append_length m _ _ (length-span buf k m),
        ap (drop m) whole ∙ drop-append_length m _ _ (length-span buf k m),
      )
    where
      sum : n ≡ m + (n - m)
      sum = omega arith

  -- A write to the cell of a position behind the span, less than a turn on, leaves it.
  pub span-set_ne :
      (buf : List A) (k n j : ℕ) (x : A)
      → k + n ≤ j
      → j < k + c
      → span (set buf (j % c) x) k n ≡ span buf k n
  span-set_ne buf k zero j x h h' = refl
  span-set_ne buf k (suc n) j x h h' =
      ap₂ ◌∷◌
        (get_or-set_ne buf (j % c) (k % c) x d
          (λ e. mod-ne c k (j - k) (omega arith) (omega arith) (ap (λ i. i % c) (omega arith) ∙ e)))
        (span-set_ne buf (k + 1) n j x (omega arith) (omega arith))

  -- A write to the cell just behind the span appends to it.
  pub span-set_end :
      (buf : List A) (k n : ℕ) (x : A)
      → n < c
      → c ≤ length buf
      → span (set buf ((k + n) % c) x) k (n + 1) ≡ span buf k n ++ x ∷ []
  span-set_end buf k n x h h' =
      span-append (set buf ((k + n) % c) x) k n 1
      ∙ ap₂ ◌++◌ (span-set_ne buf k n (k + n) x (omega arith) (omega arith)) (
          ap (λ y. y ∷ [])
            (get_or-set_self buf ((k + n) % c) x d
              (omega (arith, mod-lt (k + n) {m = c} (omega arith)))))

  pub span-set_cell :
      (buf : List A) (k n i : ℕ) (x : A)
      → i ≡ (k + n) % c
      → n < c
      → c ≤ length buf
      → span (set buf i x) k (n + 1) ≡ span buf k n ++ x ∷ []
  span-set_cell buf k n i x e h h' =
      ap (λ j. span (set buf j x) k (n + 1)) e ∙ span-set_end buf k n x h h'

  -- A span that does not reach the end of the array is a slice of it.
  pub span-slice :
      (buf : List A) (s m : ℕ) → length buf ≡ c → s + m ≤ c → span buf s m ≡ take m (drop s buf)
  span-slice buf s zero e h = refl
  span-slice buf s (suc m) e h =
      ap₂ (λ i t. get_or buf i d ∷ t) (mod-eq_of_lt {n = s} {m = c} (omega arith))
        (span-slice buf (s + 1) m e (omega arith) ∙ ap (λ i. take m (drop i buf)) next)
      ∙ ap (take (suc m)) (sym (drop-cons s buf d (omega arith)))
    where
      next : s + 1 ≡ suc s
      next = omega arith
