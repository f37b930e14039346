-- ===== src/Shell/Lexer/Words.antt =====
-- The sizes of what the lexer makes, and the bound on its rounds.
use mathlib.Core.Path.{subst}
use imagineos.Base.{
  ℕ, zero, suc, ◌+◌, ◌≤◌, ◌<◌, ◌≡◌, refl, Bool, false, ◌||◌, ◌&&◌, Option, none, some, List, [],
  ◌∷◌, arith, ◌==◌, Bool-cases, inl, inr,
}
use imagineos.Base.Lists.{length, All, length-append}
use imagineos.Memory.Regions.{All-snoc}
use imagineos.Base.Outcome.{Outcome, ok, err, bind, bind-ok, reject-ok, ok-injective}
use imagineos.Shell.Lexer.{
  Segment, Word, Token, word, operator, Operator, LexError, token_size, max_segments, max_tokens,
  push_byte, push_bytes, push_segment_direct, push_segment, until_double_quote, escaped,
  read_segment, end_word, read_segments, read_word, next_token, tokenize, skip_blanks,
  operator_before, mark_variable, is_escapable, unquoted, single_quoted, SegmentKind, is_blank,
  is_some, too_many_tokens,
}

abbrev pub IsSegment : Segment → Type 0
IsSegment s = length s.bytes ≤ token_size

-- A word that is being read.
pub record IsPart (w : Word) : Type 0 where
  pub few_segments : length w.segments ≤ max_segments
  pub all_segments : All IsSegment w.segments

pub record IsWord (w : Word) : Type 0 where
  pub some_segment : 0 < length w.segments
  pub few_segments : length w.segments ≤ max_segments
  pub all_segments : All IsSegment w.segments

abbrev pub IsToken : Token → Type 0
IsToken (word w) = IsWord w
IsToken (operator o) = Unit

push_byte-IsSegment :
    (s : Segment) (b : ℕ) (s' : Segment) → IsSegment s → push_byte s b ≡ ok s' → IsSegment s'
unfolding push_byte
push_byte-IsSegment s b s' v h =
    let (t, h1) = reject-ok _ h in
    subst IsSegment (ok-injective h1) (ground (arith, length-append s.bytes (b ∷ [])))

push_bytes-IsSegment :
    (s : Segment) (bs : List ℕ) (s' : Segment)
    → IsSegment s
    → push_bytes s bs ≡ ok s'
    → IsSegment s'
unfolding push_bytes
push_bytes-IsSegment s [] s' v h = subst IsSegment (ok-injective h) v
push_bytes-IsSegment s (b ∷ bs) s' v h =
    let (s1, h1, h2) = bind-ok h in
    push_bytes-IsSegment s1 bs s' (push_byte-IsSegment s b s1 v h1) h2

-- Another segment behind the others.
Longer : Word → Word → Type 0
Longer w w' = IsPart w' × (length w'.segments ≡ length w.segments + 1)

push_segment_direct-Longer :
    (w : Word) (s : Segment) (w' : Word)
    → IsPart w
    → IsSegment s
    → push_segment_direct w s ≡ ok w'
    → Longer w w'
unfolding push_segment_direct Longer
push_segment_direct-Longer w s w' v i h =
    let (t, h1) = reject-ok _ h in
    subst (λ (x : Word). IsPart x × (length x.segments ≡ length w.segments + 1)) (ok-injective h1)
      (
        record {
          few_segments = ground (arith, length-append w.segments (s ∷ []), v.few_segments);
          all_segments = All-snoc IsSegment w.segments v.all_segments i;
        },
        length-append w.segments (s ∷ []),
      )

push_segment-Longer :
    (w : Word) (bs : List ℕ) (k : SegmentKind) (c : Bool) (w' : Word)
    → IsPart w
    → push_segment w bs k c ≡ ok w'
    → Longer w w'
unfolding push_segment
push_segment-Longer w bs k c w' v h =
    let (s, h1, h2) = bind-ok h in
    push_segment_direct-Longer w s w' v (push_bytes-IsSegment _ bs s (omega arith) h1) h2

mark_variable-IsSegment : (b : ℕ) (s : Segment) → IsSegment s → IsSegment (mark_variable b s)
mark_variable-IsSegment b s v = ground arith

escaped-Longer :
    (w : Word) (line : List ℕ) (out : Word × List ℕ)
    → IsPart w
    → escaped w line ≡ ok out
    → Longer w out.0
unfolding escaped
escaped-Longer w [] out v h = cc
escaped-Longer w (b ∷ line) out v h =
    let (w', h1, h2) = bind-ok h in
    subst (λ (o : Word × List ℕ). Longer w o.0) (ok-injective h2)
      (push_segment-Longer w (b ∷ []) unquoted false w' v h1)

Longer-IsPart : (w w' : Word) → Longer w w' → IsPart w'
unfolding Longer
Longer-IsPart w w' l = l.0

-- At most so many tokens, all in order.
abbrev Sized : ℕ → List Token → Type 0
Sized room ts = (length ts ≤ room) × All IsToken ts

until_double_quote-IsSegment :
    (line : List ℕ) (s : Segment) (out : Segment × List ℕ)
    → IsSegment s
    → until_double_quote line s ≡ ok out
    → IsSegment out.0
unfolding until_double_quote
until_double_quote-IsSegment [] s out v h = cc
until_double_quote-IsSegment (b ∷ []) s out v h = elim (Bool-cases (b == 34)) [
  | inl t ↦ subst (λ (o : Segment × List ℕ). IsSegment o.0) (ok-injective (rw t at h)) v
  | inr t ↦ let (_, _, h1) = bind-ok (rw t at h) in cc
]
until_double_quote-IsSegment (b ∷ next ∷ line) s out v h = elim (Bool-cases (b == 34)) [
  | inl t ↦ subst (λ (o : Segment × List ℕ). IsSegment o.0) (ok-injective (rw t at h)) v
  | inr t ↦ elim (Bool-cases ((b == 92) && is_escapable next)) [
    | inl u ↦
        let (s1, h1, h2) = bind-ok (rw (t, u) at h) in
        until_double_quote-IsSegment line s1 out (push_byte-IsSegment s next s1 v h1) h2
    | inr u ↦
        let (s1, h1, h2) = bind-ok (rw (t, u) at h) in
        until_double_quote-IsSegment (next ∷ line) s1 out
          (push_byte-IsSegment (mark_variable b s) b s1 (mark_variable-IsSegment b s v) h1) h2
  ]
]

read_segment-Longer :
    (w : Word) (b : ℕ) (line : List ℕ) (out : Word × List ℕ)
    → IsPart w
    → read_segment w b line ≡ ok out
    → Longer w out.0
unfolding read_segment
read_segment-Longer w b line out v h = elim (Bool-cases (b == 39)) [
  | inl t ↦
      let (p, _, h1) = bind-ok (rw t at h) in
      let (w', h2, h3) = bind-ok h1 in
      given w' h3 (push_segment-Longer w p.0 single_quoted false w' v h2)
  | inr t ↦ elim (Bool-cases (b == 34)) [
    | inl u ↦
        let (p, h0, h1) = bind-ok (rw (t, u) at h) in
        let (w', h2, h3) = bind-ok h1 in
        given w' h3 (
          push_segment_direct-Longer w p.0 w' v
            (until_double_quote-IsSegment line _ p (omega arith) h0) h2)
    | inr u ↦ elim (Bool-cases (b == 92)) [
      | inl x ↦ escaped-Longer w line out v (rw (t, u, x) at h)
      | inr x ↦
          let (w', h2, h3) = bind-ok (rw (t, u, x) at h) in
          given w' h3 (push_segment-Longer w _ unquoted _ w' v h2)
    ]
  ]
]
  where
    given :
        {rest : List ℕ} (w' : Word)
        → ◌≡◌ {A = Outcome LexError (Word × List ℕ)} (ok (w', rest)) (ok out)
        → Longer w w'
        → Longer w out.0
    given w' e l = subst (λ (o : Word × List ℕ). Longer w o.0) (ok-injective e) l

end_word-IsWord :
    (w : Word) (line : List ℕ) (out : Word × List ℕ)
    → IsPart w
    → end_word w line ≡ ok out
    → IsWord out.0
unfolding end_word
end_word-IsWord w line out v h =
    let (t, h1) = reject-ok _ h in
    subst (λ (o : Word × List ℕ). IsWord o.0) (ok-injective h1)
      (record {
        some_segment = ground arith;
        few_segments = v.few_segments;
        all_segments = v.all_segments;
      })

read_segments-IsWord :
    (rounds : ℕ) (w : Word) (line : List ℕ) (out : Word × List ℕ)
    → IsPart w
    → read_segments rounds w line ≡ ok out
    → IsWord out.0
unfolding read_segments
read_segments-IsWord zero w line out v h = cc
read_segments-IsWord (suc rounds) w [] out v h = end_word-IsWord w [] out v h
read_segments-IsWord (suc rounds) w (b ∷ line) out v h =
    elim (Bool-cases (is_blank b || is_some (operator_before b line))) [
      | inl t ↦ end_word-IsWord w (b ∷ line) out v (rw t at h)
      | inr t ↦
          let (p, h1, h2) = bind-ok (rw t at h) in
          read_segments-IsWord rounds p.0 p.1 out
            (Longer-IsPart w p.0 (read_segment-Longer w b line p v h1)) h2
    ]

next_token-IsToken :
    (room : ℕ) (line : List ℕ) (ts : List Token)
    → next_token room line ≡ ok ts
    → (length ts ≤ room) × All IsToken ts
unfolding next_token read_word
next_token-IsToken room [] ts h = subst (Sized room) (ok-injective h) (omega arith, tt)
next_token-IsToken zero (b ∷ line) ts h = elim (Bool-cases (b == 35)) [
  | inl t ↦ subst (Sized 0) (ok-injective (rw t at h)) (omega arith, tt)
  | inr t ↦ let e : err too_many_tokens ≡ ok ts = rw t at h in cc
]
next_token-IsToken (suc room) (b ∷ line) ts h = elim (Bool-cases (b == 35)) [
  | inl t ↦ subst (Sized (suc room)) (ok-injective (rw t at h)) (omega arith, tt)
  | inr t ↦ of (operator_before b line) (rw t at h) (next_token-IsToken room)
]
  where
    of :
        (o : Option (Operator × List ℕ))
        → elim o [
          | some (o, rest) ↦ bind (next_token room (skip_blanks rest)) λ ts. ok (operator o ∷ ts)
          | none ↦
              bind
                (read_word (b ∷ line))
                λ p. bind (next_token room (skip_blanks p.1)) λ ts. ok (word p.0 ∷ ts)
        ]
          ≡ ok ts
        → ((line : List ℕ) (ts : List Token) → next_token room line ≡ ok ts → Sized room ts)
        → Sized (suc room) ts
    of (some (o, rest)) e ih =
        let (us, h1, h2) = bind-ok e in
        let (n, v) = ih _ us h1 in subst (Sized (suc room)) (ok-injective h2) (omega arith, (tt, v))
    of none e ih =
        let (p, h0, h1) = bind-ok e in
        let (us, h2, h3) = bind-ok h1 in
        let (n, v) = ih _ us h2 in
        subst (Sized (suc room)) (ok-injective h3) (
          omega arith,
          (
            read_segments-IsWord _ _ (b ∷ line) p
                (record { few_segments = omega arith; all_segments = tt }) h0,
            v,
          ),
        )

-- `tokenize` makes at most 24 tokens, and each of its words has one or two segments of at most 64
-- bytes.
pub tokenize_lem :
    (line : List ℕ) (ts : List Token)
    → tokenize line ≡ ok ts
    → (length ts ≤ max_tokens) × All IsToken ts
unfolding tokenize
tokenize_lem line ts h = next_token-IsToken max_tokens (skip_blanks line) ts h

-- Two bounds on the rounds that leave room for the missing segments give the same.
read_segments_rounds :
    (m n : ℕ) (w : Word) (line : List ℕ)
    → IsPart w
    → max_segments < m + length w.segments
    → max_segments < n + length w.segments
    → read_segments m w line ≡ read_segments n w line
unfolding read_segments
read_segments_rounds zero n w line v h k = absurd (omega (arith, v.few_segments))
read_segments_rounds (suc m) zero w line v h k = absurd (omega (arith, v.few_segments))
read_segments_rounds (suc m) (suc n) w [] v h k = refl
read_segments_rounds (suc m) (suc n) w (b ∷ line) v h k =
    elim (Bool-cases (is_blank b || is_some (operator_before b line))) [
      | inl t ↦ rw t refl
      | inr t ↦ rw t (
          of (read_segment w b line) refl (λ p l.
            read_segments_rounds m n p.0 p.1 (Longer-IsPart w p.0 l) (rounds m p.0 l h)
              (rounds n p.0 l k)))
    ]
  where
    rounds :
        (r : ℕ) (w' : Word)
        → Longer w w'
        → max_segments < suc r + length w.segments
        → max_segments < r + length w'.segments
    rounds r w' l h = unfold Longer in omega (arith, l.1)

    of :
        (o : Outcome LexError (Word × List ℕ))
        → read_segment w b line ≡ o
        → ((p : Word × List ℕ) → Longer w p.0 → read_segments m p.0 p.1 ≡ read_segments n p.0 p.1)
        → bind o (λ p. read_segments m p.0 p.1) ≡ bind o (λ p. read_segments n p.0 p.1)
    of (ok p) e ih = unfold bind in ih p (read_segment-Longer w b line p v e)
    of (err x) e ih = unfold bind in refl

-- Any bound on the rounds of `read_word` that is larger than the number of segments gives what
-- `read_word` gives: its own bound never ends the loop.
pub read_word_rounds :
    (n : ℕ) (line : List ℕ)
    → max_segments < n
    → read_segments n (record { segments = [] }) line ≡ read_word line
unfolding read_word
read_word_rounds n line h =
    read_segments_rounds n (max_segments + 1) _ line
      (record { few_segments = omega arith; all_segments = tt }) (omega arith) (omega arith)
