-- ===== src/Shell/Lexer.antt =====
-- userland/apps/shell/lexer.rs: the tokens of a command line. A position in the line is the rest of
-- the line from it on, and an array with a count is a list of at most its size.
pub mod Words
mod Tests
use imagineos.Base.{
  ℕ, zero, suc, ◌+◌, ◌-◌, Bool, true, false, ◌&&◌, ◌||◌, not, Option, none, some, List, [], ◌∷◌,
  ◌++◌, ltb, ◌==◌, if◌then◌else◌,
}
use imagineos.Base.Lists.{length}
use imagineos.Base.Outcome.{Outcome, ok, err, bind, reject}

abbrev pub max_tokens : ℕ
max_tokens = 24

abbrev pub token_size : ℕ
token_size = 64

abbrev pub max_segments : ℕ
max_segments = 2

pub data SegmentKind : Type 0 where
  unquoted single_quoted double_quoted : SegmentKind

pub record Segment : Type 0 where
  pub bytes : List ℕ
  pub kind : SegmentKind
  pub copies_variable : Bool

pub record Word : Type 0 where
  pub segments : List Segment

abbrev pub only_segment : List Segment → Option Segment
only_segment [] = none
only_segment (s ∷ []) = some s
only_segment (s ∷ t ∷ rest) = none

pub literal_bytes : Word → Option (List ℕ)
literal_bytes w = elim (only_segment w.segments) [
  | none ↦ none
  | some s ↦ if s.copies_variable then none else some s.bytes
]

pub data Operator : Type 0 where
  pipe and or semicolon background redirect_in redirect_out redirect_append : Operator

pub data Token : Type 0 where
  word : Word → Token
  operator : Operator → Token

pub data LexError : Type 0 where
  unterminated_quote too_many_tokens word_too_long : LexError

abbrev pub is_blank : ℕ → Bool
is_blank b = (b == 32) || (b == 9)

-- Is `b` the first byte of the line?
abbrev pub starts_with : ℕ → List ℕ → Bool
starts_with b [] = false
starts_with b (c ∷ line) = c == b

abbrev pub tail : List ℕ → List ℕ
tail [] = []
tail (c ∷ line) = line

-- The operator at the byte `b` before `rest`, and the rest of the line behind it; the two-byte ones
-- come first. The codes are `&` 38, `|` 124, `>` 62, `;` 59 and `<` 60.
pub operator_before : ℕ → List ℕ → Option (Operator × List ℕ)
operator_before b rest =
    if (b == 38) && starts_with 38 rest
    then some (and, tail rest)
    else if (b == 124) && starts_with 124 rest
    then some (or, tail rest)
    else if (b == 62) && starts_with 62 rest
    then some (redirect_append, tail rest)
    else if b == 124
    then some (pipe, rest)
    else if b == 59
    then some (semicolon, rest)
    else if b == 38
    then some (background, rest)
    else if b == 60
    then some (redirect_in, rest)
    else if b == 62
    then some (redirect_out, rest)
    else none

abbrev pub is_some {ℓ} : {A : Type ℓ} → Option A → Bool
is_some (some a) = true
is_some none = false

pub push_byte : Segment → ℕ → Outcome LexError Segment
push_byte s byte =
    reject (length s.bytes == token_size) word_too_long
      (ok (record s { bytes = s.bytes ++ byte ∷ [] }))

pub push_bytes : Segment → List ℕ → Outcome LexError Segment
push_bytes s [] = ok s
push_bytes s (byte ∷ bytes) = bind (push_byte s byte) λ s'. push_bytes s' bytes

pub push_segment_direct : Word → Segment → Outcome LexError Word
push_segment_direct w s =
    reject (length w.segments == max_segments) word_too_long
      (ok (record { segments = w.segments ++ s ∷ [] }))

pub push_segment : Word → List ℕ → SegmentKind → Bool → Outcome LexError Word
push_segment w bytes kind copies_variable =
    bind (push_bytes (record { bytes = []; kind = kind; copies_variable = copies_variable }) bytes)
      λ s. push_segment_direct w s

-- The bytes up to the closing `'`, and the rest behind it.
pub until_quote : List ℕ → Outcome LexError (List ℕ × List ℕ)
until_quote [] = err unterminated_quote
until_quote (b ∷ line) =
    if b == 39 then ok ([], line) else (bind (until_quote line) λ p. ok (b ∷ p.0, p.1))

-- Is the byte one that `\` escapes within `"`: one of `"`, `\`, `$` and the backtick?
abbrev pub is_escapable : ℕ → Bool
is_escapable b = (b == 34) || ((b == 92) || ((b == 36) || (b == 96)))

abbrev pub mark_variable : ℕ → Segment → Segment
mark_variable b s = if b == 36 then record s { copies_variable = true } else s

-- The segment up to the closing `"`, and the rest behind it.
pub until_double_quote : List ℕ → Segment → Outcome LexError (Segment × List ℕ)
until_double_quote [] s = err unterminated_quote
until_double_quote (b ∷ []) s =
    if b == 34
    then ok (s, [])
    else (bind (push_byte (mark_variable b s) b) λ s'. err unterminated_quote)
until_double_quote (b ∷ next ∷ line) s =
    if b == 34
    then ok (s, next ∷ line)
    else if (b == 92) && is_escapable next
    then (bind (push_byte s next) λ s'. until_double_quote line s')
    else (bind (push_byte (mark_variable b s) b) λ s'. until_double_quote (next ∷ line) s')

-- Where an unquoted part ends.
abbrev pub stops : ℕ → List ℕ → Bool
stops b line =
    is_blank b || ((b == 39) || ((b == 34) || ((b == 92) || is_some (operator_before b line))))

pub until_stop : List ℕ → List ℕ × List ℕ
until_stop [] = ([], [])
until_stop (b ∷ line) =
    let p = until_stop line in if stops b line then ([], b ∷ line) else (b ∷ p.0, p.1)

abbrev pub has_variable : List ℕ → Bool
has_variable [] = false
has_variable (b ∷ bytes) = (b == 36) || has_variable bytes

pub escaped : Word → List ℕ → Outcome LexError (Word × List ℕ)
escaped w [] = err unterminated_quote
escaped w (b ∷ line) = bind (push_segment w (b ∷ []) unquoted false) λ w'. ok (w', line)

-- The match of `read_word`, at the byte `b` before `line`.
pub read_segment : Word → ℕ → List ℕ → Outcome LexError (Word × List ℕ)
read_segment w b line =
    if b == 39
    then (bind (until_quote line)
        λ p. bind (push_segment w p.0 single_quoted false) λ w'. ok (w', p.1))
    else if b == 34
    then (bind
        (until_double_quote line
          (record { bytes = []; kind = double_quoted; copies_variable = false }))
        λ p. bind (push_segment_direct w p.0) λ w'. ok (w', p.1))
    else if b == 92
    then escaped w line
    else (bind
        (push_segment w (until_stop (b ∷ line)).0 unquoted (has_variable (until_stop (b ∷ line)).0))
        λ w'. ok (w', (until_stop (b ∷ line)).1))

-- The end of `read_word`.
pub end_word : Word → List ℕ → Outcome LexError (Word × List ℕ)
end_word w line = reject (length w.segments == 0) word_too_long (ok (w, line))

-- The loop of `read_word`. Every round adds a segment, so a bound on the rounds that is larger than
-- `max_segments` is never used up.
pub read_segments : ℕ → Word → List ℕ → Outcome LexError (Word × List ℕ)
read_segments zero w line = err word_too_long
read_segments (suc rounds) w [] = end_word w []
read_segments (suc rounds) w (b ∷ line) =
    if is_blank b || is_some (operator_before b line)
    then end_word w (b ∷ line)
    else (bind (read_segment w b line) λ p. read_segments rounds p.0 p.1)

pub read_word : List ℕ → Outcome LexError (Word × List ℕ)
read_word line = read_segments (max_segments + 1) (record { segments = [] }) line

pub skip_blanks : List ℕ → List ℕ
skip_blanks [] = []
skip_blanks (b ∷ line) = let rest = skip_blanks line in if is_blank b then rest else b ∷ line

-- The loop of `tokenize` at a byte that is not blank, with room for so many tokens.
pub next_token : ℕ → List ℕ → Outcome LexError (List Token)
next_token room [] = ok []
next_token zero (b ∷ line) = if b == 35 then ok [] else err too_many_tokens
next_token (suc room) (b ∷ line) = if b == 35 then ok [] else elim (operator_before b line) [
  | some (o, rest) ↦ bind (next_token room (skip_blanks rest)) λ ts. ok (operator o ∷ ts)
  | none ↦
      bind (read_word (b ∷ line))
        λ p. bind (next_token room (skip_blanks p.1)) λ ts. ok (word p.0 ∷ ts)
]

pub tokenize : List ℕ → Outcome LexError (List Token)
tokenize line = next_token max_tokens (skip_blanks line)
