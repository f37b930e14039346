-- ===== src/Shell/Lexer/Tests.antt =====
-- The lexer on fixed lines.
use imagineos.Base.{ℕ, ◌≡◌, ◌≤◌, refl, true, false, List, [], ◌∷◌, arith}
use imagineos.Base.Lists.{length, All}
use imagineos.Base.Outcome.{ok, err, bind, reject}
use imagineos.Shell.Lexer.{
  Segment, Token, word, operator, or, redirect_append, unquoted, single_quoted, double_quoted,
  unterminated_quote, tokenize, next_token, skip_blanks, operator_before, read_word, read_segments,
  read_segment, end_word, push_segment, push_segment_direct, push_bytes, push_byte, until_quote,
  until_double_quote, until_stop, max_tokens,
}
use imagineos.Shell.Lexer.Words.{IsToken, tokenize_lem, read_word_rounds}

-- a"$b"||'c d'>>e #f
abbrev line : List ℕ
line =
    97 ∷ 34 ∷ 36 ∷ 98 ∷ 34 ∷ 124 ∷ 124 ∷ 39 ∷ 99 ∷ 32 ∷ 100 ∷ 39 ∷ 62 ∷ 62 ∷ 101 ∷ 32 ∷ 35 ∷ 102
    ∷ []

abbrev plain : List ℕ → Segment
plain bytes = record { bytes = bytes; kind = unquoted; copies_variable = false }

abbrev tokens : List Token
tokens =
    word (record {
      segments =
          plain (97 ∷ [])
          ∷ record { bytes = 36 ∷ 98 ∷ []; kind = double_quoted; copies_variable = true }
          ∷ [];
    })
    ∷ operator or
    ∷ word (record {
      segments =
          record { bytes = 99 ∷ 32 ∷ 100 ∷ []; kind = single_quoted; copies_variable = false } ∷ [];
    })
    ∷ operator redirect_append
    ∷ word (record { segments = plain (101 ∷ []) ∷ [] })
    ∷ []

tokenize_run : tokenize line ≡ ok tokens
unfolding tokenize next_token skip_blanks operator_before read_word read_segments read_segment
    end_word push_segment push_segment_direct push_bytes push_byte until_quote until_double_quote
    until_stop bind reject
tokenize_run = refl

-- Within double quotes the `$` of `\$x` is kept, and once another `$` follows, the segment is marked:
-- nothing tells the two apart any more.
escaped_dollar :
    until_double_quote
      (92 ∷ 36 ∷ 120 ∷ 36 ∷ 121 ∷ 34 ∷ [])
      (record { bytes = []; kind = double_quoted; copies_variable = false })
    ≡ ok (
      record { bytes = 36 ∷ 120 ∷ 36 ∷ 121 ∷ []; kind = double_quoted; copies_variable = true },
      [],
    )
unfolding until_double_quote push_byte bind reject
escaped_dollar = refl

unterminated : tokenize (39 ∷ 97 ∷ []) ≡ err unterminated_quote
unfolding tokenize next_token skip_blanks operator_before read_word read_segments read_segment
    until_quote bind
unterminated = refl

tokenize_lem_example : (length tokens ≤ max_tokens) × All IsToken tokens
tokenize_lem_example = tokenize_lem line tokens tokenize_run

read_word_rounds_example : read_segments 9 (record { segments = [] }) line ≡ read_word line
read_word_rounds_example = read_word_rounds 9 line (omega arith)
