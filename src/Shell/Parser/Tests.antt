-- ===== src/Shell/Parser/Tests.antt =====
-- The parser on fixed tokens.
use imagineos.Base.{ℕ, ◌≡◌, refl, true, false, none, some, List, [], ◌∷◌, arith}
use imagineos.Base.Outcome.{ok, err, bind, reject}
use imagineos.Shell.Lexer.{Word, word, operator, and, pipe, redirect_in, unquoted}
use imagineos.Shell.Parser.{
  Entry, end, on_success, missing_redirection_target, parse_list, entries_from, parse_pipeline,
  pipeline_from, parse_command, command_from, take_word, end_command, connect,
}
use imagineos.Shell.Parser.Printer.{print_entries, print_pipeline, print_command, IsList}
use imagineos.Shell.Parser.RoundTrip.{parse_list-print}

abbrev letter : ℕ → Word
letter b = record {
  segments = record { bytes = b ∷ []; kind = unquoted; copies_variable = false } ∷ [];
}

-- a <b | c >>d && e
abbrev entries : List Entry
entries =
    record {
      pipeline =
          record { words = letter 97 ∷ []; stdin = some (letter 98); stdout = none; append = false }
          ∷ record {
            words = letter 99 ∷ [];
            stdin = none;
            stdout = some (letter 100);
            append = true;
          }
          ∷ [];
      connector = on_success;
    }
    ∷ record {
      pipeline =
          record { words = letter 101 ∷ []; stdin = none; stdout = none; append = false } ∷ [];
      connector = end;
    }
    ∷ []

print_run :
    print_entries (
      record {
        pipeline =
            record {
              words = letter 97 ∷ [];
              stdin = some (letter 98);
              stdout = none;
              append = false;
            }
            ∷ [];
        connector = end;
      }
      ∷ [])
    ≡ word (letter 97) ∷ operator redirect_in ∷ word (letter 98) ∷ []
unfolding print_entries print_pipeline print_command
print_run = refl

no_target :
    parse_list (word (letter 97) ∷ operator redirect_in ∷ operator pipe ∷ [])
    ≡ err missing_redirection_target
unfolding parse_list entries_from parse_pipeline pipeline_from parse_command command_from take_word
    end_command bind reject
no_target = refl

-- A connector may end the line.
trailing_and :
    parse_list (word (letter 97) ∷ operator and ∷ [])
    ≡ ok (
        record {
          pipeline =
              record { words = letter 97 ∷ []; stdin = none; stdout = none; append = false } ∷ [];
          connector = on_success;
        }
        ∷ [])
unfolding parse_list entries_from parse_pipeline pipeline_from parse_command command_from take_word
    end_command connect bind reject
trailing_and = refl

entries-IsList : IsList entries
entries-IsList = record {
  few_entries = omega arith;
  all_entries = (
    record {
      some_command = omega arith;
      few_commands = omega arith;
      all_commands = (
        record { some_word = omega arith; few_words = omega arith; no_append = λ e. refl },
        (record { some_word = omega arith; few_words = omega arith; no_append = λ e. (cc) }, tt),
      );
    },
    (
      record {
        some_command = omega arith;
        few_commands = omega arith;
        all_commands = (
          record { some_word = omega arith; few_words = omega arith; no_append = λ e. refl },
          tt,
        );
      },
      tt,
    ),
  );
  ended = (λ e. cc, tt);
}

parse_list-print_example : parse_list (print_entries entries) ≡ ok entries
parse_list-print_example = parse_list-print entries entries-IsList
