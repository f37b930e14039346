-- ===== src/Shell/Parser/Printer.antt =====
-- What the parser's grammar means: the tokens that write a list of pipelines down.
use imagineos.Base.{
  ◌≤◌, ◌<◌, ◌≡◌, Bool, false, Option, none, some, List, [], ◌∷◌, ◌++◌, map, if◌then◌else◌,
}
use imagineos.Base.Lists.{length, All}
use imagineos.Shell.Lexer.{
  Word, Token, word, operator, pipe, and, or, semicolon, background, redirect_in, redirect_out,
  redirect_append,
}
use imagineos.Shell.Parser.{
  Command, Pipeline, Connector, always, on_success, on_failure, in_background, end, Entry,
  max_words, max_pipeline, max_entries,
}

abbrev pub print_stdin : Option Word → List Token
print_stdin none = []
print_stdin (some w) = operator redirect_in ∷ word w ∷ []

abbrev pub print_stdout : Option Word → Bool → List Token
print_stdout none append = []
print_stdout (some w) append =
    operator (if append then redirect_append else redirect_out) ∷ word w ∷ []

unfoldable pub print_command : Command → List Token
print_command c = map word c.words ++ (print_stdin c.stdin ++ print_stdout c.stdout c.append)

unfoldable pub print_pipeline : Pipeline → List Token
print_pipeline [] = []
print_pipeline (c ∷ []) = print_command c
print_pipeline (c ∷ d ∷ cs) = print_command c ++ (operator pipe ∷ print_pipeline (d ∷ cs))

abbrev pub print_connector : Connector → List Token
print_connector always = operator semicolon ∷ []
print_connector on_success = operator and ∷ []
print_connector on_failure = operator or ∷ []
print_connector in_background = operator background ∷ []
print_connector end = []

unfoldable pub print_entries : List Entry → List Token
print_entries [] = []
print_entries (e ∷ es) =
    print_pipeline e.pipeline ++ (print_connector e.connector ++ print_entries es)

-- A command has a word and at most `max_words`; the mode of appending belongs to a redirection.
pub record IsCommand (c : Command) : Type 0 where
  pub some_word : 0 < length c.words
  pub few_words : length c.words ≤ max_words
  pub no_append : c.stdout ≡ none → c.append ≡ false

pub record IsEntry (e : Entry) : Type 0 where
  pub some_command : 0 < length e.pipeline
  pub few_commands : length e.pipeline ≤ max_pipeline
  pub all_commands : All IsCommand e.pipeline

-- Only the last entry has no connector behind it.
abbrev pub Ended : List Entry → Type 0
Ended [] = Unit
Ended (e ∷ []) = Unit
Ended (e ∷ f ∷ es) = (e.connector ≡ end → ⊥) × Ended (f ∷ es)

pub record IsList (es : List Entry) : Type 0 where
  pub few_entries : length es ≤ max_entries
  pub all_entries : All IsEntry es
  pub ended : Ended es
