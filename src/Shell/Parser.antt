-- ===== src/Shell/Parser.antt =====
-- userland/apps/shell/parser.rs: the pipelines of a list of tokens. An index into the tokens is the
-- rest of the tokens from it on, and an array with a count is a list of at most its size.
pub mod Printer
pub mod RoundTrip
mod Tests
use imagineos.Base.{
  ℕ, zero, suc, Bool, true, false, Option, none, some, List, [], ◌∷◌, ◌++◌, ◌==◌, if◌then◌else◌,
}
use imagineos.Base.Lists.{length}
use imagineos.Base.Outcome.{Outcome, ok, err, bind, reject}
use imagineos.Shell.Lexer.{
  Word, Token, word, operator, Operator, pipe, and, or, semicolon, background, redirect_in,
  redirect_out, redirect_append,
}

abbrev pub max_pipeline : ℕ
max_pipeline = 3

abbrev pub max_words : ℕ
max_words = 6

abbrev pub max_entries : ℕ
max_entries = 6

pub record Command : Type 0 where
  pub words : List Word
  pub stdin : Option Word
  pub stdout : Option Word
  pub append : Bool

abbrev pub empty_command : Command
empty_command = record { words = []; stdin = none; stdout = none; append = false }

-- The commands of a pipeline.
abbrev pub Pipeline : Type 0
Pipeline = List Command

pub data Connector : Type 0 where
  always on_success on_failure in_background end : Connector

pub record Entry : Type 0 where
  pub pipeline : Pipeline
  pub connector : Connector

pub data ParseError : Type 0 where
  unexpected_operator pipeline_too_long too_many_words missing_redirection_target : ParseError

pub data RedirectSlot : Type 0 where
  no_slot in_slot out_slot : RedirectSlot

-- The word at the slot that waits for it.
pub take_word : RedirectSlot → Word → Command → Outcome ParseError Command
take_word in_slot w c = ok (record c { stdin = some w })
take_word out_slot w c = ok (record c { stdout = some w })
take_word no_slot w c =
    reject (length c.words == max_words) too_many_words
      (ok (record c { words = c.words ++ w ∷ [] }))

abbrev pub is_waiting : RedirectSlot → Bool
is_waiting no_slot = false
is_waiting in_slot = true
is_waiting out_slot = true

abbrev pub clear_stdin : Command → Command
clear_stdin c = record c { stdin = none }

abbrev pub clear_stdout : Bool → Command → Command
clear_stdout append c = record c { stdout = none; append = append }

-- Behind the loop of `parse_command`.
pub end_command : RedirectSlot → Command → List Token → Outcome ParseError (Command × List Token)
end_command pending c rest =
    reject (is_waiting pending) missing_redirection_target
      (reject (length c.words == 0) unexpected_operator (ok (c, rest)))

-- The loop of `parse_command`.
pub command_from : RedirectSlot → Command → List Token → Outcome ParseError (Command × List Token)
command_from pending c [] = end_command pending c []
command_from pending c (word w ∷ rest) =
    bind (take_word pending w c) λ c'. command_from no_slot c' rest
command_from pending c (operator redirect_in ∷ rest) =
    reject (is_waiting pending) missing_redirection_target
      (command_from in_slot (clear_stdin c) rest)
command_from pending c (operator redirect_out ∷ rest) =
    reject (is_waiting pending) missing_redirection_target
      (command_from out_slot (clear_stdout false c) rest)
command_from pending c (operator redirect_append ∷ rest) =
    reject (is_waiting pending) missing_redirection_target
      (command_from out_slot (clear_stdout true c) rest)
command_from pending c (operator pipe ∷ rest) = end_command pending c (operator pipe ∷ rest)
command_from pending c (operator and ∷ rest) = end_command pending c (operator and ∷ rest)
command_from pending c (operator or ∷ rest) = end_command pending c (operator or ∷ rest)
command_from pending c (operator semicolon ∷ rest) =
    end_command pending c (operator semicolon ∷ rest)
command_from pending c (operator background ∷ rest) =
    end_command pending c (operator background ∷ rest)

pub parse_command : List Token → Outcome ParseError (Command × List Token)
parse_command tokens = command_from no_slot empty_command tokens

-- The connector behind a pipeline, and the rest behind it.
pub connect : List Token → Outcome ParseError (Connector × List Token)
connect [] = ok (end, [])
connect (operator semicolon ∷ rest) = ok (always, rest)
connect (operator and ∷ rest) = ok (on_success, rest)
connect (operator or ∷ rest) = ok (on_failure, rest)
connect (operator background ∷ rest) = ok (in_background, rest)
connect (operator pipe ∷ rest) = err unexpected_operator
connect (operator redirect_in ∷ rest) = err unexpected_operator
connect (operator redirect_out ∷ rest) = err unexpected_operator
connect (operator redirect_append ∷ rest) = err unexpected_operator
connect (word w ∷ rest) = err unexpected_operator

-- The rest behind a `|`, if one follows.
abbrev pub behind_pipe : List Token → Option (List Token)
behind_pipe (operator pipe ∷ rest) = some rest
behind_pipe [] = none
behind_pipe (operator and ∷ rest) = none
behind_pipe (operator or ∷ rest) = none
behind_pipe (operator semicolon ∷ rest) = none
behind_pipe (operator background ∷ rest) = none
behind_pipe (operator redirect_in ∷ rest) = none
behind_pipe (operator redirect_out ∷ rest) = none
behind_pipe (operator redirect_append ∷ rest) = none
behind_pipe (word w ∷ rest) = none

-- `parse_pipeline`, with room for so many commands behind the ones read.
pub pipeline_from : ℕ → List Command → List Token → Outcome ParseError (Entry × List Token)
pipeline_from room commands [] = err unexpected_operator
pipeline_from zero commands (t ∷ tokens) = err pipeline_too_long
pipeline_from (suc room) commands (t ∷ tokens) = bind (parse_command (t ∷ tokens)) λ p.
    elim (behind_pipe p.1) [
      | some rest ↦ pipeline_from room (commands ++ p.0 ∷ []) rest
      | none ↦
          bind (connect p.1)
            λ q. ok (record { pipeline = commands ++ p.0 ∷ []; connector = q.0 }, q.1)
    ]

pub parse_pipeline : List Token → Outcome ParseError (Entry × List Token)
parse_pipeline tokens = pipeline_from max_pipeline [] tokens

abbrev pub is_end : Connector → Bool
is_end end = true
is_end always = false
is_end on_success = false
is_end on_failure = false
is_end in_background = false

-- The loop of `parse_list`, with room for so many entries.
pub entries_from : ℕ → List Token → Outcome ParseError (List Entry)
entries_from room [] = ok []
entries_from zero (t ∷ tokens) = err pipeline_too_long
entries_from (suc room) (t ∷ tokens) = bind (parse_pipeline (t ∷ tokens)) λ p.
    elim (is_end (p.0).connector) [
      | true ↦ ok (p.0 ∷ [])
      | false ↦ bind (entries_from room p.1) λ es. ok (p.0 ∷ es)
    ]

pub parse_list : List Token → Outcome ParseError (List Entry)
parse_list tokens = entries_from max_entries tokens
