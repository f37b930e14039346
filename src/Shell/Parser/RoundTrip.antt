-- ===== src/Shell/Parser/RoundTrip.antt =====
-- The parser reads back every list of pipelines within its limits from its tokens.
use mathlib.Core.List.{append_assoc, append-nil}
use imagineos.Base.{
  ℕ, zero, suc, ◌+◌, ◌≤◌, ◌<◌, ◌≡◌, refl, sym, ap, ◌∙◌, Bool, true, false, Option, none, some, List,
  [], ◌∷◌, ◌++◌, map, arith, ◌==◌,
}
use imagineos.Base.Lists.{length, All, length-append}
use imagineos.Base.Outcome.{Outcome, ok, bind, reject}
use imagineos.Shell.Lexer.{Word, Token, word, operator, pipe}
use imagineos.Shell.Parser.{
  Command, Pipeline, Connector, always, on_success, on_failure, in_background, end, Entry,
  ParseError, no_slot, take_word, empty_command, end_command, command_from, parse_command, connect,
  behind_pipe, pipeline_from, parse_pipeline, is_end, entries_from, parse_list, max_words,
  max_entries, max_pipeline,
}
use imagineos.Shell.Parser.Printer.{
  print_stdin, print_stdout, print_command, print_pipeline, print_connector, print_entries,
  IsCommand, IsEntry, IsList, Ended,
}

-- A command ends before these tokens.
abbrev EndsCommand : List Token → Type 0
EndsCommand rest = (c : Command) → command_from no_slot c rest ≡ end_command no_slot c rest

-- A word of a command that has room.
word_lem :
    (w : Word) (c : Command) (rest : List Token)
    → length c.words < max_words
    → command_from no_slot c (word w ∷ rest)
      ≡ command_from no_slot (record c { words = c.words ++ w ∷ [] }) rest
unfolding command_from take_word bind reject
word_lem w c rest h = rw room refl
  where
    room : (length c.words == max_words) ≡ false
    room = ground arith

words_lem :
    (ws : List Word) (c : Command) (rest : List Token)
    → length c.words + length ws ≤ max_words
    → command_from no_slot c (map word ws ++ rest)
      ≡ command_from no_slot (record c { words = c.words ++ ws }) rest
words_lem [] c rest h =
    ap (λ ws. command_from no_slot (record c { words = ws }) rest) (sym (append-nil c.words))
words_lem (w ∷ ws) c rest h =
    word_lem w c (map word ws ++ rest) (omega arith)
    ∙ words_lem ws (record c { words = c.words ++ w ∷ [] }) rest
        (omega (arith, length-append c.words (w ∷ [])))
    ∙ ap (λ vs. command_from no_slot (record c { words = vs }) rest)
        (append_assoc c.words (w ∷ []) ws)

stdin_lem :
    (i : Option Word) (c : Command) (rest : List Token)
    → c.stdin ≡ none
    → command_from no_slot c (print_stdin i ++ rest)
      ≡ command_from no_slot (record c { stdin = i }) rest
stdin_lem none c rest h = ap (λ i. command_from no_slot (record c { stdin = i }) rest) h
stdin_lem (some w) c rest h = unfold command_from take_word bind reject in refl

stdout_lem :
    (o : Option Word) (a : Bool) (c : Command) (rest : List Token)
    → c.stdout ≡ none
    → c.append ≡ false
    → (o ≡ none → a ≡ false)
    → command_from no_slot c (print_stdout o a ++ rest)
      ≡ command_from no_slot (record c { stdout = o; append = a }) rest
stdout_lem none a c rest h k n =
    ap (λ o. command_from no_slot (record c { stdout = o }) rest) h
    ∙ ap (λ b. command_from no_slot (record c { stdout = none; append = b }) rest)
        (k ∙ sym (n refl))
stdout_lem (some w) true c rest h k n = unfold command_from take_word bind reject in refl
stdout_lem (some w) false c rest h k n = unfold command_from take_word bind reject in refl

command_lem :
    (c : Command) (rest : List Token)
    → IsCommand c
    → EndsCommand rest
    → parse_command (print_command c ++ rest) ≡ ok (c, rest)
command_lem c rest v h =
    unfold parse_command print_command in
    ap (λ ts. command_from no_slot empty_command ts) (append_assoc (map word c.words) _ rest)
    ∙ words_lem c.words empty_command _ (omega (arith, v.few_words))
    ∙ ap (λ ts. command_from no_slot (record empty_command { words = c.words }) ts)
        (append_assoc (print_stdin c.stdin) _ rest)
    ∙ stdin_lem c.stdin _ _ refl
    ∙ stdout_lem c.stdout c.append _ rest refl refl v.no_append
    ∙ h c
    ∙ (unfold end_command reject in rw some_word refl)
  where
    some_word : (length c.words == 0) ≡ false
    some_word = ground (arith, v.some_word)

pipeline_step :
    (room : ℕ) (commands : List Command) (tokens rest : List Token) (c : Command)
    → parse_command tokens ≡ ok (c, rest)
    → pipeline_from (suc room) commands tokens ≡ elim (behind_pipe rest) [
      | some rest' ↦ pipeline_from room (commands ++ c ∷ []) rest'
      | none ↦
          bind
            (connect rest)
            λ q. ok (record { pipeline = commands ++ c ∷ []; connector = q.0 }, q.1)
    ]
pipeline_step room commands [] rest c h = unfold parse_command command_from end_command reject in cc
pipeline_step room commands (t ∷ tokens) rest c h = unfold pipeline_from bind in rw h refl

entries_step :
    (room : ℕ) (tokens rest : List Token) (e : Entry)
    → parse_pipeline tokens ≡ ok (e, rest)
    → entries_from (suc room) tokens ≡ elim (is_end e.connector) [
      | true ↦ ok (e ∷ [])
      | false ↦ bind (entries_from room rest) λ es. ok (e ∷ es)
    ]
entries_step room [] rest e h = unfold parse_pipeline pipeline_from in cc
entries_step room (t ∷ tokens) rest e h = unfold entries_from bind in rw h refl

pipe-EndsCommand : (rest : List Token) → EndsCommand (operator pipe ∷ rest)
pipe-EndsCommand rest c = unfold command_from in refl

-- Where a pipeline ends: at a connector or at the end of the tokens.
record EndsPipeline (rest : List Token) (k : Connector) (rest' : List Token) : Type 0 where
  ends_command : EndsCommand rest
  no_pipe : behind_pipe rest ≡ none
  connects : connect rest ≡ ok (k, rest')

pipeline_lem :
    (cs : Pipeline) (room : ℕ) (done : List Command) (rest : List Token) {k : Connector}
    {rest' : List Token}
    → 0 < length cs
    → length cs ≤ room
    → All IsCommand cs
    → EndsPipeline rest k rest'
    → pipeline_from room done (print_pipeline cs ++ rest)
      ≡ ok (record { pipeline = done ++ cs; connector = k }, rest')
unfolding print_pipeline bind
pipeline_lem [] room done rest h l v e = absurd (omega arith)
pipeline_lem (c ∷ cs) zero done rest h l v e = absurd (omega arith)
pipeline_lem (c ∷ []) (suc room) done rest h l v e =
    pipeline_step room done (print_command c ++ rest) rest c (command_lem c rest v.0 e.ends_command)
    ∙ rw (e.no_pipe, e.connects) refl
pipeline_lem (c ∷ d ∷ cs) (suc room) done rest {k} {rest'} h l v e =
    ap (λ ts. pipeline_from (suc room) done ts)
      (append_assoc (print_command c) (operator pipe ∷ print_pipeline (d ∷ cs)) rest)
    ∙ pipeline_step room done _ (operator pipe ∷ (print_pipeline (d ∷ cs) ++ rest)) c
        (command_lem c _ v.0 (pipe-EndsCommand _))
    ∙ pipeline_lem (d ∷ cs) room (done ++ c ∷ []) rest (omega arith) (omega arith) v.1 e
    ∙ ap (λ p. ok (record { pipeline = p; connector = k }, rest'))
        (append_assoc done (c ∷ []) (d ∷ cs))

connector-EndsPipeline :
    (k : Connector) (rest : List Token)
    → (k ≡ end → rest ≡ [])
    → EndsPipeline (print_connector k ++ rest) k rest
unfolding command_from connect
connector-EndsPipeline always rest h = record {
  ends_command = λ c. refl;
  no_pipe = refl;
  connects = refl;
}
connector-EndsPipeline on_success rest h = record {
  ends_command = λ c. refl;
  no_pipe = refl;
  connects = refl;
}
connector-EndsPipeline on_failure rest h = record {
  ends_command = λ c. refl;
  no_pipe = refl;
  connects = refl;
}
connector-EndsPipeline in_background rest h = record {
  ends_command = λ c. refl;
  no_pipe = refl;
  connects = refl;
}
connector-EndsPipeline end rest h =
    rw (h refl) (record { ends_command = λ c. refl; no_pipe = refl; connects = refl })

not_end : (k : Connector) → (k ≡ end → ⊥) → is_end k ≡ false
not_end always h = refl
not_end on_success h = refl
not_end on_failure h = refl
not_end in_background h = refl
not_end end h = absurd (h refl)

entry_lem :
    (e : Entry) (rest : List Token)
    → IsEntry e
    → (e.connector ≡ end → rest ≡ [])
    → parse_pipeline (print_pipeline e.pipeline ++ (print_connector e.connector ++ rest))
      ≡ ok (e, rest)
unfolding parse_pipeline
entry_lem e rest v h =
    pipeline_lem e.pipeline max_pipeline [] _ v.some_command v.few_commands v.all_commands
      (connector-EndsPipeline e.connector rest h)

-- With nothing behind it an entry is the last one, whatever its connector.
last_entry :
    (room : ℕ) (e : Entry) (b : Bool)
    → ◌≡◌ {A = Outcome ParseError (List Entry)}
        (elim b [ true ↦ ok (e ∷ []) | false ↦ bind (entries_from room []) λ es. ok (e ∷ es) ])
        (ok (e ∷ []))
unfolding entries_from bind
last_entry room e true = refl
last_entry room e false = refl

entries_lem :
    (es : List Entry) (room : ℕ)
    → length es ≤ room
    → All IsEntry es
    → Ended es
    → entries_from room (print_entries es) ≡ ok es
unfolding print_entries bind entries_from
entries_lem [] room l v d = refl
entries_lem (e ∷ es) zero l v d = absurd (omega arith)
entries_lem (e ∷ []) (suc room) l v d =
    entries_step room _ [] e (entry_lem e [] v.0 (λ k. refl))
    ∙ last_entry room e (is_end e.connector)
entries_lem (e ∷ f ∷ es) (suc room) l v d =
    entries_step room _ (print_entries (f ∷ es)) e (entry_lem e _ v.0 (λ k. absurd (d.0 k)))
    ∙ rw (not_end e.connector d.0, entries_lem (f ∷ es) room (omega arith) v.1 d.1) refl

-- `parse_list` gives back every list of at most six pipelines of at most three commands of one to
-- six words from the tokens that write it down, with its redirections and connectors in their
-- places; only the last pipeline may stand without a connector.
pub parse_list-print : (es : List Entry) → IsList es → parse_list (print_entries es) ≡ ok es
unfolding parse_list
parse_list-print es v = entries_lem es max_entries v.few_entries v.all_entries v.ended
