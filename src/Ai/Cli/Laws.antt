-- ===== src/Ai/Cli/Laws.antt =====
-- examples/ai-cli/main.go: what is printed is what the agent answers.
use go_toolbelt.Base.{◌≡◌, ap, subst, String, List, Option, none, some}
use go_toolbelt.Base.Result.{Result, ok, err}
use go_toolbelt.Ai.{Config, Fantasy, StartError, not_started, Client, new, start, answer, generate}
use go_toolbelt.Ai.Laws.{IsFor, Started, start-Started}
use go_toolbelt.Ai.Cli.{config_of, prompt_of, Exit, printed, exit_of, ask, main}

module _ (f : Fantasy) where
  open f use {Error, Agent}

  -- An answer of the agent that a configuration is meant to have.
  abbrev pub Answers : Config → String → String → Type 0
  Answers cfg prompt text = (a : Agent) × IsFor f cfg a × (f.generate a prompt ≡ ok text)

  printed-inj : (t u : String) → ◌≡◌ {A = Exit f} (printed t) (printed u) → t ≡ u
  printed-inj t u h = cc

  answer-printed :
      (r : Result Error String) (text : String)
      → exit_of f (answer f r) ≡ printed text
      → r ≡ ok text
  unfolding exit_of answer
  answer-printed (ok t) text h = ap ok (printed-inj t text h)
  answer-printed (err e) text h = absurd cc

  ask-printed :
      (c d : Client f) (e : Option (StartError f)) (prompt text : String)
      → Started f c d e
      → ask f (d, e) prompt ≡ printed text
      → Answers c.cfg prompt text
  unfolding ask generate
  ask-printed c d none prompt text (same, a, p, made) h = (
    a,
    made,
    answer-printed (f.generate a prompt) text (
        subst
          (λ x.
            exit_of f (elim x [ none ↦ err not_started | some b ↦ answer f (f.generate b prompt) ])
            ≡ printed text)
          p h),
  )
  ask-printed c d (some e) prompt text s h = absurd cc

  -- The program prints a text only if the agent of the model that the environment names, with its key
  -- and the program's system prompt, answers it to the prompt.
  main-printed :
      (env : String → String) (args : List String) (text : String)
      → main f env args ≡ printed text
      → Answers (new f (config_of env)).cfg (prompt_of args) text
  unfolding main
  main-printed env args text h =
      let c = new f (config_of env) in
      ask-printed c (start f c).0 (start f c).1 (prompt_of args) text (start-Started f c) h
