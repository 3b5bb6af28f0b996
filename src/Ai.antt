-- ===== src/Ai.antt =====
-- ai/ai.go: `Client`. What it calls of the packages fantasy and openai is a parameter: the provider
-- that a key gives, its models, the agents, and what these answer. A nil error is none.
pub mod Laws
pub mod Cli
mod Tests
use go_toolbelt.Base.{String, Option, none, some, str_eq, if◌then◌else◌}
use go_toolbelt.Base.Result.{Result, ok, err}

pub record Config : Type 0 where
  pub api_key : String
  pub model : String
  pub system_prompt : String

pub record Fantasy : Type 1 where
  pub Error : Type 0
  pub Provider : Type 0
  pub Model : Type 0
  pub Agent : Type 0
  -- `openai.New` with a key and the Responses API, `LanguageModel`, `NewAgent` with a system prompt if
  -- there is one, and the text of what `Generate` answers.
  pub new_provider : String → Result Error Provider
  pub language_model : Provider → String → Result Error Model
  pub new_agent : Model → Option String → Agent
  pub generate : Agent → String → Result Error String

abbrev pub default_model : String
default_model = "gpt-4.1-mini"

abbrev pub prompt_option : String → Option String
prompt_option prompt = if str_eq prompt "" then none else some prompt

module _ (f : Fantasy) where
  open f use {Error, Provider, Model, Agent, new_provider, language_model, new_agent}

  pub data StartError : Type 0 where
    key_required : StartError
    provider_failed model_failed : Error → StartError

  pub data GenerateError : Type 0 where
    not_started : GenerateError
    generate_failed : Error → GenerateError

  pub record Client : Type 0 where
    pub cfg : Config
    pub agent : Option Agent

  pub new : Config → Client
  new cfg = record {
    cfg = record cfg { model = if str_eq cfg.model "" then default_model else cfg.model };
    agent = none;
  }

  -- Behind the model that the provider has.
  pub install : Client → Result Error Model → Client × Option StartError
  install c (err e) = (c, some (model_failed e))
  install c (ok m) =
      (record c { agent = some (new_agent m (prompt_option c.cfg.system_prompt)) }, none)

  pub choose_model : Client → Result Error Provider → Client × Option StartError
  unfolding install
  choose_model c (err e) = (c, some (provider_failed e))
  choose_model c (ok p) = install c (language_model p c.cfg.model)

  pub start : Client → Client × Option StartError
  unfolding choose_model
  start c =
      if str_eq c.cfg.api_key ""
      then (c, some key_required)
      else choose_model c (new_provider c.cfg.api_key)

  pub answer : Result Error String → Result GenerateError String
  answer (ok text) = ok text
  answer (err e) = err (generate_failed e)

  pub generate : Client → String → Result GenerateError String
  unfolding answer
  generate c prompt = elim c.agent [
    | none ↦ err not_started
    | some a ↦ answer (f.generate a prompt)
  ]
