-- ===== src/Ai/Laws.antt =====
-- ai/ai.go: which agent answers.
use go_toolbelt.Base.{◌≡◌, refl, false, Option, none, some, str_eq, Bool-cases, inl, inr}
use go_toolbelt.Base.Result.{Result, ok, err}
use go_toolbelt.Ai.{
  Config, Fantasy, StartError, Client, prompt_option, install, choose_model, start,
}

module _ (f : Fantasy) where
  open f use {Provider, Model, new_provider, language_model, new_agent}

  -- The agent that a configuration is meant to have.
  abbrev pub IsFor : Config → f.Agent → Type 0
  IsFor cfg a =
      (str_eq cfg.api_key "" ≡ false)
      × (p : Provider) × (m : Model) × (new_provider cfg.api_key ≡ ok p)
      × (language_model p cfg.model ≡ ok m)
      × (a ≡ new_agent m (prompt_option cfg.system_prompt))

  abbrev pub Started : Client f → Client f → Option (StartError f) → Type 0
  Started c d none = (d.cfg ≡ c.cfg) × (a : f.Agent) × (d.agent ≡ some a) × IsFor c.cfg a
  Started c d (some e) = d ≡ c

  install-Started :
      (c : Client f) (p : Provider) (r : Result f.Error Model)
      → str_eq c.cfg.api_key "" ≡ false
      → new_provider c.cfg.api_key ≡ ok p
      → language_model p c.cfg.model ≡ r
      → Started c (install f c r).0 (install f c r).1
  unfolding install
  install-Started c p (err e) k q h = refl
  install-Started c p (ok m) k q h = (refl, _, refl, (k, p, m, q, h, refl))

  choose_model-Started :
      (c : Client f) (r : Result f.Error Provider)
      → str_eq c.cfg.api_key "" ≡ false
      → new_provider c.cfg.api_key ≡ r
      → Started c (choose_model f c r).0 (choose_model f c r).1
  unfolding choose_model
  choose_model-Started c (err e) k h = refl
  choose_model-Started c (ok p) k h = install-Started c p (language_model p c.cfg.model) k h refl

  -- A `Start` that returns nil has set the agent of the model that the configuration names, with its
  -- key and its system prompt; one that returns an error leaves the client as it was.
  pub start-Started : (c : Client f) → Started c (start f c).0 (start f c).1
  unfolding start
  start-Started c = elim (Bool-cases (str_eq c.cfg.api_key "")) [
    | inl d ↦ rw (d) refl
    | inr d ↦ rw (d) (choose_model-Started c (new_provider c.cfg.api_key) d refl)
  ]
