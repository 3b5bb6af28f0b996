-- ===== src/Ai/Tests.antt =====
-- ai/ai.go: a client that is not started, and one without a key.
use go_toolbelt.Base.{◌≡◌, refl, String, some}
use go_toolbelt.Base.Result.{ok, err}
use go_toolbelt.Ai.{
  Config, Fantasy, key_required, not_started, new, start, choose_model, install, generate, answer,
}

-- An agent that answers with the name of its model.
abbrev echo : Fantasy
echo = record {
  Error = String;
  Provider = String;
  Model = String;
  Agent = String;
  new_provider = λ key. ok key;
  language_model = λ p name. ok name;
  new_agent = λ m prompt. m;
  generate = λ a prompt. ok a;
}

abbrev config : String → Config
config key = record { api_key = key; model = ""; system_prompt = "" }

answers :
    (generate echo (new echo (config "key")) "?" ≡ err not_started)
    × (generate echo (start echo (new echo (config "key"))).0 "?" ≡ ok "gpt-4.1-mini")
    × ((start echo (new echo (config ""))).1 ≡ some key_required)
unfolding generate answer new start choose_model install
answers = (refl, refl, refl)
