-- ===== src/Ai/Cli.antt =====
-- examples/ai-cli/main.go: the prompt and the model that `main` chooses, and what it comes to with the
-- client of ai. The environment is an argument; a variable that is not set is an empty text.
mod Laws
mod Tests
use Prim.Native.Char.{code}
use go_toolbelt.Base.{
  ◌≡◌, refl, Bool, true, false, ◌==◌, String, List, [], ◌∷◌, Option, none, some, str_eq,
  if◌then◌else◌, Bool-cases, inl, inr,
}
use go_toolbelt.Base.Words.{is_space, is_blank}
use go_toolbelt.Base.Result.{Result, ok, err}
use go_toolbelt.Ai.{
  Config, Fantasy, StartError, GenerateError, Client, new, start, generate, default_model,
}

pub getenv : (String → String) → String → String → String
getenv env key fallback = if str_eq (env key) "" then fallback else env key

-- `strings.HasPrefix(arg, "-")`
pub is_flag : String → Bool
is_flag String.[] = false
is_flag (String.◌∷◌ c s) = code c == b'-'

pub non_flag_args : List String → List String
unfolding is_flag
non_flag_args [] = []
non_flag_args (a ∷ args) = let rest = non_flag_args args in if is_flag a then rest else a ∷ rest

abbrev append : String → String → String
append String.[] t = t
append (String.◌∷◌ c s) t = String.◌∷◌ c (append s t)

-- `strings.Join` with a space.
pub join : List String → String
join [] = ""
join (a ∷ []) = a
join (a ∷ b ∷ rest) = append a (String.◌∷◌ " " (join (b ∷ rest)))

pub trim_left : String → String
trim_left String.[] = ""
trim_left (String.◌∷◌ c s) =
    let rest = trim_left s in if is_space (code c) then rest else String.◌∷◌ c s

pub trim_right : String → String
unfolding is_blank
trim_right String.[] = ""
trim_right (String.◌∷◌ c s) =
    let rest = trim_right s in if is_blank (String.◌∷◌ c s) then "" else String.◌∷◌ c rest

abbrev default_prompt : String
default_prompt = "Say hello from a go-app component in one sentence."

-- The arguments that are no flags, with spaces between them and trimmed.
pub prompt_of : List String → String
unfolding non_flag_args join trim_left trim_right
prompt_of args =
    let prompt = trim_right (trim_left (join (non_flag_args args))) in
    if str_eq prompt "" then default_prompt else prompt

pub config_of : (String → String) → Config
unfolding getenv
config_of env = record {
  api_key = env "OPENAI_API_KEY";
  model = getenv env "OPENAI_MODEL" default_model;
  system_prompt = "You are a concise assistant used in a Go lifecycle example.";
}

module _ (f : Fantasy) where
  -- What the program prints, or why it ends.
  pub data Exit : Type 0 where
    start_failed : StartError f → Exit
    generate_failed : GenerateError f → Exit
    printed : String → Exit

  pub exit_of : Result (GenerateError f) String → Exit
  exit_of (ok text) = printed text
  exit_of (err e) = generate_failed e

  pub ask : Client f × Option (StartError f) → String → Exit
  unfolding exit_of
  ask (c, some e) prompt = start_failed e
  ask (c, none) prompt = exit_of (generate f c prompt)

  pub main : (String → String) → List String → Exit
  unfolding ask
  main env args = ask (start f (new f (config_of env))) (prompt_of args)
