-- ===== src/Ai/Cli/Tests.antt =====
-- examples/ai-cli/main.go: two words of a prompt, with a flag between them.
use go_toolbelt.Base.{◌≡◌, refl, [], ◌∷◌}
use go_toolbelt.Base.Words.{is_blank}
use go_toolbelt.Ai.Cli.{prompt_of, non_flag_args, is_flag, join, trim_left, trim_right}

trimmed : prompt_of (" say" ∷ "-vv" ∷ "hi " ∷ []) ≡ "say hi"
unfolding prompt_of non_flag_args is_flag join trim_left trim_right is_blank
trimmed = refl
