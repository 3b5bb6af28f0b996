-- ===== src/Process/Env/Tests.antt =====
-- process/process.go: an environment in which one variable is replaced.
use go_toolbelt.Base.{◌≡◌, refl, String, List, [], ◌∷◌}
use go_toolbelt.Process.Env.{
  Extra, AreNames, has_key, merge_env, keep_items, join_items, join_env, is_replaced, split_env,
}

abbrev base : List String
base = "HOME=/root" ∷ "PATH=/bin" ∷ "odd" ∷ []

abbrev extra : Extra
extra = ("PATH", "/usr/bin") ∷ []

extra-AreNames : AreNames extra
extra-AreNames = ((refl, (refl, (refl, (refl, tt)))), tt)

merged : merge_env base extra ≡ "HOME=/root" ∷ "odd" ∷ "PATH=/usr/bin" ∷ []
unfolding merge_env keep_items join_items join_env is_replaced split_env has_key
merged = refl
