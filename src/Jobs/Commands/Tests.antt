-- ===== src/Jobs/Commands/Tests.antt =====
-- examples/advanced-jobs/main.go: a few lines of input, with parsers that know one text each.
use go_toolbelt.Base.{◌≡◌, refl, String, List, [], ◌∷◌, Option, none, some, str_eq, if◌then◌else◌}
use go_toolbelt.Base.Int.{ℤ, pos}
use go_toolbelt.Base.Words.{fields, fields_of}
use go_toolbelt.Jobs.Manager.Tests.{two_jobs}
use go_toolbelt.Jobs.Commands.{
  Input, line, help, invalid_id, handle, cancel_command, cancel_reply, count_verbosity,
  verbosity_of, count_v,
}

abbrev five_seconds : String → Option ℤ
five_seconds s = if str_eq s "5s" then some (pos 5_000_000_000) else none

abbrev one : String → Option ℤ
one s = if str_eq s "1" then some (pos 1) else none

abbrev inputs : List Input
inputs = line "start 5s" ∷ line "" ∷ line " cancel 1 " ∷ line "quit" ∷ line "start" ∷ []

-- The words of a line, and the words that no command takes.
misses_told :
    ((handle five_seconds one ("cancel" ∷ "x" ∷ []) two_jobs).1 ≡ invalid_id ∷ [])
    × ((handle five_seconds one ("stop" ∷ []) two_jobs).1 ≡ help ∷ [])
unfolding handle cancel_command cancel_reply
misses_told = (refl, refl)

words_found : fields " cancel 1 " ≡ "cancel" ∷ "1" ∷ []
unfolding fields fields_of
words_found = refl

verbosity_counted : count_verbosity ("-v" ∷ "job" ∷ "-xvv" ∷ []) ≡ 3
unfolding count_verbosity verbosity_of count_v
verbosity_counted = refl
