-- ===== src/Jobs/Scanner/Tests.antt =====
-- examples/advanced-jobs/main.go: two lines and an error of the reader; the loop may print it or not.
use go_toolbelt.Base.{
  ℕ, ◌*◌, ◌+◌, ◌≡◌, ◌≤◌, ◌⊎◌, refl, true, String, List, [], ◌∷◌, ◌++◌, Option, none, some, length,
}
use go_toolbelt.Base.Words.{fields}
use go_toolbelt.Jobs.Commands.{input_error, lines_closed}
use go_toolbelt.Jobs.Scanner.{
  error_sent, all_closed, Cli, init, take_line, take_last, scans, scan_ends, closes_errs,
  closes_lines, takes_line, takes_error, takes_closed, Reach, start, later,
}
use go_toolbelt.Jobs.Scanner.Laws.{IsLast, lines_taken_in_order, steps, Moves, loop_returns}

abbrev failed : Option ℕ
failed = some 5

abbrev text : List String
text = "start 5s" ∷ []

-- The loop has the line, and the scanner has met the error.
abbrev met : Cli
met = record (take_line "start 5s" (init text)) { rest = [] }

scanned : Reach failed text met
unfolding take_line
scanned = later (later start (scans "start 5s" [] refl refl)) (takes_line "start 5s" refl refl)

abbrev ended_reading : Cli
ended_reading = record met { scanner = error_sent; errs = some failed }

ends : Reach failed text ended_reading
unfolding take_line
ends = later scanned (scan_ends refl refl)

abbrev printed : Cli
printed = take_last (input_error failed) (record ended_reading { errs = none })

prints : Reach failed text printed
unfolding take_line fields
prints = later ends (takes_error failed refl refl)

-- The error is in its channel, the loop has returned by the other one, and nothing is printed.
abbrev lost : Cli
lost = take_last lines_closed (record ended_reading { scanner = all_closed })

error_may_be_lost : Reach failed text lost × (lost.errs ≡ some failed)
unfolding take_line take_last fields
error_may_be_lost = (
  later (later (later ends (closes_errs refl)) (closes_lines refl)) (takes_closed refl refl),
  refl,
)

lines_taken_in_order_example :
    (left : List String) × (lost.lines ++ left ≡ text) × IsLast lost.last failed left
lines_taken_in_order_example = lines_taken_in_order failed text lost error_may_be_lost.0

loop_returns_example :
    (steps scanned ≤ length text * 2 + 4) × ((met.returned ≡ true) ⊎ Moves failed met)
loop_returns_example = loop_returns failed text met scanned
