-- ===== src/Jobs/Scanner/Laws.antt =====
-- examples/advanced-jobs/main.go: no line of the input is lost, and the loop returns.
use go_toolbelt.Base.{
  ℕ, suc, ◌+◌, ◌*◌, ◌≡◌, ◌≤◌, ◌<◌, ◌⊎◌, inl, inr, refl, Bool, true, false, String, List, [], ◌∷◌,
  ◌++◌, Option, none, some, arith, length, append_assoc, if◌then◌else◌, Bool-cases,
}
use go_toolbelt.Jobs.Commands.{Input, context_done, input_error, line, lines_closed}
use go_toolbelt.Jobs.Scanner.{
  Scanner, scanning, error_sent, errs_closed, all_closed, sending, Cli, take_line, take_last, Step,
  scans, scan_ends, closes_errs, closes_lines, takes_line, takes_error, takes_closed_errs,
  takes_closed, takes_done, Reach, start, later,
}

-- The lines that the loop has not taken.
abbrev pub unread : Scanner → List String → List String
unread (sending l) rest = l ∷ rest
unread _ rest = rest

abbrev is_open : Scanner → Bool
is_open scanning = true
is_open (sending l) = true
is_open _ = false

-- The loop ends by the scanner's error or a closed channel behind the last line only.
abbrev pub IsLast : Option Input → Option ℕ → List String → Type 0
IsLast (some (input_error e)) read_err left = (e ≡ read_err) × (left ≡ [])
IsLast (some lines_closed) read_err left = left ≡ []
IsLast (some (line l)) read_err left = ⊥
IsLast (some context_done) read_err left = Unit {0}
IsLast none read_err left = Unit {0}

record IsValid (read_err : Option ℕ) (text : List String) (s : Cli) : Type 0 where
  whole : s.lines ++ unread s.scanner s.rest ≡ text
  behind : (is_open s.scanner ≡ true) ⊎ (s.rest ≡ [])
  quiet : (is_open s.scanner ≡ false) ⊎ (s.errs ≡ none)
  error : (is_open s.scanner ≡ true) ⊎ (s.returned ≡ true) ⊎ (s.errs ≡ some read_err)
  waits : (s.returned ≡ true) ⊎ (s.last ≡ none)
  last : IsLast s.last read_err (unread s.scanner s.rest)

Step-IsValid :
    (read_err : Option ℕ) (text : List String) (s t : Cli)
    → Step read_err s t
    → IsValid read_err text s
    → IsValid read_err text t
unfolding take_line take_last
Step-IsValid e text s _ (scans l ls p q) v = ground arith
Step-IsValid e text s _ (scan_ends p q) v = ground arith
Step-IsValid e text s _ (closes_errs p) v = ground arith
Step-IsValid e text s _ (closes_lines p) v = ground arith
Step-IsValid e text s _ (takes_line l r p) v = ground (arith, append_assoc s.lines (l ∷ []) s.rest)
Step-IsValid e text s _ (takes_error x r p) v = ground arith
Step-IsValid e text s _ (takes_closed_errs r p q) v = ground arith
Step-IsValid e text s _ (takes_closed r p) v = ground arith
Step-IsValid e text s _ (takes_done r) v = ground arith

Reach-IsValid : (e : Option ℕ) (text : List String) (s : Cli) → Reach e text s → IsValid e text s
Reach-IsValid e text _ start = ground arith
Reach-IsValid e text _ (later {s} {t} r st) = Step-IsValid e text s t st (Reach-IsValid e text s r)

-- However the two goroutines run, the loop takes the lines of the input in order, each once, and
-- those that it has not taken are the end of the input. If it returns by the scanner's error or by
-- the closed channel, it has taken all of them, and the error is the scanner's.
pub lines_taken_in_order :
    (e : Option ℕ) (text : List String) (s : Cli)
    → Reach e text s
    → (left : List String) × (s.lines ++ left ≡ text) × IsLast s.last e left
lines_taken_in_order e text s r =
    let v = Reach-IsValid e text s r in (unread s.scanner s.rest, v.whole, v.last)

abbrev weight : Scanner → ℕ
weight (sending l) = 4
weight scanning = 3
weight error_sent = 2
weight errs_closed = 1
weight all_closed = 0

abbrev steps_left : Cli → ℕ
steps_left s = length s.rest * 2 + weight s.scanner + (if s.returned then 0 else 1)

Step-steps_left : (e : Option ℕ) (s t : Cli) → Step e s t → steps_left t < steps_left s
unfolding take_line take_last
Step-steps_left e s _ (scans l ls p q) = ground arith
Step-steps_left e s _ (scan_ends p q) = ground arith
Step-steps_left e s _ (closes_errs p) = ground arith
Step-steps_left e s _ (closes_lines p) = ground arith
Step-steps_left e s _ (takes_line l r p) = ground arith
Step-steps_left e s _ (takes_error x r p) = ground arith
Step-steps_left e s _ (takes_closed_errs r p q) = ground arith
Step-steps_left e s _ (takes_closed r p) = ground arith
Step-steps_left e s _ (takes_done r) = ground arith

pub steps : {e : Option ℕ} {text : List String} {s : Cli} → Reach e text s → ℕ
steps start = 0
steps (later r st) = suc (steps r)

steps_bounded :
    (e : Option ℕ) (text : List String) (s : Cli) (r : Reach e text s)
    → steps r + steps_left s ≤ length text * 2 + 4
unfolding steps
steps_bounded e text _ start = omega arith
steps_bounded e text _ (later {s} {t} r st) =
    omega (arith, steps_bounded e text s r, Step-steps_left e s t st)

-- A step that does not wait for the context.
abbrev pub is_own : {e : Option ℕ} {s t : Cli} → Step e s t → Bool
is_own (takes_done r) = false
is_own _ = true

abbrev pub Moves : Option ℕ → Cli → Type 0
Moves e s = (t : Cli) × (st : Step e s t) × (is_own st ≡ true)

scanning_step :
    (e : Option ℕ) (s : Cli) (rest : List String) → s.scanner ≡ scanning → s.rest ≡ rest → Moves e s
scanning_step e s [] p q = (_, scan_ends p q, refl)
scanning_step e s (l ∷ ls) p q = (_, scans l ls p q, refl)

next_step : (e : Option ℕ) (s : Cli) (c : Scanner) → s.scanner ≡ c → s.returned ≡ false → Moves e s
next_step e s scanning p h = scanning_step e s s.rest p refl
next_step e s (sending l) p h = (_, takes_line l h p, refl)
next_step e s error_sent p h = (_, closes_errs p, refl)
next_step e s errs_closed p h = (_, closes_lines p, refl)
next_step e s all_closed p h = (_, takes_closed h p, refl)

-- For every input, the loop returns, whether or not the context ends: there are at most twice as many
-- steps as lines and four more, and until the loop has returned there is always a step that does not
-- wait for the context.
pub loop_returns :
    (e : Option ℕ) (text : List String) (s : Cli) (r : Reach e text s)
    → (steps r ≤ length text * 2 + 4) × ((s.returned ≡ true) ⊎ Moves e s)
loop_returns e text s r = (
  omega (arith, steps_bounded e text s r),
  elim (Bool-cases s.returned) [ inl h ↦ inl h | inr h ↦ inr (next_step e s s.scanner refl h) ],
)
