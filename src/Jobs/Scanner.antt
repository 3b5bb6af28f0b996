-- ===== src/Jobs/Scanner.antt =====
-- examples/advanced-jobs/main.go: `scanLines` and the loop of `JobCLI.run`, two goroutines with a
-- channel of lines, which has no buffer, and one of errors, which has room for one. What the scanner
-- reads is an argument: its lines, and its error at the end, or nil.
pub mod Laws
pub mod Tests
use go_toolbelt.Base.{
  ℕ, ◌≡◌, Bool, true, false, ◌||◌, String, List, [], ◌∷◌, ◌++◌, Option, none, some, str_eq, map,
}
use go_toolbelt.Base.Words.{fields}
use go_toolbelt.Jobs.Commands.{is_quit, Input, context_done, input_error, line, lines_closed}

-- Where the goroutine of `scanLines` is; `sending` is blocked until its line is taken.
pub data Scanner : Type 0 where
  scanning error_sent errs_closed all_closed : Scanner
  sending : String → Scanner

abbrev pub is_errs_closed : Scanner → Bool
is_errs_closed errs_closed = true
is_errs_closed all_closed = true
is_errs_closed _ = false

-- The lines that are not scanned yet, what the channel of errors holds, the lines that the loop has
-- taken, what else it took at last, and whether it has returned.
pub record Cli : Type 0 where
  pub scanner : Scanner
  pub rest : List String
  pub errs : Option (Option ℕ)
  pub lines : List String
  pub last : Option Input
  pub returned : Bool

abbrev pub init : List String → Cli
init text = record {
  scanner = scanning;
  rest = text;
  errs = none;
  lines = [];
  last = none;
  returned = false;
}

pub take_line : String → Cli → Cli
take_line l s = record s {
  scanner = scanning;
  lines = s.lines ++ (l ∷ []);
  returned = is_quit (fields l);
}

-- A case of `select` that ends the loop.
pub take_last : Input → Cli → Cli
take_last i s = record s { last = some i; returned = true }

-- What the loop has taken, in order.
abbrev pub taken : Cli → List Input
taken s = map line s.lines ++ elim s.last [ none ↦ [] | some i ↦ i ∷ [] ]

pub data Step (read_err : Option ℕ) (s : Cli) : Cli → Type 0 where
  scans :
      (l : String) (ls : List String)
      → s.scanner ≡ scanning
      → s.rest ≡ l ∷ ls
      → Step read_err s (record s { scanner = sending l; rest = ls })
  scan_ends :
      s.scanner ≡ scanning
      → s.rest ≡ []
      → Step read_err s (record s { scanner = error_sent; errs = some read_err })
  closes_errs : s.scanner ≡ error_sent → Step read_err s (record s { scanner = errs_closed })
  closes_lines : s.scanner ≡ errs_closed → Step read_err s (record s { scanner = all_closed })
  takes_line :
      (l : String) → s.returned ≡ false → s.scanner ≡ sending l → Step read_err s (take_line l s)
  takes_error :
      (e : Option ℕ)
      → s.returned ≡ false
      → s.errs ≡ some e
      → Step read_err s (take_last (input_error e) (record s { errs = none }))
  -- a channel that is closed, and empty, gives nil
  takes_closed_errs :
      s.returned ≡ false
      → s.errs ≡ none
      → is_errs_closed s.scanner ≡ true
      → Step read_err s (take_last (input_error none) s)
  takes_closed :
      s.returned ≡ false → s.scanner ≡ all_closed → Step read_err s (take_last lines_closed s)
  takes_done : s.returned ≡ false → Step read_err s (take_last context_done s)

pub data Reach (read_err : Option ℕ) (text : List String) : Cli → Type 0 where
  start : Reach read_err text (init text)
  later : {s t : Cli} → Reach read_err text s → Step read_err s t → Reach read_err text t
