-- ===== src/Base/Mode.antt =====
-- What the program reads of a `stat` structure. Of a mode, `S_IFMT` selects the four bits above the
-- lower twelve, `S_ISVTX` the bit of value 512, 0o077 the lower six, and 0o022 those of value 16 and 2.
use Prim.Native.Nat.{ℕ, ◌/◌, ◌%◌}
use mathlib.Core.Bool.{Bool, not, ◌||◌}
use go_toolbelt.Base.{◌==◌}

pub record Stat : Type 0 where
  pub mode : ℕ
  pub uid : ℕ
  pub nlink : ℕ

abbrev pub kind : ℕ → ℕ
kind mode = mode / 4096 % 16

-- `S_IFREG` and `S_IFDIR`, shifted.
abbrev pub regular_kind : ℕ
regular_kind = 8

abbrev pub directory_kind : ℕ
directory_kind = 4

abbrev pub is_private : ℕ → Bool
is_private mode = mode % 64 == 0

abbrev pub is_sticky : ℕ → Bool
is_sticky mode = not (mode / 512 % 2 == 0)

abbrev pub is_written_by_others : ℕ → Bool
is_written_by_others mode = not (mode / 16 % 2 == 0) || not (mode / 2 % 2 == 0)
