-- ===== src/Acl/Tests.antt =====
-- Security descriptors of Windows: one that gives the user all rights and the others the right to read.
use go_toolbelt.Base.{ℕ, ◌≡◌, refl, true, false, List, [], ◌∷◌, none, some}
use go_toolbelt.Base.Result.{Result, ok}
use go_toolbelt.Acl.{
  Sid, Ace, access_allowed, Descriptor, UserCalls, DirectoryCalls, has_any, grants_mutation,
}

abbrev pub me : Sid
me = record { id = 5; is_valid = true; is_system = false; is_admins = false }

abbrev pub other : Sid
other = record { id = 6; is_valid = true; is_system = false; is_admins = false }

abbrev pub user : UserCalls
user = record { token_err = none; user = ok (some me); copied = ok me }

abbrev pub entry : Sid → ℕ → Ace
entry sid mask = record { ace_type = access_allowed; flags = 0; mask = mask; sid = sid }

abbrev pub descriptor : List (Result ℕ Ace) → Descriptor
descriptor entries = record {
  is_valid = true;
  owner = ok (some me, false);
  dacl = ok (some entries);
}

abbrev pub own : Descriptor
own = descriptor (ok (entry me 268_435_456) ∷ [])

abbrev pub readable : Descriptor
readable = descriptor (ok (entry me 268_435_456) ∷ ok (entry other 1) ∷ [])

abbrev pub directory : Descriptor → DirectoryCalls
directory d = record {
  path_err = none;
  open_err = none;
  info = ok (record { is_directory = true; is_reparse_point = false; links = 1 });
  security = ok (some d);
}

reading_changes_nothing : (grants_mutation 1 ≡ false) × (grants_mutation 65_537 ≡ true)
unfolding grants_mutation has_any
reading_changes_nothing = (refl, refl)
