-- ===== src/PrivateDir/Path/Tests.antt =====
-- privatedir/privatedir.go: a path with a slash at its end, and one with a dot component.
use go_toolbelt.Base.{◌≡◌, refl, [], ◌∷◌}
use go_toolbelt.Base.Bytes.{Bytes, same}
use go_toolbelt.Base.Result.{ok, err}
use go_toolbelt.PrivateDir.Path.{
  has_dots, has_dots_from, trim_end, trimmed, dot_component, normalize,
}

abbrev as_it_is : Bytes → Bytes
as_it_is path = path

abbrev given : Bytes
given = b'/' ∷ b'r' ∷ b'/' ∷ b'/' ∷ []

abbrev short : Bytes
short = b'/' ∷ b'r' ∷ []

normalized : normalize as_it_is given ≡ ok short
unfolding normalize has_dots has_dots_from trimmed trim_end same
normalized = refl

dots_refused : normalize as_it_is (b'r' ∷ b'/' ∷ b'.' ∷ b'.' ∷ []) ≡ err dot_component
unfolding normalize has_dots has_dots_from
dots_refused = refl
