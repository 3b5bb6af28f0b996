-- ===== src/PrivateDir/Path.antt =====
-- privatedir/privatedir.go: `normalize`, and the errors of `Ensure` and `Validate`, where a separator is
-- a slash and there are no volumes. `filepath.Clean` is a parameter. A path is a list of bytes.
mod Tests
use go_toolbelt.Base.{
  ℕ, ◌≡◌, refl, sym, ap, subst, ◌∙◌, Bool, true, false, not, ◌&&◌, ◌||◌, ◌==◌, [], ◌∷◌, ◌++◌,
  if◌then◌else◌, arith,
}
use go_toolbelt.Base.Bytes.{Bytes, same, same_iff}
use go_toolbelt.Base.Result.{Result, ok, err}

abbrev pub is_separator : ℕ → Bool
is_separator c = c == b'/'

abbrev pub is_dot : Bytes → Bool
is_dot (a ∷ []) = a == b'.'
is_dot (a ∷ b ∷ []) = a == b'.' && b == b'.'
is_dot _ = false

-- The loop over the segments, with the part of one that is read.
pub has_dots_from : Bytes → Bytes → Bool
has_dots_from segment [] = is_dot segment
has_dots_from segment (c ∷ cs) =
    let inside = has_dots_from (segment ++ (c ∷ [])) cs in
    if is_separator c then is_dot segment || has_dots_from [] cs else inside

pub has_dots : Bytes → Bool
unfolding has_dots_from
has_dots = has_dots_from []

-- A byte in front of a path that has no separators at its end.
abbrev pub push_byte : ℕ → Bytes → Bytes
push_byte c [] = if is_separator c then [] else c ∷ []
push_byte c (d ∷ ds) = c ∷ d ∷ ds

-- Without the separators at its end.
pub trim_end : Bytes → Bytes
trim_end [] = []
trim_end (c ∷ cs) = push_byte c (trim_end cs)

-- The first byte stays, whatever it is.
pub trimmed : Bytes → Bytes
unfolding trim_end
trimmed [] = []
trimmed (c ∷ cs) = c ∷ trim_end cs

pub data PathError : Type 0 where
  path_required dot_component not_clean : PathError

module _ (clean : Bytes → Bytes) where
  pub normalize : Bytes → Result PathError Bytes
  unfolding has_dots trimmed
  normalize path =
      if has_dots path
      then err dot_component
      else if not (same (clean (trimmed path)) (trimmed path))
      then err not_clean
      else ok (trimmed path)

  -- `Ensure` and `Validate` up to the call that is the platform's.
  pub checked_path : Bytes → Result PathError Bytes
  unfolding normalize
  checked_path [] = err path_required
  checked_path (c ∷ cs) = normalize (c ∷ cs)

has_dots-push_byte :
    (segment : Bytes) (c : ℕ) (rest : Bytes)
    → has_dots_from segment (c ∷ rest) ≡ false
    → has_dots_from segment (push_byte c rest) ≡ false
unfolding has_dots_from
has_dots-push_byte segment c [] h = ground arith
has_dots-push_byte segment c (d ∷ ds) h = h

has_dots-trim_end :
    (segment cs : Bytes)
    → has_dots_from segment cs ≡ false
    → has_dots_from segment (trim_end cs) ≡ false
unfolding has_dots_from trim_end
has_dots-trim_end segment [] h = h
has_dots-trim_end segment (c ∷ cs) h =
    has_dots-push_byte segment c (trim_end cs)
      (ground (arith, has_dots-trim_end [] cs, has_dots-trim_end (segment ++ (c ∷ [])) cs))

trim_end-push_byte :
    (c : ℕ) (rest : Bytes) → trim_end rest ≡ rest → trim_end (push_byte c rest) ≡ push_byte c rest
unfolding trim_end
trim_end-push_byte c [] e = ground arith
trim_end-push_byte c (d ∷ ds) e = ap (push_byte c) e

trim_end-again : (cs : Bytes) → trim_end (trim_end cs) ≡ trim_end cs
unfolding trim_end
trim_end-again [] = refl
trim_end-again (c ∷ cs) = trim_end-push_byte c (trim_end cs) (trim_end-again cs)

trimmed-again : (cs : Bytes) → trimmed (trimmed cs) ≡ trimmed cs
unfolding trimmed
trimmed-again [] = refl
trimmed-again (c ∷ cs) = ap (◌∷◌ c) (trim_end-again cs)

has_dots-trimmed : (cs : Bytes) → has_dots cs ≡ false → has_dots (trimmed cs) ≡ false
unfolding has_dots trimmed has_dots_from
has_dots-trimmed [] h = h
has_dots-trimmed (c ∷ cs) h = ground (arith, has_dots-trim_end [] cs, has_dots-trim_end (c ∷ []) cs)

-- A path that `normalize` returns is the given one without the separators at its end; it has no dot
-- component, is clean by `filepath.Clean`, and to normalize it again changes nothing.
normalize_stable :
    (clean : Bytes → Bytes) (path p : Bytes)
    → normalize clean path ≡ ok p
    → (p ≡ trimmed path) × (has_dots p ≡ false) × (clean p ≡ p) × (normalize clean p ≡ ok p)
unfolding normalize
normalize_stable clean path p h =
    let e : trimmed path ≡ p = ground arith in
    let plain : has_dots path ≡ false = ground arith in
    let fixed : same (clean (trimmed path)) (trimmed path) ≡ true = ground arith in
    let dots : has_dots p ≡ false = ap has_dots (sym e) ∙ has_dots-trimmed path plain in
    let cleaned : clean p ≡ p =
      subst (λ x. clean x ≡ x) e ((same_iff (clean (trimmed path)) (trimmed path)).0 fixed) in
    let again : trimmed p ≡ p = subst (λ x. trimmed x ≡ x) e (trimmed-again path) in
    (sym e, dots, cleaned, ground (arith, dots, again, (same_iff (clean p) p).1 cleaned))
