-- ===== src/Artifact/Publish.antt =====
-- artifact/artifact.go: `Store.Put`, over what its calls of the file system return. The temporary
-- file is removed when `Put` returns, whatever it returns.
mod Tests
use go_toolbelt.Base.{
  ℕ, ◌≡◌, Bool, true, false, not, List, [], ◌∷◌, Option, none, some, length, if◌then◌else◌, ◌==◌,
  arith, refl, ap, sym, subst, ◌∙◌, Bool-cases, inl, inr, ◌⊎◌, Option-cases,
}
use go_toolbelt.Base.Result.{Result, ok, err, ◌>>=◌, ◌>>◌, bind-eq-ok, refuse_if}
use go_toolbelt.Base.Bytes.{Bytes}
use go_toolbelt.Artifact.Copy.{
  Round, CopyError, Digested, copy_and_digest, PathError, store_path, source_bytes,
  copy_and_digest_whole,
}
use go_toolbelt.Artifact.Stored.{
  StoredError, Checks, validate_stored, IsStored, validate_stored_sound,
}

-- How `os.Link` ends; where the path exists, what the validation then meets.
pub data LinkEnd : Type 0 where
  linked : LinkEnd
  exists : Checks → LinkEnd
  link_failed : ℕ → LinkEnd

pub record Attempt : Type 0 where
  pub ctx_err : Option ℕ
  pub link : LinkEnd

pub data PutError : Type 0 where
  root_required not_regular : PutError
  io_error canceled publish_failed : ℕ → PutError
  bad_copy : CopyError → PutError
  bad_path : PathError → PutError
  bad_stored : StoredError → PutError
  -- the list of attempts is at its end, and the loop is not
  unfinished : PutError

pub record Stored : Type 0 where
  pub digest : Bytes
  pub size : ℕ
  pub store_path : Bytes
  pub already_exists : Bool

-- What the calls of `Put` return, in their order; `none` is a nil error.
pub record Calls : Type 0 where
  pub open_err : Option ℕ
  pub stat_err : Option ℕ
  pub source_regular : Bool
  pub make_root_err : Option ℕ
  pub temp_err : Option ℕ
  pub rounds : List Round
  pub close_err : Option ℕ
  pub first_look : Checks
  pub make_dir_err : Option ℕ
  pub attempts : List Attempt

abbrev pub in_context : {E F A : Type 0} → (E → F) → Result E A → Result F A
in_context f (ok a) = ok a
in_context f (err e) = err (f e)

abbrev pub nil_or : Option ℕ → Result PutError (Unit {0})
nil_or none = ok tt
nil_or (some e) = err (io_error e)

module _ (sha : Bytes → Bytes) (join : Bytes → Bytes → Bytes → Bytes) where
  abbrev validate : Digested → Checks → Result PutError Bool
  validate d c = in_context bad_stored (validate_stored sha d.digest d.size c)

  -- One attempt, the result of the later ones being given.
  pub publish_link : Digested → LinkEnd → Result PutError Bool → Result PutError Bool
  publish_link d linked again = ok false
  publish_link d (link_failed e) again = err (publish_failed e)
  publish_link d (exists c) again = validate d c >>= λ there. if not there then again else ok true

  -- The loop that links the temporary file into the store: whether another's file is there already.
  pub publish : Digested → List Attempt → Result PutError Bool
  unfolding publish_link
  publish d [] = err unfinished
  publish d (a ∷ rest) =
      let again = publish d rest in
      elim a.ctx_err [ some e ↦ err (canceled e) | none ↦ publish_link d a.link again ]

  abbrev publish_unless : Bool → Digested → Calls → Result PutError Bool
  publish_unless true d calls = ok true
  publish_unless false d calls = nil_or calls.make_dir_err >> publish d calls.attempts

  pub put : Bytes → Calls → Result PutError Stored
  unfolding publish
  put root calls = do
    _ ← refuse_if (length root == 0) root_required
    _ ← nil_or calls.open_err
    _ ← nil_or calls.stat_err
    _ ← refuse_if (not calls.source_regular) not_regular
    _ ← nil_or calls.make_root_err
    _ ← nil_or calls.temp_err
    d ← in_context bad_copy (copy_and_digest sha calls.rounds)
    _ ← nil_or calls.close_err
    path ← in_context bad_path (store_path join root d.digest)
    there ← validate d calls.first_look
    already ← publish_unless there d calls
    ok (record { digest = d.digest; size = d.size; store_path = path; already_exists = already })

  -- Some look at the store's path has found the artifact there.
  abbrev pub Seen : Digested → List Attempt → Type 0
  Seen d [] = ⊥
  Seen d (a ∷ rest) =
      ((c : Checks) × (a.link ≡ exists c) × IsStored sha d.digest d.size c) ⊎ Seen d rest

  -- Some attempt has linked the file.
  abbrev pub Linked : List Attempt → Type 0
  Linked [] = ⊥
  Linked (a ∷ rest) = (a.link ≡ linked) ⊎ Linked rest

  in_context-ok :
      {E F A : Type 0} (f : E → F) (r : Result E A) (a : A) → in_context f r ≡ ok a → r ≡ ok a
  in_context-ok f (ok x) a e = cc
  in_context-ok f (err x) a e = absurd cc

  validated : (d : Digested) (c : Checks) → validate d c ≡ ok true → IsStored sha d.digest d.size c
  validated d c h =
      (validate_stored_sound sha d.digest d.size c).0
        (in_context-ok bad_stored (validate_stored sha d.digest d.size c) true h)

  publish_link-outcome :
      (d : Digested) (l : LinkEnd) (again : Result PutError Bool) (already : Bool)
      → publish_link d l again ≡ ok already
      → ((already ≡ false) × (l ≡ linked))
        ⊎ (((already ≡ true) × ((c : Checks) × (l ≡ exists c) × IsStored sha d.digest d.size c))
            ⊎ (again ≡ ok already))
  unfolding publish_link
  publish_link-outcome d linked again already h = inl (ground arith, refl)
  publish_link-outcome d (link_failed e) again already h = absurd cc
  publish_link-outcome d (exists c) again already h =
      let (there, p, q) = bind-eq-ok (validate d c) (λ x. if not x then again else ok true) h in
      elim (Bool-cases there) [
        | inl e ↦ inr (inl (ground arith, (c, refl, validated d c (p ∙ ap ok e))))
        | inr e ↦ inr (inr (ground arith))
      ]

  -- What stands behind the flag.
  abbrev pub Published : Digested → List Attempt → Bool → Type 0
  Published d attempts true = Seen d attempts
  Published d attempts false = Linked attempts

  Published-later :
      (d : Digested) (a : Attempt) (rest : List Attempt) (already : Bool)
      → Published d rest already
      → Published d (a ∷ rest) already
  Published-later d a rest true h = inr h
  Published-later d a rest false h = inr h

  -- When the loop that links the file into the store says that the artifact was there already, one
  -- of its attempts met an existing file whose validation shows the artifact intact, with the digest
  -- and the size of the copied bytes; when it says not, one of its attempts linked the file.
  publish-outcome :
      (d : Digested) (attempts : List Attempt) (already : Bool)
      → publish d attempts ≡ ok already
      → Published d attempts already
  unfolding publish
  publish-outcome d [] already h = absurd cc
  publish-outcome d (a ∷ rest) already h = elim (Option-cases a.ctx_err) [
    | inr (e, p) ↦ absurd (let g = rw (p, publish) at h in cc)
    | inl p ↦ elim (publish_link-outcome d a.link (publish d rest) already (rw (p, publish) at h)) [
      | inl (e, l) ↦ subst (Published d (a ∷ rest)) (sym e) (inl l)
      | inr (inl (e, seen)) ↦ subst (Published d (a ∷ rest)) (sym e) (inl seen)
      | inr (inr later) ↦ Published-later d a rest already (publish-outcome d rest already later)
    ]
  ]

  refuse_if-false : (b : Bool) (e : PutError) (t : Unit {0}) → refuse_if b e ≡ ok t → b ≡ false
  refuse_if-false b e t h = ground arith

  -- The end of `Put`, behind the copying.
  finish :
      (d : Digested) (calls : Calls) (there already : Bool)
      → validate d calls.first_look ≡ ok there
      → publish_unless there d calls ≡ ok already
      → Published d
          (record { ctx_err = none; link = exists calls.first_look } ∷ calls.attempts)
          already
  finish d calls true already v p =
      subst
        (Published d (record { ctx_err = none; link = exists calls.first_look } ∷ calls.attempts))
        (ok-inj p) (inl (calls.first_look, refl, validated d calls.first_look v))
    where
      ok-inj : ◌≡◌ {A = Result PutError Bool} (ok true) (ok already) → true ≡ already
      ok-inj e = cc
  finish d calls false already v p =
      Published-later d (record { ctx_err = none; link = exists calls.first_look }) calls.attempts
        already (publish-outcome d calls.attempts already (behind (nil_or calls.make_dir_err) p))
    where
      behind :
          (m : Result PutError (Unit {0}))
          → (m >> publish d calls.attempts) ≡ ok already
          → publish d calls.attempts ≡ ok already
      behind (ok u) e = e
      behind (err x) e = absurd cc

  made :
      (d : Digested) (path : Bytes) (already : Bool) (s : Stored) (bytes : Bytes)
      → ◌≡◌ {A = Result PutError Stored}
          (ok (record {
            digest = d.digest;
            size = d.size;
            store_path = path;
            already_exists = already;
          }))
          (ok s)
      → (d.written ≡ bytes) × (d.digest ≡ sha bytes) × (d.size ≡ length bytes)
      → (s.digest ≡ sha bytes)
        × (s.size ≡ length bytes)
        × (s.store_path ≡ path)
        × (s.already_exists ≡ already)
        × (d.digest ≡ s.digest)
  made d path already s bytes k whole = ground (arith, k, whole)

  -- When `Put` succeeds, the source was a regular file; the result has the digest and the size of the
  -- source's bytes, and the path that `Path` gives for that digest. If it says that the artifact was
  -- there already, the first look at the path, or an attempt to link, met an existing file whose
  -- validation shows the artifact intact; if it says not, an attempt has linked the file.
  pub put-Published :
      (root : Bytes) (calls : Calls) (s : Stored)
      → put root calls ≡ ok s
      → (calls.source_regular ≡ true)
        × (s.digest ≡ sha (source_bytes calls.rounds))
        × (s.size ≡ length (source_bytes calls.rounds))
        × (store_path join root s.digest ≡ ok s.store_path)
        × ((d : Digested) × (copy_and_digest sha calls.rounds ≡ ok d)
            × Published d
                (record { ctx_err = none; link = exists calls.first_look } ∷ calls.attempts)
                s.already_exists)
  unfolding put
  put-Published root calls s h =
      let (a₁, p₁, h₁) = bind-eq-ok (refuse_if (length root == 0) root_required) _ h in
      let (a₂, p₂, h₂) = bind-eq-ok (nil_or calls.open_err) _ h₁ in
      let (a₃, p₃, h₃) = bind-eq-ok (nil_or calls.stat_err) _ h₂ in
      let (a₄, p₄, h₄) = bind-eq-ok (refuse_if (not calls.source_regular) not_regular) _ h₃ in
      let (a₅, p₅, h₅) = bind-eq-ok (nil_or calls.make_root_err) _ h₄ in
      let (a₆, p₆, h₆) = bind-eq-ok (nil_or calls.temp_err) _ h₅ in
      let (d, p₇, h₇) = bind-eq-ok (in_context bad_copy (copy_and_digest sha calls.rounds)) _ h₆ in
      let (a₈, p₈, h₈) = bind-eq-ok (nil_or calls.close_err) _ h₇ in
      let (path, p₉, h₉) = bind-eq-ok (in_context bad_path (store_path join root d.digest)) _ h₈ in
      let (there, q₁, k₁) = bind-eq-ok (validate d calls.first_look) _ h₉ in
      let (already, q₂, k₂) = bind-eq-ok (publish_unless there d calls) _ k₁ in
      let copied_ok = in_context-ok bad_copy (copy_and_digest sha calls.rounds) d p₇ in
      let filed = in_context-ok bad_path (store_path join root d.digest) path p₉ in
      let whole = (copy_and_digest_whole sha calls.rounds).0 d copied_ok in
      let (m₁, m₂, m₃, m₄, m₅) = made d path already s (source_bytes calls.rounds) k₂ whole in
      (
        not-false-true calls.source_regular
            (refuse_if-false (not calls.source_regular) not_regular a₄ p₄),
        m₁,
        m₂,
        subst (λ x. store_path join root x ≡ ok s.store_path) m₅ (filed ∙ ap ok (sym m₃)),
        (
          d,
          copied_ok,
          subst
              (Published d
                (record { ctx_err = none; link = exists calls.first_look } ∷ calls.attempts))
              (sym m₄) (finish d calls there already q₁ q₂),
        ),
      )
    where
      not-false-true : (b : Bool) → not b ≡ false → b ≡ true
      not-false-true b e = ground arith
