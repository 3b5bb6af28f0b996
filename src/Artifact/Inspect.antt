-- ===== src/Artifact/Inspect.antt =====
-- artifact/artifact.go: `Inspect` and `Digest`, over what the calls of the file system return. `sha`
-- is the SHA-256 digest in hexadecimal, and `base` is `filepath.Base`.
mod Tests
use go_toolbelt.Base.{
  ℕ, ◌≡◌, refl, sym, ap, subst, ◌∙◌, Bool, true, not, List, Option, none, some, length,
  if◌then◌else◌, arith, eq_iff,
}
use go_toolbelt.Base.Result.{Result, ok, err, ◌>>=◌, ◌>>◌, bind-eq-ok, then-eq-ok, refuse_if}
use go_toolbelt.Base.Bytes.{Bytes}
use go_toolbelt.Artifact.Copy.{
  Round, Digested, copy_and_digest, source_bytes, copy_and_digest_whole,
}
use go_toolbelt.Artifact.Stored.{Info}

pub record Artifact : Type 0 where
  pub path : Bytes
  pub name : Bytes
  pub sha256 : Bytes
  pub size : ℕ
  pub mod_time : ℕ

pub data InspectError : Type 0 where
  io_error : ℕ → InspectError
  not_regular : InspectError

-- What the calls return: `os.Open`, `Stat`, and the bytes that `io.Copy` gives to the hash.
pub record Source : Type 0 where
  pub open_err : Option ℕ
  pub info : Result ℕ Info
  pub contents : Result ℕ Bytes

module _ (sha base : Bytes → Bytes) where
  pub digest : Result ℕ Bytes → Result ℕ (Bytes × ℕ)
  digest (err e) = err e
  digest (ok bytes) = ok (sha bytes, length bytes)

  pub describe : Bytes → Info → Result ℕ (Bytes × ℕ) → Result InspectError Artifact
  describe path info (err e) = err (io_error e)
  describe path info (ok (sum, size)) = ok (record {
    path = path;
    name = base path;
    sha256 = sum;
    size = size;
    mod_time = info.mod_time;
  })

  pub inspect_opened : Bytes → Result ℕ Info → Result ℕ Bytes → Result InspectError Artifact
  unfolding digest describe
  inspect_opened path (err e) contents = err (io_error e)
  inspect_opened path (ok info) contents =
      if not info.regular then err not_regular else describe path info (digest contents)

  pub inspect : Bytes → Source → Result InspectError Artifact
  unfolding inspect_opened
  inspect path s = elim s.open_err [
    | some e ↦ err (io_error e)
    | none ↦ inspect_opened path s.info s.contents
  ]

  inspect_opened-sums :
      (path bytes : Bytes) (info : Result ℕ Info) (contents : Result ℕ Bytes) (a : Artifact)
      → inspect_opened path info contents ≡ ok a
      → contents ≡ ok bytes
      → (a.sha256 ≡ sha bytes) × (a.size ≡ length bytes)
  unfolding inspect_opened digest describe
  inspect_opened-sums path bytes (err e) contents a h c = absurd cc
  inspect_opened-sums path bytes (ok i) (err e) a h c = absurd cc
  inspect_opened-sums path bytes (ok i) (ok b) a h c = ground arith

  opened :
      (path : Bytes) (s : Source) (a : Artifact)
      → inspect path s ≡ ok a
      → inspect_opened path s.info s.contents ≡ ok a
  unfolding inspect
  opened path s a h = ground arith

  -- `Inspect` and `Put` agree on a file: where both succeed on the same bytes, the digest and the size
  -- that the one returns are those that the other computes while it copies.
  inspect_agrees :
      (path : Bytes) (s : Source) (rounds : List Round) (a : Artifact) (d : Digested)
      → inspect path s ≡ ok a
      → copy_and_digest sha rounds ≡ ok d
      → s.contents ≡ ok (source_bytes rounds)
      → (a.sha256 ≡ d.digest) × (a.size ≡ d.size)
  inspect_agrees path s rounds a d h g c =
      let (written, sum, size) = (copy_and_digest_whole sha rounds).0 d g in
      let (same, long) =
        inspect_opened-sums path (source_bytes rounds) s.info s.contents a (opened path s a h) c in
      (same ∙ sym sum, long ∙ sym size)
