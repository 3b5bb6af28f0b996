-- ===== src/Artifact/Copy.antt =====
-- artifact/artifact.go: `copyAndDigest`, over what each round of its loop meets, and `Store.Path`.
-- `sha` is the SHA-256 digest in hexadecimal, as a text of bytes.
pub mod Tests
use go_toolbelt.Base.{
  ℕ, ◌+◌, ◌≡◌, ◌↔◌, refl, ap, Bool, true, not, ◌&&◌, ◌||◌, List, [], ◌∷◌, ◌++◌, Option, none, some,
  length, length-append, take, if◌then◌else◌, ltb, leb, ◌==◌, arith, append_assoc, ◌⊎◌, inl, inr,
}
use go_toolbelt.Base.Bytes.{Bytes}
use go_toolbelt.Base.Result.{Result, ok, err, ◌>>=◌, bind-eq-ok}

-- How one `Read` ends.
pub data ReadEnd : Type 0 where
  more end_of_file : ReadEnd
  read_error : ℕ → ReadEnd

-- How one `Write` into the file and the hash ends.
pub data WriteEnd : Type 0 where
  all_written short_write : WriteEnd
  write_error : ℕ → WriteEnd

pub record Round : Type 0 where
  pub ctx_err : Option ℕ
  pub bytes : Bytes
  pub read_end : ReadEnd
  pub write_end : WriteEnd

pub data CopyError : Type 0 where
  canceled broken : ℕ → CopyError
  short : CopyError
  -- the list of rounds is at its end, and the loop is not
  unfinished : CopyError

-- The error of writing what a round has read, if it has read anything.
pub write_chunk : Round → Option CopyError
write_chunk r =
    if ltb 0 (length r.bytes)
    then elim r.write_end [
      | all_written ↦ none
      | short_write ↦ some short
      | write_error e ↦ some (broken e)
    ]
    else none

pub data Copied : Type 0 where
  -- what the file and the hash have been given
  copied : Bytes → ℕ → Copied

-- The loop, over what has been written and its size.
pub copy_from : Bytes → ℕ → List Round → Result CopyError Copied
copy_from out size [] = err unfinished
copy_from out size (r ∷ rs) = elim r.ctx_err [
  | some e ↦ err (canceled e)
  | none ↦ elim (write_chunk r) [
    | some e ↦ err e
    | none ↦ elim r.read_end [
      | end_of_file ↦ ok (copied (out ++ r.bytes) (size + length r.bytes))
      | read_error e ↦ err (broken e)
      | more ↦ copy_from (out ++ r.bytes) (size + length r.bytes) rs
    ]
  ]
]

-- The digest and the size that `copyAndDigest` returns, and the bytes in the file.
pub record Digested : Type 0 where
  pub digest : Bytes
  pub size : ℕ
  pub written : Bytes

abbrev pub digested : (Bytes → Bytes) → Copied → Digested
digested sha (copied out size) = record { digest = sha out; size = size; written = out }

pub copy_and_digest : (Bytes → Bytes) → List Round → Result CopyError Digested
unfolding copy_from write_chunk
copy_and_digest sha rounds = copy_from [] 0 rounds >>= λ c. ok (digested sha c)

-- The bytes that the rounds read, to the first that is at the end of the file.
pub source_bytes : List Round → Bytes
source_bytes [] = []
source_bytes (r ∷ rs) = elim r.read_end [
  | end_of_file ↦ r.bytes
  | read_error e ↦ r.bytes
  | more ↦ r.bytes ++ source_bytes rs
]

-- No round fails, and one is at the end of the file.
abbrev pub IsHealthy : List Round → Type 0
IsHealthy [] = ⊥
IsHealthy (r ∷ rs) =
    (r.ctx_err ≡ none)
    × (write_chunk r ≡ none)
    × ((r.read_end ≡ end_of_file) ⊎ ((r.read_end ≡ more) × IsHealthy rs))

copy_from-whole :
    (rounds : List Round) (out written : Bytes) (size n : ℕ)
    → copy_from out size rounds ≡ ok (copied written n)
    → size ≡ length out
    → (written ≡ out ++ source_bytes rounds) × (n ≡ length written)
unfolding copy_from source_bytes write_chunk
copy_from-whole [] out written size n h e = absurd cc
copy_from-whole (r ∷ rs) out written size n h e = ground (
  arith,
  copy_from-whole rs (out ++ r.bytes) written (size + length r.bytes) n,
  length-append out r.bytes,
  append_assoc out r.bytes (source_bytes rs),
)

copy_from-healthy :
    (rounds : List Round) (out : Bytes) (size : ℕ)
    → IsHealthy rounds
    → (c : Copied) × (copy_from out size rounds ≡ ok c)
unfolding copy_from source_bytes
copy_from-healthy [] out size h = absurd h
copy_from-healthy (r ∷ rs) out size (c, w, inl e) =
    (copied (out ++ r.bytes) (size + length r.bytes), ground arith)
copy_from-healthy (r ∷ rs) out size (c, w, inr (e, h)) =
    let (x, p) = copy_from-healthy rs (out ++ r.bytes) (size + length r.bytes) h in
    (x, ground (arith, p))

module _ (sha : Bytes → Bytes) (rounds : List Round) where
  digested-whole :
      (d : Digested) (c : Copied)
      → copy_from [] 0 rounds ≡ ok c
      → ◌≡◌ {A = Result CopyError Digested} (ok (digested sha c)) (ok d)
      → (d.written ≡ source_bytes rounds)
        × (d.digest ≡ sha (source_bytes rounds))
        × (d.size ≡ length (source_bytes rounds))
  digested-whole d (copied out n) p q =
      let (w, z) = copy_from-whole rounds [] out 0 n p refl in
      ground (arith, w, z, ap sha w, ap length w)

  -- When `copyAndDigest` succeeds, the file holds all that was read up to the end of the source, and
  -- the digest and the size are those of just these bytes. It does succeed if the context is alive
  -- and every write is whole in each round, and a round ends at the end of the file.
  pub copy_and_digest_whole :
      ((d : Digested)
        → copy_and_digest sha rounds ≡ ok d
        → (d.written ≡ source_bytes rounds)
          × (d.digest ≡ sha (source_bytes rounds))
          × (d.size ≡ length (source_bytes rounds)))
      × (IsHealthy rounds → (d : Digested) × (copy_and_digest sha rounds ≡ ok d))
  unfolding copy_and_digest
  copy_and_digest_whole = (
    (λ d h.
        let (c, p, q) = bind-eq-ok (copy_from [] 0 rounds) (λ c. ok (digested sha c)) h in
        digested-whole d c p q),
    λ h. let (c, p) = copy_from-healthy rounds [] 0 h in (digested sha c, rw p),
  )

-- `hex.DecodeString` takes these.
abbrev is_hex : ℕ → Bool
is_hex c = leb b'0' c && leb c b'9' || leb b'a' c && leb c b'f' || leb b'A' c && leb c b'F'

pub all_hex : Bytes → Bool
all_hex [] = true
all_hex (c ∷ cs) = is_hex c && all_hex cs

pub data PathError : Type 0 where
  bad_length not_hex : PathError

-- `Store.Path`; `join` is `filepath.Join` of three parts. A digest of 64 digits has no odd length.
unfoldable pub store_path : (Bytes → Bytes → Bytes → Bytes) → Bytes → Bytes → Result PathError Bytes
unfolding all_hex
store_path join root sha =
    if not (length sha == 64)
    then err bad_length
    else if not (all_hex sha)
    then err not_hex
    else ok (join root (take 2 sha) sha)

-- `Path` takes exactly the texts of 64 hexadecimal digits, and files them under their first two.
store_path_iff :
    (join : Bytes → Bytes → Bytes → Bytes) (root sha path : Bytes)
    → (store_path join root sha ≡ ok path)
      ↔ ((length sha ≡ 64) × (all_hex sha ≡ true) × (path ≡ join root (take 2 sha) sha))
unfolding store_path
store_path_iff join root sha path = ((λ h. ground arith), λ h. ground arith)
