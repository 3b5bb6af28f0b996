-- ===== src/Artifact/Copy/Tests.antt =====
-- artifact/artifact.go: a source of three bytes, in two rounds, and the path of one digest.
use go_toolbelt.Base.{◌≡◌, refl, List, [], ◌∷◌, ◌++◌, none, length, inl, inr}
use go_toolbelt.Base.Result.{ok}
use go_toolbelt.Base.Bytes.{Bytes}
use go_toolbelt.Artifact.Copy.{
  copy_from, Round, more, end_of_file, all_written, Digested, copy_and_digest, source_bytes,
  IsHealthy, write_chunk, copy_and_digest_whole, all_hex, store_path,
}

-- A digest that stands for SHA-256: the bytes themselves.
abbrev plain_sha : Bytes → Bytes
plain_sha bytes = bytes

abbrev pub two_rounds : List Round
two_rounds =
    record { ctx_err = none; bytes = 1 ∷ 2 ∷ []; read_end = more; write_end = all_written }
    ∷ record { ctx_err = none; bytes = 3 ∷ []; read_end = end_of_file; write_end = all_written }
    ∷ []

two_rounds-IsHealthy : IsHealthy two_rounds
unfolding write_chunk
two_rounds-IsHealthy = (refl, refl, inr (refl, (refl, refl, inl refl)))

copy_and_digest_whole_example :
    ((d : Digested)
      → copy_and_digest plain_sha two_rounds ≡ ok d
      → (d.written ≡ source_bytes two_rounds)
        × (d.digest ≡ plain_sha (source_bytes two_rounds))
        × (d.size ≡ length (source_bytes two_rounds)))
    × (IsHealthy two_rounds → (d : Digested) × (copy_and_digest plain_sha two_rounds ≡ ok d))
copy_and_digest_whole_example = copy_and_digest_whole plain_sha two_rounds

abbrev pub join_parts : Bytes → Bytes → Bytes → Bytes
join_parts a b c = a ++ (b'/' ∷ (b ++ (b'/' ∷ c)))

abbrev pub sixteen : Bytes
sixteen =
    b'0' ∷ b'1' ∷ b'2' ∷ b'3' ∷ b'4' ∷ b'5' ∷ b'6' ∷ b'7' ∷ b'8' ∷ b'9' ∷ b'a' ∷ b'b' ∷ b'c' ∷ b'd'
    ∷ b'e' ∷ b'f' ∷ []

abbrev pub some_digest : Bytes
some_digest = sixteen ++ (sixteen ++ (sixteen ++ sixteen))

-- A digest that stands for SHA-256 where its form matters.
abbrev pub one_digest : Bytes → Bytes
one_digest bytes = some_digest

abbrev pub three_bytes : Digested
three_bytes = record { digest = some_digest; size = 3; written = 1 ∷ 2 ∷ 3 ∷ [] }

pub rounds_copied : copy_and_digest one_digest two_rounds ≡ ok three_bytes
unfolding copy_and_digest copy_from write_chunk
rounds_copied = refl

abbrev pub some_path : Bytes
some_path = join_parts (b'r' ∷ []) (b'0' ∷ b'1' ∷ []) some_digest

pub digest_filed : store_path join_parts (b'r' ∷ []) some_digest ≡ ok some_path
unfolding store_path all_hex
digest_filed = refl
