-- ===== src/Artifact/Publish/Tests.antt =====
-- artifact/artifact.go: `Put` of one artifact, which is not in the store and is linked at once.
use go_toolbelt.Base.{◌≡◌, true, false, [], ◌∷◌, none, length, arith}
use go_toolbelt.Base.Result.{ok}
use go_toolbelt.Artifact.Copy.{Digested, copy_and_digest, store_path, source_bytes}
use go_toolbelt.Artifact.Copy.Tests.{
  two_rounds, join_parts, some_digest, one_digest, some_path, rounds_copied, digest_filed,
}
use go_toolbelt.Artifact.Stored.Tests.{absent, absent_validated}
use go_toolbelt.Artifact.Publish.{
  Calls, Stored, linked, exists, publish, publish_link, put, Published, put-Published,
}

abbrev calls : Calls
calls = record {
  open_err = none;
  stat_err = none;
  source_regular = true;
  make_root_err = none;
  temp_err = none;
  rounds = two_rounds;
  close_err = none;
  first_look = absent;
  make_dir_err = none;
  attempts = record { ctx_err = none; link = linked } ∷ [];
}

abbrev published : Stored
published = record {
  digest = some_digest;
  size = 3;
  store_path = some_path;
  already_exists = false;
}

puts : put one_digest join_parts (b'r' ∷ []) calls ≡ ok published
unfolding put publish publish_link
puts = ground (arith, rounds_copied, digest_filed, absent_validated)

put-Published_example :
    (calls.source_regular ≡ true)
    × (published.digest ≡ one_digest (source_bytes two_rounds))
    × (published.size ≡ length (source_bytes two_rounds))
    × (store_path join_parts (b'r' ∷ []) published.digest ≡ ok published.store_path)
    × ((d : Digested) × (copy_and_digest one_digest two_rounds ≡ ok d)
        × Published one_digest join_parts d
            (record { ctx_err = none; link = exists absent } ∷ calls.attempts)
            published.already_exists)
put-Published_example = put-Published one_digest join_parts (b'r' ∷ []) calls published puts
