-- ===== src/Tests/Credentials.antt =====
-- A file with one stale entry.
use claw_msg.Prelude.{◌≡◌, ◌==◌, String, some, none, [], ◌∷◌, if◌then◌else◌}
use claw_msg.Credentials.{
  CredsFile, entry, load, normalize_broker_url, store_credentials, find_credentials,
  get_credentials,
}
use claw_msg.Credentials.Stored.{stale_at, find-store_credentials}

abbrev file : CredsFile
file =
    some
      (("a0", entry "http://b" "a0" "t0" "alice") ∷ ("c0", entry "http://b" "c0" "t1" "carol") ∷ [])

find-store_credentials_example :
    let after = store_credentials "http://b/" "a1" "t" "alice" file in
    (find_credentials "http://b/" "alice" after
      ≡ some (entry (normalize_broker_url "http://b/") "a1" "t" "alice"))
    × ((j : String)
        → get_credentials j after ≡ (
            if "a1" == j
            then some (entry (normalize_broker_url "http://b/") "a1" "t" "alice")
            else (if stale_at "a1" (normalize_broker_url "http://b/") "alice" j (load file)
                then none
                else get_credentials j file)))
find-store_credentials_example = find-store_credentials "http://b/" "a1" "t" "alice" file
