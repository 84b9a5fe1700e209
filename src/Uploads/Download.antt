-- ===== src/Uploads/Download.antt =====
-- server/api/upgrade_routes.py: the downloads, and the version of the agent's program that stands
-- beside the server. `realpath` is `os.path.realpath`, which follows the system's links; `is_file` is
-- `os.path.isfile` of a resolved path.
use batch_shutdown_assistant.Prelude.{
  ℕ, String, Bool, not, ◌&&◌, ◌||◌, Option, none, some, List, [], ◌∷◌, ◌++◌, length, leb, num_eq,
  Result, ok, err, http, ◌==◌, if◌then◌else◌,
}
use batch_shutdown_assistant.Paths.{basename, join, is_within}

-- `GET /api/upgrade/file/{filename}`: the path that is sent.
unfoldable pub download_agent_exe :
    (String → List String) → (List String → Bool) → String → String → Result (List String)
unfolding basename
download_agent_exe realpath is_file upload_dir filename =
    let safe_name = basename filename in
    let path = realpath (join upload_dir safe_name) in
    if not (safe_name == filename) || safe_name == ""
    then err (http 400 "Invalid filename")
    else if not (is_within (realpath upload_dir) path)
    then err (http 400 "Invalid filename")
    else if not (is_file path)
    then err (http 404 "File not found")
    else ok path

abbrev pub is_digit : ℕ → Bool
is_digit b = leb b'0' b && leb b b'9'

-- `\d+`, as much as there is: the digits, and the rest.
unfoldable pub take_digits : List ℕ → List ℕ × List ℕ
take_digits [] = ([], [])
take_digits (b ∷ bytes) =
    let (digits, rest) = take_digits bytes in
    if is_digit b then (b ∷ digits, rest) else ([], b ∷ bytes)

-- `\.` and what follows it
abbrev pub after_dot : List ℕ → Option (List ℕ)
after_dot [] = none
after_dot (b ∷ bytes) = if num_eq b b'.' then some bytes else none

abbrev pub is_empty : List ℕ → Bool
is_empty bytes = num_eq (length bytes) 0

-- The last of the three runs.
unfoldable pub match_patch : List ℕ → List ℕ → Option (List ℕ) → Option (List ℕ)
unfolding take_digits
match_patch major minor none = none
match_patch major minor (some bytes) =
    let patch = (take_digits bytes).0 in
    if is_empty major || is_empty minor || is_empty patch
    then none
    else some (major ++ b'.' ∷ (minor ++ b'.' ∷ patch))

unfoldable pub match_minor : List ℕ → Option (List ℕ) → Option (List ℕ)
unfolding take_digits match_patch
match_minor major none = none
match_minor major (some bytes) =
    let (minor, rest) = take_digits bytes in match_patch major minor (after_dot rest)

-- `\d+\.\d+\.\d+`: a shorter run of digits would be followed by a digit, which is no dot, so that the
-- search for a match need not go back.
unfoldable pub match_version : List ℕ → Option (List ℕ)
unfolding take_digits match_minor
match_version bytes = let (major, rest) = take_digits bytes in match_minor major (after_dot rest)

-- `buildVersion=`
abbrev pub stamp : List ℕ
stamp =
    b'b' ∷ b'u' ∷ b'i' ∷ b'l' ∷ b'd' ∷ b'V' ∷ b'e' ∷ b'r' ∷ b's' ∷ b'i' ∷ b'o' ∷ b'n' ∷ b'=' ∷ []

unfoldable pub match_at : List ℕ → List ℕ → Option (List ℕ)
match_at [] bytes = match_version bytes
match_at (p ∷ prefix) [] = none
match_at (p ∷ prefix) (b ∷ bytes) =
    let rest = match_at prefix bytes in if num_eq b p then rest else none

abbrev pub first_of : Option (List ℕ) → Option (List ℕ) → Option (List ℕ)
first_of none later = later
first_of (some version) later = some version

-- `re.search`: the first place that matches.
unfoldable pub search_version : List ℕ → Option (List ℕ)
search_version [] = none
search_version (b ∷ bytes) = first_of (match_at stamp (b ∷ bytes)) (search_version bytes)

abbrev pub version_or_empty : Option (List ℕ) → List ℕ
version_or_empty none = []
version_or_empty (some version) = version

-- `_extract_version_from_exe`: `none` where the file cannot be read; the version is the bytes of an
-- ASCII text.
unfoldable pub extract_version : Option (List ℕ) → List ℕ
extract_version none = []
extract_version (some content) = version_or_empty (search_version content)

pub record AgentVersion : Type 0 where
  pub version : List ℕ
  pub size : ℕ

-- `GET /api/upgrade/latest`; `size` is that of the program, if it is there.
unfoldable pub get_latest_agent : List ℕ → Option ℕ → Option (List ℕ) → Result AgentVersion
get_latest_agent app_version none content = err (http 404 "Agent exe not found on server")
get_latest_agent app_version (some size) content =
    let found = extract_version content in
    ok (record { version = if num_eq (length found) 0 then app_version else found; size = size })

-- `GET /api/upgrade/latest-download`
unfoldable pub download_latest_agent : Option (List ℕ) → Result (List ℕ)
download_latest_agent none = err (http 404 "Agent exe not found on server")
download_latest_agent (some content) = ok content
