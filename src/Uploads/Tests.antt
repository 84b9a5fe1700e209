-- ===== src/Uploads/Tests.antt =====
-- Tests of server/api/upgrade_routes.py.
use batch_shutdown_assistant.Prelude.{
  if◌then◌else◌, ◌==◌, num_eq, ℕ, leb, ◌&&◌, err, http, zero, suc, ◌≤◌, ◌≡◌, refl, String, Bool,
  true, false, some, none, List, [], ◌∷◌, ◌++◌, length, sort_by, ok,
}
use batch_shutdown_assistant.Uploads.{
  upload_file, Entry, max_upload_bytes, upload_keep, remove_file, remove_files, newest_files,
  cleanup_uploads, is_pe, ends_with, upload_agent_exe, safe_name,
}
use batch_shutdown_assistant.Paths.{has_slash, basename, join, is_within, commonpath, path_equal}
use batch_shutdown_assistant.Uploads.Download.{
  download_agent_exe, extract_version, search_version, match_at, match_version, stamp,
}
use batch_shutdown_assistant.Uploads.Newest.{named}
use batch_shutdown_assistant.Uploads.Served.{upload_file-download, download_agent_exe_lem}
use batch_shutdown_assistant.Uploads.Stamp.{
  is_unstamped, has_prefix, extract_version-stamp, version_bytes,
}
use batch_shutdown_assistant.Uploads.Cleanup.{refused_upload_lem, file_count, accepted_upload_lem}

abbrev zeros : ℕ → List ℕ
zeros zero = []
zeros (suc n) = 0 ∷ zeros n

-- A DOS header that names offset 64, and a PE header there.
abbrev exe : List ℕ
exe = 77 ∷ 90 ∷ zeros 58 ++ 64 ∷ 0 ∷ 0 ∷ 0 ∷ 80 ∷ 69 ∷ 0 ∷ 0 ∷ []

abbrev same : String → String
same s = s

abbrev removes : String → Bool
removes s = true

abbrev old : Entry
old = record { name = "a"; is_file = true; modified_at = 3; content = [] }

abbrev older : Entry
older = record { name = "b"; is_file = true; modified_at = 2; content = [] }

abbrev folder : Entry
folder = record { name = "c"; is_file = false; modified_at = 1; content = [] }

keeps_newest :
    cleanup_uploads removes 1 (some (older ∷ folder ∷ old ∷ [])) ≡ some (folder ∷ old ∷ [])
unfolding cleanup_uploads newest_files sort_by remove_files remove_file
keeps_newest = refl

is_exe : is_pe exe ≡ true
unfolding is_pe
is_exe = refl

too_short : is_pe (77 ∷ 90 ∷ []) ≡ false
unfolding is_pe
too_short = refl

renamed : safe_name "a/b\\c.txt" ≡ "a_b_c.txt"
unfolding safe_name
renamed = refl

accepted :
    (upload_agent_exe same removes "0123456789" 5 "x.exe" exe none).0
    ≡ ok (record { filename = "agent-01234567.exe"; original_name = "x.exe"; size = 68 })
unfolding upload_agent_exe is_pe
accepted = refl

accepted_upload_lem_example :
    (ends_with "x.exe" ".exe" ≡ true)
    × (is_pe exe ≡ true)
    × (68 ≡ length exe)
    × (length exe ≤ max_upload_bytes)
    × (file_count (upload_agent_exe same removes "0123456789" 5 "x.exe" exe none).1 ≤ upload_keep)
accepted_upload_lem_example =
    accepted_upload_lem same removes "0123456789" 5 "x.exe" exe none accepted (λ s. refl)

refused :
    (upload_agent_exe same removes "0123456789" 5 "x.exe" (77 ∷ 90 ∷ []) none).0
    ≡ err (http 400 "不是有效的 Windows PE 可执行文件")
unfolding upload_agent_exe is_pe
refused = refl

refused_upload_lem_example :
    ((upload_agent_exe same removes "0123456789" 5 "x.exe" (77 ∷ 90 ∷ []) none).1 ≡ none)
    × ((ends_with "x.exe" ".exe" && leb 2 max_upload_bytes && is_pe (77 ∷ 90 ∷ [])) ≡ false)
refused_upload_lem_example =
    refused_upload_lem same removes "0123456789" 5 "x.exe" (77 ∷ 90 ∷ []) none refused

abbrev in_uploads : String → List String
in_uploads s = if s == "up" then "up" ∷ [] else "up" ∷ "file-01234567-a_b" ∷ []

abbrev there : List String → Bool
there path = num_eq (length path) 2

uploaded :
    (upload_file removes "0123456789" 5 "a/b" exe none).0
    ≡ ok (record { filename = "file-01234567-a_b"; original_name = "a_b"; size = 68 })
unfolding upload_file safe_name
uploaded = refl

no_slash : has_slash "0123456789" ≡ false
unfolding has_slash
no_slash = refl

upload_file-download_example :
    (named "file-01234567-a_b" (upload_file removes "0123456789" 5 "a/b" exe none).1
      ≡ record { name = "file-01234567-a_b"; is_file = true; modified_at = 5; content = exe } ∷ [])
    × (download_agent_exe in_uploads there "up" "file-01234567-a_b"
        ≡ ok ("up" ∷ "file-01234567-a_b" ∷ []))
unfolding join upload_file safe_name cleanup_uploads newest_files sort_by remove_files remove_file
upload_file-download_example =
    upload_file-download in_uploads there "up" removes "0123456789" 5 "a/b" exe none uploaded refl
      no_slash refl refl

sent :
    download_agent_exe in_uploads there "up" "file-01234567-a_b"
    ≡ ok ("up" ∷ "file-01234567-a_b" ∷ [])
unfolding download_agent_exe basename has_slash join is_within commonpath path_equal
sent = refl

download_agent_exe_lem_example :
    (has_slash "file-01234567-a_b" ≡ false)
    × (there ("up" ∷ "file-01234567-a_b" ∷ []) ≡ true)
    × ((rest : List String) × (("up" ∷ "file-01234567-a_b" ∷ []) ≡ in_uploads "up" ++ rest))
download_agent_exe_lem_example =
    download_agent_exe_lem in_uploads there "up" "file-01234567-a_b" sent

refuses_climb : download_agent_exe in_uploads there "up" "../x" ≡ err (http 400 "Invalid filename")
unfolding download_agent_exe basename has_slash
refuses_climb = refl

-- The flag of the compiler before the stamp, 1.4.5, and a quote after it.
abbrev flag : List ℕ
flag =
    b'b' ∷ b'u' ∷ b'i' ∷ b'l' ∷ b'd' ∷ 9 ∷ b'-' ∷ b'l' ∷ b'd' ∷ b'f' ∷ b'l' ∷ b'a' ∷ b'g' ∷ b's'
    ∷ b'=' ∷ b'"' ∷ b'-' ∷ b'X' ∷ b' ' ∷ b'm' ∷ b'a' ∷ b'i' ∷ b'n' ∷ b'.' ∷ []

extract_version-stamp_example :
    extract_version (
      some (
        flag
        ++ (stamp ++ ((b'1' ∷ []) ++ b'.' ∷ ((b'4' ∷ []) ++ b'.' ∷ ((b'5' ∷ []) ++ b'"' ∷ []))))))
    ≡ version_bytes (b'1' ∷ []) (b'4' ∷ []) (b'5' ∷ [])
unfolding is_unstamped has_prefix
extract_version-stamp_example =
    extract_version-stamp flag (b'1' ∷ []) (b'4' ∷ []) (b'5' ∷ []) (b'"' ∷ []) refl refl refl refl
      refl

-- A second run of digits that is too short is passed over.
no_version : extract_version (some (stamp ++ b'1' ∷ b'.' ∷ b'.' ∷ b'5' ∷ [])) ≡ []
unfolding extract_version search_version match_at match_version
no_version = refl
