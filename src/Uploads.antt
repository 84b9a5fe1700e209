-- ===== src/Uploads.antt =====
-- server/api/upgrade_routes.py: the upload directory. A file's content is its bytes; `now` is the time
-- of the write, `hex` the hexadecimal text of the call's `uuid4()`. `lower` is `str.lower`, and
-- `removes` tells whether the system lets a path be removed.
pub mod Cleanup
pub mod Download
pub mod Newest
pub mod Served
pub mod Stamp
mod Tests
use Prim.Native.Char.{code}
use Prim.Native.String as Text
use batch_shutdown_assistant.Prelude.{
  ℕ, zero, suc, ◌+◌, ◌-◌, ◌*◌, String, len, concat, take_chars, drop_chars, Bool, true, false, not,
  ◌&&◌, ◌||◌, Option, none, some, List, [], ◌∷◌, ◌++◌, length, take, drop, select, ltb, leb, num_eq,
  any_row, sort_by, Result, ok, err, http, ◌==◌, if◌then◌else◌,
}

-- 500 MB
abbrev pub max_upload_bytes : ℕ
max_upload_bytes = 500 * 1024 * 1024

abbrev pub upload_keep : ℕ
upload_keep = 20

-- An entry of the directory; only a regular file is kept or removed by the server.
pub record Entry : Type 0 where
  pub name : String
  pub is_file : Bool
  pub modified_at : ℕ
  pub content : List ℕ

abbrev pub same_name : Entry → Entry → Bool
same_name e f = e.name == f.name

-- The directory; `none` while it does not exist.
abbrev pub Directory : Type 0
Directory = Option (List Entry)

-- `os.remove(path)`, where an error is passed over
unfoldable pub remove_file : (String → Bool) → Entry → List Entry → List Entry
remove_file removes e entries =
    let rest = select (λ f. not (same_name f e)) entries in if removes e.name then rest else entries

unfoldable pub remove_files : (String → Bool) → List Entry → List Entry → List Entry
unfolding remove_file
remove_files removes [] entries = entries
remove_files removes (e ∷ es) entries = remove_files removes es (remove_file removes e entries)

-- `sort(key=os.path.getmtime, reverse=True)`, which keeps the order of files of one time
unfoldable pub newest_files : List Entry → List Entry
newest_files entries = sort_by (λ (e f : Entry). leb f.modified_at e.modified_at) entries

unfoldable pub cleanup_uploads : (String → Bool) → ℕ → Directory → Directory
unfolding remove_files newest_files
cleanup_uploads removes keep none = none
cleanup_uploads removes keep (some entries) =
    some (remove_files removes (drop keep (newest_files (select (λ e. e.is_file) entries))) entries)

abbrev pub bytes_equal : List ℕ → List ℕ → Bool
bytes_equal [] [] = true
bytes_equal [] (y ∷ ys) = false
bytes_equal (x ∷ xs) [] = false
bytes_equal (x ∷ xs) (y ∷ ys) = num_eq x y && bytes_equal xs ys

-- `int.from_bytes(bytes, "little")`
abbrev pub from_little : List ℕ → ℕ
from_little [] = 0
from_little (x ∷ xs) = x + 256 * from_little xs

-- `bytes[start:stop]`
abbrev pub slice : ℕ → ℕ → List ℕ → List ℕ
slice start stop bytes = take (stop - start) (drop start bytes)

-- The offset of the PE header, at 0x3C.
abbrev pub pe_offset : List ℕ → ℕ
pe_offset bytes = from_little (slice 60 64 bytes)

-- `_is_pe`: `MZ` first, and `PE\0\0` at the offset.
unfoldable pub is_pe : List ℕ → Bool
is_pe bytes =
    if ltb (length bytes) 64 || not (bytes_equal (take 2 bytes) (77 ∷ 90 ∷ []))
    then false
    else leb (pe_offset bytes + 4) (length bytes)
      && bytes_equal (slice (pe_offset bytes) (pe_offset bytes + 4) bytes) (80 ∷ 69 ∷ 0 ∷ 0 ∷ [])

-- `s.endswith(suffix)`
abbrev pub ends_with : String → String → Bool
ends_with s suffix = leb (len suffix) (len s) && drop_chars (len s - len suffix) s == suffix

-- `os.makedirs(UPLOAD_DIR, exist_ok=True)`
abbrev pub make_directory : Directory → List Entry
make_directory none = []
make_directory (some entries) = entries

-- `open(path, "wb")` and `write`: a file of that name is overwritten.
unfoldable pub write_file : ℕ → String → List ℕ → List Entry → List Entry
write_file now name content entries =
    select (λ f. not (f.name == name)) entries
    ++ record { name = name; is_file = true; modified_at = now; content = content } ∷ []

pub record Upload : Type 0 where
  pub filename : String
  pub original_name : String
  pub size : ℕ

-- `POST /api/upgrade/upload`
unfoldable pub upload_agent_exe :
    (String → String)
    → (String → Bool)
    → String
    → ℕ
    → String
    → List ℕ
    → Directory
    → Result Upload × Directory
unfolding write_file cleanup_uploads
upload_agent_exe lower removes hex now name content directory =
    let filename = concat "agent-" (concat (take_chars 8 hex) ".exe") in
    let written = write_file now filename content (make_directory directory) in
    if not (ends_with (lower name) ".exe")
    then (err (http 400 "仅支持 .exe 文件"), directory)
    else if ltb max_upload_bytes (length content)
    then (err (http 413 "文件超过 500MB 上限"), directory)
    else if not (is_pe content)
    then (err (http 400 "不是有效的 Windows PE 可执行文件"), directory)
    else (
      ok (record { filename = filename; original_name = name; size = length content }),
      cleanup_uploads removes upload_keep (some written),
    )

-- `filename.replace("/", "_").replace("\\", "_")`
unfoldable pub safe_name : String → String
safe_name Text.[] = Text.[]
safe_name (Text.◌∷◌ c s) =
    let rest = safe_name s in
    Text.◌∷◌ (if num_eq (code c) b'/' || num_eq (code c) b'\\' then "_" else c) rest

-- `POST /api/upgrade/file-upload`: the directory is made before the size is read.
unfoldable pub upload_file :
    (String → Bool) → String → ℕ → String → List ℕ → Directory → Result Upload × Directory
unfolding write_file cleanup_uploads safe_name
upload_file removes hex now name content directory =
    let made = make_directory directory in
    let save_name = concat "file-" (concat (take_chars 8 hex) (concat "-" (safe_name name))) in
    if ltb max_upload_bytes (length content) then (err (http 413 "文件超过 500MB 上限"), some made) else (
      ok (record { filename = save_name; original_name = safe_name name; size = length content }),
      cleanup_uploads removes upload_keep (some (write_file now save_name content made)),
    )
