-- ===== src/Static.antt =====
-- server/main.py: `serve_spa`, which sends the files of the web pages. `realpath` is
-- `os.path.realpath` and `is_file` is `os.path.isfile` of a path's text.
pub mod Inside
mod Tests
use batch_shutdown_assistant.Prelude.{
  String, Bool, ◌&&◌, not, Option, none, some, List, ◌==◌, if◌then◌else◌,
}
use batch_shutdown_assistant.Paths.{join, is_within, path_text}

-- `index.html`, or `{"detail": "Not found"}`
unfoldable pub serve_index : (String → Bool) → String → Option String
serve_index is_file root =
    let index_path = join root "index.html" in if is_file index_path then some index_path else none

-- `GET /{full_path:path}`: the file that is sent.
unfoldable pub serve_spa :
    (String → List String) → (String → Bool) → String → String → Option String
unfolding path_text serve_index
serve_spa realpath is_file static_dir full_path =
    let root = realpath static_dir in
    let candidate = realpath (join (path_text root) full_path) in
    if not (full_path == "") && is_within root candidate && is_file (path_text candidate)
    then some (path_text candidate)
    else serve_index is_file (path_text root)
