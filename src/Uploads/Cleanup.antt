-- ===== src/Uploads/Cleanup.antt =====
-- What a cleanup leaves, and what an upload does to the directory.
use batch_shutdown_assistant.Prelude.{
  select-select, false, ◌&&◌, leb, ℕ, ◌≤◌, String, ◌≡◌, refl, sym, ap, ◌∙◌, Bool, true, not, none,
  some, List, [], ◌∷◌, length, select, drop, sort_by, is_left, length-without-drop, arith, ok, err,
  Error, eq_refl, concat, take_chars,
}
use batch_shutdown_assistant.Uploads.{
  Entry, Directory, Upload, max_upload_bytes, upload_keep, same_name, remove_file, remove_files,
  newest_files, cleanup_uploads, is_pe, ends_with, make_directory, write_file, upload_agent_exe,
}

-- The regular files of the directory.
abbrev pub file_count : Directory → ℕ
file_count none = 0
file_count (some entries) = length (select (λ e. e.is_file) entries)

-- Where each path can be removed, what is left has none of the names.
remove_files-select :
    (removes : String → Bool) (gone entries : List Entry)
    → ((s : String) → removes s ≡ true)
    → remove_files removes gone entries
      ≡ select (is_left same_name (λ e. eq_refl e.name) gone) entries
unfolding remove_files remove_file
remove_files-select removes [] entries all =
    sym (select_all (is_left same_name (λ e. eq_refl e.name) []) entries (λ e. refl))
  where
    select_all :
        (p : Entry → Bool) (es : List Entry) → ((e : Entry) → p e ≡ true) → select p es ≡ es
    select_all p [] h = refl
    select_all p (e ∷ es) h = ground (arith, h e, select_all p es h)
remove_files-select removes (e ∷ gone) entries all = rw (all e.name) (
    remove_files-select removes gone (select (λ f. not (same_name f e)) entries) all
    ∙ select-select (is_left same_name (λ f. eq_refl f.name) gone) (λ f. not (same_name f e))
        (is_left same_name (λ f. eq_refl f.name) (e ∷ gone)) entries (λ f. ground arith))

-- A cleanup leaves at most the files that it is to keep.
pub cleanup_uploads-file_count :
    (removes : String → Bool) (keep : ℕ) (directory : Directory)
    → ((s : String) → removes s ≡ true)
    → file_count (cleanup_uploads removes keep directory) ≤ keep
unfolding cleanup_uploads newest_files
cleanup_uploads-file_count removes keep none all = omega arith
cleanup_uploads-file_count removes keep (some entries) all =
    let le = λ (e f : Entry). leb f.modified_at e.modified_at in
    let files = select (λ (e : Entry). e.is_file) entries in
    let gone = drop keep (sort_by le files) in
    let left = is_left same_name (λ e. eq_refl e.name) gone in
    let both : Entry → Bool = λ e. e.is_file && left e in
    let e₁ = select-select (λ e. e.is_file) left both entries (λ e. refl) in
    let e₂ = select-select left (λ e. e.is_file) both entries (λ e. ground arith) in
    let e : select (λ (e : Entry). e.is_file) (remove_files removes gone entries)
        ≡ select left files =
      ap (select (λ e. e.is_file)) (remove_files-select removes gone entries all) ∙ e₁ ∙ sym e₂ in
    rw e (length-without-drop same_name (λ e. eq_refl e.name) le keep files)

-- An upload of the agent that is accepted was a Windows executable by its name and its header, of at
-- most 500 MB; its size is answered, and at most 20 files are left, where the system lets files be
-- removed.
pub accepted_upload_lem :
    {u : Upload} (lower : String → String) (removes : String → Bool) (hex : String) (now : ℕ)
    (name : String) (content : List ℕ) (directory : Directory)
    → (upload_agent_exe lower removes hex now name content directory).0 ≡ ok u
    → ((s : String) → removes s ≡ true)
    → (ends_with (lower name) ".exe" ≡ true)
      × (is_pe content ≡ true)
      × (u.size ≡ length content)
      × (length content ≤ max_upload_bytes)
      × (file_count (upload_agent_exe lower removes hex now name content directory).1 ≤ upload_keep)
unfolding upload_agent_exe
accepted_upload_lem lower removes hex now name content directory h all =
    let filename = concat "agent-" (concat (take_chars 8 hex) ".exe") in
    let written = write_file now filename content (make_directory directory) in
    ground (arith, h, cleanup_uploads-file_count removes upload_keep (some written) all)

-- An upload of the agent that is refused leaves the directory as it was; it is refused only for a name
-- without the ending, for more than 500 MB, or for the header.
pub refused_upload_lem :
    {e : Error} (lower : String → String) (removes : String → Bool) (hex : String) (now : ℕ)
    (name : String) (content : List ℕ) (directory : Directory)
    → (upload_agent_exe lower removes hex now name content directory).0 ≡ err e
    → ((upload_agent_exe lower removes hex now name content directory).1 ≡ directory)
      × ((ends_with (lower name) ".exe" && leb (length content) max_upload_bytes && is_pe content)
          ≡ false)
unfolding upload_agent_exe
refused_upload_lem lower removes hex now name content directory h = ground (arith, h)
