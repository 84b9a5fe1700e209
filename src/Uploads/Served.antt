-- ===== src/Uploads/Served.antt =====
-- What a download sends, and that an upload can be downloaded.
use Prim.Native.Char.{code}
use Prim.Native.String as Text
use text.Mathlib.TextLemmas.{nil-append, cons-append}
use mathlib.Core.Path.{subst}
use batch_shutdown_assistant.Prelude.{
  any_row, ltb, none, some, length, ℕ, zero, suc, String, concat, take_chars, ◌≡◌, refl, ap, ◌∙◌,
  ◌≢◌, Bool, true, false, ◌||◌, List, [], ◌∷◌, ◌++◌, ok, arith, Bool-cases, inl, inr, eq_iff,
  num_eq,
}
use batch_shutdown_assistant.Paths.{has_slash, basename, join, is_within}
use batch_shutdown_assistant.Paths.Within.{
  is_within-append, append-is_within, basename-no_slash, has_slash-basename,
}
use batch_shutdown_assistant.Uploads.{
  Entry, Directory, Upload, safe_name, upload_file, cleanup_uploads, write_file, make_directory,
  upload_keep, max_upload_bytes,
}
use batch_shutdown_assistant.Uploads.Newest.{named, is_newest, cleanup_uploads-write_file}
use batch_shutdown_assistant.Uploads.Download.{download_agent_exe}

-- A file that is sent is there, below the upload directory, links followed, and was named without a
-- slash.
pub download_agent_exe_lem :
    {path : List String} (realpath : String → List String) (is_file : List String → Bool)
    (upload_dir filename : String)
    → download_agent_exe realpath is_file upload_dir filename ≡ ok path
    → (has_slash filename ≡ false)
      × (is_file path ≡ true)
      × ((rest : List String) × (path ≡ realpath upload_dir ++ rest))
unfolding download_agent_exe
download_agent_exe_lem {path} realpath is_file upload_dir filename h =
    let name = basename filename in
    let found = realpath (join upload_dir name) in
    let same : name ≡ filename = ground (arith, h, eq_iff name filename) in
    let e : found ≡ path = ground (arith, h) in
    let inside : is_within (realpath upload_dir) found ≡ true = ground (arith, h) in
    (
      rw same at (has_slash-basename filename),
      ground (arith, h),
      rw e at (is_within-append (realpath upload_dir) found inside),
    )

has_slash-concat : (s t : String) → has_slash (concat s t) ≡ (has_slash s || has_slash t)
unfolding has_slash
has_slash-concat Text.[] t = ap has_slash (nil-append t)
has_slash-concat (Text.◌∷◌ c s) t =
    ap has_slash (cons-append c s t) ∙ ground (arith, has_slash-concat s t)

has_slash-take_chars :
    (n : ℕ) (s : String) → has_slash s ≡ false → has_slash (take_chars n s) ≡ false
unfolding has_slash
has_slash-take_chars zero s h = refl
has_slash-take_chars (suc n) Text.[] h = refl
has_slash-take_chars (suc n) (Text.◌∷◌ c s) h = ground (arith, h, has_slash-take_chars n s)

has_slash-safe_name : (s : String) → has_slash (safe_name s) ≡ false
unfolding has_slash safe_name
has_slash-safe_name Text.[] = refl
has_slash-safe_name (Text.◌∷◌ c s) = elim (Bool-cases (num_eq (code c) b'/')) [
  | inl slash ↦ rw slash (has_slash-safe_name s)
  | inr plain ↦ elim (Bool-cases (num_eq (code c) b'\\')) [
    | inl back ↦ rw (plain, back) (has_slash-safe_name s)
    | inr other ↦ rw (plain, other) (rw plain (has_slash-safe_name s))
  ]
]

-- The name under which an upload is kept has no slash.
saved_name : String → String → String
saved_name hex name = concat "file-" (concat (take_chars 8 hex) (concat "-" (safe_name name)))

has_slash-saved_name :
    (hex name : String) → has_slash hex ≡ false → has_slash (saved_name hex name) ≡ false
unfolding saved_name
has_slash-saved_name hex name h =
    has_slash-concat "file-" (concat (take_chars 8 hex) (concat "-" (safe_name name)))
    ∙ unfold has_slash in
      has_slash-concat (take_chars 8 hex) (concat "-" (safe_name name))
      ∙ unfold has_slash in
        ground (
          arith,
          has_slash-take_chars 8 hex h,
          has_slash-concat "-" (safe_name name),
          has_slash-safe_name name,
        )

abbrev is_blank : String → Bool
is_blank Text.[] = true
is_blank (Text.◌∷◌ c s) = false

saved_name-ne : (hex name : String) → saved_name hex name ≢ ""
unfolding saved_name
saved_name-ne hex name e =
    let tail = concat (take_chars 8 hex) (concat "-" (safe_name name)) in
    let full : is_blank (concat "file-" tail) ≡ false = ap is_blank (cons-append "f" "ile-" tail) in
    cc full

made_newest :
    (now : ℕ) (d : Directory)
    → is_newest now d ≡ true
    → is_newest now (some (make_directory d)) ≡ true
made_newest now none k = refl
made_newest now (some es) k = k

upload_file-named :
    {u : Upload} (removes : String → Bool) (hex : String) (now : ℕ) (name : String)
    (content : List ℕ) (directory : Directory)
    → (upload_file removes hex now name content directory).0 ≡ ok u
    → is_newest now directory ≡ true
    → named u.filename (upload_file removes hex now name content directory).1
      ≡ record { name = u.filename; is_file = true; modified_at = now; content = content } ∷ []
unfolding upload_file saved_name
upload_file-named {u} removes hex now name content directory k older =
    elim (Bool-cases (ltb max_upload_bytes (length content))) [
      | inl large ↦ absurd (cc (rw large at k))
      | inr fits ↦
          let e : saved_name hex name ≡ u.filename = ground (arith, k) in
          rw fits (
            subst
              (λ n.
                named n (
                  cleanup_uploads removes upload_keep (
                    some (write_file now (saved_name hex name) content (make_directory directory))))
                ≡ record { name = n; is_file = true; modified_at = now; content = content } ∷ [])
              e
              (cleanup_uploads-write_file removes 19 now (saved_name hex name) content
                (make_directory directory) (made_newest now directory older)))
    ]

-- A file of an accepted upload is in the directory that the upload leaves, with its content, where each
-- other file was written before; where besides the paths in the upload directory are no links, and the
-- files of the directory are those that the system finds, it is sent under the name that was answered,
-- whatever its own name.
pub upload_file-download :
    {u : Upload} (realpath : String → List String) (is_file : List String → Bool)
    (upload_dir : String) (removes : String → Bool) (hex : String) (now : ℕ) (name : String)
    (content : List ℕ) (directory : Directory)
    → let (r, directory') = upload_file removes hex now name content directory in
      r ≡ ok u
      → is_newest now directory ≡ true
      → has_slash hex ≡ false
      → realpath (join upload_dir u.filename) ≡ realpath upload_dir ++ u.filename ∷ []
      → is_file (realpath upload_dir ++ u.filename ∷ [])
        ≡ any_row (λ e. e.is_file) (named u.filename directory')
      → (named u.filename directory'
          ≡ record { name = u.filename; is_file = true; modified_at = now; content = content } ∷ [])
        × (download_agent_exe realpath is_file upload_dir u.filename
            ≡ ok (realpath upload_dir ++ u.filename ∷ []))
upload_file-download {u} realpath is_file upload_dir removes hex now name content directory h newest
      plain path found =
    let e : saved_name hex name ≡ u.filename = unfold upload_file saved_name in ground (arith, h) in
    let plain : has_slash u.filename ≡ false = rw e at (has_slash-saved_name hex name plain) in
    let same = basename-no_slash u.filename plain in
    let filled : u.filename ≢ "" = rw e at (saved_name-ne hex name) in
    let stored = upload_file-named removes hex now name content directory h newest in
    let there : is_file (realpath upload_dir ++ u.filename ∷ []) ≡ true =
      found ∙ ap (any_row (λ (f : Entry). f.is_file)) stored in
    (
      stored,
      unfold download_agent_exe in
          rw (same, path)
            (ground (
              arith,
              eq_iff u.filename u.filename,
              eq_iff u.filename "",
              filled,
              there,
              append-is_within (realpath upload_dir) (u.filename ∷ []),
            )),
    )
