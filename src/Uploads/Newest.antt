-- ===== src/Uploads/Newest.antt =====
-- The clean-up of the upload directory keeps the file that was written last.
use mathlib.Core.Path.{subst}
use batch_shutdown_assistant.Prelude.{
  insert_by, sort_by, All-sort_by, All, select, select-select, all_rows, ltb, leb, not, sym, none,
  some, drop, eq_refl, ◌==◌, ℕ, zero, suc, String, ◌≡◌, refl, ap, ◌∙◌, Bool, true, false, ◌||◌,
  List, [], ◌∷◌, ◌++◌, arith, Bool-cases, inl, inr, eq_iff,
}
use batch_shutdown_assistant.Devices.Rows.{select-append}
use batch_shutdown_assistant.Uploads.{
  Entry, Directory, same_name, remove_file, remove_files, newest_files, cleanup_uploads, write_file,
}

-- The entries of a name.
abbrev pub named : String → Directory → List Entry
named name none = []
named name (some entries) = select (λ e. e.name == name) entries

-- Each other file was written before.
abbrev pub is_newest : ℕ → Directory → Bool
is_newest now none = true
is_newest now (some entries) = all_rows (λ e. not e.is_file || ltb e.modified_at now) entries

abbrev newer : Entry → Entry → Bool
newer e f = leb f.modified_at e.modified_at

insert_by-head :
    (e new : Entry) (es : List Entry)
    → ltb e.modified_at new.modified_at ≡ true
    → insert_by newer e (new ∷ es) ≡ new ∷ insert_by newer e es
unfolding insert_by
insert_by-head e new es h = let later : newer e new ≡ false = ground (arith, h) in rw later refl

sort_by-newest :
    (es : List Entry) (new : Entry)
    → all_rows (λ e. ltb e.modified_at new.modified_at) es ≡ true
    → sort_by newer (es ++ new ∷ []) ≡ new ∷ sort_by newer es
unfolding sort_by insert_by
sort_by-newest [] new h = refl
sort_by-newest (e ∷ es) new h =
    ap (insert_by newer e) (sort_by-newest es new (ground (arith, h)))
    ∙ insert_by-head e new (sort_by newer es) (ground (arith, h))

All-drop : (P : Entry → Type 0) (n : ℕ) (es : List Entry) → All P es → All P (drop n es)
All-drop P zero es h = h
All-drop P (suc n) [] h = h
All-drop P (suc n) (e ∷ es) h = All-drop P n es h.1

-- A removal of files with other names leaves those of the name.
remove_files-others :
    (removes : String → Bool) (name : String) (gone es : List Entry)
    → All (λ e. e.name == name ≡ false) gone
    → select (λ e. e.name == name) (remove_files removes gone es) ≡ select (λ e. e.name == name) es
unfolding remove_files remove_file
remove_files-others removes name [] es h = refl
remove_files-others removes name (g ∷ gone) es h = elim (Bool-cases (removes g.name)) [
  | inl yes_removed ↦ rw yes_removed (
      remove_files-others removes name gone (select (λ f. not (same_name f g)) es) h.1
      ∙ select-select (λ e. e.name == name) (λ f. not (same_name f g)) (λ e. e.name == name) es
          (λ e. ground (arith, h.0, eq_iff e.name name, eq_iff e.name g.name, eq_iff g.name name)))
  | inr no_removed ↦ rw no_removed (remove_files-others removes name gone es h.1)
]

other_names :
    (name : String) (es : List Entry)
    → All
        (λ e. e.name == name ≡ false)
        (select (λ e. e.is_file) (select (λ e. not (e.name == name)) es))
other_names name [] = tt
other_names name (e ∷ es) = elim (Bool-cases (e.name == name)) [
  | inl same ↦ rw same (other_names name es)
  | inr other ↦ elim (Bool-cases e.is_file) [
    | inl file ↦ rw other (rw file (other, other_names name es))
    | inr folder ↦ rw other (rw folder (other_names name es))
  ]
]

all_older :
    (now : ℕ) (name : String) (es : List Entry)
    → all_rows (λ e. not e.is_file || ltb e.modified_at now) es ≡ true
    → all_rows
        (λ e. ltb e.modified_at now)
        (select (λ e. e.is_file) (select (λ e. not (e.name == name)) es))
      ≡ true
all_older now name [] h = refl
all_older now name (e ∷ es) h = elim (Bool-cases (e.name == name)) [
  | inl same ↦ rw same (all_older now name es (ground (arith, h)))
  | inr other ↦ elim (Bool-cases e.is_file) [
    | inl file ↦
        rw other (rw file (ground (arith, h, file, all_older now name es (ground (arith, h)))))
    | inr folder ↦ rw other (rw folder (all_older now name es (ground (arith, h))))
  ]
]

none_named :
    (name : String) (es : List Entry)
    → select (λ e. e.name == name) (select (λ e. not (e.name == name)) es) ≡ []
none_named name [] = refl
none_named name (e ∷ es) = ground (arith, none_named name es)

-- A file that is written last is kept by the clean-up.
pub cleanup_uploads-write_file :
    (removes : String → Bool) (keep now : ℕ) (name : String) (content : List ℕ) (es : List Entry)
    → is_newest now (some es) ≡ true
    → named name (cleanup_uploads removes (suc keep) (some (write_file now name content es)))
      ≡ record { name = name; is_file = true; modified_at = now; content = content } ∷ []
unfolding cleanup_uploads newest_files write_file
cleanup_uploads-write_file removes keep now name content es h =
    let new : Entry = record {
      name = name;
      is_file = true;
      modified_at = now;
      content = content;
    } in
    let others = select (λ (e : Entry). not (e.name == name)) es in
    let files = select (λ (e : Entry). e.is_file) others in
    let sorted : sort_by newer (select (λ e. e.is_file) (others ++ new ∷ []))
        ≡ new ∷ sort_by newer files =
      ap (sort_by newer) (select-append (λ e. e.is_file) others (new ∷ []))
      ∙ sort_by-newest files new (all_older now name es h) in
    let P : Entry → Type 0 = λ e. e.name == name ≡ false in
    let gone : All P
        (drop (suc keep) (sort_by newer (select (λ e. e.is_file) (others ++ new ∷ [])))) =
      subst (λ xs. All P (drop (suc keep) xs)) (sym sorted)
        (All-drop P keep (sort_by newer files) (All-sort_by newer P files (other_names name es))) in
    remove_files-others removes name _ (others ++ new ∷ []) gone
    ∙ select-append (λ e. e.name == name) others (new ∷ [])
    ∙ ap (λ xs. xs ++ select (λ (e : Entry). e.name == name) (new ∷ [])) (none_named name es)
    ∙ rw (eq_refl name) refl
