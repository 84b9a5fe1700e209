-- ===== src/Uploads/Stamp.antt =====
-- The version that is stamped into the agent's program is the one that is found.
use mathlib.Core.List.{append_assoc}
use batch_shutdown_assistant.Prelude.{
  ◌≤◌, sym, Bool-cases, inl, inr, length-append, ℕ, ◌≡◌, refl, ap, ◌∙◌, Bool, true, false, not,
  ◌&&◌, ◌||◌, Option, some, none, List, [], ◌∷◌, ◌++◌, all_rows, num_eq, length, arith,
  if◌then◌else◌,
}
use batch_shutdown_assistant.Uploads.Download.{
  is_digit, take_digits, after_dot, match_version, match_minor, match_patch, is_empty,
  version_or_empty, stamp, match_at, search_version, extract_version,
}

abbrev pub starts_with_digit : List ℕ → Bool
starts_with_digit [] = false
starts_with_digit (b ∷ bytes) = is_digit b

-- Digits, and at least one.
abbrev pub is_number : List ℕ → Bool
is_number bytes = all_rows is_digit bytes && not (num_eq (length bytes) 0)

abbrev pub version_bytes : List ℕ → List ℕ → List ℕ → List ℕ
version_bytes major minor patch = major ++ b'.' ∷ (minor ++ b'.' ∷ patch)

take_digits-append :
    (digits rest : List ℕ)
    → all_rows is_digit digits ≡ true
    → starts_with_digit rest ≡ false
    → take_digits (digits ++ rest) ≡ (digits, rest)
unfolding take_digits
take_digits-append [] [] h k = refl
take_digits-append [] (b ∷ rest) h k = ground (arith, k)
take_digits-append (d ∷ digits) rest h k =
    ground (arith, h, take_digits-append digits rest (ground (arith, h)) k)

abbrev some_or_none : List ℕ → List ℕ → List ℕ → Option (List ℕ)
some_or_none major minor patch =
    if is_empty major || is_empty minor || is_empty patch
    then none
    else some (version_bytes major minor patch)

match_version-append :
    (major minor patch rest : List ℕ)
    → is_number major ≡ true
    → is_number minor ≡ true
    → is_number patch ≡ true
    → starts_with_digit rest ≡ false
    → match_version (major ++ b'.' ∷ (minor ++ b'.' ∷ (patch ++ rest)))
      ≡ some (version_bytes major minor patch)
unfolding match_version match_minor match_patch
match_version-append major minor patch rest h k l end =
    let e₁ =
      take_digits-append major (b'.' ∷ (minor ++ b'.' ∷ (patch ++ rest))) (ground (arith, h))
        refl in
    let e₂ = take_digits-append minor (b'.' ∷ (patch ++ rest)) (ground (arith, k)) refl in
    let e₃ = take_digits-append patch rest (ground (arith, l)) end in
    ap (λ r. match_minor r.0 (after_dot r.1)) e₁
    ∙ ap (λ r. match_patch major r.0 (after_dot r.1)) e₂
    ∙ ap (λ r. some_or_none major minor r.0) e₃
    ∙ ground (arith, h, k, l)

match_at-stamp : (bytes : List ℕ) → match_at stamp (stamp ++ bytes) ≡ match_version bytes
unfolding match_at
match_at-stamp bytes = refl

-- Whether the bytes begin with a text.
unfoldable pub has_prefix : List ℕ → List ℕ → Bool
has_prefix [] bytes = true
has_prefix (p ∷ prefix) [] = false
has_prefix (p ∷ prefix) (b ∷ bytes) = num_eq b p && has_prefix prefix bytes

-- No place in these bytes is one where the stamp begins, read on into a stamp that follows them.
unfoldable pub is_unstamped : List ℕ → Bool
unfolding has_prefix
is_unstamped [] = true
is_unstamped (b ∷ bytes) = not (has_prefix stamp (b ∷ bytes ++ stamp)) && is_unstamped bytes

match_at-none :
    (prefix bytes rest : List ℕ)
    → length prefix ≤ length bytes
    → has_prefix prefix bytes ≡ false
    → match_at prefix (bytes ++ rest) ≡ none
unfolding match_at has_prefix
match_at-none [] bytes rest le h = absurd (cc h)
match_at-none (p ∷ prefix) [] rest le h = absurd (omega arith)
match_at-none (p ∷ prefix) (b ∷ bytes) rest le h = elim (Bool-cases (num_eq b p)) [
  | inl hit ↦ rw hit (match_at-none prefix bytes rest (omega arith) (rw hit at h))
  | inr miss ↦ rw miss refl
]

-- No match begins before the stamp.
search_version-clear :
    (before bytes : List ℕ)
    → is_unstamped before ≡ true
    → search_version (before ++ (stamp ++ bytes)) ≡ search_version (stamp ++ bytes)
unfolding search_version is_unstamped
search_version-clear [] bytes clear = refl
search_version-clear (b ∷ before) bytes clear =
    let all : List ℕ = b ∷ before ++ stamp in
    let long : length stamp ≤ length all = omega (arith, length-append before stamp) in
    let gone : match_at stamp (all ++ bytes) ≡ none =
      match_at-none stamp all bytes long (ground (arith, clear)) in
    let gone' : match_at stamp (b ∷ before ++ (stamp ++ bytes)) ≡ none =
      ap (λ xs. match_at stamp (b ∷ xs)) (sym (append_assoc before stamp bytes)) ∙ gone in
    rw gone' (search_version-clear before bytes (ground (arith, clear)))

search_version-stamp :
    (bytes : List ℕ) {version : List ℕ}
    → match_version bytes ≡ some version
    → search_version (stamp ++ bytes) ≡ some version
unfolding search_version
search_version-stamp bytes h = rw (match_at-stamp bytes, h) refl

-- In a program with the stamp, where no earlier place has it, and no digit follows it, the version is
-- the stamped one.
pub extract_version-stamp :
    (before major minor patch rest : List ℕ)
    → is_unstamped before ≡ true
    → is_number major ≡ true
    → is_number minor ≡ true
    → is_number patch ≡ true
    → starts_with_digit rest ≡ false
    → extract_version
        (some (before ++ (stamp ++ (major ++ b'.' ∷ (minor ++ b'.' ∷ (patch ++ rest))))))
      ≡ version_bytes major minor patch
unfolding extract_version
extract_version-stamp before major minor patch rest clear h k l end =
    let bytes = major ++ b'.' ∷ (minor ++ b'.' ∷ (patch ++ rest)) in
    ap version_or_empty (
      search_version-clear before bytes clear
      ∙ search_version-stamp bytes (match_version-append major minor patch rest h k l end))
