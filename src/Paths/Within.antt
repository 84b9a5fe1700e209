-- ===== src/Paths/Within.antt =====
-- A path within a directory is the directory's path and something after it; a name without a slash is
-- its own last name.
use Prim.Native.Char.{code}
use Prim.Native.String as Text
use batch_shutdown_assistant.Prelude.{
  String, ◌≡◌, refl, true, false, ◌||◌, List, [], ◌∷◌, ◌++◌, arith, eq_iff, ◌==◌, Bool-cases, inl,
  inr, num_eq,
}
use batch_shutdown_assistant.Paths.{has_slash, basename, commonpath, path_equal, is_within}

pub is_within-append :
    (root path : List String)
    → is_within root path ≡ true
    → (rest : List String) × (path ≡ root ++ rest)
unfolding is_within commonpath path_equal
is_within-append [] path h = (path, refl)
is_within-append (r ∷ root) [] h = cc
is_within-append (r ∷ root) (p ∷ path) h = elim (Bool-cases (p == r)) [
  | inl same ↦
      let e : p ≡ r = ground (arith, same, eq_iff p r) in
      let (rest, e') = is_within-append root path (ground (arith, same, h)) in
      (rest, λ i. e i ∷ e' i)
  | inr other ↦ cc (rw other at h)
]

pub append-is_within : (root rest : List String) → is_within root (root ++ rest) ≡ true
unfolding is_within commonpath path_equal
append-is_within [] [] = refl
append-is_within [] (p ∷ rest) = refl
append-is_within (r ∷ root) rest = ground (arith, eq_iff r r, append-is_within root rest)

pub basename-no_slash : (s : String) → has_slash s ≡ false → basename s ≡ s
unfolding basename has_slash
basename-no_slash Text.[] h = refl
basename-no_slash (Text.◌∷◌ c s) h = ground (arith, h)

pub has_slash-basename : (s : String) → has_slash (basename s) ≡ false
unfolding basename has_slash
has_slash-basename Text.[] = refl
has_slash-basename (Text.◌∷◌ c s) = elim (Bool-cases (num_eq (code c) b'/' || has_slash s)) [
  | inl slash ↦ rw slash (has_slash-basename s)
  | inr none_ ↦ rw none_ none_
]
