-- ===== src/Paths.antt =====
-- The paths that server/api/upgrade_routes.py and server/main.py make, as os.path makes them on POSIX.
-- A resolved path is the list of its names from the root on.
pub mod Within
use Prim.Native.Char.{code}
use Prim.Native.String as Text
use batch_shutdown_assistant.Prelude.{
  ℕ, String, concat, len, drop_chars, ◌-◌, Bool, true, false, not, ◌&&◌, ◌||◌, List, [], ◌∷◌,
  num_eq, leb, ◌==◌, if◌then◌else◌,
}

unfoldable pub has_slash : String → Bool
has_slash Text.[] = false
has_slash (Text.◌∷◌ c s) = num_eq (code c) b'/' || has_slash s

-- What follows the last slash.
unfoldable pub basename : String → String
unfolding has_slash
basename Text.[] = Text.[]
basename (Text.◌∷◌ c s) =
    let rest = basename s in if num_eq (code c) b'/' || has_slash s then rest else Text.◌∷◌ c s

abbrev pub ends_in_slash : String → Bool
ends_in_slash s = drop_chars (len s - 1) s == "/"

abbrev pub starts_with_slash : String → Bool
starts_with_slash Text.[] = false
starts_with_slash (Text.◌∷◌ c s) = num_eq (code c) b'/'

-- `os.path.join(a, b)`: an absolute `b` stands alone.
unfoldable pub join : String → String → String
join a b =
    if starts_with_slash b
    then b
    else if a == "" || ends_in_slash a
    then concat a b
    else concat a (concat "/" b)

-- `os.path.commonpath([a, b])`, of resolved paths
unfoldable pub commonpath : List String → List String → List String
commonpath [] bs = []
commonpath (a ∷ as_) [] = []
commonpath (a ∷ as_) (b ∷ bs) = let rest = commonpath as_ bs in if a == b then a ∷ rest else []

unfoldable pub path_equal : List String → List String → Bool
path_equal [] [] = true
path_equal [] (b ∷ bs) = false
path_equal (a ∷ as_) [] = false
path_equal (a ∷ as_) (b ∷ bs) = a == b && path_equal as_ bs

-- `os.path.commonpath([path, root]) == root`
unfoldable pub is_within : List String → List String → Bool
unfolding commonpath path_equal
is_within root path = path_equal (commonpath path root) root

-- The text of a resolved path.
unfoldable pub path_text : List String → String
path_text [] = "/"
path_text (a ∷ []) = concat "/" a
path_text (a ∷ b ∷ rest) = let tail = path_text (b ∷ rest) in concat "/" (concat a tail)
