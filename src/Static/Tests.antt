-- ===== src/Static/Tests.antt =====
-- Tests of the files of the web pages.
use batch_shutdown_assistant.Prelude.{
  String, ◌≡◌, ◌⊎◌, refl, Bool, true, ◌||◌, some, List, [], ◌∷◌, ◌++◌, ◌==◌, if◌then◌else◌,
}
use batch_shutdown_assistant.Paths.{join, is_within, commonpath, path_equal, path_text}
use batch_shutdown_assistant.Static.{serve_index, serve_spa}
use batch_shutdown_assistant.Static.Inside.{serve_spa_lem}

-- Two files; a path that climbs out of the directory resolves to one outside.
abbrev realpath : String → List String
realpath s =
    if s == "static"
    then "app" ∷ "static" ∷ []
    else if s == "/app/static/logo.png"
    then "app" ∷ "static" ∷ "logo.png" ∷ []
    else "etc" ∷ "passwd" ∷ []

abbrev is_file : String → Bool
is_file s = s == "/app/static/logo.png" || s == "/etc/passwd" || s == "/app/static/index.html"

sends_logo : serve_spa realpath is_file "static" "logo.png" ≡ some "/app/static/logo.png"
unfolding serve_spa join path_text is_within commonpath path_equal
sends_logo = refl

keeps_passwd :
    serve_spa realpath is_file "static" "../../etc/passwd" ≡ some "/app/static/index.html"
unfolding serve_spa join path_text is_within commonpath path_equal serve_index
keeps_passwd = refl

serve_spa_lem_example :
    (is_file "/app/static/logo.png" ≡ true)
    × (((rest : List String) × (◌≡◌ {A = String} "/app/static/logo.png"
            (path_text (realpath "static" ++ rest))))
        ⊎ (◌≡◌ {A = String} "/app/static/logo.png"
            (join (path_text (realpath "static")) "index.html")))
serve_spa_lem_example = serve_spa_lem realpath is_file "static" "logo.png" sends_logo
