-- ===== src/Static/Inside.antt =====
-- What `serve_spa` sends.
use batch_shutdown_assistant.Prelude.{
  String, ◌≡◌, ◌⊎◌, ap, Bool, true, not, ◌&&◌, some, List, ◌++◌, arith, Bool-cases, inl, inr, ◌==◌,
}
use batch_shutdown_assistant.Paths.{join, is_within, path_text}
use batch_shutdown_assistant.Paths.Within.{is_within-append}
use batch_shutdown_assistant.Static.{serve_index, serve_spa}

-- Whatever path a request names, a file that is sent is there, and it is one below the static
-- directory, links followed, or the index page.
pub serve_spa_lem :
    {sent : String} (realpath : String → List String) (is_file : String → Bool)
    (static_dir full_path : String)
    → serve_spa realpath is_file static_dir full_path ≡ some sent
    → (is_file sent ≡ true)
      × (((rest : List String) × (sent ≡ path_text (realpath static_dir ++ rest)))
          ⊎ (sent ≡ join (path_text (realpath static_dir)) "index.html"))
unfolding serve_spa serve_index
serve_spa_lem {sent} realpath is_file static_dir full_path h =
    let root = realpath static_dir in
    let candidate = realpath (join (path_text root) full_path) in
    elim (Bool-cases
      (not (full_path == "") && is_within root candidate && is_file (path_text candidate))) [
        | inl inside ↦
            let there : is_file (path_text candidate) ≡ true = ground (arith, inside) in
            let (rest, e) = is_within-append root candidate (ground (arith, inside)) in
            let e' : path_text candidate ≡ sent = ground (arith, inside, h) in
            (rw e' at there, inl (rest, rw e' at (ap path_text e)))
        | inr outside ↦ ground (arith, outside, h)
      ]
