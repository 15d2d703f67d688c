-- ===== src/Filepath/Below.antt =====
-- A path that is cleaned before it is joined to a directory, as backend/internal/network/tftp.go,
-- backend/internal/boot/install.go and backend/internal/api/handlers_profiles_answer.go do it.
use Prim.Native.String.{◌++◌}
use helboot.Prelude.{String, ◌≡◌, sym, ap, ◌∙◌, true, List, [], ◌∷◌, ◌++◌ as ◌+++◌, All}
use helboot.Filepath.{elements, is_rooted, joined, render, cleaned, clean, join}
use helboot.Filepath.Laws.{
  IsName, walk-All, elements-HasNoSlash, join-rooted, clean-rooted, render-append,
}

-- The names that a path spells, the last first.
abbrev pub names_of : String → List String
names_of path = cleaned true ("/" ++ path)

pub names_of-All : (path : String) → All IsName (names_of path)
unfolding cleaned
names_of-All path = walk-All [] (elements ("/" ++ path)) tt (elements-HasNoSlash ("/" ++ path))

-- The file of these names under a directory.
abbrev pub below : String → List String → String
below dir [] = clean dir
below dir (w ∷ ws) = clean dir ++ ("/" ++ joined (w ∷ ws))

clean_lem :
    (dir : String) (ws : List String)
    → cleaned (is_rooted dir) dir ≡ ws
    → clean dir ≡ render (is_rooted dir) ws
unfolding clean
clean_lem dir ws h = ap (render (is_rooted dir)) h

render-below :
    (dir : String) (d : String) (ds ws : List String)
    → cleaned (is_rooted dir) dir ≡ d ∷ ds
    → render (is_rooted dir) (ws +++ d ∷ ds) ≡ below dir ws
render-below dir d ds [] h = sym (clean_lem dir (d ∷ ds) h)
render-below dir d ds (w ∷ ws) h =
    render-append (is_rooted dir) w ws d ds
    ∙ ap (λ u. u ++ ("/" ++ joined (w ∷ ws))) (sym (clean_lem dir (d ∷ ds) h))

pub join-below :
    (dir path : String) (d : String) (ds : List String)
    → cleaned (is_rooted dir) dir ≡ d ∷ ds
    → join dir (clean ("/" ++ path)) ≡ below dir (names_of path)
join-below dir path d ds h =
    ap (join dir) (clean-rooted path)
    ∙ join-rooted dir d ds (names_of path) h (names_of-All path)
    ∙ render-below dir d ds (names_of path) h
