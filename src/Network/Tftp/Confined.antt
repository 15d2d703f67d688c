-- ===== src/Network/Tftp/Confined.antt =====
-- What a TFTP client can reach: securePath of backend/internal/network/tftp.go.
use Prim.Native.String.{◌++◌}
use text.Mathlib.Text.{starts_with}
use text.Mathlib.TextEquality.{starts_with_iff}
use text.Mathlib.TextLemmas.{cons≢nil, append_assoc, append_cancel_left, append-nil}
use helboot.Prelude.{
  String, ◌≡◌, ◌≢◌, ap, sym, ◌∙◌, true, false, List, [], ◌∷◌, Option, none, some, String_eq,
  if◌then◌else◌, Bool-cases, inl, inr, All,
}
use helboot.Filepath.{is_rooted, joined, cleaned, clean}
use helboot.Filepath.Laws.{IsName, slash-append}
use helboot.Filepath.Below.{names_of, names_of-All, below, join-below}
use helboot.Network.Tftp.{forward_slashes, confine, secure_path}

-- The names that a request asks for, the last first.
abbrev pub asked_names : String → List String
asked_names filename = names_of (forward_slashes filename)

-- The file that a request reaches.
abbrev pub reached : String → List String → Option String
reached root [] = none
reached root (w ∷ ws) = some (clean root ++ ("/" ++ joined (w ∷ ws)))

slash≢nil : (t : String) → ("/" ++ t) ≢ ""
slash≢nil t e = cons≢nil (sym (slash-append t) ∙ e)

starts_with-longer : (s : String) → starts_with s (s ++ "/") ≡ false
starts_with-longer s = elim (Bool-cases (starts_with s (s ++ "/"))) [
  | inr e ↦ e
  | inl e ↦
      let (rest, p) = (starts_with_iff s (s ++ "/")).0 e in
      absurd (
        slash≢nil rest (
          append_cancel_left s ("/" ++ rest) ""
            (sym (append_assoc s "/" rest) ∙ p ∙ sym (append-nil s))))
]

starts_with-below : (s t : String) → starts_with (s ++ ("/" ++ t)) (s ++ "/") ≡ true
starts_with-below s t = (starts_with_iff (s ++ ("/" ++ t)) (s ++ "/")).1 (t, append_assoc s "/" t)

confine-reached :
    (root : String) (ws : List String) → confine root (below root ws) ≡ reached root ws
unfolding confine
confine-reached root [] =
    ap (λ b. if b then some (clean root) else none) (starts_with-longer (clean root))
confine-reached root (w ∷ ws) =
    ap (λ b. if b then some (clean root ++ ("/" ++ joined (w ∷ ws))) else none)
      (starts_with-below (clean root) (joined (w ∷ ws)))

-- Under a root directory other than `/` and the working directory, a request reaches the file
-- below the root that the names of the request spell, read from the root down with `\` as `/` and
-- `..` taken back, and none where no name is left; none of these names is empty, `.` or `..` or
-- holds a `/`.
pub secure_path-confined :
    (root filename : String) (d : String) (ds : List String)
    → cleaned (is_rooted root) root ≡ d ∷ ds
    → (secure_path root filename ≡ reached root (asked_names filename))
      × All IsName (asked_names filename)
unfolding secure_path
secure_path-confined root filename d ds h = (
  ap (confine root) (join-below root (forward_slashes filename) d ds h)
      ∙ confine-reached root (asked_names filename),
  names_of-All (forward_slashes filename),
)
