-- ===== src/Network/Tftp/Examples.antt =====
-- securePath at concrete requests: backend/internal/network/tftp.go.
use helboot.Prelude.{◌≡◌, refl, [], ◌∷◌, none, some, All}
use helboot.Filepath.Laws.{IsName}
use helboot.Network.Tftp.{secure_path}
use helboot.Network.Tftp.Confined.{asked_names, secure_path-confined}

secure_path-confined_example :
    (secure_path "data/assets/tftp" "..\\../etc//passwd" ≡ some "data/assets/tftp/etc/passwd")
    × All IsName (asked_names "..\\../etc//passwd")
unfolding helboot.Filepath.cleaned helboot.Filepath.clean helboot.Filepath.joined
    helboot.Network.Tftp.forward_slashes helboot.Filepath.visit helboot.Filepath.is_rooted
secure_path-confined_example =
    secure_path-confined "data/assets/tftp" "..\\../etc//passwd" "tftp" ("assets" ∷ "data" ∷ [])
      refl

-- Under the root directory itself every request is refused.
root_refused : secure_path "/" "ipxe.efi" ≡ none
unfolding secure_path helboot.Filepath.clean helboot.Filepath.join helboot.Filepath.is_rooted
    helboot.Filepath.visit
root_refused = refl
