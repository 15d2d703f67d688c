-- ===== src/Boot/AnswerFile.antt =====
-- The answer file and the NoCloud seed of an installation: handleAnswerFile and handleCloudInit of
-- backend/internal/boot/install.go.
use Prim.Native.String.{◌++◌}
use helboot.Prelude.{ℕ, String, not, ◌==◌, String_eq, if◌then◌else◌, decimal}
use helboot.Filepath.{clean, join}
use helboot.Store.Db.{Db}
use helboot.Provider.Manifest.{Manifest, Registry}
use helboot.Answer.{
  Engine, FileRead, Rendered, rendered, render_error, panicked, render, render_file,
}
use helboot.Boot.Context.{InstallContext, ByToken, refused, resolved, context_by_token}
use helboot.Boot.Script.{answer_params}

-- A status other than 200, or a body.
pub data Served : Type 0 where
  status : ℕ → Served
  body : String → Served

unfoldable pub respond_rendered : Rendered → Served
respond_rendered (rendered out) = body out
respond_rendered (render_error e) = status 500
respond_rendered panicked = status 500

unfoldable pub template_path : String → Manifest → String
unfolding clean
template_path providers_dir m =
    join (if m.dir == "" then join providers_dir m.name else m.dir)
      (clean ("/" ++ m.answer_file.template))

module _ (engine : Engine) (disk : String → FileRead) (providers_dir base : String) where
  unfoldable pub answer_file : InstallContext → Served
  unfolding respond_rendered template_path
  answer_file ic =
      let params = answer_params base ic in
      if not (ic.version.answer_override == "")
      then respond_rendered (render engine ic.version.answer_override ic.version.config params)
      else if ic.manifest.answer_file.template == ""
      then status 404
      else respond_rendered (
          render_file engine disk (template_path providers_dir ic.manifest) ic.version.config
            params)

  unfoldable pub answer_by_token : ByToken → Served
  unfolding answer_file
  answer_by_token (refused code) = status code
  answer_by_token (resolved ic) = answer_file ic

  unfoldable pub handle_answer_file : Db → Registry → String → Served
  unfolding answer_by_token
  handle_answer_file db reg token = answer_by_token (context_by_token db reg token)

  unfoldable pub seed_file : Db → Registry → String → String → InstallContext → Served
  unfolding handle_answer_file
  seed_file db reg token file ic =
      if file == "user-data"
      then handle_answer_file db reg token
      else if file == "meta-data"
      then body (
          "instance-id: helboot-"
          ++ (decimal ic.install.id ++ ("\nlocal-hostname: " ++ (ic.host.hostname ++ "\n"))))
      else if file == "vendor-data"
      then body ""
      else status 404

  unfoldable pub seed_by_token : Db → Registry → String → String → ByToken → Served
  unfolding seed_file
  seed_by_token db reg token file (refused code) = status code
  seed_by_token db reg token file (resolved ic) = seed_file db reg token file ic

  unfoldable pub handle_cloud_init : Db → Registry → String → String → Served
  unfolding seed_by_token
  handle_cloud_init db reg token file =
      seed_by_token db reg token file (context_by_token db reg token)
