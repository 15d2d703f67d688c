-- ===== src/Api/AnswerPreview.antt =====
-- The preview of an answer file: handleAnswerPreview of
-- backend/internal/api/handlers_profiles_answer.go.
pub mod AsServed
mod Examples
use Prim.Native.String.{◌++◌}
use helboot.Prelude.{ℕ, String, Bool, not, Option, none, some, ◌==◌, String_eq, if◌then◌else◌}
use helboot.Model.{Profile, ProfileVersion}
use helboot.Store.Db.{Db}
use helboot.Store.Profiles.{profile_by_id, profile_version_number}
use helboot.Filepath.{clean, join}
use helboot.Provider.Manifest.{Manifest, Registry}
use helboot.Answer.{
  Engine, Params, FileRead, Rendered, rendered, render_error, panicked, is_not_exist, render,
  render_file,
}
use helboot.Api.Respond.{
  Response, done, failed, Handled, internal_error, store_error, path_id, on_ok,
}
use helboot.Api.Profiles.{unknown_version}

-- answerPreviewResponse
pub record AnswerPreview : Type 0 where
  pub format : String
  pub content : String
  pub overridden : Bool

abbrev pub preview_params : Params
preview_params = record {
  answer_file_url = "http://helboot.example/boot/answer/PREVIEW-TOKEN";
  iso_url = "http://helboot.example/boot/isofile/0";
  iso_content_url = "http://helboot.example/boot/iso/0";
  cloud_init_url = "http://helboot.example/boot/cloudinit/PREVIEW-TOKEN/";
  report_url = "http://helboot.example/boot/report/PREVIEW-TOKEN";
  hostname = "preview-host";
  mac = "52:54:00:00:00:01";
}

unfoldable pub respond_preview : Manifest → ProfileVersion → Rendered → Response AnswerPreview
respond_preview m v (rendered out) = done 200 (record {
  format = m.answer_file.format;
  content = out;
  overridden = not (v.answer_override == "");
})
respond_preview m v (render_error e) =
    if is_not_exist e
    then failed 404 "profile.no_answer_file"
    else failed 422 "profile.answer_render_failed"
respond_preview m v panicked = internal_error

module _ (engine : Engine) (disk : String → FileRead) where
  unfoldable pub preview : ProfileVersion → Option Manifest → Response AnswerPreview
  unfolding respond_preview
  preview v none = failed 409 "profile.provider_missing"
  preview v (some m) =
      if not (v.answer_override == "")
      then respond_preview m v (render engine v.answer_override v.config preview_params)
      else if m.answer_file.template == ""
      then failed 404 "profile.no_answer_file"
      else respond_preview m v (
          render_file engine disk (join m.dir (clean ("/" ++ m.answer_file.template))) v.config
            preview_params)

  -- The path's identifier and version are read as by handle_set_answer_override.
  unfoldable pub handle_answer_preview : Db → Registry → Option ℕ → Option ℕ → Handled AnswerPreview
  unfolding preview unknown_version
  handle_answer_preview db reg raw version = path_id raw db λ id. path_id version db λ n.
      on_ok (profile_by_id db id) store_error db λ profile.
        on_ok (profile_version_number db profile.id n) unknown_version db
          λ v. (preview v (reg profile.provider), db)
