-- ===== src/Api/AnswerPreview/Examples.antt =====
-- An installation's answer file and its preview: backend/internal/boot/install.go and
-- backend/internal/api/handlers_profiles_answer.go.
use helboot.Prelude.{◌≡◌, refl, [], ◌∷◌, some, arith, String_eq}
use helboot.Answer.{FileRead, content, failing, not_exist}
use helboot.Boot.Context.{InstallContext}
use helboot.Boot.Script.{answer_params}
use helboot.Boot.AnswerFile.{body, handle_answer_file, handle_cloud_init}
use helboot.Api.Fixtures.{
  pc, new_installation, version_one, desktop, iso, ubuntu, queued_db, registry, engine, templates,
}
use helboot.Api.AnswerPreview.{handle_answer_preview}
use helboot.Api.AnswerPreview.AsServed.{served_as, previewed_as, template_of, preview_as_served}

abbrev context : InstallContext
context = record {
  host = pc;
  install = new_installation;
  version = version_one;
  profile = desktop;
  iso = iso;
  manifest = ubuntu;
}

preview_as_served_example :
    let template = template_of templates version_one ubuntu in
    (handle_answer_file engine templates "p" "http://h" queued_db registry "t2"
      ≡ served_as engine "{}" (answer_params "http://h" context) template)
    × (handle_cloud_init engine templates "p" "http://h" queued_db registry "t2" "user-data"
        ≡ served_as engine "{}" (answer_params "http://h" context) template)
    × (handle_answer_preview engine templates queued_db registry (some 1) (some 1)
        ≡ (previewed_as engine version_one ubuntu template, queued_db))
unfolding helboot.Boot.Context.context_by_token helboot.Store.Installations.installation_by_token
    helboot.Store.Hosts.host_by_id helboot.Boot.Context.load_install_context
    helboot.Store.Installations.active_installation_for_host
    helboot.Store.Profiles.profile_version_by_id helboot.Store.Profiles.profile_by_id
    helboot.Store.Isos.iso_by_id helboot.Filepath.cleaned helboot.Filepath.visit
    helboot.Store.Profiles.profile_version_number
preview_as_served_example =
    preview_as_served engine templates "p" "http://h" queued_db registry "t2" context "ubuntu"
      ("providers" ∷ []) refl refl (omega arith) (omega arith) refl

user_data :
    handle_cloud_init engine templates "p" "" queued_db registry "t2" "user-data"
    ≡ body "autoinstall"
unfolding handle_cloud_init helboot.Boot.Context.context_by_token
    helboot.Store.Installations.installation_by_token helboot.Store.Hosts.host_by_id
    helboot.Boot.Context.load_install_context
    helboot.Store.Installations.active_installation_for_host
    helboot.Store.Profiles.profile_version_by_id helboot.Store.Profiles.profile_by_id
    helboot.Store.Isos.iso_by_id helboot.Answer.render_file helboot.Filepath.join
    helboot.Filepath.is_rooted helboot.Filepath.visit
user_data = refl
