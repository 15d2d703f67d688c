-- ===== src/Api/AnswerPreview/AsServed.antt =====
-- The preview against the file that the boot chain serves: handleAnswerPreview of
-- backend/internal/api/handlers_profiles_answer.go and handleAnswerFile of
-- backend/internal/boot/install.go.
use Prim.Native.String.{◌++◌}
use helboot.Prelude.{
  Option, ◌≤◌, ℕ, String, ◌≡◌, refl, ap, false, not, ◌∷◌, none, some, arith, ◌==◌, ℕ_eq, String_eq,
  if◌then◌else◌, List, Bool-cases, inl, inr, ltb,
}
use helboot.Model.{ProfileVersion}
use helboot.Store.Db.{Db, ok}
use helboot.Store.Profiles.{profile_version_number}
use helboot.Store.Installations.{installation_by_token}
use helboot.Filepath.{is_rooted, cleaned, clean, join}
use helboot.Filepath.Laws.{cleaned_not_empty}
use helboot.Filepath.Below.{names_of, below, join-below}
use helboot.Provider.Manifest.{Manifest, Registry}
use helboot.Answer.{
  Engine, Params, FileRead, FileError, Decoded, invalid, null_map, document, profile_doc,
  execute_on, render_decoded, template_data, content, failing, is_not_exist, Rendered, rendered,
  render_error, panicked, render, render_read, render_file,
}
use helboot.Boot.Context.{InstallContext, resolved, context_by_token}
use helboot.Boot.Script.{answer_params}
use helboot.Boot.AnswerFile.{
  Served, status, body, respond_rendered, template_path, answer_file, answer_by_token,
  handle_answer_file, seed_file, seed_by_token, handle_cloud_init,
}
use helboot.Api.Respond.{Response, done, failed}
use helboot.Api.AnswerPreview.{
  AnswerPreview, preview_params, respond_preview, preview, handle_answer_preview,
}
use helboot.Boot.Parts.{context_parts}

-- Where the answer of a version comes from.
pub data Template : Type 0 where
  no_template missing : Template
  given : String → Template

abbrev template_read : FileRead → Template
template_read (failing e) = missing
template_read (content text) = given text

-- The override, or else the file that the provider's template names under its directory.
abbrev pub template_of : (String → FileRead) → ProfileVersion → Manifest → Template
template_of disk v m =
    if not (v.answer_override == "")
    then given v.answer_override
    else if m.answer_file.template == ""
    then no_template
    else template_read (disk (below m.dir (names_of m.answer_file.template)))

module _ (engine : Engine) where
  abbrev pub served_as : String → Params → Template → Served
  served_as config params no_template = status 404
  served_as config params missing = status 500
  served_as config params (given text) = elim (render engine text config params) [
    | rendered out ↦ body out
    | render_error e ↦ status 500
    | panicked ↦ status 500
  ]

  abbrev pub previewed_as : ProfileVersion → Manifest → Template → Response AnswerPreview
  previewed_as v m no_template = failed 404 "profile.no_answer_file"
  previewed_as v m missing = failed 422 "profile.answer_render_failed"
  previewed_as v m (given text) = elim (render engine text v.config preview_params) [
    | rendered out ↦ done 200 (record {
      format = m.answer_file.format;
      content = out;
      overridden = not (v.answer_override == "");
    })
    | render_error e ↦ failed 422 "profile.answer_render_failed"
    | panicked ↦ failed 500 "internal"
  ]

nat_not_lt : (n : ℕ) → 1 ≤ n → ltb n 1 ≡ false
nat_not_lt n h = ground arith

module _ (engine : Engine) (disk : String → FileRead) (config : String) (params : Params) where
  respond_rendered_text :
      (text : String)
      → respond_rendered (render engine text config params)
        ≡ served_as engine config params (given text)
  unfolding respond_rendered render
  respond_rendered_text text = go (render engine text config params)
    where
      go :
          (r : Rendered)
          → respond_rendered r ≡ (elim r [
            | rendered out ↦ body out
            | render_error e ↦ status 500
            | panicked ↦ status 500
          ])
      go (rendered out) = refl
      go (render_error e) = refl
      go panicked = refl

  respond_rendered_read :
      (r : FileRead)
      → respond_rendered (render_read engine r config params)
        ≡ served_as engine config params (template_read r)
  unfolding render_read respond_rendered
  respond_rendered_read (failing e) = refl
  respond_rendered_read (content text) = respond_rendered_text text

-- What fails to render is no missing file.
render_error_other :
    (engine : Engine) (text config : String) (params : Params) (e : FileError)
    → render engine text config params ≡ render_error e
    → is_not_exist e ≡ false
unfolding render render_decoded execute_on is_not_exist
render_error_other engine text config params e h = go (profile_doc engine config) h
  where
    executed : (o : Option String) → execute_on engine o ≡ render_error e → is_not_exist e ≡ false
    executed none k = ground arith
    executed (some out) k = absurd (ground arith)

    go :
        (d : Decoded)
        → render_decoded engine text params d ≡ render_error e
        → is_not_exist e ≡ false
    go invalid k = ground arith
    go null_map k = absurd (ground arith)
    go (document doc) k = executed (engine.execute text (template_data params doc)) k

module _ (engine : Engine) (m : Manifest) (v : ProfileVersion) where
  respond_preview_text :
      (text : String)
      → respond_preview m v (render engine text v.config preview_params)
        ≡ previewed_as engine v m (given text)
  unfolding respond_preview render is_not_exist
  respond_preview_text text = go text (render engine text v.config preview_params) refl
    where
      go :
          (text : String) (r : Rendered)
          → render engine text v.config preview_params ≡ r
          → respond_preview m v r ≡ previewed_as engine v m (given text)
      go text (rendered out) e = rw (previewed_as, e) refl
      go text (render_error error) e =
          let other = render_error_other engine text v.config preview_params error e in
          rw (previewed_as, e, respond_preview, other) refl
      go text panicked e = rw (previewed_as, e) refl

  respond_preview_read :
      (r : FileRead)
      → respond_preview m v (render_read engine r v.config preview_params)
        ≡ previewed_as engine v m (template_read r)
  unfolding render_read respond_preview is_not_exist
  respond_preview_read (failing e) = refl
  respond_preview_read (content text) = respond_preview_text text

module _ (engine : Engine) (disk : String → FileRead) where
  answer_file-served :
      (providers_dir base : String) (ic : InstallContext)
      → template_path providers_dir ic.manifest
        ≡ below ic.manifest.dir (names_of ic.manifest.answer_file.template)
      → answer_file engine disk providers_dir base ic
        ≡ served_as engine ic.version.config
            (answer_params base ic)
            (template_of disk ic.version ic.manifest)
  unfolding answer_file render_file
  answer_file-served providers_dir base ic e =
      let params = answer_params base ic in
      elim (Bool-cases (ic.version.answer_override == "")) [
        | inr o ↦
            rw (o, answer_file)
              (respond_rendered_text engine disk ic.version.config params
                ic.version.answer_override)
        | inl o ↦ elim (Bool-cases (ic.manifest.answer_file.template == "")) [
          | inl t ↦ rw (o, t, answer_file) refl
          | inr t ↦
              rw (o, t, answer_file, e)
                (respond_rendered_read engine disk ic.version.config params _)
        ]
      ]

  preview-as :
      (v : ProfileVersion) (m : Manifest)
      → join m.dir (clean ("/" ++ m.answer_file.template))
        ≡ below m.dir (names_of m.answer_file.template)
      → preview engine disk v (some m) ≡ previewed_as engine v m (template_of disk v m)
  unfolding preview render_file
  preview-as v m e = elim (Bool-cases (v.answer_override == "")) [
    | inr o ↦ rw (o, preview) (respond_preview_text engine m v v.answer_override)
    | inl o ↦ elim (Bool-cases (m.answer_file.template == "")) [
      | inl t ↦ rw (o, t, preview) refl
      | inr t ↦ rw (o, t, preview, e) (respond_preview_read engine m v _)
    ]
  ]

  -- Where a token resolves, its answer file, its cloud-init user-data and the preview of its
  -- version come from one template, rendered with the installation's parameters or with the
  -- placeholders: the version's override, or else the file that the names of the provider's
  -- template spell under the provider's directory, so never one outside. No template is 404 in
  -- all; a file that cannot be read, also one that does not exist, is 500 and in the preview 422,
  -- as is a template that fails; where rendering panics, as it does on the configuration `null`,
  -- all answer 500. The provider's directory is neither `/` nor the working directory, and the
  -- version is the one that its profile and number find.
  pub preview_as_served :
      (providers_dir base : String) (db : Db) (reg : Registry) (token : String)
      (ic : InstallContext) (d : String) (ds : List String)
      → context_by_token db reg token ≡ resolved ic
      → cleaned (is_rooted ic.manifest.dir) ic.manifest.dir ≡ d ∷ ds
      → 1 ≤ ic.version.profile_id
      → 1 ≤ ic.version.version
      → profile_version_number db ic.profile.id ic.version.version ≡ ok ic.version
      → let template = template_of disk ic.version ic.manifest in
        (handle_answer_file engine disk providers_dir base db reg token
          ≡ served_as engine ic.version.config (answer_params base ic) template)
        × (handle_cloud_init engine disk providers_dir base db reg token "user-data"
            ≡ served_as engine ic.version.config (answer_params base ic) template)
        × (handle_answer_preview engine disk db reg
              (some ic.version.profile_id)
              (some ic.version.version)
            ≡ (previewed_as engine ic.version ic.manifest template, db))
  unfolding handle_answer_file handle_answer_preview handle_cloud_init context_by_token
      template_path
  preview_as_served providers_dir base db reg token ic d ds h dir id n v =
      let m = ic.manifest in
      let (profile, provider) = context_parts db reg (installation_by_token db token) ic h in
      let path = join-below m.dir m.answer_file.template d ds dir in
      let present = cleaned_not_empty m.dir d ds dir in
      let id' = nat_not_lt ic.version.profile_id id in
      let n' = nat_not_lt ic.version.version n in
      let served = answer_file-served providers_dir base ic (rw (template_path, present) path) in
      (
        rw (handle_answer_file, h, answer_by_token) served,
        rw (handle_cloud_init, h, seed_by_token, seed_file, handle_answer_file, h, answer_by_token)
            served,
        rw (handle_answer_preview, id', n', profile, v, provider)
            (ap (λ r. (r, db)) (preview-as ic.version m path)),
      )
