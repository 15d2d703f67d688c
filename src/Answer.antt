-- ===== src/Answer.antt =====
-- Answer files: backend/internal/answer/answer.go. The JSON decoder and the template engine are Go's
-- standard library, and are arguments.
use helboot.Prelude.{String, Bool, true, false, Option, none, some, ◌==◌, String_eq, if◌then◌else◌}
use helboot.Provider.Value.{str, Doc}

pub record Params : Type 0 where
  pub answer_file_url : String
  pub iso_url : String
  pub iso_content_url : String
  pub cloud_init_url : String
  pub report_url : String
  pub hostname : String
  pub mac : String

-- json.Unmarshal into a map: the text `null` leaves a nil map and no error.
pub data Decoded : Type 0 where
  invalid null_map : Decoded
  document : Doc → Decoded

-- json.Unmarshal, strings.TrimSpace(s) == "", parsing and executing a template over a document
-- (`none` is an error), and the removal of "<no value>" from the output.
pub record Engine : Type 0 where
  pub unmarshal : String → Decoded
  pub is_blank : String → Bool
  pub execute : String → Doc → Option String
  pub drop_no_value : String → String

-- The loop over the boot parameters, which win over the profile's keys.
unfoldable pub with_params : Params → Doc → Doc
with_params p doc k =
    if k == "AnswerFileURL"
    then some (str p.answer_file_url)
    else if k == "ISOURL"
    then some (str p.iso_url)
    else if k == "ISOContentURL"
    then some (str p.iso_content_url)
    else if k == "CloudInitURL"
    then some (str p.cloud_init_url)
    else if k == "ReportURL"
    then some (str p.report_url)
    else if k == "MAC"
    then some (str p.mac)
    else doc k

-- The host's name fills in only where the profile sets none.
unfoldable pub with_hostname : Params → Doc → Doc
with_hostname p doc k =
    if k == "Hostname"
    then (elim (doc k) [ none ↦ some (str p.hostname) | some v ↦ some v ])
    else doc k

unfoldable pub template_data : Params → Doc → Doc
unfolding with_params with_hostname
template_data p doc = with_hostname p (with_params p doc)

-- An error that says that a file does not exist, one that wraps another (%w), or any other.
pub data FileError : Type 0 where
  not_exist other_error : FileError
  wrapped : FileError → FileError

-- os.IsNotExist, which does not look into what an error wraps.
unfoldable pub is_not_exist : FileError → Bool
is_not_exist not_exist = true
is_not_exist _ = false

pub data FileRead : Type 0 where
  content : String → FileRead
  failing : FileError → FileRead

-- An output, an error, or the panic of a write to a nil map.
pub data Rendered : Type 0 where
  rendered : String → Rendered
  render_error : FileError → Rendered
  panicked : Rendered

module _ (e : Engine) where
  unfoldable pub profile_doc : String → Decoded
  profile_doc config = if e.is_blank config then document (λ _. none) else e.unmarshal config

  unfoldable pub execute_on : Option String → Rendered
  execute_on none = render_error other_error
  execute_on (some out) = rendered (e.drop_no_value out)

  unfoldable pub render_decoded : String → Params → Decoded → Rendered
  unfolding execute_on
  render_decoded tmpl params invalid = render_error other_error
  render_decoded tmpl params null_map = panicked
  render_decoded tmpl params (document doc) = execute_on (e.execute tmpl (template_data params doc))

  unfoldable pub render : String → String → Params → Rendered
  unfolding profile_doc render_decoded
  render tmpl config params = render_decoded tmpl params (profile_doc config)

unfoldable pub render_read : Engine → FileRead → String → Params → Rendered
unfolding render
render_read e (failing error) config params = render_error (wrapped error)
render_read e (content tmpl) config params = render e tmpl config params

-- RenderFile
unfoldable pub render_file : Engine → (String → FileRead) → String → String → Params → Rendered
unfolding render_read
render_file e disk path config params = render_read e (disk path) config params
