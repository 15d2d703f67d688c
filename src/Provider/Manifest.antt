-- ===== src/Provider/Manifest.antt =====
-- The manifest of a provider: backend/internal/provider/provider.go. The descriptive fields that no
-- rule reads are left out.
use helboot.Prelude.{
  String, Bool, List, [], ◌∷◌, Option, none, some, Map, ◌==◌, String_eq, if◌then◌else◌,
}
use helboot.Provider.Schema.{SettingsField}

pub record AnswerFile : Type 0 where
  pub format : String
  pub template : String

pub record Detection : Type 0 where
  pub volume_id_patterns : List String
  pub files : List String

pub record BootConfig : Type 0 where
  pub kernel : String
  pub initrd : List String
  pub cmdline : String

pub record Manifest : Type 0 where
  pub name : String
  pub display_name : String
  pub family : String
  pub capabilities : List (String × Bool)
  pub answer_file : AnswerFile
  pub settings_schema : List SettingsField
  pub detection : Detection
  pub boot : List (String × BootConfig)
  pub dir : String

-- m.Boot[method]
unfoldable pub boot_method : List (String × BootConfig) → String → Option BootConfig
boot_method [] method = none
boot_method ((k, c) ∷ boot) method =
    let rest = boot_method boot method in if k == method then some c else rest

-- Registry.Get of backend/internal/provider/registry.go.
abbrev pub Registry : Type 0
Registry = Map String Manifest
