-- ===== src/Api/Fixtures.antt =====
-- A small database that the examples on the handlers share.
use helboot.Prelude.{String, true, [], ◌∷◌, none, some, ◌==◌, String_eq, if◌then◌else◌}
use helboot.Model.{
  admin, User, Session, Host, ready, Profile, ProfileVersion, Installation, install_success,
  install_waiting, IsoImage, iso_ready,
}
use helboot.Store.Db.{Db, empty_db}
use helboot.Provider.Manifest.{Manifest, Registry}
use helboot.Answer.{Engine, null_map, document, FileRead, content, failing, not_exist}

abbrev pub root_user : User
root_user = record {
  id = 1;
  username = "root";
  password_hash = "h";
  role = admin;
  locale = "en";
  created_at = 0;
}

abbrev pub pc : Host
pc = record {
  id = 1;
  mac = "aa:bb:cc:dd:ee:01";
  hostname = "pc";
  vendor = "";
  model = "";
  serial = "";
  asset_id = "";
  tags = [];
  firmware = "uefi";
  arch = "x86_64";
  profile_id = some 1;
  profile_version = 1;
  status = ready;
  created_at = 0;
  updated_at = 0;
}

abbrev pub desktop : Profile
desktop = record {
  id = 1;
  name = "desktop";
  provider = "ubuntu";
  iso_id = some 1;
  current_version = 2;
  created_at = 0;
  updated_at = 0;
}

abbrev pub version_one : ProfileVersion
version_one = record {
  id = 1;
  profile_id = 1;
  version = 1;
  config = "{}";
  answer_override = "";
  created_at = 0;
}

abbrev pub version_two : ProfileVersion
version_two = record version_one { id = 2; version = 2 }

abbrev pub iso : IsoImage
iso = record {
  id = 1;
  filename = "u.iso";
  provider = "ubuntu";
  os_name = "";
  version = "";
  arch = "";
  bootloader = "";
  install_method = "";
  size_bytes = 1;
  sha256 = "";
  status = iso_ready;
  created_at = 0;
}

abbrev pub idle_db : Db
idle_db = record empty_db {
  users = root_user ∷ [];
  last_user = 1;
  isos = iso ∷ [];
  last_iso = 1;
  profiles = desktop ∷ [];
  last_profile = 1;
  versions = version_two ∷ version_one ∷ [];
  last_version = 2;
  hosts = pc ∷ [];
  last_host = 1;
}

abbrev pub old_installation : Installation
old_installation = record {
  id = 1;
  host_id = 1;
  profile_version_id = 1;
  status = install_success;
  started_at = some 0;
  finished_at = some 0;
  log = "";
  token = "t1";
  created_at = 0;
}

abbrev pub new_installation : Installation
new_installation = record {
  id = 2;
  host_id = 1;
  profile_version_id = 1;
  status = install_waiting;
  started_at = none;
  finished_at = none;
  log = "";
  token = "t2";
  created_at = 0;
}

-- The host was installed once, and is queued again.
abbrev pub queued_db : Db
queued_db = record idle_db {
  installations = new_installation ∷ old_installation ∷ [];
  last_installation = 2;
}

abbrev pub ubuntu : Manifest
ubuntu = record {
  name = "ubuntu";
  display_name = "Ubuntu";
  family = "linux";
  answer_file = record { format = "yaml"; template = "../user-data" };
  settings_schema = [];
  detection = record { volume_id_patterns = []; files = [] };
  boot = [];
  capabilities = ("iso", true) ∷ [];
  dir = "providers/ubuntu";
}

abbrev pub registry : Registry
registry name = if name == "ubuntu" then some ubuntu else none

abbrev pub engine : Engine
engine = record {
  unmarshal = λ s. if s == "null" then null_map else document (λ _. none);
  is_blank = λ s. s == "";
  execute = λ t d. some t;
  drop_no_value = λ s. s;
}

abbrev pub login : Session
login = record { token = "c"; user_id = 1; csrf_token = "x"; created_at = 0; expires_at = 100 }

abbrev pub signed_in : Db
signed_in = record idle_db { sessions = login ∷ [] }

-- The provider's directory.
abbrev pub templates : String → FileRead
templates path =
    if path == "providers/ubuntu/user-data" then content "autoinstall" else failing not_exist
