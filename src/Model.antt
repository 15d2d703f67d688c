-- ===== src/Model.antt =====
-- The domain types of backend/internal/model/model.go. A text with a fixed set of values is an
-- enumeration; a role that comes from a request may be any other text.
use helboot.Prelude.{ℕ, String, Bool, true, false, Option, List, leb}
use helboot.Time.{Time}

pub data Role : Type 0 where
  admin operator viewer : Role
  other_role : String → Role

unfoldable pub role_valid : Role → Bool
role_valid (other_role s) = false
role_valid _ = true

unfoldable pub role_rank : Role → ℕ
role_rank admin = 3
role_rank operator = 2
role_rank viewer = 1
role_rank (other_role s) = 0

unfoldable pub at_least : Role → Role → Bool
unfolding role_rank
at_least r min = leb (role_rank min) (role_rank r)

pub record User : Type 0 where
  pub id : ℕ
  pub username : String
  pub password_hash : String
  pub role : Role
  pub locale : String
  pub created_at : Time

pub record Session : Type 0 where
  pub token : String
  pub user_id : ℕ
  pub csrf_token : String
  pub created_at : Time
  pub expires_at : Time

pub data HostStatus : Type 0 where
  discovered ready installing error : HostStatus

pub record Host : Type 0 where
  pub id : ℕ
  pub mac : String
  pub hostname : String
  pub vendor : String
  pub model : String
  pub serial : String
  pub asset_id : String
  pub tags : List String
  pub firmware : String
  pub arch : String
  pub profile_id : Option ℕ
  -- 0 while no profile is assigned.
  pub profile_version : ℕ
  pub status : HostStatus
  pub created_at : Time
  pub updated_at : Time

pub record Profile : Type 0 where
  pub id : ℕ
  pub name : String
  pub provider : String
  pub iso_id : Option ℕ
  pub current_version : ℕ
  pub created_at : Time
  pub updated_at : Time

pub record ProfileVersion : Type 0 where
  pub id : ℕ
  pub profile_id : ℕ
  pub version : ℕ
  pub config : String
  pub answer_override : String
  pub created_at : Time

pub data InstallationStatus : Type 0 where
  install_discovered install_waiting install_running install_success install_error :
      InstallationStatus

pub record Installation : Type 0 where
  pub id : ℕ
  pub host_id : ℕ
  pub profile_version_id : ℕ
  pub status : InstallationStatus
  pub started_at : Option Time
  pub finished_at : Option Time
  pub log : String
  pub token : String
  pub created_at : Time

pub data IsoStatus : Type 0 where
  uploaded analyzing iso_ready unsupported : IsoStatus

pub record IsoImage : Type 0 where
  pub id : ℕ
  pub filename : String
  pub provider : String
  pub os_name : String
  pub version : String
  pub arch : String
  pub bootloader : String
  pub install_method : String
  pub size_bytes : ℕ
  pub sha256 : String
  pub status : IsoStatus
  pub created_at : Time
