-- ===== src/Api/NetworkSettings/Saved.antt =====
-- A configuration that was saved is the one that is read: backend/internal/api/handlers_network.go.
use helboot.Prelude.{
  ℕ, ◌⊎◌, Option-cases, String, ◌≡◌, refl, ap, sym, ◌∙◌, false, List, [], ◌∷◌, Option, none, some,
  inl, inr, Bool-cases, eq-false, arith, ◌==◌, String_eq, if◌then◌else◌,
}
use helboot.Model.{User}
use helboot.Strconv.{itoa, atoi_or_zero}
use helboot.Strconv.Laws.{atoi-itoa}
use helboot.Provider.Value.{ℤ}
use helboot.Store.Db.{Db, ok}
use helboot.Store.Users.{add_audit}
use helboot.Store.Settings.{
  find_setting, write_setting, get_setting, set_setting, setup_completed, setting_setup_completed,
}
use helboot.Network.Ip.{Ip}
use helboot.Api.Respond.{done, failed, audit}
use helboot.Api.NetworkSettings.{
  NetworkConfig, setting_text, read_network_config, handle_get_network_config, config_values,
  write_values, config_problem, save_config, handle_put_network_config,
}

find_setting-write_setting :
    (key other value : String) (rows : List (String × String))
    → find_setting other (write_setting key value rows)
      ≡ (if key == other then some value else find_setting other rows)
unfolding find_setting write_setting
find_setting-write_setting key other value [] = refl
find_setting-write_setting key other value ((k, v) ∷ rows) = elim (Bool-cases (k == key)) [
  | inl e ↦ elim (Bool-cases (key == other)) [
    | inl g ↦ rw (e, g) refl
    | inr g ↦
        let f : (k == other) ≡ false =
          ap (λ a. a == other) ((String_eq.equals_iff k key).0 e) ∙ g in
        rw (e, g, f) refl
  ]
  | inr e ↦ elim (Bool-cases (k == other)) [
    | inl f ↦
        let g = eq-false key other (λ p.
          let same = (String_eq.equals_iff k key).1 ((String_eq.equals_iff k other).0 f ∙ sym p) in
          absurd (ground arith)) in
        rw (e, g, f) refl
    | inr f ↦ rw (e, f) (find_setting-write_setting key other value rows)
  ]
]

get_setting-set_setting :
    (db : Db) (key other value : String)
    → get_setting (set_setting db key value) other
      ≡ (if key == other then ok value else get_setting db other)
unfolding get_setting set_setting
get_setting-set_setting db key other value =
    ground (arith, find_setting-write_setting key other value db.settings)

atoi_or_zero-itoa : (n : ℤ) → atoi_or_zero (itoa n) ≡ n
unfolding atoi_or_zero
atoi_or_zero-itoa n = rw (atoi-itoa n, atoi_or_zero) refl

read_network_config-write_values :
    (db : Db) (cfg : NetworkConfig)
    → read_network_config (write_values db (config_values cfg)) ≡ cfg
unfolding read_network_config write_values config_values setting_text
read_network_config-write_values db cfg = simp (get_setting-set_setting, atoi_or_zero-itoa)

read_network_config-audit :
    (db : Db) (caller : Option User) (action entity : String) (id : ℕ)
    → read_network_config (audit db caller action entity id) ≡ read_network_config db
unfolding read_network_config audit add_audit get_setting
read_network_config-audit db none action entity id = refl
read_network_config-audit db (some u) action entity id = refl

get_setting-write_values :
    (db : Db) (cfg : NetworkConfig)
    → get_setting (write_values db (config_values cfg)) setting_setup_completed
      ≡ get_setting db setting_setup_completed
unfolding write_values config_values
get_setting-write_values db cfg = simp (get_setting-set_setting)

setup_completed-write_values :
    (db : Db) (cfg : NetworkConfig)
    → setup_completed (write_values db (config_values cfg)) ≡ setup_completed db
unfolding setup_completed
setup_completed-write_values db cfg = rw (setup_completed, get_setting-write_values db cfg) refl

-- What is left of a configuration without a problem.
pub record Written (cfg : NetworkConfig) (db db' : Db) : Type 0 where
  pub read : read_network_config db' ≡ cfg
  pub setup : setup_completed db' ≡ setup_completed db

pub handle_put_network_config-Written :
    (parse_ip : String → Ip) (db : Db) (caller : User) (cfg : NetworkConfig)
    → config_problem parse_ip cfg ≡ none
    → ((handle_put_network_config parse_ip db caller (some cfg)).0 ≡ done 200 tt)
      × Written cfg db (handle_put_network_config parse_ip db caller (some cfg)).1
unfolding handle_put_network_config save_config setup_completed audit add_audit get_setting
handle_put_network_config-Written parse_ip db caller cfg e =
    let written = write_values db (config_values cfg) in
    rw (handle_put_network_config, e, save_config)
      (
        refl,
        record {
          read =
              read_network_config-audit written (some caller) "network.update_config" "settings" 0
              ∙ read_network_config-write_values db cfg;
          setup = setup_completed-write_values db cfg;
        },
      )

-- A request to save a configuration is either refused with the first problem of it, and the
-- database stays, or there is no problem, it is answered by 200, and the configuration that is
-- read from then on is the one of the request.
pub handle_put_network_config-Saved :
    (parse_ip : String → Ip) (db : Db) (caller : User) (cfg : NetworkConfig)
    → ((code : String) × (config_problem parse_ip cfg ≡ some code)
        × (handle_put_network_config parse_ip db caller (some cfg) ≡ (failed 400 code, db)))
      ⊎ ((db' : Db) × (config_problem parse_ip cfg ≡ none)
          × (handle_put_network_config parse_ip db caller (some cfg) ≡ (done 200 tt, db'))
          × (handle_get_network_config db' ≡ (done 200 cfg, db')))
unfolding handle_put_network_config handle_get_network_config save_config
handle_put_network_config-Saved parse_ip db caller cfg =
    elim (Option-cases (config_problem parse_ip cfg)) [
      | inr (code, e) ↦ inl (code, e, rw (handle_put_network_config, e, save_config) refl)
      | inl e ↦
          let written = write_values db (config_values cfg) in
          let db' = audit written (some caller) "network.update_config" "settings" 0 in
          let read : read_network_config db' ≡ cfg =
            read_network_config-audit written (some caller) "network.update_config" "settings" 0
            ∙ read_network_config-write_values db cfg in
          inr (
            db',
            e,
            rw (handle_put_network_config, e, save_config) refl,
            ap (λ c. (done 200 c, db')) read,
          )
    ]
