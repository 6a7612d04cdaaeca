-- ===== src/Settings/Examples.antt =====
-- Settings profiles of internal/promshim/storage/settings_profile.go for a concrete configuration.
use promshim_clickhouse.Base.{◌≡◌, [], ◌∷◌, ok}
use promshim_clickhouse.Base.Int.{pos}
use promshim_clickhouse.Bytes.{Bytes}
use promshim_clickhouse.Bytes.Text.{text}
use promshim_clickhouse.Bytes.Dict.{lookup}
use promshim_clickhouse.Floats.{nat_floats}
use promshim_clickhouse.Settings.{Settings, number, readonly, max_threads, merge_profile_settings}
use promshim_clickhouse.Settings.Resolve.{SettingsProfileConfig, resolve_settings_profile}
use promshim_clickhouse.Settings.Explained.{IsExplained, resolve_settings_profile-IsExplained}
use promshim_clickhouse.Settings.Merge.{overridden, merge_profile_settings-resolve}

abbrev config : SettingsProfileConfig
config = record {
  name = text "benchmark_control";
  click_house_version = text "25.8";
  request_timeout = pos 5000000000;
  max_memory_usage_bytes = pos 1000;
  max_rows = pos 0;
  max_results = pos 10;
}

resolve_settings_profile-IsExplained_example :
    IsExplained (resolve_settings_profile nat_floats config (text "rate") [])
resolve_settings_profile-IsExplained_example =
    resolve_settings_profile-IsExplained nat_floats config (text "rate") []

abbrev before : Settings
before = (readonly, number (pos 0)) ∷ (max_threads, number (pos 16)) ∷ []

merge_profile_settings-resolve_example :
    (merged : Settings) × (merge_profile_settings before
        (resolve_settings_profile nat_floats config (text "rate") []).settings
      ≡ ok merged)
    × ((key : Bytes)
        → lookup merged key
          ≡ overridden
              (lookup (resolve_settings_profile nat_floats config (text "rate") []).settings key)
              (lookup before key))
merge_profile_settings-resolve_example =
    merge_profile_settings-resolve nat_floats config (text "rate") [] before
