-- ===== src/Settings.antt =====
-- internal/promshim/storage/settings_profile.go: the ClickHouse settings that go with a statement, and why.
-- A profile's name is as strings.ToLower and strings.TrimSpace leave it.
pub mod Resolve
pub mod Version
mod Explained
mod Merge
mod Examples
use promshim_clickhouse.Base.{
  Bool, List, [], ◌∷◌, ◌++◌, Option, none, some, if◌then◌else◌, is_empty, Result, ok, err,
}
use promshim_clickhouse.Base.Int.{ℤ, pos}
use promshim_clickhouse.Bytes.{Bytes}
use promshim_clickhouse.Bytes.Sort.{contains}
use promshim_clickhouse.Bytes.Dict.{lookup, store}
use promshim_clickhouse.Bytes.Text.{text}

pub data Profile : Type 0 where
  none_profile default_safe repeated_selective tiny_instant simple_range long_range_scan : Profile
  aggregation_heavy join_heavy subtree_pushdown benchmark_control : Profile

abbrev pub supported_settings_profiles : List (Bytes × Profile)
supported_settings_profiles =
    (text "none", none_profile)
    ∷ (text "default_safe", default_safe)
    ∷ (text "repeated_selective", repeated_selective)
    ∷ (text "tiny_instant", tiny_instant)
    ∷ (text "simple_range", simple_range)
    ∷ (text "long_range_scan", long_range_scan)
    ∷ (text "aggregation_heavy", aggregation_heavy)
    ∷ (text "join_heavy", join_heavy)
    ∷ (text "subtree_pushdown", subtree_pushdown)
    ∷ (text "benchmark_control", benchmark_control)
    ∷ []

abbrev pub allow_time_series : Bytes
allow_time_series = text "allow_experimental_time_series_table"

abbrev pub quote_denormals : Bytes
quote_denormals = text "output_format_json_quote_denormals"

abbrev pub max_execution_time : Bytes
max_execution_time = text "max_execution_time"

abbrev pub timeout_overflow_mode : Bytes
timeout_overflow_mode = text "timeout_overflow_mode"

abbrev pub cancel_on_client_close : Bytes
cancel_on_client_close = text "cancel_http_readonly_queries_on_client_close"

abbrev pub readonly : Bytes
readonly = text "readonly"

abbrev pub max_memory_usage : Bytes
max_memory_usage = text "max_memory_usage"

abbrev pub max_rows_to_read : Bytes
max_rows_to_read = text "max_rows_to_read"

abbrev pub max_result_rows : Bytes
max_result_rows = text "max_result_rows"

abbrev pub use_query_condition_cache : Bytes
use_query_condition_cache = text "use_query_condition_cache"

abbrev pub use_query_cache : Bytes
use_query_cache = text "use_query_cache"

abbrev pub max_threads : Bytes
max_threads = text "max_threads"

abbrev pub allowlisted_settings : List Bytes
allowlisted_settings =
    allow_time_series ∷ quote_denormals ∷ max_execution_time ∷ timeout_overflow_mode
    ∷ cancel_on_client_close ∷ readonly ∷ max_memory_usage ∷ max_rows_to_read ∷ max_result_rows
    ∷ use_query_condition_cache ∷ use_query_cache ∷ max_threads ∷ []

pub data SettingValue : Type 0 where
  number : ℤ → SettingValue
  word : Bytes → SettingValue

abbrev pub Settings : Type 0
Settings = List (Bytes × SettingValue)

pub data Error : Type 0 where
  unsupported_profile not_in_allowlist : Bytes → Error

unfoldable pub normalize_settings_profile_name : Bytes → Profile
normalize_settings_profile_name name =
    if is_empty name
    then default_safe
    else elim (lookup supported_settings_profiles name) [ some p ↦ p | none ↦ default_safe ]

unfoldable pub parse_settings_profile_name : Bytes → Result Error Profile
parse_settings_profile_name name =
    if is_empty name then ok default_safe else elim (lookup supported_settings_profiles name) [
      | some p ↦ ok p
      | none ↦ err (unsupported_profile name)
    ]

-- MergeProfileSettings: the loop over the overrides, on a copy of the settings.
unfoldable pub merge_profile_settings : Settings → Settings → Result Error Settings
merge_profile_settings merged [] = ok merged
merge_profile_settings merged ((key, value) ∷ overrides) =
    let rest = merge_profile_settings (store merged key value) overrides in
    if contains key allowlisted_settings then rest else err (not_in_allowlist key)

unfoldable pub append_unique : List Bytes → Bytes → List Bytes
append_unique values value =
    if is_empty value
    then values
    else if contains value values
    then values
    else values ++ (value ∷ [])
