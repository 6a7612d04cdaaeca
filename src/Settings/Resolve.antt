-- ===== src/Settings/Resolve.antt =====
-- internal/promshim/storage/settings_profile.go, ResolveSettingsProfile: each call of `add` and `skip` is a
-- step on the resolution. The scope of every entry is "query".
use promshim_clickhouse.Base.{◌/◌, ◌%◌, Bool, true, false, List, [], ◌∷◌, ◌++◌, if◌then◌else◌}
use promshim_clickhouse.Base.Int.{ℤ, pos, negsuc, ltb_ℤ}
use promshim_clickhouse.Bytes.{Bytes}
use promshim_clickhouse.Bytes.Dict.{store}
use promshim_clickhouse.Bytes.Text.{text}
use promshim_clickhouse.Floats.{Floats}
use promshim_clickhouse.Settings.Version.{click_house_version_at_least}
use promshim_clickhouse.Settings.{
  Profile, none_profile, default_safe, repeated_selective, benchmark_control,
  normalize_settings_profile_name, Settings, SettingValue, number, word, append_unique,
  allow_time_series, quote_denormals, max_execution_time, timeout_overflow_mode,
  cancel_on_client_close, readonly, max_memory_usage, max_rows_to_read, max_result_rows,
  use_query_condition_cache, use_query_cache, max_threads,
}

pub record SettingsProfileConfig : Type 0 where
  pub name : Bytes
  pub click_house_version : Bytes
  pub request_timeout : ℤ
  pub max_memory_usage_bytes : ℤ
  pub max_rows : ℤ
  pub max_results : ℤ

pub record AppliedSetting : Type 0 where
  pub name : Bytes
  pub value : SettingValue
  pub reason_code : Bytes
  pub min_version : Bytes

pub record SkippedSetting : Type 0 where
  pub name : Bytes
  pub reason_code : Bytes
  pub min_version : Bytes

pub record Resolution : Type 0 where
  pub profile : Profile
  pub family : Bytes
  pub candidate : Bytes
  pub applied : List AppliedSetting
  pub skipped : List SkippedSetting
  pub reason_codes : List Bytes
  pub settings : Settings

unfoldable pub add : Bytes → SettingValue → Bytes → Bytes → Resolution → Resolution
unfolding append_unique
add name value reason_code min_version r = record r {
  settings = store r.settings name value;
  applied =
      r.applied
      ++ (record {
        name = name;
        value = value;
        reason_code = reason_code;
        min_version = min_version;
      }
          ∷ []);
  reason_codes = append_unique r.reason_codes reason_code;
}

unfoldable pub skip : Bytes → Bytes → Bytes → Resolution → Resolution
unfolding append_unique
skip name reason_code min_version r = record r {
  skipped =
      r.skipped
      ++ (record { name = name; reason_code = reason_code; min_version = min_version } ∷ []);
  reason_codes = append_unique r.reason_codes reason_code;
}

-- The resolution before the first step.
abbrev pub no_settings : Profile → Bytes → Bytes → Resolution
no_settings profile family candidate = record {
  profile = profile;
  family = family;
  candidate = candidate;
  applied = [];
  skipped = [];
  reason_codes = [];
  settings = [];
}

-- A cap that is applied where it is positive.
unfoldable pub add_cap : Bytes → ℤ → Bytes → Bytes → Resolution → Resolution
unfolding add skip
add_cap name limit reason_code skip_code r =
    if ltb_ℤ (pos 0) limit
    then add name (number limit) reason_code [] r
    else skip name skip_code [] r

-- What the profile itself decides.
unfoldable pub add_profile : Profile → Bytes → Resolution → Resolution
unfolding add skip
add_profile repeated_selective version r =
    if click_house_version_at_least version (text "25.3")
    then skip use_query_condition_cache (text "requires_measured_evidence") (text "25.3") r
    else skip use_query_condition_cache (text "version_unsupported") (text "25.3") r
add_profile benchmark_control version r =
    skip use_query_condition_cache (text "profile_gate_empty_until_measured") (text "25.3")
      (add max_threads (number (pos 4)) (text "benchmark_variance_thread_bound") [] r)
add_profile none_profile version r = r
add_profile default_safe version r = r
add_profile _ version r =
    skip use_query_condition_cache (text "profile_gate_empty_until_measured") (text "25.3") r

abbrev pub is_none_profile : Profile → Bool
is_none_profile none_profile = true
is_none_profile _ = false

module _ (fl : Floats) where
  open fl use {F}

  -- int64(math.Ceil(timeout.Seconds())) of a timeout in nanoseconds
  unfoldable pub max_execution_seconds : ℤ → ℤ
  max_execution_seconds (negsuc n) = pos 0
  max_execution_seconds (pos n) =
      if ltb_ℤ (pos 0) (pos n)
      then pos (
          fl.to_int (
            fl.ceil (
              fl.add (fl.of_int (n / 1000000000))
                (fl.div (fl.of_int (n % 1000000000)) (fl.of_int 1000000000)))))
      else pos 0

  unfoldable pub add_timeout : ℤ → Resolution → Resolution
  unfolding add skip max_execution_seconds
  add_timeout timeout r =
      if ltb_ℤ (pos 0) (max_execution_seconds timeout)
      then add timeout_overflow_mode (word (text "throw")) (text "safety_timeout") [] (
          add max_execution_time (number (max_execution_seconds timeout)) (text "safety_timeout") []
            r)
      else skip max_execution_time (text "not_configured") [] r

  -- The two settings that every profile has.
  unfoldable pub required_settings : Profile → Bytes → Bytes → Resolution
  unfolding add
  required_settings profile family candidate =
      add quote_denormals (number (pos 1)) (text "preserve_json_nan_inf") [] (
        add allow_time_series (number (pos 1)) (text "required_time_series_engine") []
          (no_settings profile family candidate))

  -- The settings of all profiles but `none`, before those of the profile itself.
  unfoldable pub safety_settings : SettingsProfileConfig → Resolution → Resolution
  unfolding add add_cap add_timeout
  safety_settings cfg r =
      add_cap max_result_rows cfg.max_results (text "safety_result_cap")
        (text "requires_result_contract")
        (add_cap max_rows_to_read cfg.max_rows (text "safety_read_cap")
          (text "requires_estimate_cap")
          (add_cap max_memory_usage cfg.max_memory_usage_bytes (text "safety_memory_cap")
            (text "not_configured")
            (add readonly (number (pos 2)) (text "read_only_query_scope") [] (
              add cancel_on_client_close (number (pos 1)) (text "cancel_on_client_close") []
                (add_timeout cfg.request_timeout r)))))

  unfoldable pub resolve_settings_profile : SettingsProfileConfig → Bytes → Bytes → Resolution
  unfolding required_settings safety_settings add_profile skip
  resolve_settings_profile cfg family candidate =
      let profile = normalize_settings_profile_name cfg.name in
      let required = required_settings profile family candidate in
      if is_none_profile profile
      then required
      else skip use_query_cache (text "freshness_sensitive_not_default") []
          (add_profile profile cfg.click_house_version (safety_settings cfg required))
