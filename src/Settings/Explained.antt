-- ===== src/Settings/Explained.antt =====
-- The explanation of a resolution agrees with its settings.
use promshim_clickhouse.Base.{
  Bool, true, false, ◌||◌, List, [], ◌∷◌, ◌++◌, Option, none, some, if◌then◌else◌, any, ◌≡◌, refl,
  sym, ◌∙◌, ap, arith, Bool-cases, inl, inr, is_empty,
}
use promshim_clickhouse.Base.Int.{ℤ, pos, ltb_ℤ}
use promshim_clickhouse.Bytes.{Bytes, bytes_eq, bytes_eq_iff, bytes_eq_sound}
use promshim_clickhouse.Bytes.Sort.{contains, Distinct}
use promshim_clickhouse.Bytes.Text.{text}
use promshim_clickhouse.Bytes.Dict.{keys, lookup, lookup-store, store-Distinct, contains-keys-store}
use promshim_clickhouse.Floats.{Floats}
use promshim_clickhouse.Settings.{
  Profile, repeated_selective, benchmark_control, SettingValue, number, append_unique,
  allowlisted_settings, use_query_cache, normalize_settings_profile_name, max_threads,
  max_result_rows, max_rows_to_read, max_memory_usage, readonly, cancel_on_client_close,
  timeout_overflow_mode, max_execution_time, quote_denormals, allow_time_series,
}
use promshim_clickhouse.Settings.Version.{click_house_version_at_least}
use promshim_clickhouse.Settings.Resolve.{
  SettingsProfileConfig, AppliedSetting, SkippedSetting, Resolution, no_settings, add, skip,
  add_cap, add_profile, is_none_profile, max_execution_seconds, add_timeout, required_settings,
  safety_settings, resolve_settings_profile,
}

-- The value with which a setting was applied last.
abbrev pub last_applied : Bytes → List AppliedSetting → Option SettingValue
last_applied name [] = none
last_applied name (a ∷ rest) = elim (last_applied name rest) [
  | some value ↦ some value
  | none ↦ if bytes_eq a.name name then some a.value else none
]

-- The settings are those that were applied, all of them allowlisted, and never the query cache; the reason
-- codes are those of what was applied or skipped, each once.
pub record IsExplained (r : Resolution) : Type 0 where
  pub values : (name : Bytes) → lookup r.settings name ≡ last_applied name r.applied
  pub distinct : Distinct (keys r.settings)
  pub allowed :
      (name : Bytes)
      → contains name (keys r.settings) ≡ true
      → contains name allowlisted_settings ≡ true
  pub uncached : contains use_query_cache (keys r.settings) ≡ false
  pub reasons :
      (code : Bytes)
      → contains code r.reason_codes ≡ (
          any (λ a. bytes_eq code a.reason_code) r.applied
          || any (λ s. bytes_eq code s.reason_code) r.skipped)
  pub reasons_distinct : Distinct r.reason_codes

last_applied-append :
    (name : Bytes) (xs : List AppliedSetting) (a : AppliedSetting)
    → last_applied name (xs ++ (a ∷ []))
      ≡ (if bytes_eq a.name name then some a.value else last_applied name xs)
last_applied-append name [] a = ground arith
last_applied-append name (x ∷ xs) a = ground (arith, last_applied-append name xs a)

any-append {ℓ} :
    {A : Type ℓ} (p : A → Bool) (xs ys : List A) → any p (xs ++ ys) ≡ (any p xs || any p ys)
any-append p [] ys = refl
any-append p (x ∷ xs) ys = ground (arith, any-append p xs ys)

Distinct-append :
    (xs : List Bytes) (x : Bytes) → contains x xs ≡ false → Distinct xs → Distinct (xs ++ (x ∷ []))
Distinct-append [] x h d = (refl, tt)
Distinct-append (y ∷ xs) x h d = (
  any-append (bytes_eq y) xs (x ∷ []) ∙ ground (arith, h, d.0, bytes_eq_iff x y, bytes_eq_iff y x),
  Distinct-append xs x (ground (arith, h)) d.1,
)

append_unique-Distinct : (xs : List Bytes) (x : Bytes) → Distinct xs → Distinct (append_unique xs x)
unfolding append_unique
append_unique-Distinct xs x d = elim (Bool-cases (is_empty x)) [
  | inl e ↦ rw (e, append_unique) d
  | inr e ↦ elim (Bool-cases (contains x xs)) [
    | inl f ↦ rw (e, append_unique, f) d
    | inr f ↦ rw (e, append_unique, f) (Distinct-append xs x f d)
  ]
]

contains-append_unique :
    (xs : List Bytes) (x code : Bytes)
    → is_empty x ≡ false
    → contains code (append_unique xs x) ≡ (contains code xs || bytes_eq code x)
unfolding append_unique
contains-append_unique xs x code h = elim (Bool-cases (contains x xs)) [
  | inl f ↦
      rw (h, append_unique, f)
        (elim (Bool-cases (bytes_eq code x)) [
          | inl e ↦ rw (bytes_eq_sound code x e, f) refl
          | inr e ↦ ground (arith, e)
        ])
  | inr f ↦ rw (h, append_unique, f) (any-append (bytes_eq code) xs (x ∷ []) ∙ ground arith)
]

add-IsExplained :
    (name : Bytes) (value : SettingValue) (code version : Bytes) (r : Resolution)
    → contains name allowlisted_settings ≡ true
    → bytes_eq use_query_cache name ≡ false
    → is_empty code ≡ false
    → IsExplained r
    → IsExplained (add name value code version r)
unfolding add
add-IsExplained name value code version r listed other filled h = record {
  values = λ key.
      lookup-store r.settings name value key
      ∙ ap (λ o. if bytes_eq name key then some value else o) (h.values key)
      ∙ sym (last_applied-append key r.applied _);
  distinct = store-Distinct r.settings name value h.distinct;
  allowed = λ key c. elim (Bool-cases (bytes_eq key name)) [
    | inl e ↦ rw (bytes_eq_sound key name e) listed
    | inr e ↦ h.allowed key (ground (arith, e, c, contains-keys-store r.settings name value key))
  ];
  uncached =
      contains-keys-store r.settings name value use_query_cache ∙ rw (other, h.uncached) refl;
  reasons = λ c.
      contains-append_unique r.reason_codes code c filled
      ∙ ground (
        arith,
        h.reasons c,
        any-append (λ (a : AppliedSetting). bytes_eq c a.reason_code) r.applied
            (record { name = name; value = value; reason_code = code; min_version = version } ∷ []),
      );
  reasons_distinct = append_unique-Distinct r.reason_codes code h.reasons_distinct;
}

skip-IsExplained :
    (name code version : Bytes) (r : Resolution)
    → is_empty code ≡ false
    → IsExplained r
    → IsExplained (skip name code version r)
unfolding skip
skip-IsExplained name code version r filled h = record {
  values = h.values;
  distinct = h.distinct;
  allowed = h.allowed;
  uncached = h.uncached;
  reasons = λ c.
      contains-append_unique r.reason_codes code c filled
      ∙ ground (
        arith,
        h.reasons c,
        any-append (λ (s : SkippedSetting). bytes_eq c s.reason_code) r.skipped
            (record { name = name; reason_code = code; min_version = version } ∷ []),
      );
  reasons_distinct = append_unique-Distinct r.reason_codes code h.reasons_distinct;
}

no_settings-IsExplained :
    (profile : Profile) (family candidate : Bytes)
    → IsExplained (no_settings profile family candidate)
unfolding lookup
no_settings-IsExplained profile family candidate = record {
  values = λ name. refl;
  distinct = tt;
  allowed = λ name h. ground (arith, h);
  uncached = refl;
  reasons = λ code. refl;
  reasons_distinct = tt;
}

add_cap-IsExplained :
    (name : Bytes) (limit : ℤ) (code skip_code : Bytes) (r : Resolution)
    → contains name allowlisted_settings ≡ true
    → bytes_eq use_query_cache name ≡ false
    → is_empty code ≡ false
    → is_empty skip_code ≡ false
    → IsExplained r
    → IsExplained (add_cap name limit code skip_code r)
unfolding add_cap
add_cap-IsExplained name limit code skip_code r listed other filled skipped h =
    elim (Bool-cases (ltb_ℤ (pos 0) limit)) [
      | inl e ↦
          rw (e, add_cap) (add-IsExplained name (number limit) code [] r listed other filled h)
      | inr e ↦ rw (e, add_cap) (skip-IsExplained name skip_code [] r skipped h)
    ]

add_profile-IsExplained :
    (profile : Profile) (version : Bytes) (r : Resolution)
    → IsExplained r
    → IsExplained (add_profile profile version r)
unfolding add_profile bytes_eq
add_profile-IsExplained repeated_selective version r h =
    elim (Bool-cases (click_house_version_at_least version (text "25.3"))) [
      | inl e ↦ rw (e, add_profile) (skip-IsExplained _ _ _ r refl h)
      | inr e ↦ rw (e, add_profile) (skip-IsExplained _ _ _ r refl h)
    ]
add_profile-IsExplained benchmark_control version r h =
    skip-IsExplained _ _ _ _ refl (add-IsExplained max_threads _ _ _ r refl refl refl h)
add_profile-IsExplained Profile.none_profile version r h = h
add_profile-IsExplained Profile.default_safe version r h = h
add_profile-IsExplained Profile.tiny_instant version r h = skip-IsExplained _ _ _ r refl h
add_profile-IsExplained Profile.simple_range version r h = skip-IsExplained _ _ _ r refl h
add_profile-IsExplained Profile.long_range_scan version r h = skip-IsExplained _ _ _ r refl h
add_profile-IsExplained Profile.aggregation_heavy version r h = skip-IsExplained _ _ _ r refl h
add_profile-IsExplained Profile.join_heavy version r h = skip-IsExplained _ _ _ r refl h
add_profile-IsExplained Profile.subtree_pushdown version r h = skip-IsExplained _ _ _ r refl h

module _ (fl : Floats) where
  add_timeout-IsExplained :
      (timeout : ℤ) (r : Resolution) → IsExplained r → IsExplained (add_timeout fl timeout r)
  unfolding add_timeout bytes_eq
  add_timeout-IsExplained timeout r h =
      elim (Bool-cases (ltb_ℤ (pos 0) (max_execution_seconds fl timeout))) [
        | inl e ↦
            rw (e, add_timeout)
              (add-IsExplained timeout_overflow_mode _ _ _ _ refl refl refl
                (add-IsExplained max_execution_time _ _ _ r refl refl refl h))
        | inr e ↦ rw (e, add_timeout) (skip-IsExplained _ _ _ r refl h)
      ]

  required_settings-IsExplained :
      (profile : Profile) (family candidate : Bytes)
      → IsExplained (required_settings fl profile family candidate)
  unfolding required_settings bytes_eq lookup
  required_settings-IsExplained profile family candidate =
      let start = no_settings profile family candidate in
      let first =
        add allow_time_series (number (pos 1)) (text "required_time_series_engine") [] start in
      add-IsExplained quote_denormals (number (pos 1)) (text "preserve_json_nan_inf") [] first refl
        refl refl
        (add-IsExplained allow_time_series (number (pos 1)) (text "required_time_series_engine") []
          start refl refl refl (no_settings-IsExplained profile family candidate))

  safety_settings-IsExplained :
      (cfg : SettingsProfileConfig) (r : Resolution)
      → IsExplained r
      → IsExplained (safety_settings fl cfg r)
  unfolding safety_settings bytes_eq
  safety_settings-IsExplained cfg r h =
      add_cap-IsExplained max_result_rows cfg.max_results _ _ _ refl refl refl refl (
        add_cap-IsExplained max_rows_to_read cfg.max_rows _ _ _ refl refl refl refl (
          add_cap-IsExplained max_memory_usage cfg.max_memory_usage_bytes _ _ _ refl refl refl refl
            (add-IsExplained readonly _ _ _ _ refl refl refl (
              add-IsExplained cancel_on_client_close _ _ _ _ refl refl refl
                (add_timeout-IsExplained cfg.request_timeout r h)))))

  -- Whatever the configuration asks for, the settings of a resolution are exactly what its explanation
  -- says was applied, each with the value applied last; all are allowlisted, and the query cache is not
  -- among them; and the reason codes are those of what was applied or skipped, each once.
  pub resolve_settings_profile-IsExplained :
      (cfg : SettingsProfileConfig) (family candidate : Bytes)
      → IsExplained (resolve_settings_profile fl cfg family candidate)
  unfolding resolve_settings_profile
  resolve_settings_profile-IsExplained cfg family candidate =
      let profile = normalize_settings_profile_name cfg.name in
      let required = required_settings-IsExplained profile family candidate in
      elim (Bool-cases (is_none_profile profile)) [
        | inl e ↦ rw (e, resolve_settings_profile) required
        | inr e ↦
            rw (e, resolve_settings_profile)
              (skip-IsExplained _ _ _ _ refl (
                add_profile-IsExplained profile cfg.click_house_version _
                  (safety_settings-IsExplained cfg _ required)))
      ]
