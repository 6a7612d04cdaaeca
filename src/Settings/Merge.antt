-- ===== src/Settings/Merge.antt =====
-- What MergeProfileSettings makes of overrides, and of those that a profile resolves to.
use promshim_clickhouse.Base.{
  true, false, [], ◌∷◌, Option, none, some, Result, ok, err, ◌≡◌, refl, ◌∙◌, arith, Bool-cases, inl,
  inr, Result-cases,
}
use promshim_clickhouse.Bytes.{Bytes, bytes_eq, bytes_eq_iff, bytes_eq_refl, bytes_eq_sound}
use promshim_clickhouse.Bytes.Sort.{contains, Distinct}
use promshim_clickhouse.Bytes.Dict.{keys, lookup, store, lookup-store, contains-keys}
use promshim_clickhouse.Floats.{Floats}
use promshim_clickhouse.Settings.{
  Settings, SettingValue, Error, unsupported_profile, not_in_allowlist, allowlisted_settings,
  merge_profile_settings,
}
use promshim_clickhouse.Settings.Resolve.{SettingsProfileConfig, resolve_settings_profile}
use promshim_clickhouse.Settings.Explained.{resolve_settings_profile-IsExplained}

-- The override of a setting, or what it was.
abbrev pub overridden : Option SettingValue → Option SettingValue → Option SettingValue
overridden (some value) old = some value
overridden none old = old

-- A merge of distinct overrides succeeds only where all of them are allowlisted, and then has each setting as
-- it is overridden; and it fails only with the name of an override that is not.
abbrev pub Merged : Settings → Settings → Result Error Settings → Type 0
Merged settings overrides (ok merged) =
    ((key : Bytes)
      → contains key (keys overrides) ≡ true
      → contains key allowlisted_settings ≡ true)
    × ((key : Bytes) → lookup merged key ≡ overridden (lookup overrides key) (lookup settings key))
Merged settings overrides (err (unsupported_profile name)) = ⊥
Merged settings overrides (err (not_in_allowlist key)) =
    (contains key (keys overrides) ≡ true) × (contains key allowlisted_settings ≡ false)

Merged-cons :
    (settings overrides : Settings) (key : Bytes) (value : SettingValue) (r : Result Error Settings)
    → contains key allowlisted_settings ≡ true
    → contains key (keys overrides) ≡ false
    → Merged (store settings key value) overrides r
    → Merged settings ((key, value) ∷ overrides) r
unfolding lookup
Merged-cons settings overrides key value (ok merged) listed apart (allowed, values) = (
  λ k c. elim (Bool-cases (bytes_eq k key)) [
    | inl e ↦ rw (bytes_eq_sound k key e) listed
    | inr e ↦ allowed k (ground (arith, e, c))
  ],
  λ k.
      values k
      ∙ rw (lookup-store settings key value k) (elim (Bool-cases (bytes_eq k key)) [
        | inl e ↦
            rw (bytes_eq_sound k key e, bytes_eq_refl key)
              (ground (arith, apart, contains-keys overrides key))
        | inr e ↦ ground (arith, e, bytes_eq_iff k key, bytes_eq_iff key k)
      ]),
)
Merged-cons settings overrides key value (err (unsupported_profile name)) listed apart h = h
Merged-cons settings overrides key value (err (not_in_allowlist k)) listed apart (found, missing) =
    (ground (arith, found), missing)

-- The merge of overrides with distinct names: see Merged.
pub merge_profile_settings-Merged :
    (settings overrides : Settings)
    → Distinct (keys overrides)
    → Merged settings overrides (merge_profile_settings settings overrides)
unfolding merge_profile_settings lookup
merge_profile_settings-Merged settings [] d = (λ key c. ground (arith, c), λ key. refl)
merge_profile_settings-Merged settings ((key, value) ∷ overrides) d =
    elim (Bool-cases (contains key allowlisted_settings)) [
      | inl e ↦
          rw (e, merge_profile_settings)
            (Merged-cons settings overrides key value _ e d.0
              (merge_profile_settings-Merged (store settings key value) overrides d.1))
      | inr e ↦ rw (e, merge_profile_settings) (ground (arith, bytes_eq_refl key), e)
    ]

-- The settings that any profile resolves to can be merged over any others, and win over them.
pub merge_profile_settings-resolve :
    (fl : Floats) (cfg : SettingsProfileConfig) (family candidate : Bytes) (settings : Settings)
    → let resolved = (resolve_settings_profile fl cfg family candidate).settings in
      (merged : Settings) × (merge_profile_settings settings resolved ≡ ok merged)
      × ((key : Bytes) → lookup merged key ≡ overridden (lookup resolved key) (lookup settings key))
merge_profile_settings-resolve fl cfg family candidate settings =
    let explained = resolve_settings_profile-IsExplained fl cfg family candidate in
    let resolved = (resolve_settings_profile fl cfg family candidate).settings in
    elim (Result-cases (merge_profile_settings settings resolved)) [
      | inl (merged, e) ↦ (
        merged,
        e,
        (rw e at (merge_profile_settings-Merged settings resolved explained.distinct)).1,
      )
      | inr (unsupported_profile name, e) ↦
          absurd (rw e at (merge_profile_settings-Merged settings resolved explained.distinct))
      | inr (not_in_allowlist key, e) ↦
          let (found, missing) =
            rw e at (merge_profile_settings-Merged settings resolved explained.distinct) in
          absurd (ground (arith, explained.allowed key found, missing))
    ]
