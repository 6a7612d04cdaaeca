-- ===== src/Estimates/Steps.antt =====
-- What a lookup in the cache of internal/promshim/selector_estimates.go leaves of it.
use promshim_clickhouse.Base.{
  ℕ, true, false, ◌≡◌, refl, some, ◌⊎◌, inl, inr, Bool-cases, Option-cases, ◌==◌,
}
use promshim_clickhouse.Bytes.Dict.{lookup, remove}
use promshim_clickhouse.Estimates.{
  Signature, Stats, Cache, get_with_state, is_expired, key, no_stats, missing, stale, hit,
}

-- The lookup of a signature misses, or finds a stale entry and takes it away, or hits a fresh one.
pub get_with_state-cases :
    (c : Cache) (sig : Signature) (now : ℕ)
    → (get_with_state c sig now ≡ (c, (no_stats, missing)))
      ⊎ ((s : Stats) × ((lookup c.entries (key sig) ≡ some s)
            × (((is_expired c.ttl now s ≡ true)
                  × (get_with_state c sig now
                      ≡ (record c { entries = remove c.entries (key sig) }, (s, stale))))
                ⊎ ((is_expired c.ttl now s ≡ false) × (get_with_state c sig now ≡ (c, (s, hit)))))))
unfolding get_with_state
get_with_state-cases c sig now = elim (Option-cases (lookup c.entries (key sig))) [
  | inl f ↦ inl (rw (f, get_with_state) refl)
  | inr (s, f) ↦ elim (Bool-cases (s.observed_at == 0)) [
    | inl z ↦ inl (rw (f, z, get_with_state) refl)
    | inr z ↦ elim (Bool-cases (is_expired c.ttl now s)) [
      | inl x ↦ inr (s, (f, inl (x, rw (f, z, x, get_with_state) refl)))
      | inr x ↦ inr (s, (f, inr (x, rw (f, z, x, get_with_state) refl)))
    ]
  ]
]
