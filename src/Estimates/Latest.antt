-- ===== src/Estimates/Latest.antt =====
-- The cache of internal/promshim/selector_estimates.go against a map that forgets nothing.
use mathlib.Core.List.{Sublistᴰ}
use mathlib.Core.List.Sublistᴰ
use promshim_clickhouse.Base.{
  ℕ, true, false, List, [], ◌∷◌, Option, none, some, ◌≡◌, refl, ◌∙◌, arith, All, if◌then◌else◌,
  Bool-cases, inl, inr, ◌==◌, subst,
}
use promshim_clickhouse.Base.Int.{ℤ, ltb_ℤ}
use promshim_clickhouse.Bytes.{Bytes, bytes_eq, bytes_eq_refl, bytes_eq_sound}
use promshim_clickhouse.Bytes.Sort.{contains, Distinct}
use promshim_clickhouse.Bytes.Dict.{keys, lookup, store, lookup-store, store-Distinct, All-lookup}
use promshim_clickhouse.Time.{sub_time}
use promshim_clickhouse.Estimates.{
  Signature, Stats, Cache, State, missing, stale, hit, Operation, get_stats, put_stats, perform,
  perform_all, put, key, observed, is_expired, get_with_state, new_cache_with_max, make_room,
  prune_cache,
}
use promshim_clickhouse.Estimates.Steps.{get_with_state-cases}
use promshim_clickhouse.Estimates.Kept.{
  All-Sublist, keys-Sublist, Distinct-Sublist, remove-Sublist, prune_cache-Sublist,
  make_room-Sublist,
}

-- A map from keys to what was last put for them.
abbrev Latest : Type 0
Latest = Bytes → Option Stats

abbrev update : Latest → Bytes → Stats → Latest
update m k s j = if bytes_eq k j then some s else m j

abbrev record_operation : Latest → Operation → Latest
record_operation m (get_stats sig now) = m
record_operation m (put_stats sig stats clock) = update m (key sig) (observed stats clock)

abbrev pub latest : Latest → List Operation → Latest
latest m [] = m
latest m (op ∷ ops) = latest (record_operation m op) ops

-- A hit or a stale answer is what was last put, and the one or the other by its age.
abbrev pub IsLatest : ℤ → ℕ → Option Stats → Stats × State → Type 0
IsLatest ttl now last (s, missing) = Unit
IsLatest ttl now last (s, stale) = (last ≡ some s) × (ltb_ℤ ttl (sub_time now s.observed_at) ≡ true)
IsLatest ttl now last (s, hit) = (last ≡ some s) × (ltb_ℤ ttl (sub_time now s.observed_at) ≡ false)

-- Each entry is what was last put for its key, and no key has two.
abbrev Faithful : Latest → List (Bytes × Stats) → Type 0
Faithful m d = All (λ e. m e.0 ≡ some e.1) d × Distinct (keys d)

Faithful-Sublist :
    (m : Latest) {xs ys : List (Bytes × Stats)} → Sublistᴰ xs ys → Faithful m ys → Faithful m xs
Faithful-Sublist m s h =
    (All-Sublist (λ e. m e.0 ≡ some e.1) s h.0, Distinct-Sublist (keys-Sublist s) h.1)

All-update :
    (m : Latest) (k : Bytes) (s : Stats) (d : List (Bytes × Stats))
    → contains k (keys d) ≡ false
    → All (λ e. m e.0 ≡ some e.1) d
    → All (λ e. update m k s e.0 ≡ some e.1) d
All-update m k s [] c h = tt
All-update m k s ((j, w) ∷ d) c h = elim (Bool-cases (bytes_eq k j)) [
  | inl f ↦ ground (arith, f, c)
  | inr f ↦ (rw f h.0, All-update m k s d (ground (arith, f, c)) h.1)
]

store-Faithful :
    (m : Latest) (k : Bytes) (s : Stats) (d : List (Bytes × Stats))
    → Faithful m d
    → All (λ e. update m k s e.0 ≡ some e.1) (store d k s)
unfolding store
store-Faithful m k s [] h = (rw (bytes_eq_refl k) refl, tt)
store-Faithful m k s ((j, w) ∷ d) h = elim (Bool-cases (bytes_eq k j)) [
  | inl f ↦
      rw (f, store)
        (rw (bytes_eq_refl k) refl, All-update m k s d (rw (bytes_eq_sound k j f) h.1.0) h.0.1)
  | inr f ↦ rw (f, store) (rw f h.0.0, store-Faithful m k s d (h.0.1, h.1.1))
]

perform-Faithful :
    (m : Latest) (c : Cache) (op : Operation)
    → Faithful m c.entries
    → (Faithful (record_operation m op) (perform c op).entries) × ((perform c op).ttl ≡ c.ttl)
unfolding perform put
perform-Faithful m c (get_stats sig now) h = elim (get_with_state-cases c sig now) [
  | inl g ↦ rw (g, perform) (h, refl)
  | inr (s, (f, inl (x, g))) ↦
      rw (g, perform) (Faithful-Sublist m (remove-Sublist c.entries (key sig)) h, refl)
  | inr (s, (f, inr (x, g))) ↦ rw (g, perform) (h, refl)
]
perform-Faithful m c (put_stats sig stats clock) h =
    let pruned = prune_cache c (observed stats clock).observed_at in
    let kept =
      Faithful-Sublist m
        (Sublistᴰ.trans (make_room-Sublist c.max_entries (key sig) pruned)
          (prune_cache-Sublist c (observed stats clock).observed_at))
        h in
    (
      (
        store-Faithful m (key sig) (observed stats clock) (make_room c.max_entries (key sig) pruned)
            kept,
        store-Distinct (make_room c.max_entries (key sig) pruned) (key sig) (observed stats clock)
            kept.1,
      ),
      refl,
    )

perform_all-Faithful :
    (m : Latest) (c : Cache) (ops : List Operation)
    → Faithful m c.entries
    → (Faithful (latest m ops) (perform_all c ops).entries) × ((perform_all c ops).ttl ≡ c.ttl)
unfolding perform_all
perform_all-Faithful m c [] h = (h, refl)
perform_all-Faithful m c (op ∷ ops) h =
    let step = perform-Faithful m c op h in
    let rest = perform_all-Faithful (record_operation m op) (perform c op) ops step.0 in
    (rest.0, rest.1 ∙ step.1)

get_with_state-Faithful :
    (m : Latest) (c : Cache) (sig : Signature) (now : ℕ)
    → Faithful m c.entries
    → IsLatest c.ttl now (m (key sig)) (get_with_state c sig now).1
get_with_state-Faithful m c sig now h = elim (get_with_state-cases c sig now) [
  | inl g ↦ rw g tt
  | inr (s, (f, inl (x, g))) ↦
      rw g (All-lookup (λ e. m e.0 ≡ some e.1) c.entries (key sig) s h.0 f, x)
  | inr (s, (f, inr (x, g))) ↦
      rw g (All-lookup (λ e. m e.0 ≡ some e.1) c.entries (key sig) s h.0 f, x)
]

-- Whatever is looked up in a new cache and put into it, a lookup that finds something, fresh or stale, finds
-- what was last put for the key, and it is fresh exactly where it is no older than the time to live.
pub get_with_state-IsLatest :
    (ttl max_entries : ℤ) (ops : List Operation) (sig : Signature) (now : ℕ)
    → IsLatest
        (new_cache_with_max ttl max_entries).ttl
        now
        (latest (λ _. none) ops (key sig))
        (get_with_state (perform_all (new_cache_with_max ttl max_entries) ops) sig now).1
unfolding new_cache_with_max
get_with_state-IsLatest ttl max_entries ops sig now =
    let c = new_cache_with_max ttl max_entries in
    let h = perform_all-Faithful (λ _. none) c ops (tt, tt) in
    subst
      (λ t.
        IsLatest t now (latest (λ _. none) ops (key sig))
          (get_with_state (perform_all c ops) sig now).1)
      h.1 (get_with_state-Faithful (latest (λ _. none) ops) (perform_all c ops) sig now h.0)

-- Directly after a put, a lookup of the same key hits what was put, where that has a time of observation and
-- is no older than the time to live.
pub get_with_state-put :
    (c : Cache) (sig : Signature) (stats : Stats) (clock now : ℕ)
    → ((observed stats clock).observed_at == 0) ≡ false
    → is_expired c.ttl now (observed stats clock) ≡ false
    → (get_with_state (put c sig stats clock) sig now).1 ≡ (observed stats clock, hit)
unfolding put get_with_state
get_with_state-put c sig stats clock now h k = rw (stored, h, k, get_with_state) refl
  where
    stored :
        lookup
          (store
            (make_room c.max_entries (key sig) (prune_cache c (observed stats clock).observed_at))
            (key sig)
            (observed stats clock))
          (key sig)
        ≡ some (observed stats clock)
    stored =
        lookup-store
          (make_room c.max_entries (key sig) (prune_cache c (observed stats clock).observed_at))
          (key sig) (observed stats clock) (key sig)
        ∙ rw (bytes_eq_refl (key sig)) refl
