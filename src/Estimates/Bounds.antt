-- ===== src/Estimates/Bounds.antt =====
-- The cache of internal/promshim/selector_estimates.go never holds more entries than it may.
use promshim_clickhouse.Base.{
  ℕ, zero, suc, ◌≤◌, ◌<◌, true, false, List, [], ◌∷◌, ◌++◌, some, ◌≡◌, refl, arith, length, All,
  is_empty, ap, Bool-cases, inl, inr, ltb, Option-cases,
}
use promshim_clickhouse.Base.Int.{ℤ, pos, ◌-ℤ◌}
use promshim_clickhouse.Bytes.{join_strings, Bytes, bytes_eq, bytes_eq_refl}
use promshim_clickhouse.Bytes.Sort.{sort_strings, contains, All-contains}
use promshim_clickhouse.Bytes.Dict.{keys, lookup, store, remove}
use promshim_clickhouse.Estimates.Kept.{
  All-Sublist, length-Sublist, keys-Sublist, remove-Sublist, prune_cache-Sublist,
  evict_to_capacity-Sublist,
}
use promshim_clickhouse.Estimates.Steps.{get_with_state-cases}
use promshim_clickhouse.Estimates.{
  observed, Operation, get_stats, put_stats, perform, perform_all, Signature, Stats, Cache,
  find_oldest, evict_to_capacity, make_room, put, key, new_cache_with_max, prune_cache,
}

abbrev IsKey : Bytes → Type 0
IsKey k = is_empty k ≡ false

length-remove-lt :
    (d : List (Bytes × Stats)) (k : Bytes)
    → contains k (keys d) ≡ true
    → length (remove d k) < length d
unfolding remove
length-remove-lt [] k h = ground (arith, h)
length-remove-lt ((j, w) ∷ d) k h =
    ground (arith, h, length-remove-lt d k, length-Sublist (remove-Sublist d k))

find_oldest-keys :
    (k : Bytes) (oldest : ℕ) (d : List (Bytes × Stats))
    → contains (find_oldest k oldest d) (k ∷ keys d) ≡ true
unfolding find_oldest
find_oldest-keys k oldest [] = ground (arith, bytes_eq_refl k)
find_oldest-keys k oldest ((j, s) ∷ d) =
    ground (arith, find_oldest-keys j s.observed_at d, find_oldest-keys k oldest d)

-- The loop finds an entry, so that a round takes one away.
oldest-removed :
    (d : List (Bytes × Stats))
    → All IsKey (keys d)
    → 0 < length d
    → (is_empty (find_oldest [] 0 d) ≡ false) × (length (remove d (find_oldest [] 0 d)) < length d)
unfolding find_oldest
oldest-removed [] h bound = ground (arith, bound)
oldest-removed ((j, s) ∷ d) h bound = (
  All-contains IsKey (find_oldest j s.observed_at d) (j ∷ keys d) h
      (find_oldest-keys j s.observed_at d),
  length-remove-lt ((j, s) ∷ d) (find_oldest j s.observed_at d)
      (find_oldest-keys j s.observed_at d),
)

-- As many rounds as there are entries are enough.
length-evict_to_capacity :
    (fuel target : ℕ) (d : List (Bytes × Stats))
    → All IsKey (keys d)
    → length d ≤ fuel
    → length (evict_to_capacity fuel (pos target) d) ≤ target
unfolding evict_to_capacity
length-evict_to_capacity zero target d h bound = omega (arith, bound)
length-evict_to_capacity (suc fuel) target d h bound = elim (Bool-cases (ltb target (length d))) [
  | inl e ↦
      let removed = oldest-removed d h (ground (arith, e)) in
      let below =
        length-evict_to_capacity fuel target (remove d (find_oldest [] 0 d))
          (All-Sublist IsKey (keys-Sublist (remove-Sublist d (find_oldest [] 0 d))) h)
          (omega (arith, bound, removed.1)) in
      ground (arith, e, removed.0, below)
  | inr e ↦ ground (arith, e)
]

length-store-le :
    (d : List (Bytes × Stats)) (k : Bytes) (s : Stats) → length (store d k s) ≤ suc (length d)
unfolding store
length-store-le [] k s = omega arith
length-store-le ((j, w) ∷ d) k s = ground (arith, length-store-le d k s)

length-store-present :
    (d : List (Bytes × Stats)) (k : Bytes) (s w : Stats)
    → lookup d k ≡ some w
    → length (store d k s) ≡ length d
unfolding store lookup
length-store-present [] k s w h = ground (arith, h)
length-store-present ((j, v) ∷ d) k s w h = elim (Bool-cases (bytes_eq k j)) [
  | inl e ↦ rw (e, store) refl
  | inr e ↦ rw (e, store) (ap suc (length-store-present d k s w (rw e at h)))
]

All-store :
    (d : List (Bytes × Stats)) (k : Bytes) (s : Stats)
    → IsKey k
    → All IsKey (keys d)
    → All IsKey (keys (store d k s))
unfolding store
All-store [] k s hk h = (hk, tt)
All-store ((j, w) ∷ d) k s hk h = elim (Bool-cases (bytes_eq k j)) [
  | inl e ↦ rw (e, store) (hk, h.1)
  | inr e ↦ rw (e, store) (h.0, All-store d k s hk h.1)
]

is_empty-cons : (xs : Bytes) (c : ℕ) (ys : Bytes) → is_empty (xs ++ (c ∷ ys)) ≡ false
is_empty-cons [] c ys = refl
is_empty-cons (x ∷ xs) c ys = refl

key-IsKey : (sig : Signature) → IsKey (key sig)
unfolding key
key-IsKey sig = is_empty-cons (join_strings (255 ∷ []) (sort_strings sig.matchers)) b'|' _

pred_target : (m : ℕ) → (pos (suc m) -ℤ pos 1) ≡ pos m
unfolding ◌-ℤ◌
pred_target m = ground arith

-- A cache for suc m entries, within its bounds.
abbrev InBounds : ℕ → Cache → Type 0
InBounds m c =
    (c.max_entries ≡ pos (suc m)) × ((length c.entries ≤ suc m) × All IsKey (keys c.entries))

store-InBounds :
    (m : ℕ) (d : List (Bytes × Stats)) (k : Bytes) (s : Stats)
    → IsKey k
    → length d ≤ suc m
    → All IsKey (keys d)
    → (length (store (make_room (pos (suc m)) k d) k s) ≤ suc m)
      × All IsKey (keys (store (make_room (pos (suc m)) k d) k s))
store-InBounds m d k s hk bound h = elim (Option-cases (lookup d k)) [
  | inl e ↦
      rw (e, make_room, pred_target m)
        (
          omega (
            arith,
            length-store-le (evict_to_capacity (length d) (pos m) d) k s,
            length-evict_to_capacity (length d) m d h (omega arith),
          ),
          All-store (evict_to_capacity (length d) (pos m) d) k s hk
              (All-Sublist IsKey (keys-Sublist (evict_to_capacity-Sublist (length d) (pos m) d)) h),
        )
  | inr (w, e) ↦
      rw (e, make_room) (omega (arith, bound, length-store-present d k s w e), All-store d k s hk h)
]

prune_cache-InBounds :
    (m : ℕ) (c : Cache) (now : ℕ)
    → InBounds m c
    → (length (prune_cache c now) ≤ suc m) × All IsKey (keys (prune_cache c now))
prune_cache-InBounds m c now (e, (bound, h)) = (
  omega (arith, bound, length-Sublist (prune_cache-Sublist c now)),
  All-Sublist IsKey (keys-Sublist (prune_cache-Sublist c now)) h,
)

perform-InBounds : (m : ℕ) (c : Cache) (op : Operation) → InBounds m c → InBounds m (perform c op)
unfolding perform put
perform-InBounds m c (get_stats sig now) (e, (bound, h)) = elim (get_with_state-cases c sig now) [
  | inl g ↦ rw (g, perform) (e, (bound, h))
  | inr (s, (f, inl (x, g))) ↦
      rw (g, perform)
        (
          e,
          (
            omega (arith, bound, length-Sublist (remove-Sublist c.entries (key sig))),
            All-Sublist IsKey (keys-Sublist (remove-Sublist c.entries (key sig))) h,
          ),
        )
  | inr (s, (f, inr (x, g))) ↦ rw (g, perform) (e, (bound, h))
]
perform-InBounds m c (put_stats sig stats clock) (e, (bound, h)) =
    let pruned = prune_cache-InBounds m c (observed stats clock).observed_at (e, (bound, h)) in
    (
      e,
      rw e (
          store-InBounds m (prune_cache c (observed stats clock).observed_at) (key sig)
            (observed stats clock) (key-IsKey sig) pruned.0 pruned.1),
    )

perform_all-InBounds :
    (m : ℕ) (c : Cache) (ops : List Operation) → InBounds m c → InBounds m (perform_all c ops)
unfolding perform_all
perform_all-InBounds m c [] h = h
perform_all-InBounds m c (op ∷ ops) h =
    perform_all-InBounds m (perform c op) ops (perform-InBounds m c op h)

new_cache_with_max-InBounds : (ttl : ℤ) (m : ℕ) → InBounds m (new_cache_with_max ttl (pos (suc m)))
unfolding new_cache_with_max
new_cache_with_max-InBounds ttl m = (ground arith, (omega arith, tt))

-- Whatever is looked up in a new cache for at least one entry and put into it, in any order, it never holds
-- more entries than it may.
pub length-perform_all-le :
    (ttl : ℤ) (m : ℕ) (ops : List Operation)
    → length (perform_all (new_cache_with_max ttl (pos (suc m))) ops).entries ≤ suc m
length-perform_all-le ttl m ops =
    (perform_all-InBounds m (new_cache_with_max ttl (pos (suc m))) ops
      (new_cache_with_max-InBounds ttl m)).1.0
