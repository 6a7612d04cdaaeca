-- ===== src/Estimates/Kept.antt =====
-- What the operations on the cache of internal/promshim/selector_estimates.go keep of its entries: some of them,
-- in their order.
use mathlib.Core.List.{Sublistᴰ}
use mathlib.Core.List.Sublistᴰ
use promshim_clickhouse.Base.{
  ℕ, zero, suc, ◌≤◌, false, List, [], ◌∷◌, ◌≡◌, refl, ap, arith, All, is_empty, length, Bool-cases,
  inl, inr, Option-cases, ◌||◌, ◌==◌,
}
use promshim_clickhouse.Base.Int.{ℤ, pos, ltb_ℤ, leb_ℤ, ◌-ℤ◌}
use promshim_clickhouse.Bytes.{Bytes, bytes_eq}
use promshim_clickhouse.Bytes.Sort.{contains, Distinct}
use promshim_clickhouse.Bytes.Dict.{keys, lookup, remove}
use promshim_clickhouse.Estimates.{
  Stats, Cache, prune, find_oldest, evict_to_capacity, make_room, prune_cache, is_expired,
}

pub All-Sublist {ℓ κ} :
    {A : Type ℓ} (P : A → Type κ) {xs ys : List A} → Sublistᴰ xs ys → All P ys → All P xs
All-Sublist P Sublistᴰ.slnil h = tt
All-Sublist P (Sublistᴰ.cons s) h = All-Sublist P s h.1
All-Sublist P (Sublistᴰ.cons-cons e s) h = (rw e h.0, All-Sublist P s h.1)

Sublist-all {ℓ} : {A : Type ℓ} (xs : List A) → Sublistᴰ xs xs
Sublist-all [] = Sublistᴰ.slnil
Sublist-all (x ∷ xs) = Sublistᴰ.cons-cons refl (Sublist-all xs)

pub length-Sublist {ℓ} : {A : Type ℓ} {xs ys : List A} → Sublistᴰ xs ys → length xs ≤ length ys
length-Sublist Sublistᴰ.slnil = omega arith
length-Sublist (Sublistᴰ.cons s) = omega (arith, length-Sublist s)
length-Sublist (Sublistᴰ.cons-cons e s) = omega (arith, length-Sublist s)

pub keys-Sublist : {xs ys : List (Bytes × Stats)} → Sublistᴰ xs ys → Sublistᴰ (keys xs) (keys ys)
keys-Sublist Sublistᴰ.slnil = Sublistᴰ.slnil
keys-Sublist (Sublistᴰ.cons s) = Sublistᴰ.cons (keys-Sublist s)
keys-Sublist (Sublistᴰ.cons-cons e s) = Sublistᴰ.cons-cons (ap (λ x. x.0) e) (keys-Sublist s)

contains-Sublist :
    {xs ys : List Bytes} (k : Bytes)
    → Sublistᴰ xs ys
    → contains k ys ≡ false
    → contains k xs ≡ false
contains-Sublist k Sublistᴰ.slnil h = h
contains-Sublist k (Sublistᴰ.cons s) h = contains-Sublist k s (ground (arith, h))
contains-Sublist k (Sublistᴰ.cons-cons e s) h = rw e (ground (arith, h, contains-Sublist k s))

pub Distinct-Sublist : {xs ys : List Bytes} → Sublistᴰ xs ys → Distinct ys → Distinct xs
Distinct-Sublist Sublistᴰ.slnil h = tt
Distinct-Sublist (Sublistᴰ.cons s) h = Distinct-Sublist s h.1
Distinct-Sublist (Sublistᴰ.cons-cons e s) h =
    (rw e (contains-Sublist _ s h.0), Distinct-Sublist s h.1)

pub remove-Sublist : (d : List (Bytes × Stats)) (k : Bytes) → Sublistᴰ (remove d k) d
unfolding remove
remove-Sublist [] k = Sublistᴰ.slnil
remove-Sublist ((j, w) ∷ d) k = elim (Bool-cases (bytes_eq k j)) [
  | inl e ↦ rw (e, remove) (Sublistᴰ.cons (remove-Sublist d k))
  | inr e ↦ rw (e, remove) (Sublistᴰ.cons-cons refl (remove-Sublist d k))
]

prune-Sublist : (ttl : ℤ) (now : ℕ) (d : List (Bytes × Stats)) → Sublistᴰ (prune ttl now d) d
unfolding prune
prune-Sublist ttl now [] = Sublistᴰ.slnil
prune-Sublist ttl now ((k, s) ∷ d) =
    elim (Bool-cases (s.observed_at == 0 || is_expired ttl now s)) [
      | inl e ↦ rw (e, prune) (Sublistᴰ.cons (prune-Sublist ttl now d))
      | inr e ↦ rw (e, prune) (Sublistᴰ.cons-cons refl (prune-Sublist ttl now d))
    ]

pub prune_cache-Sublist : (c : Cache) (now : ℕ) → Sublistᴰ (prune_cache c now) c.entries
prune_cache-Sublist c now = elim (Bool-cases (leb_ℤ c.ttl (pos 0))) [
  | inl t ↦ rw t (Sublist-all c.entries)
  | inr t ↦ rw t (prune-Sublist c.ttl now c.entries)
]

pub evict_to_capacity-Sublist :
    (fuel : ℕ) (target : ℤ) (d : List (Bytes × Stats))
    → Sublistᴰ (evict_to_capacity fuel target d) d
unfolding evict_to_capacity
evict_to_capacity-Sublist zero target d = Sublist-all d
evict_to_capacity-Sublist (suc fuel) target d = elim (Bool-cases (ltb_ℤ target (pos (length d)))) [
  | inl e ↦ elim (Bool-cases (is_empty (find_oldest [] 0 d))) [
    | inl f ↦ rw (e, f, evict_to_capacity) (Sublist-all d)
    | inr f ↦
        rw (e, f, evict_to_capacity)
          (Sublistᴰ.trans (evict_to_capacity-Sublist fuel target (remove d (find_oldest [] 0 d)))
            (remove-Sublist d (find_oldest [] 0 d)))
  ]
  | inr e ↦ rw (e, evict_to_capacity) (Sublist-all d)
]

pub make_room-Sublist :
    (max_entries : ℤ) (k : Bytes) (d : List (Bytes × Stats))
    → Sublistᴰ (make_room max_entries k d) d
make_room-Sublist max_entries k d = elim (Option-cases (lookup d k)) [
  | inl e ↦ rw (e, make_room) (evict_to_capacity-Sublist (length d) (max_entries -ℤ pos 1) d)
  | inr (w, e) ↦ rw (e, make_room) (Sublist-all d)
]
