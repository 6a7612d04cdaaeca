-- ===== src/Bytes/Dict.antt =====
-- Go maps keyed by strings, `map[string]V`, as lists of entries with distinct keys.
use promshim_clickhouse.Base.{
  Bool, true, false, List, [], ◌∷◌, Option, none, some, if◌then◌else◌, ◌≡◌, refl, arith, Bool-cases,
  inl, inr, ◌||◌, All, subst, ap₂, sym,
}
use promshim_clickhouse.Bytes.{Bytes, bytes_eq, bytes_eq_iff, bytes_eq_sound}
use promshim_clickhouse.Bytes.Sort.{contains, sort_strings, Distinct}

module _ {ℓ} {V : Type ℓ} where
  abbrev pub keys : List (Bytes × V) → List Bytes
  keys [] = []
  keys ((k, v) ∷ d) = k ∷ keys d

  -- value, ok := items[key]
  unfoldable pub lookup : List (Bytes × V) → Bytes → Option V
  lookup [] k = none
  lookup ((j, v) ∷ d) k = if bytes_eq k j then some v else lookup d k

  -- items[key] = value
  unfoldable pub store : List (Bytes × V) → Bytes → V → List (Bytes × V)
  store [] k v = (k, v) ∷ []
  store ((j, w) ∷ d) k v = if bytes_eq k j then (k, v) ∷ d else (j, w) ∷ store d k v

  -- delete(items, key)
  unfoldable pub remove : List (Bytes × V) → Bytes → List (Bytes × V)
  remove [] k = []
  remove ((j, w) ∷ d) k = if bytes_eq k j then remove d k else (j, w) ∷ remove d k

  -- sortedMapKeys of internal/promshim/local/exec/aggregate.go
  unfoldable pub sorted_map_keys : List (Bytes × V) → List Bytes
  sorted_map_keys d = sort_strings (keys d)

  -- The loop over the sorted keys that collects `items[key]`.
  unfoldable pub values_at : List (Bytes × V) → List Bytes → List V
  values_at d [] = []
  values_at d (k ∷ ks) = elim (lookup d k) [ none ↦ values_at d ks | some v ↦ v ∷ values_at d ks ]

module _ {ℓ} {V : Type ℓ} where
  pub lookup-store :
      (d : List (Bytes × V)) (k : Bytes) (v : V) (j : Bytes)
      → lookup (store d k v) j ≡ (if bytes_eq k j then some v else lookup d j)
  unfolding lookup store
  lookup-store [] k v j = ground (arith, bytes_eq_iff k j, bytes_eq_iff j k)
  lookup-store ((i, w) ∷ d) k v j = ground (
    arith,
    bytes_eq_iff k i,
    bytes_eq_iff j i,
    bytes_eq_iff k j,
    bytes_eq_iff j k,
    lookup-store d k v j,
  )

  pub lookup-remove :
      (d : List (Bytes × V)) (k j : Bytes)
      → lookup (remove d k) j ≡ (if bytes_eq k j then none else lookup d j)
  unfolding lookup remove
  lookup-remove [] k j = ground arith
  lookup-remove ((i, w) ∷ d) k j =
      ground (arith, bytes_eq_iff k i, bytes_eq_iff j i, bytes_eq_iff k j, lookup-remove d k j)

  pub contains-keys-store :
      (d : List (Bytes × V)) (k : Bytes) (v : V) (j : Bytes)
      → contains j (keys (store d k v)) ≡ (bytes_eq j k || contains j (keys d))
  unfolding store
  contains-keys-store [] k v j = refl
  contains-keys-store ((i, w) ∷ d) k v j = ground (
    arith,
    bytes_eq_iff k i,
    bytes_eq_iff j i,
    bytes_eq_iff k j,
    bytes_eq_iff j k,
    contains-keys-store d k v j,
  )

  abbrev pub is_present : Option V → Bool
  is_present none = false
  is_present (some v) = true

  pub contains-keys :
      (d : List (Bytes × V)) (k : Bytes) → contains k (keys d) ≡ is_present (lookup d k)
  unfolding lookup
  contains-keys [] k = refl
  contains-keys ((j, v) ∷ d) k = ground (arith, contains-keys d k)

  pub store-Distinct :
      (d : List (Bytes × V)) (k : Bytes) (v : V) → Distinct (keys d) → Distinct (keys (store d k v))
  unfolding store
  store-Distinct [] k v h = (refl, tt)
  store-Distinct ((j, w) ∷ d) k v h = elim (Bool-cases (bytes_eq k j)) [
    | inl e ↦ rw (e, store) (rw (bytes_eq_sound k j e) h)
    | inr e ↦
        rw (e, store)
          (
            ground (arith, e, contains-keys-store d k v j, bytes_eq_iff j k, bytes_eq_iff k j, h.0),
            store-Distinct d k v h.1,
          )
  ]

  pub All-lookup {κ} :
      (Q : Bytes × V → Type κ) (d : List (Bytes × V)) (k : Bytes) (v : V)
      → All Q d
      → lookup d k ≡ some v
      → Q (k, v)
  unfolding lookup
  All-lookup Q [] k v h e = ground (arith, e)
  All-lookup Q ((j, w) ∷ d) k v h e = elim (Bool-cases (bytes_eq k j)) [
    | inl f ↦
        subst Q (ap₂ (λ x y. (x, y)) (sym (bytes_eq_sound k j f)) (some-injective w v (rw f at e)))
          h.0
    | inr f ↦ All-lookup Q d k v h.1 (rw f at e)
  ]
    where
      some-injective : (x y : V) → Option.some x ≡ some y → x ≡ y
      some-injective x y g = ground (arith, g)

  pub All-store {κ} :
      (Q : Bytes × V → Type κ) (d : List (Bytes × V)) (k : Bytes) (v : V)
      → Q (k, v)
      → All Q d
      → All Q (store d k v)
  unfolding store
  All-store Q [] k v q h = (q, tt)
  All-store Q ((j, w) ∷ d) k v q h = elim (Bool-cases (bytes_eq k j)) [
    | inl e ↦ rw (e, store) (q, h.1)
    | inr e ↦ rw (e, store) (h.0, All-store Q d k v q h.1)
  ]
