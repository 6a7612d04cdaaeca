-- ===== src/Labels/Maps.antt =====
-- What each operation on a label set does to each key.
use promshim_clickhouse.Base.{
  Bool, true, false, List, [], ◌∷◌, Option, none, some, if◌then◌else◌, ◌≡◌, refl, ◌∙◌, arith,
  Bool-cases, inl, inr, ◌||◌, ◌&&◌, Option-cases,
}
use promshim_clickhouse.Bytes.{Bytes, bytes_eq, bytes_eq_iff, bytes_eq_refl, bytes_eq_sound}
use promshim_clickhouse.Bytes.Sort.{contains}
use promshim_clickhouse.Labels.{Metric, keys, IsMap, get, delete, put, without_keys, copy_labels}

-- Two label sets with the same value, or none, at each name: equal as Go maps.
abbrev pub SameMap : Metric → Metric → Type 0
SameMap m n = (k : Bytes) → get m k ≡ get n k

abbrev pub is_some {ℓ} : {A : Type ℓ} → Option A → Bool
is_some none = false
is_some (some v) = true

pub contains-keys : (m : Metric) (k : Bytes) → contains k (keys m) ≡ is_some (get m k)
unfolding get
contains-keys [] k = refl
contains-keys ((j, v) ∷ m) k = ground (arith, contains-keys m k)

pub get-delete :
    (m : Metric) (k j : Bytes) → get (delete m k) j ≡ (if bytes_eq k j then none else get m j)
unfolding get delete
get-delete [] k j = ground arith
get-delete ((i, v) ∷ m) k j =
    ground (arith, bytes_eq_iff k i, bytes_eq_iff j i, bytes_eq_iff k j, get-delete m k j)

pub get-put :
    (m : Metric) (k v j : Bytes) → get (put m k v) j ≡ (if bytes_eq k j then some v else get m j)
unfolding get put
get-put [] k v j = ground (arith, bytes_eq_iff k j, bytes_eq_iff j k)
get-put ((i, w) ∷ m) k v j =
    ground (
      arith,
      bytes_eq_iff k i,
      bytes_eq_iff j i,
      bytes_eq_iff k j,
      bytes_eq_iff j k,
      get-put m k v j,
    )

pub get-without_keys :
    (excluded : List Bytes) (m : Metric) (k : Bytes)
    → get (without_keys excluded m) k ≡ (if contains k excluded then none else get m k)
unfolding get without_keys
get-without_keys excluded [] k = ground arith
get-without_keys excluded ((j, v) ∷ m) k = elim (Bool-cases (bytes_eq k j)) [
  | inl e ↦
      rw (bytes_eq_sound k j e) (ground (arith, bytes_eq_refl j, get-without_keys excluded m j))
  | inr e ↦ ground (arith, e, get-without_keys excluded m k)
]

-- The value after the loop: the source's for a listed name that it has, and the old one otherwise.
pub get-copy_labels :
    (m : Metric) (labels : List Bytes) (result : Metric) (k : Bytes)
    → get (copy_labels m labels result) k
      ≡ (if contains k labels && is_some (get m k) then get m k else get result k)
unfolding copy_labels
get-copy_labels m [] result k = refl
get-copy_labels m (l ∷ labels) result k = elim (Option-cases (get m l)) [
  | inl e ↦
      rw (e, copy_labels) (get-copy_labels m labels result k ∙ ground (arith, e, bytes_eq_iff k l))
  | inr (v, e) ↦
      rw (e, copy_labels)
        (get-copy_labels m labels (put result l v) k
          ∙ ground (arith, e, bytes_eq_iff k l, bytes_eq_iff l k, get-put result l v k))
]

contains-keys-put :
    (m : Metric) (k v j : Bytes)
    → contains j (keys (put m k v)) ≡ (bytes_eq j k || contains j (keys m))
unfolding put
contains-keys-put [] k v j = refl
contains-keys-put ((i, w) ∷ m) k v j = ground (
  arith,
  bytes_eq_iff k i,
  bytes_eq_iff j i,
  bytes_eq_iff k j,
  bytes_eq_iff j k,
  contains-keys-put m k v j,
)

pub put-IsMap : (m : Metric) (k v : Bytes) → IsMap m → IsMap (put m k v)
unfolding put
put-IsMap [] k v h = (refl, tt)
put-IsMap ((i, w) ∷ m) k v h = elim (Bool-cases (bytes_eq k i)) [
  | inl e ↦ rw (e, put) (rw (bytes_eq_sound k i e) h)
  | inr e ↦
      rw (e, put)
        (
          ground (arith, e, contains-keys-put m k v i, bytes_eq_iff i k, bytes_eq_iff k i, h.0),
          put-IsMap m k v h.1,
        )
]

pub copy_labels-IsMap :
    (m : Metric) (labels : List Bytes) (result : Metric)
    → IsMap result
    → IsMap (copy_labels m labels result)
unfolding copy_labels
copy_labels-IsMap m [] result h = h
copy_labels-IsMap m (l ∷ labels) result h = elim (Option-cases (get m l)) [
  | inl e ↦ rw (e, copy_labels) (copy_labels-IsMap m labels result h)
  | inr (v, e) ↦
      rw (e, copy_labels) (copy_labels-IsMap m labels (put result l v) (put-IsMap result l v h))
]

pub without_keys-IsMap :
    (excluded : List Bytes) (m : Metric) → IsMap m → IsMap (without_keys excluded m)
unfolding without_keys
without_keys-IsMap excluded [] h = tt
without_keys-IsMap excluded ((k, v) ∷ m) h = elim (Bool-cases (contains k excluded)) [
  | inl e ↦ rw (e, without_keys) (without_keys-IsMap excluded m h.1)
  | inr e ↦
      rw (e, without_keys)
        (
          ground (
            arith,
            e,
            h.0,
            contains-keys (without_keys excluded m) k,
            contains-keys m k,
            get-without_keys excluded m k,
          ),
          without_keys-IsMap excluded m h.1,
        )
]

pub delete-IsMap : (m : Metric) (k : Bytes) → IsMap m → IsMap (delete m k)
unfolding delete
delete-IsMap [] k h = tt
delete-IsMap ((j, v) ∷ m) k h = elim (Bool-cases (bytes_eq k j)) [
  | inl e ↦ rw (e, delete) (delete-IsMap m k h.1)
  | inr e ↦
      rw (e, delete)
        (
          ground (arith, h.0, contains-keys (delete m k) j, contains-keys m j, get-delete m k j),
          delete-IsMap m k h.1,
        )
]
