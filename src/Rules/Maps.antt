-- ===== src/Rules/Maps.antt =====
-- mapsEqual of internal/promshim/rules/registry.go compares maps that hold no empty value as it means to.
use promshim_clickhouse.Base.{
  true, false, [], ◌∷◌, Option, none, some, ◌≡◌, refl, sym, ◌∙◌, ap, arith, Bool-cases, inl, inr,
  Option-cases, ◌↔◌, is_empty, length, suc,
}
use promshim_clickhouse.Bytes.{Bytes, bytes_eq, bytes_eq_iff, bytes_eq_refl, bytes_eq_sound}
use promshim_clickhouse.Bytes.Sort.{contains}
use promshim_clickhouse.Labels.{Metric, keys, IsMap, get, get_value, delete}
use promshim_clickhouse.Labels.Maps.{SameMap, contains-keys, get-delete, delete-IsMap, is_some}
use promshim_clickhouse.Rules.{has_values, maps_equal}

-- No value is the empty string.
abbrev pub IsFilled : Metric → Type 0
IsFilled [] = Unit
IsFilled ((k, v) ∷ m) = (is_empty v ≡ false) × IsFilled m

delete_absent : (m : Metric) (k : Bytes) → contains k (keys m) ≡ false → delete m k ≡ m
unfolding delete
delete_absent [] k h = refl
delete_absent ((j, v) ∷ m) k h = ground (arith, h, delete_absent m k)

length-delete :
    (m : Metric) (k : Bytes)
    → IsMap m
    → contains k (keys m) ≡ true
    → length m ≡ suc (length (delete m k))
unfolding delete
length-delete [] k h c = cc
length-delete ((j, v) ∷ m) k h c = elim (Bool-cases (bytes_eq k j)) [
  | inl e ↦
      rw (e, delete)
        (ap (λ l. suc (length l)) (sym (delete_absent m k (rw (bytes_eq_sound k j e) h.0))))
  | inr e ↦ rw (e, delete) (ap suc (length-delete m k h.1 (ground (arith, c, e))))
]

abbrev value_of : Option Bytes → Bytes
value_of none = []
value_of (some v) = v

get_value-get : (m : Metric) (k : Bytes) → get_value m k ≡ value_of (get m k)
unfolding get_value
get_value-get m k = elim (Option-cases (get m k)) [
  | inl e ↦ rw (e, get_value) refl
  | inr (v, e) ↦ rw (e, get_value) refl
]

get_value-delete :
    (m : Metric) (k j : Bytes) → bytes_eq k j ≡ false → get_value (delete m k) j ≡ get_value m j
get_value-delete m k j h =
    rw (get_value-get (delete m k) j, get_value-get m j, get-delete m k j, h) refl

has_values-delete :
    (a b : Metric) (k : Bytes)
    → contains k (keys a) ≡ false
    → has_values a (delete b k) ≡ has_values a b
unfolding has_values
has_values-delete [] b k h = refl
has_values-delete ((j, v) ∷ a) b k h =
    ground (arith, h, get_value-delete b k j, has_values-delete a b k)

-- A value that is not empty is there.
get_of_value :
    (m : Metric) (k v : Bytes)
    → bytes_eq (get_value m k) v ≡ true
    → is_empty v ≡ false
    → get m k ≡ some v
get_of_value m k v e h = elim (Option-cases (get m k)) [
  | inl f ↦
      let same : bytes_eq [] v ≡ true = rw (get_value-get m k, f) at e in
      let nothing : [] ≡ v = bytes_eq_sound [] v same in ground (arith, ap is_empty nothing, h)
  | inr (w, f) ↦ f ∙ ap some (bytes_eq_sound w v (rw (get_value-get m k, f) at e))
]

maps_equal_complete : (a b : Metric) → IsMap a → IsMap b → SameMap a b → maps_equal a b ≡ true
unfolding maps_equal has_values get
maps_equal_complete [] [] ha hb same = refl
maps_equal_complete [] ((k, v) ∷ b) ha hb same = ground (arith, same k, bytes_eq_refl k)
maps_equal_complete ((k, v) ∷ a) b ha hb same =
    let found : get b k ≡ some v = sym (same k) ∙ rw (bytes_eq_refl k) refl in
    let shorter : length b ≡ suc (length (delete b k)) =
      length-delete b k hb (contains-keys b k ∙ ap is_some found) in
    let rest = maps_equal_complete a (delete b k) ha.1 (delete-IsMap b k hb) (λ j.
      elim (Bool-cases (bytes_eq k j)) [
        | inl e ↦
            rw (get-delete b k j, e)
              (rw (← bytes_eq_sound k j e) (ground (arith, ha.0, contains-keys a k, get a k)))
        | inr e ↦
            rw (get-delete b k j, e) (ground (arith, e, same j, bytes_eq_iff j k, bytes_eq_iff k j))
      ]) in
    let value : get_value b k ≡ v = get_value-get b k ∙ ap value_of found in
    ground (arith, shorter, rest, has_values-delete a b k, ha.0, value, bytes_eq_refl v)

maps_equal_sound :
    (a b : Metric) → IsMap a → IsMap b → IsFilled a → maps_equal a b ≡ true → SameMap a b
unfolding maps_equal has_values get
maps_equal_sound [] [] ha hb filled h j = refl
maps_equal_sound [] (entry ∷ b) ha hb filled h j = ground (arith, h)
maps_equal_sound ((k, v) ∷ a) b ha hb filled h j =
    let found = get_of_value b k v (ground (arith, h)) filled.0 in
    let shorter : length b ≡ suc (length (delete b k)) =
      length-delete b k hb (contains-keys b k ∙ ap is_some found) in
    let rest =
      maps_equal_sound a (delete b k) ha.1 (delete-IsMap b k hb) filled.1
        (ground (arith, h, shorter, has_values-delete a b k, ha.0)) j in
    ground (arith, rest, get-delete b k j, found, bytes_eq_iff j k, bytes_eq_iff k j)

-- Where the first of two maps holds no empty value, mapsEqual holds exactly where both have the same value,
-- or none, for every key.
pub maps_equal_iff :
    (a b : Metric) → IsMap a → IsMap b → IsFilled a → (maps_equal a b ≡ true) ↔ SameMap a b
maps_equal_iff a b ha hb filled = (maps_equal_sound a b ha hb filled, maps_equal_complete a b ha hb)
