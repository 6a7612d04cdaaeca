-- ===== src/Labels/Key.antt =====
-- LabelsKey is a faithful name of a label set: it depends on the set alone, never on the order in
-- which the map is walked, and two sets share a key only when they are equal.
use promshim_clickhouse.Base.{
  List, [], ◌∷◌, ◌++◌, map, Option, none, some, if◌then◌else◌, ◌≡◌, refl, ◌∙◌, arith, Bool-cases,
  inl, inr, ap, sym, ◌↔◌, All, fun_ext,
}
use promshim_clickhouse.Bytes.{
  Bytes, bytes_eq, bytes_eq_refl, bytes_eq_sound, bytes_lt, Lacks, separator_unique,
}
use promshim_clickhouse.Bytes.Sort.{
  contains, sort_strings, any-sort_by, All-sort_by, sort_strings-StrictSorted, StrictSorted-ext,
}
use promshim_clickhouse.Labels.{
  Metric, keys, IsMap, get, get_value, NormalizedLabel, label_at, normalize_label_set, write_labels,
  labels_key,
}
use promshim_clickhouse.Labels.Maps.{SameMap, is_some, contains-keys}

-- No name holds the byte that ends a name, and no value the byte that ends a value. Text in UTF-8,
-- which label names and values are, holds neither byte.
abbrev pub IsPlain : Metric → Type 0
IsPlain [] = Unit
IsPlain ((k, v) ∷ m) = Lacks 0xff k × Lacks 0xfe v × IsPlain m

abbrev PlainLabel : NormalizedLabel → Type 0
PlainLabel l = Lacks 0xff l.name × Lacks 0xfe l.value

write_labels-injective :
    (xs ys : List NormalizedLabel)
    → All PlainLabel xs
    → All PlainLabel ys
    → write_labels xs ≡ write_labels ys
    → xs ≡ ys
unfolding write_labels
write_labels-injective [] [] hx hy e = refl
write_labels-injective [] (y ∷ ys) hx hy e =
    absurd (no_empty y.name (y.value ++ (0xfe ∷ write_labels ys)) e)
  where
    no_empty : (a b : Bytes) → [] ≡ a ++ (0xff ∷ b) → ⊥
    no_empty [] b e = ground (arith, e)
    no_empty (x ∷ a) b e = ground (arith, e)
write_labels-injective (x ∷ xs) [] hx hy e =
    absurd (no_empty x.name (x.value ++ (0xfe ∷ write_labels xs)) (sym e))
  where
    no_empty : (a b : Bytes) → [] ≡ a ++ (0xff ∷ b) → ⊥
    no_empty [] b e = ground (arith, e)
    no_empty (x ∷ a) b e = ground (arith, e)
write_labels-injective (x ∷ xs) (y ∷ ys) hx hy e =
    let (names, rest) = separator_unique 0xff x.name y.name _ _ hx.0.0 hy.0.0 e in
    let (values, rest') = separator_unique 0xfe x.value y.value _ _ hx.0.1 hy.0.1 rest in
    ground (arith, names, values, write_labels-injective xs ys hx.1 hy.1 rest')

get_value-plain : (m : Metric) (k : Bytes) → IsPlain m → Lacks 0xfe (get_value m k)
unfolding get_value
get_value-plain [] k h = tt
get_value-plain ((j, v) ∷ m) k h = elim (Bool-cases (bytes_eq k j)) [
  | inl e ↦ rw (e, get_value) h.1
  | inr e ↦ rw (e, get_value) (get_value-plain m k h.2)
]

keys-plain : (m : Metric) → IsPlain m → All (Lacks 0xff) (keys m)
keys-plain [] h = tt
keys-plain ((k, v) ∷ m) h = (h.0, keys-plain m h.2)

labels-plain :
    (m : Metric) (ks : List Bytes)
    → IsPlain m
    → All (Lacks 0xff) ks
    → All PlainLabel (map (label_at m) ks)
unfolding label_at
labels-plain m [] h hk = tt
labels-plain m (k ∷ ks) h hk = ((hk.0, get_value-plain m k h), labels-plain m ks h hk.1)

normalize_label_set-plain : (m : Metric) → IsPlain m → All PlainLabel (normalize_label_set m)
unfolding normalize_label_set
normalize_label_set-plain m h =
    labels-plain m (sort_strings (keys m)) h
      (All-sort_by bytes_lt (Lacks 0xff) (keys m) (keys-plain m h))

unfoldable find : List NormalizedLabel → Bytes → Option Bytes
find [] k = none
find (l ∷ ls) k = if bytes_eq k l.name then some l.value else find ls k

find-labels :
    (m : Metric) (ks : List Bytes) (k : Bytes)
    → find (map (label_at m) ks) k ≡ (if contains k ks then some (get_value m k) else none)
unfolding find label_at
find-labels m [] k = refl
find-labels m (j ∷ ks) k = elim (Bool-cases (bytes_eq k j)) [
  | inl e ↦ rw (bytes_eq_sound k j e) (ground (arith, bytes_eq_refl j))
  | inr e ↦ ground (arith, e, find-labels m ks k)
]

-- The normalized list holds exactly the map's entries.
find-normalize_label_set : (m : Metric) (k : Bytes) → find (normalize_label_set m) k ≡ get m k
unfolding normalize_label_set get_value
find-normalize_label_set m k = ground (
  arith,
  find-labels m (sort_strings (keys m)) k,
  any-sort_by bytes_lt (bytes_eq k) (keys m),
  contains-keys m k,
)

normalize_label_set-ext :
    (m n : Metric) → IsMap m → IsMap n → SameMap m n → normalize_label_set m ≡ normalize_label_set n
unfolding normalize_label_set label_at get_value
normalize_label_set-ext m n hm hn same =
    let at : label_at m ≡ label_at n = fun_ext (λ k. ground (arith, same k)) in rw (at, sorted_keys)
  where
    sorted_keys : sort_strings (keys m) ≡ sort_strings (keys n)
    sorted_keys =
        StrictSorted-ext (sort_strings (keys m)) (sort_strings (keys n))
          (sort_strings-StrictSorted (keys m) hm) (sort_strings-StrictSorted (keys n) hn)
          λ k.
            any-sort_by bytes_lt (bytes_eq k) (keys m)
            ∙ contains-keys m k
            ∙ ap is_some (same k)
            ∙ sym (contains-keys n k)
            ∙ sym (any-sort_by bytes_lt (bytes_eq k) (keys n))

-- Two label sets without the separator bytes, in any order of iteration, have the same LabelsKey
-- exactly when they give every name the same value or none.
pub labels_key_iff :
    (m n : Metric)
    → IsMap m
    → IsMap n
    → IsPlain m
    → IsPlain n
    → (labels_key m ≡ labels_key n) ↔ SameMap m n
unfolding labels_key
labels_key_iff m n hm hn pm pn = (
  λ e k.
      sym (find-normalize_label_set m k)
      ∙ ap (λ ls. find ls k)
          (write_labels-injective _ _ (normalize_label_set-plain m pm)
            (normalize_label_set-plain n pn) e)
      ∙ find-normalize_label_set n k,
  λ same. ap write_labels (normalize_label_set-ext m n hm hn same),
)
