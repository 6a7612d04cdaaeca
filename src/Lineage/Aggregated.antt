-- ===== src/Lineage/Aggregated.antt =====
-- The lineage of internal/promshim/logical/lineage.go against what the evaluator does to label sets.
use promshim_clickhouse.Base.{
  Bool, true, false, List, [], ◌∷◌, Option, none, some, if◌then◌else◌, ◌≡◌, refl, sym, ◌∙◌, ap,
  subst, arith, Bool-cases, inl, inr, ◌||◌,
}
use promshim_clickhouse.Bytes.{Bytes, bytes_eq, bytes_eq_iff, bytes_eq_sound}
use promshim_clickhouse.Bytes.Sort.{contains}
use promshim_clickhouse.Bytes.Dict.{lookup, store, lookup-store}
use promshim_clickhouse.Labels.{Metric, metric_name, get, aggregation_metric}
use promshim_clickhouse.Labels.Grouping.{get-aggregation_metric}
use promshim_clickhouse.Lineage.{
  State, original, mutated, dropped, unknown, synthetic, LabelLineage, leaf_lineage, copy_known,
  drop_each, keep_each, kept_state, aggregation_lineage,
}

-- What a lineage says of a label: what is known of it, or the wildcard.
abbrev pub state_of : LabelLineage → Bytes → Option State
state_of lineage label = elim (lookup lineage.known label) [
  | some state ↦ some state
  | none ↦ lineage.wildcard
]

-- A dropped label is not in the output, and an original one is as in the input.
abbrev pub Claim : Option State → Option Bytes → Option Bytes → Type 0
Claim (some dropped) before after = after ≡ none
Claim (some original) before after = after ≡ before
Claim (some mutated) before after = Unit
Claim (some unknown) before after = Unit
Claim (some synthetic) before after = Unit
Claim none before after = Unit

-- The lineage is right about every label of an input and its output.
abbrev pub Describes : LabelLineage → Metric → Metric → Type 0
Describes lineage input output =
    (label : Bytes) → Claim (state_of lineage label) (get input label) (get output label)

-- A leaf leaves every label as it is.
pub leaf_lineage-Describes : (m : Metric) → Describes leaf_lineage m m
unfolding lookup
leaf_lineage-Describes m label = either (bytes_eq label metric_name) (get m label)
  where
    either :
        (b : Bool) (o : Option Bytes)
        → Claim
            (elim (if b then some original else none) [
              | some s ↦ some s
              | none ↦ leaf_lineage.wildcard
            ])
            o
            o
    either true o = refl
    either false o = refl

lookup-copy_known :
    (known result : List (Bytes × State)) (k : Bytes)
    → lookup (copy_known known result) k ≡ (
        if bytes_eq k metric_name
        then lookup result k
        else elim (lookup known k) [ some s ↦ some s | none ↦ lookup result k ])
unfolding copy_known lookup
lookup-copy_known [] result k = ground arith
lookup-copy_known ((j, s) ∷ known) result k = ground (
  arith,
  lookup-copy_known known result k,
  lookup-store (copy_known known result) j s k,
  bytes_eq_iff j metric_name,
  bytes_eq_iff k metric_name,
  bytes_eq_iff j k,
  bytes_eq_iff k j,
)

lookup-drop_each :
    (grouping : List Bytes) (result : List (Bytes × State)) (k : Bytes)
    → lookup (drop_each grouping result) k
      ≡ (if contains k grouping then some dropped else lookup result k)
unfolding drop_each
lookup-drop_each [] result k = refl
lookup-drop_each (g ∷ grouping) result k =
    lookup-drop_each grouping (store result g dropped) k
    ∙ ground (arith, lookup-store result g dropped k, bytes_eq_iff g k, bytes_eq_iff k g)

lookup-keep_each :
    (child : LabelLineage) (grouping : List Bytes) (result : List (Bytes × State)) (k : Bytes)
    → lookup (keep_each child grouping result) k
      ≡ (if contains k grouping then some (kept_state child k) else lookup result k)
unfolding keep_each
lookup-keep_each child [] result k = refl
lookup-keep_each child (g ∷ grouping) result k =
    lookup-keep_each child grouping (store result g (kept_state child g)) k
    ∙ elim (Bool-cases (bytes_eq k g)) [
      | inl e ↦
          rw
            (
              e,
              lookup-store result g (kept_state child g) k,
              bytes_eq-sym k g e,
              ap (kept_state child) (bytes_eq_sound k g e),
            )
            (either (contains k grouping) (some (kept_state child g)))
      | inr e ↦
          rw (e, lookup-store result g (kept_state child g) k)
            (ground (arith, e, bytes_eq_iff k g, bytes_eq_iff g k))
    ]
  where
    either : (b : Bool) (o : Option State) → (if b then o else o) ≡ o
    either b o = ground arith

    bytes_eq-sym : (a b : Bytes) → bytes_eq a b ≡ true → bytes_eq b a ≡ true
    bytes_eq-sym a b h = ground (arith, h, bytes_eq_iff a b, bytes_eq_iff b a)

without_state :
    (child : LabelLineage) (grouping : List Bytes) (k : Bytes)
    → state_of (aggregation_lineage child grouping true) k
      ≡ (if bytes_eq k metric_name || contains k grouping then some dropped else state_of child k)
unfolding aggregation_lineage lookup
without_state child grouping k = ground (
  arith,
  lookup-drop_each grouping (copy_known child.known ((metric_name, dropped) ∷ [])) k,
  lookup-copy_known child.known ((metric_name, dropped) ∷ []) k,
)

by_state :
    (child : LabelLineage) (grouping : List Bytes) (k : Bytes)
    → state_of (aggregation_lineage child grouping false) k
      ≡ (if contains k grouping then some (kept_state child k) else some dropped)
unfolding aggregation_lineage lookup
by_state child grouping k =
    ground (arith, lookup-keep_each child grouping ((metric_name, dropped) ∷ []) k)

Claim-agrees :
    (o p : Option State) (a b before : Option Bytes)
    → o ≡ p
    → a ≡ b
    → Claim o before a
    → Claim p before b
Claim-agrees o p a b before e f h =
    subst (λ x. Claim p before x) f (subst (λ x. Claim x before a) e h)

Claim-dropped :
    (b : Bool) (o : Option State) (before after : Option Bytes)
    → Claim o before after
    → Claim (if b then some dropped else o) before (if b then none else after)
Claim-dropped true o before after h = refl
Claim-dropped false o before after h = h

Claim-kept :
    (b : Bool) (state : State) (before after : Option Bytes)
    → Claim (some state) before after
    → Claim (if b then some state else some dropped) before (if b then after else none)
Claim-kept true state before after h = h
Claim-kept false state before after h = refl

kept_state-Claim :
    (child : LabelLineage) (k : Bytes) (before after : Option Bytes)
    → Claim (state_of child k) before after
    → Claim (some (kept_state child k)) before after
kept_state-Claim child k before after h = kept (lookup child.known k) child.wildcard h
  where
    kept :
        (known wildcard : Option State)
        → Claim (elim known [ some s ↦ some s | none ↦ wildcard ]) before after
        → Claim
            (some
              (elim known [ some s ↦ s | none ↦ elim wildcard [ some s ↦ s | none ↦ unknown ] ]))
            before
            after
    kept (some s) wildcard c = c
    kept none (some s) c = c
    kept none none c = tt

-- The label set of an aggregated group has and lacks the labels that the lineage of the aggregation says, of
-- whatever input the lineage of its operand is right about. With by (__name__) that keeps the metric name. This is
-- about the groups of the operators with a reducer; count_values sets one label more, and topk, bottomk, limitk
-- and limit_ratio keep whole label sets.
pub aggregation_lineage-Describes :
    (child : LabelLineage) (input m : Metric) (grouping : List Bytes) (without : Bool)
    → Describes child input m
    → Describes
        (aggregation_lineage child grouping without)
        input
        (aggregation_metric m grouping without)
aggregation_lineage-Describes child input m grouping true h label =
    Claim-agrees _ _ _ _ (get input label) (sym (without_state child grouping label))
      (sym (get-aggregation_metric m grouping true label))
      (Claim-dropped (bytes_eq label metric_name || contains label grouping) (state_of child label)
        (get input label) (get m label) (h label))
aggregation_lineage-Describes child input m grouping false h label =
    Claim-agrees _ _ _ _ (get input label) (sym (by_state child grouping label))
      (sym (get-aggregation_metric m grouping false label))
      (Claim-kept (contains label grouping) (kept_state child label) (get input label) (get m label)
        (kept_state-Claim child label (get input label) (get m label) (h label)))
