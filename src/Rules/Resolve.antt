-- ===== src/Rules/Resolve.antt =====
-- What the registry knows of a name, from the rules of that name alone.
use promshim_clickhouse.Base.{
  false, List, [], ◌∷◌, ◌++◌, Option, none, some, if◌then◌else◌, select, ◌≡◌, refl, ◌∙◌, ap, sym,
  Bool-cases, Option-cases, inl, inr, append_nil,
}
use mathlib.Core.List.{append_assoc}
use promshim_clickhouse.Bytes.{Bytes, bytes_eq, bytes_eq_sound, bytes_eq_refl}
use promshim_clickhouse.Bytes.Dict.{lookup, lookup-store, lookup-remove}
use promshim_clickhouse.Rules.{
  RecordingRule, Registry, empty_registry, lookup_rule, conflict, same_rule, add, add_all,
}

module _ (Expr Error : Type 0) where
  abbrev Rule : Type 0
  Rule = RecordingRule Expr Error

  -- The answers of Lookup and of Conflict.
  abbrev pub Answers : Type 0
  Answers = Option Rule × Option (List Rule)

  abbrev pub answers : Registry Expr Error → Bytes → Answers
  answers r name = (lookup_rule Expr Error r name, conflict Expr Error r name)

  abbrev pub named : Bytes → List Rule → List Rule
  named name = select (λ rule. bytes_eq rule.name name)

  -- From the first rule on that is not the same as `rule`.
  abbrev pub from_other : Rule → List Rule → List Rule
  from_other rule [] = []
  from_other rule (other ∷ rest) =
      if same_rule Expr Error rule other then from_other rule rest else other ∷ rest

  abbrev pub judge : Rule → List Rule → Answers
  judge first [] = (some first, none)
  judge first (other ∷ rest) = (none, some (first ∷ other ∷ rest))

  -- One name: its first rule where all others are the same, and otherwise the first rule with all that
  -- come from the first other one on.
  abbrev pub resolve : List Rule → Answers
  resolve [] = (none, none)
  resolve (first ∷ rest) = judge first (from_other first rest)

  -- One rule more of a name.
  abbrev next : Answers → Rule → Answers
  next (some existing, old) rule =
      if same_rule Expr Error existing rule
      then (some existing, old)
      else (none, some (existing ∷ rule ∷ []))
  next (none, some rules) rule = (none, some (rules ++ (rule ∷ [])))
  next (none, none) rule = (some rule, none)

  abbrev run : Answers → List Rule → Answers
  run a [] = a
  run a (rule ∷ rules) = run (next a rule) rules

  answers-add_self :
      (r : Registry Expr Error) (rule : Rule)
      → answers (add Expr Error r rule) rule.name ≡ next (answers r rule.name) rule
  unfolding add
  answers-add_self r rule = elim (Option-cases (lookup r.by_name rule.name)) [
    | inr (existing, e) ↦ elim (Bool-cases (same_rule Expr Error existing rule)) [
      | inl same ↦ rw (e, add, same) (rw e refl)
      | inr differs ↦
          rw (e, add, differs)
            (rw
              (
                lookup-remove r.by_name rule.name rule.name,
                lookup-store r.conflicts rule.name (existing ∷ rule ∷ []) rule.name,
                bytes_eq_refl rule.name,
              )
              refl)
    ]
    | inl e ↦ elim (Option-cases (lookup r.conflicts rule.name)) [
      | inr (rules, f) ↦
          rw (e, add, f)
            (rw
              (
                lookup-store r.conflicts rule.name (rules ++ (rule ∷ [])) rule.name,
                bytes_eq_refl rule.name,
                e,
              )
              refl)
      | inl f ↦
          rw (e, add, f)
            (rw (lookup-store r.by_name rule.name rule rule.name, bytes_eq_refl rule.name, f) refl)
    ]
  ]

  answers-add_other :
      (r : Registry Expr Error) (rule : Rule) (name : Bytes)
      → bytes_eq rule.name name ≡ false
      → answers (add Expr Error r rule) name ≡ answers r name
  unfolding add
  answers-add_other r rule name h = elim (Option-cases (lookup r.by_name rule.name)) [
    | inr (existing, e) ↦ elim (Bool-cases (same_rule Expr Error existing rule)) [
      | inl same ↦ rw (e, add, same) refl
      | inr differs ↦
          rw (e, add, differs)
            (rw
              (
                lookup-remove r.by_name rule.name name,
                lookup-store r.conflicts rule.name (existing ∷ rule ∷ []) name,
                h,
              )
              refl)
    ]
    | inl e ↦ elim (Option-cases (lookup r.conflicts rule.name)) [
      | inr (rules, f) ↦
          rw (e, add, f)
            (rw (lookup-store r.conflicts rule.name (rules ++ (rule ∷ [])) name, h) refl)
      | inl f ↦ rw (e, add, f) (rw (lookup-store r.by_name rule.name rule name, h) refl)
    ]
  ]

  answers-add_all :
      (rules : List Rule) (r : Registry Expr Error) (name : Bytes)
      → answers (add_all Expr Error r rules) name ≡ run (answers r name) (named name rules)
  unfolding add_all
  answers-add_all [] r name = refl
  answers-add_all (rule ∷ rules) r name = elim (Bool-cases (bytes_eq rule.name name)) [
    | inl e ↦
        let same = bytes_eq_sound rule.name name e in
        rw e (
          answers-add_all rules (add Expr Error r rule) name
          ∙ ap (λ a. run a (named name rules))
              (ap (answers (add Expr Error r rule)) (sym same)
                ∙ answers-add_self r rule
                ∙ ap (λ n. next (answers r n) rule) same))
    | inr e ↦ rw e (
        answers-add_all rules (add Expr Error r rule) name
        ∙ ap (λ a. run a (named name rules)) (answers-add_other r rule name e))
  ]

  run_ambiguous :
      (rules more : List Rule) → run (none, some rules) more ≡ (none, some (rules ++ more))
  run_ambiguous rules [] = rw append_nil refl
  run_ambiguous rules (rule ∷ more) =
      run_ambiguous (rules ++ (rule ∷ [])) more
      ∙ ap (λ l. (none, some l)) (append_assoc rules (rule ∷ []) more)

  run_known :
      (first : Rule) (rules : List Rule)
      → run (some first, none) rules ≡ judge first (from_other first rules)
  run_known first [] = refl
  run_known first (rule ∷ rules) = elim (Bool-cases (same_rule Expr Error first rule)) [
    | inl e ↦ rw e (run_known first rules)
    | inr e ↦ rw e (run_ambiguous (first ∷ rule ∷ []) rules)
  ]

  -- Whatever rules are added to the empty registry, Lookup and Conflict answer for a name from the rules of
  -- that name alone: the first one, where all later ones are the same; and otherwise a conflict, of the
  -- first one with all that come from the first other one on.
  pub answers-add_all_lem :
      (rules : List Rule) (name : Bytes)
      → answers (add_all Expr Error (empty_registry Expr Error) rules) name
        ≡ resolve (named name rules)
  unfolding lookup
  answers-add_all_lem rules name =
      answers-add_all rules (empty_registry Expr Error) name ∙ run_resolve (named name rules)
    where
      run_resolve : (rs : List Rule) → run (none, none) rs ≡ resolve rs
      run_resolve [] = refl
      run_resolve (first ∷ rest) = run_known first rest
