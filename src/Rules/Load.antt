-- ===== src/Rules/Load.antt =====
-- internal/promshim/rules/registry.go, LoadFiles and loadFile. What rulefmt and the parser return for a
-- file or a text, and the files of a pattern, are parameters; patterns are as strings.TrimSpace leaves
-- them.
use promshim_clickhouse.Base.{
  Bool, List, [], ◌∷◌, ◌++◌, Option, none, some, is_empty, Result, ok, err, ◌>>=◌,
}
use promshim_clickhouse.Base.Int.{ℤ, pos}
use promshim_clickhouse.Bytes.{Bytes}
use promshim_clickhouse.Bytes.Sort.{sort_strings}
use promshim_clickhouse.Labels.{Metric}
use promshim_clickhouse.Rules.{RecordingRule, Registry, empty_registry, add}

-- rulefmt.Rule and rulefmt.RuleGroup, as far as the loader reads them.
pub record RawRule : Type 0 where
  pub record_name : Bytes
  pub expr : Bytes
  pub labels : Metric

pub record RuleGroup : Type 0 where
  pub name : Bytes
  pub labels : Metric
  pub interval : ℤ
  pub query_offset : Option ℤ
  pub rules : List RawRule

module _ (Expr Cause : Type 0) where
  pub data LoadError : Type 0 where
    invalid_glob : Bytes → Cause → LoadError
    matched_no_files : Bytes → LoadError
    loading : Bytes → Cause → LoadError
    parsing : Bytes → Bytes → Cause → LoadError

  abbrev pub LoadRegistry : Type 0
  LoadRegistry = Registry Expr LoadError

  module _ (parse_file : Bytes → Result Cause (Option (List RuleGroup)))
      (parse_expr : Bytes → Result Cause Expr) (glob : Bytes → Result Cause (List Bytes)) where
    abbrev pub recording_rule : Bytes → RuleGroup → RawRule → Expr → RecordingRule Expr LoadError
    recording_rule file group raw expr = record {
      name = raw.record_name;
      expr = expr;
      expr_string = raw.expr;
      labels = raw.labels;
      group_name = group.name;
      group_labels = group.labels;
      interval = group.interval;
      query_offset = elim group.query_offset [ none ↦ pos 0 | some offset ↦ offset ];
      source = file;
    }

    -- The registry after the rules, and the error that ended the loop.
    unfoldable pub load_rules :
        Bytes → RuleGroup → List RawRule → LoadRegistry → LoadRegistry × Option LoadError
    load_rules file group [] r = (r, none)
    load_rules file group (raw ∷ rules) r = elim (is_empty raw.record_name) [
      | Bool.true ↦ load_rules file group rules r
      | Bool.false ↦ elim (parse_expr raw.expr) [
        | err cause ↦ (r, some (parsing raw.record_name file cause))
        | ok expr ↦
            load_rules file group rules (add Expr LoadError r (recording_rule file group raw expr))
      ]
    ]

    unfoldable pub load_groups :
        Bytes → List RuleGroup → LoadRegistry → LoadRegistry × Option LoadError
    unfolding load_rules
    load_groups file [] r = (r, none)
    load_groups file (group ∷ groups) r =
        let (next, failed) = load_rules file group group.rules r in
        elim failed [ some e ↦ (next, some e) | none ↦ load_groups file groups next ]

    unfoldable pub load_file : Bytes → LoadRegistry → LoadRegistry × Option LoadError
    unfolding load_groups
    load_file file r = elim (parse_file file) [
      | err cause ↦ (r, some (loading file cause))
      | ok none ↦ (r, none)
      | ok (some groups) ↦ load_groups file groups r
    ]

    -- The second loop of LoadFiles, which collects the errors.
    unfoldable pub load_each : List Bytes → LoadRegistry → LoadRegistry
    unfolding load_file
    load_each [] r = r
    load_each (file ∷ files) r =
        let (next, failed) = load_file file r in
        load_each files
          (elim failed [ none ↦ next | some e ↦ record next { errors = next.errors ++ (e ∷ []) } ])

    -- The first loop of LoadFiles: the files of the patterns, and the patterns without files.
    unfoldable pub collect_files :
        List Bytes → List Bytes → List LoadError → Result LoadError (List Bytes × List LoadError)
    collect_files [] files errors = ok (files, errors)
    collect_files (pattern ∷ patterns) files errors = elim (is_empty pattern) [
      | Bool.true ↦ collect_files patterns files errors
      | Bool.false ↦ elim (glob pattern) [
        | err cause ↦ err (invalid_glob pattern cause)
        | ok [] ↦ collect_files patterns files (errors ++ (matched_no_files pattern ∷ []))
        | ok (file ∷ matches) ↦ collect_files patterns (files ++ (file ∷ matches)) errors
      ]
    ]

    unfoldable pub load_files : List Bytes → Result LoadError LoadRegistry
    unfolding collect_files load_each
    load_files patterns = collect_files patterns [] [] >>= λ collected. ok (
        load_each (sort_strings collected.0)
          (record (empty_registry Expr LoadError) { errors = collected.1 }))
