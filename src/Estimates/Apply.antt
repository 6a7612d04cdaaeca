-- ===== src/Estimates/Apply.antt =====
-- applyCachedSelectorEstimates: the estimates of a query from the cache. What it adds for display, the source, the
-- time and the time to live, is left out.
use promshim_clickhouse.Base.{
  ℕ, suc, Bool, true, false, List, [], ◌∷◌, Option, none, some, if◌then◌else◌, length,
}
use promshim_clickhouse.Base.Int.{ℤ, pos, ltb_ℤ, leb_ℤ, ◌+ℤ◌, ◌-ℤ◌, ◌*ℤ◌, ◌/ℤ◌, wrap64, is_zero_ℤ}
use promshim_clickhouse.Estimates.{
  Signature, Stats, Cache, State, missing, stale, hit, get_with_state,
}
use promshim_clickhouse.Routing.{QueryCostClass}

unfoldable pub estimate_samples_per_series : Signature → ℤ
estimate_samples_per_series sig =
    let span = wrap64 (sig.end_ms -ℤ sig.start_ms) in
    if ltb_ℤ sig.end_ms sig.start_ms
    then pos 1
    else if leb_ℤ span (pos 0)
    then pos 1
    else wrap64 ((span /ℤ pos 15000) +ℤ pos 1)

pub record Totals : Type 0 where
  pub matched_series : ℤ
  pub input_samples : ℤ
  pub missing : ℕ
  pub stale : ℕ
  pub all_fresh : Bool

abbrev pub no_totals : Totals
no_totals = record {
  matched_series = pos 0;
  input_samples = pos 0;
  missing = 0;
  stale = 0;
  all_fresh = true;
}

unfoldable pub samples_or_estimate : Signature → Stats → ℤ
unfolding estimate_samples_per_series
samples_or_estimate sig stats =
    if leb_ℤ stats.samples_per_series (pos 0)
    then estimate_samples_per_series sig
    else stats.samples_per_series

-- One round of the loop over the signatures.
abbrev pub count_state : Totals → Signature → Stats × State → Totals
count_state t sig (stats, hit) = record t {
  matched_series = wrap64 (t.matched_series +ℤ stats.matched_series);
  input_samples =
      wrap64 (t.input_samples +ℤ wrap64 (stats.matched_series *ℤ samples_or_estimate sig stats));
}
count_state t sig (stats, stale) = record t { stale = suc t.stale; all_fresh = false }
count_state t sig (stats, missing) = record t { missing = suc t.missing; all_fresh = false }

unfoldable pub count_signatures : Cache → ℕ → Totals → List Signature → Cache × Totals
unfolding get_with_state samples_or_estimate
count_signatures c now t [] = (c, t)
count_signatures c now t (sig ∷ signatures) =
    let found = get_with_state c sig now in
    count_signatures found.0 now (count_state t sig found.1) signatures

-- What a class has of a cache whose entries were all fresh.
abbrev pub with_estimates : QueryCostClass → Totals → QueryCostClass
with_estimates class t = record class {
  estimate_state = record { fresh = true; missing = pos t.missing; stale = pos t.stale };
  estimated_series = t.matched_series;
  estimated_input_samples = t.input_samples;
  estimated_output_points =
      if is_zero_ℤ class.estimated_output_points
      then (if ltb_ℤ (pos 0) class.range_points_per_series
          then wrap64 (t.matched_series *ℤ class.range_points_per_series)
          else t.matched_series)
      else class.estimated_output_points;
}

abbrev pub with_state : QueryCostClass → Bool → ℕ → ℕ → QueryCostClass
with_state class is_fresh misses stales = record class {
  estimate_state = record { fresh = is_fresh; missing = pos misses; stale = pos stales };
}

abbrev pub finish : QueryCostClass → Totals → QueryCostClass
finish class t =
    if t.all_fresh then with_estimates class t else with_state class false t.missing t.stale

unfoldable pub apply_cached_selector_estimates :
    QueryCostClass → List Signature → Option Cache → ℕ → Option Cache × QueryCostClass
unfolding count_signatures
apply_cached_selector_estimates class [] cache now = (cache, with_state class true 0 0)
apply_cached_selector_estimates class (sig ∷ signatures) none now =
    (none, with_state class false (length (sig ∷ signatures)) 0)
apply_cached_selector_estimates class (sig ∷ signatures) (some c) now =
    let counted = count_signatures c now no_totals (sig ∷ signatures) in
    (some counted.0, finish class counted.1)
