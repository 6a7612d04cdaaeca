-- ===== src/Lib.antt =====
-- Verification of the core of promshim-clickhouse, a Prometheus query API in front of ClickHouse.
--
-- A PromQL query becomes a logical plan (internal/promshim/logical), which passes over it simplify
-- (internal/promshim/logical/opt). The local evaluator (internal/promshim/local and its package exec)
-- computes what the storage does not: it matches vectors by their labels, evaluates a long range in
-- chunks, and merges their matrices. All of it works on the label sets and points of
-- internal/promshim/model.
--
-- Base: Boolean tests, lists, results, three-way comparisons, and integers over the native naturals.
-- Bytes: Go's strings as lists of bytes, their order, sorting, and Go's `map[string]V` as a list of entries.
-- Labels: internal/promshim/model/labels.go and types.go, LabelsKey and AggregationMetric. A map is a
-- list of entries in the order of one iteration; the theorems hold for every order.
-- Floats: float64 as a type with the operations the program uses and no law. What a theorem needs of
-- them is among its hypotheses.
-- Matching: internal/promshim/local/exec/vector_matching.go, the operators between two instant
-- vectors (applyVectorVectorBinaryInstant, applyVectorVectorSetInstant, buildVectorVectorResultMetric).
-- Time and Points: internal/promshim/model/timealign.go. A time is a number of nanoseconds, a
-- duration a 64-bit integer, whose wrap-around and saturation are written out.
-- Chunks: internal/promshim/local/chunking.go, splitRangeIntoChunks, mergeMatrixValues and the loop of
-- chunkedRangePlan.execute.
-- Plans: internal/promshim/logical/logicaltypes.go, and of analyze.go which nodes drop the metric
-- name. The parser's expressions, matchers and types are parameters.
-- Lineage: internal/promshim/logical/lineage.go, what a plan does to the labels of its input.
-- Optimizer: internal/promshim/logical/opt, the passes foldDoubleNegations and
-- cancelRepeatedAverageInTree, and the loop of OptimizeWithTrace.
-- Operators: internal/promshim/local/exec/localexpr.go, the unary operators, the operators between a
-- vector and a scalar, and ensureUniqueInstantLabelsets.
-- Aggregation: internal/promshim/local/exec/aggregate.go, the reducers, AggregateInstantSamples and
-- the selections topk, bottomk and limitk of a vector, and the quantile of rangefunc.go.
-- LabelFunctions: internal/promshim/local/exec/labelmut.go, label_replace and label_join.
-- Sorting: internal/promshim/local/exec/sort.go, the sort functions and the natural order of texts.
-- Regulator: cmd/ch-seed-long/regulator.go, one tick of runRegulator as a function of the state and of
-- what the tick observes, and the freeze of seed.go that it shares with the probe.
-- Routing: internal/promshim/routing_policy.go, routingDecisionForStrict and costModel.decide: whether
-- the strict strategy or local execution serves a query, with the caps, the costs and the gates;
-- cbe_candidates.go, the candidates of a query; cost_shadow.go, which of them a shadow run executes.
-- Estimates: internal/promshim/selector_estimates.go, the cache of what probes observed of selectors, with its
-- eviction and time to live, and the estimates of a query from it.
-- Memo: internal/promshim/local/planner_memo.go, the reuse of the value of an expression within a request.
-- Rules: internal/promshim/rules/registry.go, the registry of recording rules and how files fill it.
-- Settings: internal/promshim/storage/settings_profile.go, the settings that go with a statement.
--
-- Fuel: the loops over times take one unit for each nanosecond of the range and two more, which is
-- proved to be enough wherever the step is positive. The loop over the passes has the program's own
-- bound of eight rounds, and its error. The comparison of two texts in the natural order takes at least a
-- byte of each in a round, the eviction of the cache an entry, and an int64 has at most nineteen digits: the
-- length of the text, the number of entries, and twenty are the fuel, and proved to be enough.
--
-- Not modelled: the copies that Go makes of maps and slices (values here are immutable), the order of
-- equal elements in Go's unstable sorts, the trace that the passes leave, SQL generation, requests to the storage,
-- the HTTP API, the classification of queries, and the other tools under cmd.
mod Base
pub mod Bytes
pub mod Labels
pub mod Floats
pub mod Matching
pub mod Time
pub mod Points
pub mod Chunks
pub mod Operators
pub mod LabelFunctions
pub mod Sorting
pub mod Aggregation
pub mod Regulator
pub mod Routing
pub mod Rules
pub mod Settings
pub mod Estimates
pub mod Memo
pub mod Lineage
pub mod Plans
pub mod Optimizer
