-- ===== src/Estimates.antt =====
-- internal/promshim/selector_estimates.go: the cache of what probes have observed of selectors. Each operation
-- holds the lock of the cache, and is one step here; time.Now is an argument.
pub mod Apply
mod Steps
mod Kept
mod Key
mod Latest
mod Bounds
mod Hits
mod Fresh
mod Examples
use promshim_clickhouse.Base.{
  ℕ, zero, suc, ◌*◌, ◌^◌, Bool, true, false, not, ◌||◌, List, [], ◌∷◌, ◌++◌, Option, none, some,
  if◌then◌else◌, ◌==◌, is_empty, ltb, length,
}
use promshim_clickhouse.Base.Int.{ℤ, pos, negsuc, ltb_ℤ, leb_ℤ, ◌-ℤ◌}
use promshim_clickhouse.Bytes.{join_strings, Bytes}
use promshim_clickhouse.Bytes.Sort.{sort_strings}
use promshim_clickhouse.Bytes.Dict.{lookup, store, remove}
use promshim_clickhouse.Bytes.Decimal.{format_int}
use promshim_clickhouse.Time.{sub_time}

pub record Signature : Type 0 where
  pub matchers : List Bytes
  pub start_ms : ℤ
  pub end_ms : ℤ
  pub lookback_ms : ℤ
  pub offset_ms : ℤ

-- `observed_at` is zero for the zero time.
pub record Stats : Type 0 where
  pub matched_series : ℤ
  pub samples_per_series : ℤ
  pub observed_at : ℕ

pub record Cache : Type 0 where
  pub ttl : ℤ
  pub max_entries : ℤ
  pub entries : List (Bytes × Stats)

pub data State : Type 0 where
  missing stale hit : State

abbrev pub default_max_entries : ℤ
default_max_entries = pos 4096

-- 5 * time.Minute
abbrev pub default_ttl : ℤ
default_ttl = pos (300 * 10 ^ 9)

unfoldable pub new_cache_with_max : ℤ → ℤ → Cache
new_cache_with_max ttl max_entries = record {
  ttl = if leb_ℤ ttl (pos 0) then default_ttl else ttl;
  max_entries = if leb_ℤ max_entries (pos 0) then default_max_entries else max_entries;
  entries = [];
}

unfoldable pub key : Signature → Bytes
unfolding format_int join_strings
key sig =
    join_strings (255 ∷ []) (sort_strings sig.matchers)
    ++ (b'|'
        ∷ (format_int sig.start_ms
            ++ (b'|'
                ∷ (format_int sig.end_ms
                    ++ (b'|'
                        ∷ (format_int sig.lookback_ms ++ (b'|' ∷ format_int sig.offset_ms)))))))

abbrev pub no_stats : Stats
no_stats = record { matched_series = pos 0; samples_per_series = pos 0; observed_at = 0 }

-- now.Sub(stats.ObservedAt) > c.ttl
abbrev pub is_expired : ℤ → ℕ → Stats → Bool
is_expired ttl now stats = ltb_ℤ ttl (sub_time now stats.observed_at)

unfoldable pub get_with_state : Cache → Signature → ℕ → Cache × (Stats × State)
unfolding key sub_time
get_with_state c sig now = elim (lookup c.entries (key sig)) [
  | none ↦ (c, (no_stats, missing))
  | some stats ↦
      if stats.observed_at == 0
      then (c, (no_stats, missing))
      else if is_expired c.ttl now stats
      then (record c { entries = remove c.entries (key sig) }, (stats, stale))
      else (c, (stats, hit))
]

-- pruneLocked
unfoldable pub prune : ℤ → ℕ → List (Bytes × Stats) → List (Bytes × Stats)
unfolding sub_time
prune ttl now [] = []
prune ttl now ((k, stats) ∷ entries) =
    let rest = prune ttl now entries in
    if stats.observed_at == 0 || is_expired ttl now stats then rest else (k, stats) ∷ rest

-- The loop of evictToCapacityLocked over the entries, from the oldest one up to here.
unfoldable pub find_oldest : Bytes → ℕ → List (Bytes × Stats) → Bytes
find_oldest oldest_key oldest [] = oldest_key
find_oldest oldest_key oldest ((k, stats) ∷ entries) =
    if is_empty oldest_key || ltb stats.observed_at oldest
    then find_oldest k stats.observed_at entries
    else find_oldest oldest_key oldest entries

-- evictToCapacityLocked; each round takes one entry away, or is the last.
unfoldable pub evict_to_capacity : ℕ → ℤ → List (Bytes × Stats) → List (Bytes × Stats)
unfolding find_oldest
evict_to_capacity zero target entries = entries
evict_to_capacity (suc fuel) target entries =
    let oldest_key = find_oldest [] 0 entries in
    let rest = evict_to_capacity fuel target (remove entries oldest_key) in
    if ltb_ℤ target (pos (length entries))
    then (if is_empty oldest_key then entries else rest)
    else entries

abbrev pub prune_cache : Cache → ℕ → List (Bytes × Stats)
prune_cache c now = if leb_ℤ c.ttl (pos 0) then c.entries else prune c.ttl now c.entries

abbrev pub make_room : ℤ → Bytes → List (Bytes × Stats) → List (Bytes × Stats)
make_room max_entries k entries = elim (lookup entries k) [
  | some existing ↦ entries
  | none ↦ evict_to_capacity (length entries) (max_entries -ℤ pos 1) entries
]

abbrev pub put_observed : Cache → Bytes → Stats → Cache
put_observed c k stats = record c {
  entries = store (make_room c.max_entries k (prune_cache c stats.observed_at)) k stats;
}

-- time.Now, where the probe has not said when it observed.
abbrev pub observed : Stats → ℕ → Stats
observed stats clock =
    if stats.observed_at == 0 then record stats { observed_at = clock } else stats

unfoldable pub put : Cache → Signature → Stats → ℕ → Cache
unfolding key prune evict_to_capacity
put c sig stats clock = put_observed c (key sig) (observed stats clock)

-- What the service does with the cache.
pub data Operation : Type 0 where
  get_stats : (sig : Signature) (now : ℕ) → Operation
  put_stats : (sig : Signature) (stats : Stats) (clock : ℕ) → Operation

unfoldable pub perform : Cache → Operation → Cache
unfolding get_with_state put
perform c (get_stats sig now) = (get_with_state c sig now).0
perform c (put_stats sig stats clock) = put c sig stats clock

unfoldable pub perform_all : Cache → List Operation → Cache
unfolding perform
perform_all c [] = c
perform_all c (op ∷ ops) = perform_all (perform c op) ops
