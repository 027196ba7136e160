-- ===== src/Cache/Heat.antt =====
-- The export and the import of heat, the number of requests for each key. The order of the keys
-- and serde_json's printer and parser are parameters.
pub mod Imports
pub mod Exports
pub mod RoundTrip
use light_bridge_engine.Base.{
  ℕ, zero, suc, ◌+◌, max, List, [], ◌∷◌, Bool, true, false, ◌&&◌, ◌||◌, not, Option, none, some,
  ltb, leb, ◌==◌, if◌then◌else◌, Result, ok, err, map_err, length, take,
}
use light_bridge_engine.Base.Bytes.{same_bytes}
use light_bridge_engine.Base.Table.{find, insert}
use light_bridge_engine.Base.Sorting.{sort_by}
use light_bridge_engine.Cache.Types.{State, CacheError}

-- `lightbridge-cache-heat`.
abbrev pub heat_format : List ℕ
heat_format =
    108 ∷ 105 ∷ 103 ∷ 104 ∷ 116 ∷ 98 ∷ 114 ∷ 105 ∷ 100 ∷ 103 ∷ 101 ∷ 45 ∷ 99 ∷ 97 ∷ 99 ∷ 104 ∷ 101
    ∷ 45 ∷ 104 ∷ 101 ∷ 97 ∷ 116 ∷ []

abbrev pub heat_version : ℕ
heat_version = 1

-- The entries are pairs of a key and its requests.
pub record HeatSnapshot (K : Type 0) : Type 0 where
  pub format : List ℕ
  pub version : ℕ
  pub entries : List (K × ℕ)

pub data HeatError (J : Type 0) : Type 0 where
  cache_failed : CacheError → HeatError J
  json : J → HeatError J
  -- The size and the limit.
  input_too_large : ℕ → ℕ → HeatError J
  wrong_format : List ℕ → ℕ → HeatError J
  -- The entries and the limit.
  too_many_entries : ℕ → ℕ → HeatError J
  zero_requests : HeatError J

module _ {K : Type 0} (key_less : K → K → Bool) where
  -- Whether one entry comes before another one: it has more requests, or as many and a lesser key.
  unfoldable pub hotter : K × ℕ → K × ℕ → Bool
  hotter (j, m) (k, n) = ltb n m || ((m == n) && key_less j k)

  -- The entries in the order of the comparison. No two have the same key, so one order only is
  -- sorted, and the method of sorting makes no difference.
  unfoldable pub ranked : List (K × ℕ) → List (K × ℕ)
  unfolding hotter sort_by
  ranked = sort_by hotter

  unfoldable pub snapshot : State K → ℕ → HeatSnapshot K
  unfolding ranked
  snapshot s maximum_entries = record {
    format = heat_format;
    version = heat_version;
    entries = take maximum_entries (ranked s.heat);
  }

  unfoldable pub export_heat_json :
      {J : Type 0}
      → (HeatSnapshot K → Result J (List ℕ))
      → State K
      → ℕ
      → Result (HeatError J) (List ℕ)
  unfolding snapshot
  export_heat_json print s maximum_entries = map_err json (print (snapshot s maximum_entries))

module _ {K : Type 0} (dec : Discrete K) where
  -- The requests of a key after an entry is read.
  unfoldable pub raise_heat : K → ℕ → List (K × ℕ) → List (K × ℕ)
  raise_heat key requests heat =
      insert dec key (elim (find dec key heat) [ none ↦ max 0 requests | some n ↦ max n requests ])
        heat

  -- The loop over the entries. Those before an entry without requests are kept.
  unfoldable pub import_entries :
      {J : Type 0} → List (K × ℕ) → State K → State K × Result (HeatError J) ℕ
  unfolding raise_heat
  import_entries [] s = (s, ok (length s.heat))
  import_entries ((key, zero) ∷ entries) s = (s, err zero_requests)
  import_entries ((key, suc n) ∷ entries) s =
      import_entries entries (record s { heat = raise_heat key (suc n) s.heat })

  -- What follows the parsing.
  unfoldable pub import_snapshot :
      {J : Type 0} → HeatSnapshot K → State K → ℕ → State K × Result (HeatError J) ℕ
  unfolding import_entries
  import_snapshot shot s maximum_entries =
      if not (same_bytes shot.format heat_format) || not (shot.version == heat_version)
      then (s, err (wrong_format shot.format shot.version))
      else (if ltb maximum_entries (length shot.entries)
          then (s, err (too_many_entries (length shot.entries) maximum_entries))
          else import_entries shot.entries s)

  unfoldable pub import_heat_json :
      {J : Type 0}
      → (List ℕ → Result J (HeatSnapshot K))
      → State K
      → List ℕ
      → ℕ
      → ℕ
      → State K × Result (HeatError J) ℕ
  unfolding import_snapshot
  import_heat_json parse s bytes maximum_json_bytes maximum_entries =
      if ltb maximum_json_bytes (length bytes)
      then (s, err (input_too_large (length bytes) maximum_json_bytes))
      else elim (parse bytes) [
        | err e ↦ (s, err (json e))
        | ok shot ↦ import_snapshot shot s maximum_entries
      ]
