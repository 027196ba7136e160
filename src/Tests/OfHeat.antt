-- ===== src/Tests/OfHeat.antt =====
-- The export and the import of heat (crates/bridge-cache) at concrete inputs. The printer writes the
-- version, the length of the format, the format and the entries, and the parser reads them.
use light_bridge_engine.Base.{
  ℕ, zero, suc, ◌+◌, ◌≤◌, ◌<◌, ◌≡◌, ◌≢◌, refl, ap, sym, ◌∙◌, List, [], ◌∷◌, ◌++◌, true, false, Bool,
  none, some, Result, ok, err, map_err, max, min, length, take, drop, map, arith, All, ltb,
  ℕ_discrete, ◌⊎◌, take-length-append, drop-length-append,
}
use light_bridge_engine.Base.Table.{find, Distinct}
use light_bridge_engine.Cache.Types.{State}
use light_bridge_engine.Cache.Heat.{
  HeatSnapshot, heat_format, export_heat_json, import_heat_json, hotter,
}
use light_bridge_engine.Cache.Heat.Exports.{KeyOrder, IsHottest, export_heat_json-IsHottest}
use light_bridge_engine.Cache.Heat.Imports.{
  heat_of, Keeps, Holds, Imports, Refuses, import_heat_json-Ends,
}
use light_bridge_engine.Cache.Heat.RoundTrip.{import-export}
use light_bridge_engine.Tests.OfCache.{fresh}

pairs : List (ℕ × ℕ) → List ℕ
pairs [] = []
pairs ((k, n) ∷ entries) = k ∷ n ∷ pairs entries

unpairs : List ℕ → List (ℕ × ℕ)
unpairs [] = []
unpairs (k ∷ []) = []
unpairs (k ∷ n ∷ bytes) = (k, n) ∷ unpairs bytes

unpairs-pairs : (entries : List (ℕ × ℕ)) → unpairs (pairs entries) ≡ entries
unfolding pairs unpairs
unpairs-pairs [] = refl
unpairs-pairs ((k, n) ∷ entries) = ap (◌∷◌ (k, n)) (unpairs-pairs entries)

print : HeatSnapshot ℕ → Result (Unit {0}) (List ℕ)
unfolding pairs
print shot = ok (shot.version ∷ length shot.format ∷ shot.format ++ pairs shot.entries)

parse : List ℕ → Result (Unit {0}) (HeatSnapshot ℕ)
unfolding unpairs
parse [] = err tt
parse (version ∷ []) = err tt
parse (version ∷ n ∷ bytes) =
    ok (record { format = take n bytes; version = version; entries = unpairs (drop n bytes) })

parse-print :
    (shot : HeatSnapshot ℕ) (bytes : List ℕ) → print shot ≡ ok bytes → parse bytes ≡ ok shot
unfolding print parse
parse-print shot bytes h =
    let written : shot.version ∷ length shot.format ∷ shot.format ++ pairs shot.entries ≡ bytes =
      cc in
    rw
      (
        ← written,
        parse,
        take-length-append shot.format (pairs shot.entries),
        drop-length-append shot.format (pairs shot.entries),
        unpairs-pairs shot.entries,
      )
      refl

abbrev warm : List (ℕ × ℕ)
warm = (4, 2) ∷ (9, 7) ∷ (5, 2) ∷ []

abbrev warmed : State ℕ
warmed = record fresh { heat = warm }

warm-Distinct : Distinct ℕ_discrete warm
unfolding find ℕ_discrete
warm-Distinct = (refl, (refl, (refl, tt)))

ltb-KeyOrder : KeyOrder ltb
ltb-KeyOrder = record {
  total = λ j k other h. ground (arith, other);
  transitive = λ i j k h l. ground arith;
}

-- The hottest entry, and the lesser key of the two that follow.
abbrev exported : List ℕ
exported = 1 ∷ 22 ∷ heat_format ++ 9 ∷ 7 ∷ 4 ∷ 2 ∷ []

exports_the_hottest : export_heat_json ltb print warmed 2 ≡ ok exported
unfolding export_heat_json print
exports_the_hottest = refl

export_heat_json-IsHottest_example :
    (shot : HeatSnapshot ℕ) × IsHottest ℕ_discrete ltb ltb-KeyOrder warm 2 shot
    × (export_heat_json ltb print warmed 2
        ≡ map_err light_bridge_engine.Cache.Heat.json (print shot))
export_heat_json-IsHottest_example =
    export_heat_json-IsHottest ℕ_discrete ltb ltb-KeyOrder print warmed 2 warm-Distinct

imports_into_fresh :
    import_heat_json ℕ_discrete parse fresh exported 100 2
    ≡ (record fresh { heat = (9, 7) ∷ (4, 2) ∷ [] }, ok 2)
unfolding import_heat_json parse unpairs light_bridge_engine.Base.Bytes.same_bytes
    light_bridge_engine.Base.Table.insert ℕ_discrete find
imports_into_fresh = refl

import_heat_json-Ends_example :
    Keeps ℕ_discrete (Unit {0}) fresh (import_heat_json ℕ_discrete parse fresh exported 100 2)
    × (((shot : HeatSnapshot ℕ) × Holds ℕ_discrete (Unit {0}) fresh parse exported 100 2 shot
          × Imports ℕ_discrete
              (Unit {0})
              fresh
              shot
              (import_heat_json ℕ_discrete parse fresh exported 100 2))
        ⊎ ((((shot : HeatSnapshot ℕ) × Holds ℕ_discrete (Unit {0}) fresh parse exported 100 2 shot)
              → ⊥)
            × Refuses ℕ_discrete
                (Unit {0})
                fresh
                (import_heat_json ℕ_discrete parse fresh exported 100 2)))
import_heat_json-Ends_example =
    import_heat_json-Ends ℕ_discrete (Unit {0}) fresh parse exported 100 2

abbrev exported_whole : List ℕ
exported_whole = 1 ∷ 22 ∷ heat_format ++ 9 ∷ 7 ∷ 4 ∷ 2 ∷ 5 ∷ 2 ∷ []

exports_whole : export_heat_json ltb print warmed 3 ≡ ok exported_whole
unfolding export_heat_json print
exports_whole = refl

import-export_example :
    ((import_heat_json ℕ_discrete parse fresh exported_whole 100 3).1
      ≡ ok (length (import_heat_json ℕ_discrete parse fresh exported_whole 100 3).0.heat))
    × (heat_of ℕ_discrete 9 (import_heat_json ℕ_discrete parse fresh exported_whole 100 3).0.heat
        ≡ max (heat_of ℕ_discrete 9 fresh.heat) (heat_of ℕ_discrete 9 warm))
import-export_example =
    import-export ℕ_discrete ltb print parse parse-print warmed fresh 3 3 100 exported_whole 9
      warm-Distinct (omega arith, (omega arith, (omega arith, tt))) (omega arith) exports_whole
      (omega arith) (omega arith)
