-- ===== src/SibRetarget.antt =====
-- Which slots must be open to reach an instrument or a slot, and in which rounds
-- (src/warptap/sib_retarget.py).
pub mod Paths
pub mod SlotPaths
pub mod Stages
pub mod Named
pub mod Opened
pub mod OnePath
use warptap.Base.{
  ℕ, zero, suc, ◌+◌, ◌-◌, ◌==◌, ltb, leb, if◌then◌else◌, Bool, true, false, not, List, [], ◌∷◌,
  ◌++◌, map, Option, none, some, String, same_name, Result, ok, err, ◌>>=◌,
}
use warptap.TapIr.{for_range}
use warptap.IclModel.{InstrumentNode, Chain, end, sib_node, scan_mux_node, Arms, no_arms, scan_arm}
use warptap.SibLayout.{OpenMap, OpenSet, normalize_open, get}

-- `SibRetargetError`, and the IndexError of `arm.values[0]` for an arm without values.
pub data RetargetError : Type 0 where
  no_path no_values : RetargetError

-- What a search returns: a tuple of `PathStep`s, each the name and the value of an ancestor, or None.
abbrev pub Search : Type 0
Search = Result RetargetError (Option (List (String × ℕ)))

-- `if found is not None: return found`, and what comes after.
abbrev pub or_else : Search → Search → Search
or_else (err e) next = err e
or_else (ok none) next = next
or_else (ok (some path)) next = ok (some path)

-- `instrument is not None and instrument.name == instrument_name`
abbrev pub gates : Option InstrumentNode → String → Bool
gates none name = false
gates (some i) name = same_name i.name name

-- `_search` on each slot of a chain, and its loop over the arms of a mux.
unfoldable mutual
  search : String → Chain → List (String × ℕ) → Search
  search target end path = ok none
  search target (sib_node name instrument nested rest) path =
      let here = path ++ (name, 1) ∷ [] in
      let inside = search target nested here in
      let later = search target rest path in
      if gates instrument target then ok (some here) else or_else inside later
  search target (scan_mux_node name w arms rest) path =
      or_else (search_arms target name arms path) (search target rest path)

  search_arms : String → String → Arms → List (String × ℕ) → Search
  search_arms target name no_arms path = ok none
  search_arms target name (scan_arm [] instrument nested arms) path = err no_values
  search_arms target name (scan_arm (value ∷ values) instrument nested arms) path =
      let here = path ++ (name, value) ∷ [] in
      let inside = search target nested here in
      let later = search_arms target name arms path in
      if gates instrument target then ok (some here) else or_else inside later

abbrev path_or_error : Search → Result RetargetError (List (String × ℕ))
path_or_error (err e) = err e
path_or_error (ok none) = err no_path
path_or_error (ok (some path)) = ok path

unfoldable pub open_path_to : Chain → String → Result RetargetError (List (String × ℕ))
unfolding search
open_path_to chain instrument_name = path_or_error (search instrument_name chain [])

-- `_search_by_sib_name`, likewise.
unfoldable mutual
  pub search_by_sib_name : String → ℕ → Chain → List (String × ℕ) → Search
  search_by_sib_name target target_value end path = ok none
  search_by_sib_name target target_value (sib_node name instrument nested rest) path =
      let here = path ++ (name, 1) ∷ [] in
      let inside = search_by_sib_name target target_value nested here in
      let later = search_by_sib_name target target_value rest path in
      if same_name name target then ok (some here) else or_else inside later
  search_by_sib_name target target_value (scan_mux_node name w arms rest) path =
      let inside = search_arms_by_sib_name target target_value name arms path in
      let later = search_by_sib_name target target_value rest path in
      if same_name name target
      then ok (some (path ++ (name, target_value) ∷ []))
      else or_else inside later

  search_arms_by_sib_name : String → ℕ → String → Arms → List (String × ℕ) → Search
  search_arms_by_sib_name target target_value name no_arms path = ok none
  search_arms_by_sib_name target target_value name (scan_arm [] instrument nested arms) path =
      err no_values
  search_arms_by_sib_name target target_value name
        (scan_arm (value ∷ values) instrument nested arms) path =
      or_else (search_by_sib_name target target_value nested (path ++ (name, value) ∷ []))
        (search_arms_by_sib_name target target_value name arms path)

unfoldable pub path_to_sib_name : Chain → String → ℕ → Result RetargetError (List (String × ℕ))
unfolding search_by_sib_name
path_to_sib_name chain sib_name target_value =
    path_or_error (search_by_sib_name sib_name target_value chain [])

-- A dict from names to depths and values, in insertion order.
abbrev pub DepthMap : Type 0
DepthMap = List (String × ℕ × ℕ)

-- `depth_and_value_of[name] = (depth, value)`
unfoldable pub enter : String → ℕ → ℕ → DepthMap → DepthMap
enter name depth value [] = (name, depth, value) ∷ []
enter name depth value ((n, d, v) ∷ m) =
    let others = enter name depth value m in
    if same_name n name then (n, depth, value) ∷ m else (n, d, v) ∷ others

-- The loops over the paths, and over `enumerate(path, start=1)`.
unfoldable pub enter_path : ℕ → List (String × ℕ) → DepthMap → DepthMap
unfolding enter
enter_path depth [] m = m
enter_path depth ((name, value) ∷ path) m = enter_path (suc depth) path (enter name depth value m)

unfoldable pub enter_paths : List (List (String × ℕ)) → DepthMap → DepthMap
unfolding enter_path
enter_paths [] m = m
enter_paths (path ∷ paths) m = enter_paths paths (enter_path 1 path m)

unfoldable pub paths_to : Chain → OpenMap → Result RetargetError (List (List (String × ℕ)))
unfolding path_to_sib_name
paths_to chain [] = ok []
paths_to chain ((name, value) ∷ m) = do
  path ← path_to_sib_name chain name value
  paths ← paths_to chain m
  ok (path ∷ paths)

-- `max(depth for depth, _value in ...)`, of which there is at least one.
unfoldable pub max_depth : DepthMap → ℕ
max_depth [] = 0
max_depth ((name, depth, value) ∷ m) =
    let others = max_depth m in if ltb others depth then depth else others

-- `current_map.get(name) != value`
abbrev pub matches : OpenMap → String → ℕ → Bool
matches current name value = elim (get current name) [ none ↦ false | some v ↦ v == value ]

-- `min(mismatched_depths)`, or `none` when there are none.
unfoldable pub first_new_depth : OpenMap → DepthMap → Option ℕ
first_new_depth current [] = none
first_new_depth current ((name, depth, value) ∷ m) =
    let others = first_new_depth current m in
    if matches current name value
    then others
    else elim others [ none ↦ some depth | some d ↦ if ltb depth d then some depth else some d ]

-- The `open_after` of one round: the entries down to a depth.
unfoldable pub round_map : DepthMap → ℕ → OpenMap
round_map [] r = []
round_map ((name, depth, value) ∷ m) r =
    let others = round_map m r in if leb depth r then (name, value) ∷ others else others

unfoldable pub rounds : OpenMap → DepthMap → List OpenMap
unfolding max_depth first_new_depth round_map
rounds current m = elim (first_new_depth current m) [
  | none ↦ []
  | some first ↦ for_range first (suc (max_depth m) - first) (round_map m)
]

unfoldable pub stage_open_sequence : Chain → OpenSet → OpenSet → Result RetargetError (List OpenMap)
unfolding paths_to enter_paths rounds
stage_open_sequence chain target_open currently_open = elim (normalize_open target_open) [
  | [] ↦ ok ([] ∷ [])
  | (entry ∷ entries) ↦ (do
    paths ← paths_to chain (entry ∷ entries)
    ok (rounds (normalize_open currently_open) (enter_paths paths [])))
]
