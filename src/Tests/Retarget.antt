-- ===== src/Tests/Retarget.antt =====
-- Runs of the search for paths and of the staging (src/warptap/sib_retarget.py).
use warptap.Base.{ℕ, suc, ◌-◌, ◌≤◌, List, [], ◌∷◌, String, ok, err, ◌≡◌, refl, ◌⊎◌, length, take}
use warptap.TapIr.{for_range}
use warptap.SibLayout.{names}
use warptap.SibRetarget.{
  DepthMap, no_path, open_path_to, path_to_sib_name, search_by_sib_name, max_depth, rounds,
  stage_open_sequence,
}
use warptap.SibRetarget.Paths.{Leads, HasValues, open_path_to-Leads}
use warptap.SibRetarget.SlotPaths.{LeadsToSlot, path_to_sib_name-LeadsToSlot}
use warptap.SibRetarget.Stages.{
  AllMatch, MatchBelow, NewAt, Deepening, entries, last_round, rounds-lem,
}
use warptap.SibRetarget.OnePath.{stage_open_sequence-one}
use warptap.Tests.Network.{network}

abbrev pub network-HasValues : HasValues network
network-HasValues = (tt, ((tt, tt), ((tt, (tt, tt)), tt)))

open_path_to-Leads_example :
    ((p : List (String × ℕ)) × (open_path_to network "ic" ≡ ok p) × Leads "ic" network p)
    ⊎ ((open_path_to network "ic" ≡ err no_path)
        × ((p : List (String × ℕ)) → ¬ Leads "ic" network p))
open_path_to-Leads_example = open_path_to-Leads network "ic" network-HasValues

path_to_sib_name-LeadsToSlot_example :
    ((p : List (String × ℕ)) × (path_to_sib_name network "m" 2 ≡ ok p)
      × LeadsToSlot "m" 2 network p)
    ⊎ ((path_to_sib_name network "m" 2 ≡ err no_path)
        × ((p : List (String × ℕ)) → ¬ LeadsToSlot "m" 2 network p))
path_to_sib_name-LeadsToSlot_example = path_to_sib_name-LeadsToSlot network "m" 2 network-HasValues

abbrev depths : DepthMap
depths = ("b", 1, 1) ∷ ("c", 2, 1) ∷ []

rounds-lem_example :
    (AllMatch (("b", 1) ∷ []) depths × (rounds (("b", 1) ∷ []) depths ≡ []))
    ⊎ ((d : ℕ) × (d ≤ max_depth depths)
        × MatchBelow (("b", 1) ∷ []) d depths
        × NewAt (("b", 1) ∷ []) d depths
        × (length (rounds (("b", 1) ∷ []) depths) ≡ suc (max_depth depths - d))
        × Deepening d depths (rounds (("b", 1) ∷ []) depths)
        × (last_round [] (rounds (("b", 1) ∷ []) depths) ≡ entries depths))
rounds-lem_example = rounds-lem (("b", 1) ∷ []) depths

stage_open_sequence-one_example :
    stage_open_sequence network (names ("c" ∷ [])) (names [])
    ≡ ok (for_range 1 2 (λ r. take r (("b", 1) ∷ ("c", 1) ∷ [])))
unfolding path_to_sib_name search_by_sib_name
stage_open_sequence-one_example =
    stage_open_sequence-one network "c" ("b", 1) (("c", 1) ∷ []) refl (refl, (refl, tt))
