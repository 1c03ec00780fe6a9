-- ===== src/Tests/Overshift.antt =====
-- Runs of the over-shift test (src/warptap/sib_overshift.py).
use warptap.Base.{
  ℕ, suc, ◌+◌, ◌<◌, List, [], ◌∷◌, ◌++◌, reverse, none, Result, ok, err, length, take, get_or, ◌≡◌,
  ◌≢◌, ◌⊎◌, refl,
}
use warptap.SibRetarget.{
  stage_open_sequence, paths_to, path_to_sib_name, search_by_sib_name, enter_paths, enter_path,
  enter, rounds, max_depth, first_new_depth, round_map,
}
use warptap.TapIr.{IrOp, for_range, bits_from_int}
use warptap.SibLayout.{
  OpenMap, OpenSet, names, normalize_open, layout_bit_length, compose_bits, walk_bits,
  leaf_content_bits,
}
use warptap.SibOvershift.{
  count, round_ops, scan, sentinel_or_default, build_overshift_ops, agree, diagnose_overshift,
}
use warptap.SibOvershift.Probe.{RoundScans, build_overshift_ops-probe}
use warptap.SibOvershift.Verdict.{diagnose_overshift-diverges_after}
use warptap.SibRetarget.Stages.{last_of}
use warptap.Tests.Network.{network}

abbrev expected : ℕ
expected = 5

abbrev observed : ℕ
observed = 13

abbrev width : ℕ
width = 4

diagnose_overshift-diverges_after_example :
    (expected ≢ observed)
    × (take 3 (bits_from_int expected width) ≡ take 3 (bits_from_int observed width))
    × ((suc 2 ≡ width)
        ⊎ ((3 < width)
            × (get_or (bits_from_int expected width) 3 0
                ≢ get_or (bits_from_int observed width) 3 0)))
unfolding diagnose_overshift agree bits_from_int
diagnose_overshift-diverges_after_example =
    diagnose_overshift-diverges_after width width expected observed 3 refl

abbrev ok_or_nil : {E : Type 0} → Result E (List IrOp) → List IrOp
ok_or_nil (ok ops) = ops
ok_or_nil (err e) = []

abbrev target : OpenSet
target = names ("c" ∷ [])

abbrev closed : OpenSet
closed = names []

abbrev built : List IrOp
built = ok_or_nil (build_overshift_ops network target closed (count 2) none)

build_overshift_ops-probe_example :
    (stages : List OpenMap) × (front : List IrOp) × (tail : List ℕ) × (tdi : ℕ)
    × (stage_open_sequence network target closed ≡ ok stages)
    × RoundScans network closed stages front
    × (compose_bits network (last_of closed stages) (last_of closed stages) none 0 ≡ ok tail)
    × (built ≡ front ++ scan (2 + length tail) tdi)
    × (bits_from_int tdi (2 + length tail)
        ≡ bits_from_int (sentinel_or_default none 2) 2 ++ reverse tail)
unfolding build_overshift_ops stage_open_sequence normalize_open paths_to path_to_sib_name
    search_by_sib_name enter_paths enter_path enter rounds max_depth first_new_depth round_map
    for_range round_ops layout_bit_length compose_bits walk_bits leaf_content_bits bits_from_int
build_overshift_ops-probe_example =
    build_overshift_ops-probe network target closed 2 none built refl
