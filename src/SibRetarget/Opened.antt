-- ===== src/SibRetarget/Opened.antt =====
-- What is asked for is open after the rounds (src/warptap/sib_retarget.py).
use text.Mathlib.TextEquality.{eq_iff}
use warptap.Base.{
  ℕ, suc, ◌-◌, true, List, [], ◌∷◌, String, same_name, ok, >>=-eq-ok, ok-injective, Bool-cases,
  length, ◌≡◌, refl, ap, sym, subst, ◌∙◌, inl, inr, arith,
}
use warptap.IclModel.{Chain, end, sib_node, scan_mux_node, Arms, no_arms, scan_arm}
use warptap.SibLayout.{OpenMap, OpenSet, values, normalize_open, is_open}
use warptap.SibRetarget.{
  DepthMap, enter_path, enter_paths, paths_to, matches, rounds, path_to_sib_name,
  stage_open_sequence, max_depth,
}
use warptap.SibRetarget.Paths.{HasValues}
use warptap.SibRetarget.SlotPaths.{LeadsToSlot, ArmsLeadToSlot, path_to_sib_name-LeadsToSlot}
use warptap.SibRetarget.Stages.{entries, AllMatch, last_round, last_of, rounds-lem}
use warptap.SibRetarget.Named.{recons, uncons, is_open-cons, enter_path-open, enter_paths-keeps}

mutual
  LeadsToSlot-named :
      (target : String) (value : ℕ) (chain : Chain) (p : List (String × ℕ))
      → LeadsToSlot target value chain p
      → is_open p target ≡ true
  LeadsToSlot-named target value end p h = absurd cc
  LeadsToSlot-named target value (sib_node name i nested rest) p (inl (e, same)) =
      rw same (recons name 1 [] target e)
  LeadsToSlot-named target value (sib_node name i nested rest) p (inr (inl (q, same, h))) =
      rw same (is_open-cons name 1 q target (LeadsToSlot-named target value nested q h))
  LeadsToSlot-named target value (sib_node name i nested rest) p (inr (inr h)) =
      LeadsToSlot-named target value rest p h
  LeadsToSlot-named target value (scan_mux_node name w arms rest) p (inl (e, same)) =
      rw same (recons name value [] target e)
  LeadsToSlot-named target value (scan_mux_node name w arms rest) p (inr (inl h)) =
      ArmsLeadToSlot-named target value name arms p h
  LeadsToSlot-named target value (scan_mux_node name w arms rest) p (inr (inr h)) =
      LeadsToSlot-named target value rest p h

  ArmsLeadToSlot-named :
      (target : String) (value : ℕ) (name : String) (arms : Arms) (p : List (String × ℕ))
      → ArmsLeadToSlot target value name arms p
      → is_open p target ≡ true
  ArmsLeadToSlot-named target value name no_arms p h = absurd cc
  ArmsLeadToSlot-named target value name (scan_arm [] i nested arms) p h = absurd cc
  ArmsLeadToSlot-named target value name (scan_arm (v ∷ vs) i nested arms) p (inl (q, same, h)) =
      rw same (is_open-cons name v q target (LeadsToSlot-named target value nested q h))
  ArmsLeadToSlot-named target value name (scan_arm (v ∷ vs) i nested arms) p (inr h) =
      ArmsLeadToSlot-named target value name arms p h

-- A path that is found to a slot names the slot.
path_to_sib_name-named :
    (chain : Chain) (name : String) (value : ℕ) (p : List (String × ℕ))
    → HasValues chain
    → path_to_sib_name chain name value ≡ ok p
    → is_open p name ≡ true
path_to_sib_name-named chain name value p h found =
    elim (path_to_sib_name-LeadsToSlot chain name value h) [
      | inl (q, e, leads) ↦
          subst (λ t. is_open t name ≡ true) (ok-injective (sym e ∙ found))
            (LeadsToSlot-named name value chain q leads)
      | inr (e, never) ↦ absurd (cc (sym e ∙ found))
    ]

paths_to-open :
    (chain : Chain) (m : OpenMap) (ps : List (List (String × ℕ))) (d : DepthMap) (n : String)
    → HasValues chain
    → paths_to chain m ≡ ok ps
    → is_open m n ≡ true
    → is_open (entries (enter_paths ps d)) n ≡ true
unfolding paths_to enter_paths
paths_to-open chain [] ps d n h found o = absurd cc
paths_to-open chain ((name, value) ∷ m) ps d n h found o =
    let (p, first, rest) = >>=-eq-ok (path_to_sib_name chain name value) _ found in
    let (ps', second, done) = >>=-eq-ok (paths_to chain m) _ rest in
    let later = paths_to-open chain m ps' (enter_path 1 p d) n h second in
    let both : is_open (entries (enter_paths (p ∷ ps') d)) n ≡ true =
      elim (uncons name value m n o) [
        | inl same ↦
            let here : is_open p n ≡ true =
              subst (λ t. is_open p t ≡ true) ((eq_iff name n).0 same)
                (path_to_sib_name-named chain name value p h first) in
            enter_paths-keeps ps' (enter_path 1 p d) n (enter_path-open 1 p d n here)
        | inr e ↦ later e
      ] in
    subst (λ t. is_open (entries (enter_paths t d)) n ≡ true) (ok-injective done) both

matches-open :
    (current : OpenMap) (name : String) (value : ℕ)
    → matches current name value ≡ true
    → is_open current name ≡ true
matches-open [] name value h = absurd cc
matches-open ((k, v) ∷ current) name value h = elim (Bool-cases (same_name k name)) [
  | inl same ↦ rw same refl
  | inr other ↦ rw other (matches-open current name value (rw (other, matches) at h))
]

AllMatch-open :
    (current : OpenMap) (m : DepthMap) (n : String)
    → AllMatch current m
    → is_open (entries m) n ≡ true
    → is_open current n ≡ true
AllMatch-open current [] n a h = absurd cc
AllMatch-open current ((name, depth, value) ∷ m) n a h = elim (uncons name value (entries m) n h) [
  | inl same ↦
      subst (λ t. is_open current t ≡ true) ((eq_iff name n).0 same)
        (matches-open current name value a.0)
  | inr e ↦ AllMatch-open current m n a.1 e
]

last_of-rounds :
    (now : OpenSet) (d : OpenMap) (rs : List OpenMap) (k : ℕ)
    → length rs ≡ suc k
    → last_of now rs ≡ values (last_round d rs)
last_of-rounds now d [] k h = absurd (omega arith)
last_of-rounds now d (r ∷ []) k h = refl
last_of-rounds now d (r ∷ r' ∷ rs) k h = last_of-rounds (values r) r (r' ∷ rs) (length rs) refl

rounds-open :
    (now : OpenSet) (m : DepthMap) (n : String)
    → is_open (entries m) n ≡ true
    → is_open (normalize_open (last_of now (rounds (normalize_open now) m))) n ≡ true
unfolding normalize_open
rounds-open now m n h = elim (rounds-lem (normalize_open now) m) [
  | inl (a, nothing) ↦
      subst (λ rs. is_open (normalize_open (last_of now rs)) n ≡ true) (sym nothing)
        (AllMatch-open (normalize_open now) m n a h)
  | inr (d, deep, below, new, long, each, last) ↦
      let all = rounds (normalize_open now) m in
      let end : last_of now all ≡ values (entries m) =
        last_of-rounds now [] all (max_depth m - d) long ∙ ap (λ t. values t) last in
      subst (λ o. is_open (normalize_open o) n ≡ true) (sym end) h
]

-- On a network in which every arm has a value, every name that is asked for is open after the rounds.
pub stage_open_sequence-open :
    (chain : Chain) (m : OpenMap) (now : OpenSet) (stages : List OpenMap) (n : String)
    → HasValues chain
    → stage_open_sequence chain (values m) now ≡ ok stages
    → is_open m n ≡ true
    → is_open (normalize_open (last_of now stages)) n ≡ true
unfolding stage_open_sequence normalize_open
stage_open_sequence-open chain [] now stages n h staged o = absurd cc
stage_open_sequence-open chain (entry ∷ m) now stages n h staged o =
    let (ps, found, done) = >>=-eq-ok (paths_to chain (entry ∷ m)) _ staged in
    subst (λ rs. is_open (normalize_open (last_of now rs)) n ≡ true) (ok-injective done)
      (rounds-open now (enter_paths ps []) n (paths_to-open chain (entry ∷ m) ps [] n h found o))
