-- ===== src/SibRetarget/Named.antt =====
-- The names of a map of open slots (src/warptap/sib_retarget.py).
use text.Mathlib.TextEquality.{eq_iff}
use warptap.Base.{
  ℕ, suc, true, List, [], ◌∷◌, String, same_name, Bool-cases, ◌≡◌, refl, ◌∙◌, ◌⊎◌, inl, inr,
}
use warptap.Base.Dicts.{assign}
use warptap.SibLayout.{OpenMap, is_open}
use warptap.SibRetarget.{DepthMap, enter, enter_path, enter_paths}
use warptap.SibRetarget.Stages.{entries}

pub same_name_refl : (n : String) → same_name n n ≡ true
same_name_refl n = (eq_iff n n).1 refl

-- A map with one more entry in front.
pub is_open-cons :
    (k : String) (v : ℕ) (m : OpenMap) (n : String)
    → is_open m n ≡ true
    → is_open ((k, v) ∷ m) n ≡ true
is_open-cons k v m n h = elim (Bool-cases (same_name k n)) [
  | inl same ↦ rw same refl
  | inr other ↦ rw other h
]

-- A name of the map is its first one or one of the rest.
pub uncons :
    (k : String) (v : ℕ) (m : OpenMap) (n : String)
    → is_open ((k, v) ∷ m) n ≡ true
    → (same_name k n ≡ true) ⊎ (is_open m n ≡ true)
uncons k v m n h = elim (Bool-cases (same_name k n)) [
  | inl same ↦ inl same
  | inr other ↦ inr (rw other at h)
]

pub recons :
    (k : String) (v : ℕ) (m : OpenMap) (n : String)
    → same_name k n ≡ true
    → is_open ((k, v) ∷ m) n ≡ true
recons k v m n same = rw same refl

enter-keeps :
    (k : String) (d v : ℕ) (m : DepthMap) (n : String)
    → is_open (entries m) n ≡ true
    → is_open (entries (enter k d v m)) n ≡ true
unfolding enter
enter-keeps k d v [] n h = absurd cc
enter-keeps k d v ((name, d', v') ∷ m) n h =
    let later = enter-keeps k d v m n in
    elim (Bool-cases (same_name name k)) [
      | inl same ↦ rw same (elim (uncons name v' (entries m) n h) [
        | inl e ↦ recons name v (entries m) n e
        | inr e ↦ is_open-cons name v (entries m) n e
      ])
      | inr other ↦ rw other (elim (uncons name v' (entries m) n h) [
        | inl e ↦ recons name v' (entries (enter k d v m)) n e
        | inr e ↦ is_open-cons name v' (entries (enter k d v m)) n (later e)
      ])
    ]

enter-open :
    (k : String) (d v : ℕ) (m : DepthMap) (n : String)
    → same_name k n ≡ true
    → is_open (entries (enter k d v m)) n ≡ true
unfolding enter
enter-open k d v [] n e = recons k v [] n e
enter-open k d v ((name, d', v') ∷ m) n e =
    let later = enter-open k d v m n e in
    elim (Bool-cases (same_name name k)) [
      | inl same ↦
          let name_n : same_name name n ≡ true =
            (eq_iff name n).1 ((eq_iff name k).0 same ∙ (eq_iff k n).0 e) in
          rw same (recons name v (entries m) n name_n)
      | inr other ↦ rw other (is_open-cons name v' (entries (enter k d v m)) n later)
    ]

pub enter_path-keeps :
    (d : ℕ) (p : List (String × ℕ)) (m : DepthMap) (n : String)
    → is_open (entries m) n ≡ true
    → is_open (entries (enter_path d p m)) n ≡ true
unfolding enter_path
enter_path-keeps d [] m n h = h
enter_path-keeps d ((k, v) ∷ p) m n h =
    enter_path-keeps (suc d) p (enter k d v m) n (enter-keeps k d v m n h)

pub enter_path-open :
    (d : ℕ) (p : List (String × ℕ)) (m : DepthMap) (n : String)
    → is_open p n ≡ true
    → is_open (entries (enter_path d p m)) n ≡ true
unfolding enter_path
enter_path-open d [] m n h = absurd cc
enter_path-open d ((k, v) ∷ p) m n h = elim (uncons k v p n h) [
  | inl e ↦ enter_path-keeps (suc d) p (enter k d v m) n (enter-open k d v m n e)
  | inr e ↦ enter_path-open (suc d) p (enter k d v m) n e
]

pub enter_paths-keeps :
    (ps : List (List (String × ℕ))) (m : DepthMap) (n : String)
    → is_open (entries m) n ≡ true
    → is_open (entries (enter_paths ps m)) n ≡ true
unfolding enter_paths
enter_paths-keeps [] m n h = h
enter_paths-keeps (p ∷ ps) m n h =
    enter_paths-keeps ps (enter_path 1 p m) n (enter_path-keeps 1 p m n h)

pub assign-keeps :
    (m : OpenMap) (k : String) (v : ℕ) (n : String)
    → is_open m n ≡ true
    → is_open (assign m k v) n ≡ true
assign-keeps [] k v n h = absurd cc
assign-keeps ((name, v') ∷ m) k v n h =
    let later = assign-keeps m k v n in
    elim (Bool-cases (same_name name k)) [
      | inl same ↦ rw same (elim (uncons name v' m n h) [
        | inl e ↦ recons name v m n e
        | inr e ↦ is_open-cons name v m n e
      ])
      | inr other ↦ rw other (elim (uncons name v' m n h) [
        | inl e ↦ recons name v' (assign m k v) n e
        | inr e ↦ is_open-cons name v' (assign m k v) n (later e)
      ])
    ]

pub assign-open :
    (m : OpenMap) (k : String) (v : ℕ) (n : String)
    → same_name k n ≡ true
    → is_open (assign m k v) n ≡ true
assign-open [] k v n e = recons k v [] n e
assign-open ((name, v') ∷ m) k v n e =
    let later = assign-open m k v n e in
    elim (Bool-cases (same_name name k)) [
      | inl same ↦
          let name_n : same_name name n ≡ true =
            (eq_iff name n).1 ((eq_iff name k).0 same ∙ (eq_iff k n).0 e) in
          rw same (recons name v m n name_n)
      | inr other ↦ rw other (is_open-cons name v' (assign m k v) n later)
    ]
