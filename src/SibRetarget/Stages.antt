-- ===== src/SibRetarget/Stages.antt =====
-- The rounds in which a set of slots is opened (src/warptap/sib_retarget.py).
use warptap.Base.{
  ℕ, zero, suc, ◌+◌, ◌-◌, ◌≤◌, ◌<◌, ltb, leb, if◌then◌else◌, Bool, true, false, List, [], ◌∷◌,
  Option, none, some, String, ◌≡◌, refl, ap, ◌∙◌, ◌⊎◌, inl, inr, arith, length,
}
use warptap.TapIr.{for_range}
use warptap.SibLayout.{OpenMap, OpenSet, values}
use warptap.SibModel.Load.{length-for_range}
use warptap.SibRetarget.{DepthMap, max_depth, matches, first_new_depth, round_map, rounds}

-- All entries of a dict of depths and values.
abbrev pub entries : DepthMap → OpenMap
entries [] = []
entries ((name, depth, value) ∷ m) = (name, value) ∷ entries m

-- The entries above a depth have their values already.
abbrev pub MatchBelow : OpenMap → ℕ → DepthMap → Type 0
MatchBelow current d [] = Unit
MatchBelow current d ((name, depth, value) ∷ m) =
    (depth < d → matches current name value ≡ true) × MatchBelow current d m

abbrev pub AllMatch : OpenMap → DepthMap → Type 0
AllMatch current [] = Unit
AllMatch current ((name, depth, value) ∷ m) =
    (matches current name value ≡ true) × AllMatch current m

abbrev pub last_round : OpenMap → List OpenMap → OpenMap
last_round d [] = d
last_round d (r ∷ rs) = last_round r rs

-- The set that is open after rounds.
abbrev pub last_of : OpenSet → List OpenMap → OpenSet
last_of now [] = now
last_of now (after ∷ later) = last_of (values after) later

-- Some entry at a depth has not its value.
abbrev pub NewAt : OpenMap → ℕ → DepthMap → Type 0
NewAt current d [] = false ≡ true
NewAt current d ((name, depth, value) ∷ m) =
    ((depth ≡ d) × (matches current name value ≡ false)) ⊎ NewAt current d m

-- The round has the entries down to a depth, in order, and no others.
abbrev pub Picked : ℕ → DepthMap → OpenMap → Type 0
Picked r [] round = round ≡ []
Picked r ((name, depth, value) ∷ m) round =
    ((depth ≤ r) × (later : OpenMap) × (round ≡ (name, value) ∷ later) × Picked r m later)
    ⊎ ((r < depth) × Picked r m round)

-- The rounds have the entries down to one depth, down to the next depth, and so on.
abbrev pub Deepening : ℕ → DepthMap → List OpenMap → Type 0
Deepening r m [] = Unit
Deepening r m (round ∷ later) = Picked r m round × Deepening (suc r) m later

round_map-Picked : (m : DepthMap) (r : ℕ) → Picked r m (round_map m r)
unfolding round_map
round_map-Picked [] r = refl
round_map-Picked ((name, depth, value) ∷ m) r = go (leb depth r) refl (round_map-Picked m r)
  where
    go :
        (b : Bool)
        → leb depth r ≡ b
        → Picked r m (round_map m r)
        → Picked r
            ((name, depth, value) ∷ m)
            (if b then (name, value) ∷ round_map m r else round_map m r)
    go true e h = inl (ground arith, round_map m r, refl, h)
    go false e h = inr (ground arith, h)

for_range-Deepening : (m : DepthMap) (s n : ℕ) → Deepening s m (for_range s n (round_map m))
unfolding for_range
for_range-Deepening m s zero = tt
for_range-Deepening m s (suc n) = (round_map-Picked m s, for_range-Deepening m (suc s) n)

all-MatchBelow :
    (current : OpenMap) (d : ℕ) (m : DepthMap) → AllMatch current m → MatchBelow current d m
all-MatchBelow current d [] h = tt
all-MatchBelow current d ((name, depth, value) ∷ m) h = (λ _. h.0, all-MatchBelow current d m h.1)

lower-MatchBelow :
    (current : OpenMap) (d e : ℕ) (m : DepthMap)
    → e ≤ d
    → MatchBelow current d m
    → MatchBelow current e m
lower-MatchBelow current d e [] le h = tt
lower-MatchBelow current d e ((name, depth, value) ∷ m) le h =
    (λ lt. h.0 (omega arith), lower-MatchBelow current d e m le h.1)

-- What `first_new_depth` returns.
abbrev First : OpenMap → DepthMap → Option ℕ → Type 0
First current m none = AllMatch current m
First current m (some d) = (d ≤ max_depth m) × MatchBelow current d m × NewAt current d m

step-First :
    (current : OpenMap) (name : String) (depth value : ℕ) (m : DepthMap) (b : Bool)
    (others : Option ℕ)
    → matches current name value ≡ b
    → First current m others
    → First current ((name, depth, value) ∷ m) (
        if b then others else elim others [
          | none ↦ some depth
          | some d ↦ if ltb depth d then some depth else some d
        ])
unfolding max_depth
step-First current name depth value m true none e h = (e, h)
step-First current name depth value m true (some d) e h = (deeper, ((λ _. e), h.1), inr h.2)
  where
    deeper : d ≤ max_depth ((name, depth, value) ∷ m)
    deeper = ground (arith, h.0)
step-First current name depth value m false none e h =
    (deeper, ((λ lt. absurd (omega arith)), all-MatchBelow current depth m h), inl (refl, e))
  where
    deeper : depth ≤ max_depth ((name, depth, value) ∷ m)
    deeper = ground arith
step-First current name depth value m false (some d) e h = pick (ltb depth d) refl
  where
    deeper : (k : ℕ) → (k ≤ depth) ⊎ (k ≤ max_depth m) → k ≤ max_depth ((name, depth, value) ∷ m)
    deeper k h = ground arith

    pick :
        (c : Bool)
        → ltb depth d ≡ c
        → First current ((name, depth, value) ∷ m) (if c then some depth else some d)
    pick true lt = (
      deeper depth (inl (omega arith)),
      ((λ less. absurd (omega arith)), lower-MatchBelow current d depth m (ground arith) h.1),
      inl (refl, e),
    )
    pick false ge = (deeper d (inr h.0), ((λ less. absurd (ground arith)), h.1), inr h.2)

first_new_depth-First :
    (current : OpenMap) (m : DepthMap) → First current m (first_new_depth current m)
unfolding first_new_depth
first_new_depth-First current [] = tt
first_new_depth-First current ((name, depth, value) ∷ m) =
    step-First current name depth value m (matches current name value) (first_new_depth current m)
      refl (first_new_depth-First current m)

-- A round at the greatest depth or below has all entries.
round_map_full : (m : DepthMap) (r : ℕ) → max_depth m ≤ r → round_map m r ≡ entries m
unfolding round_map max_depth
round_map_full [] r h = refl
round_map_full ((name, depth, value) ∷ m) r h =
    shown (leb depth r) (ground arith)
    ∙ ap (λ (t : OpenMap). (name, value) ∷ t) (round_map_full m r (ground arith))
  where
    shown :
        (b : Bool)
        → b ≡ true
        → (if b then (name, value) ∷ round_map m r else round_map m r)
          ≡ (name, value) ∷ round_map m r
    shown true e = refl
    shown false e = cc

last-for_range :
    (s n : ℕ) (f : ℕ → OpenMap) (d : OpenMap) → last_round d (for_range s (suc n) f) ≡ f (s + n)
unfolding for_range
last-for_range s zero f d = ap f (omega arith)
last-for_range s (suc n) f d = last-for_range (suc s) n f (f s) ∙ ap f (omega arith)

abbrev StartsAt : OpenMap → DepthMap → List OpenMap → Type 0
StartsAt current m all =
    (d : ℕ) × (d ≤ max_depth m)
    × MatchBelow current d m
    × NewAt current d m
    × (length all ≡ suc (max_depth m - d))
    × Deepening d m all
    × (last_round [] all ≡ entries m)

-- Either every entry has its value already and there is no round, or there are rounds from a depth on:
-- an entry at this depth has not its value yet, and what is less deep has. There is one round for each
-- depth from there to the greatest one; it has the entries down to its depth, in order, and no others.
-- So the last round has all entries.
pub rounds-lem :
    (current : OpenMap) (m : DepthMap)
    → (AllMatch current m × (rounds current m ≡ []))
      ⊎ ((d : ℕ) × (d ≤ max_depth m)
          × MatchBelow current d m
          × NewAt current d m
          × (length (rounds current m) ≡ suc (max_depth m - d))
          × Deepening d m (rounds current m)
          × (last_round [] (rounds current m) ≡ entries m))
unfolding rounds
rounds-lem current m = go (first_new_depth current m) (first_new_depth-First current m)
  where
    listed : Option ℕ → List OpenMap
    listed none = []
    listed (some first) = for_range first (suc (max_depth m) - first) (round_map m)

    go :
        (o : Option ℕ)
        → First current m o
        → (AllMatch current m × (listed o ≡ [])) ⊎ StartsAt current m (listed o)
    go none h = inl (h, refl)
    go (some d) h =
        let count : suc (max_depth m) - d ≡ suc (max_depth m - d) = omega (arith, h.0) in
        inr (
          d,
          h.0,
          h.1,
          h.2,
          length-for_range d (suc (max_depth m) - d) (round_map m) ∙ count,
          for_range-Deepening m d (suc (max_depth m) - d),
          ap (λ (n : ℕ). last_round [] (for_range d n (round_map m))) count
              ∙ last-for_range d (max_depth m - d) (round_map m) []
              ∙ round_map_full m (d + (max_depth m - d)) (omega (arith, h.0)),
        )
