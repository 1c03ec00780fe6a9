-- ===== src/IclModel/Valid.antt =====
-- What a scan network that passes its check is like (src/warptap/icl_model.py).
use warptap.Base.{
  ℕ, ◌^◌, ◌≤◌, ◌<◌, ltb, ◌&&◌, not, Bool, true, false, List, [], ◌∷◌, ◌++◌, Option, String, ok,
  ◌>>=◌, raise_if, >>=-eq-ok, ok-injective, ◌≡◌, refl, sym, ap, subst, ◌∙◌, arith,
}
use warptap.IclModel.{
  InstrumentNode, Chain, end, sib_node, scan_mux_node, Arms, no_arms, scan_arm, is_empty,
  has_instrument, contains, name_in, IclModelError, arm_count, require_leaf_xor_nested,
  check_values, walk_slots, walk_arms, validate_physical_graph,
}

pub raised-not : {E : Type 0} (b : Bool) (e : E) {x : Unit {0}} → raise_if b e ≡ ok x → b ≡ false
raised-not true e h = cc
raised-not false e h = refl

at_least : (n k : ℕ) → ltb n k ≡ false → k ≤ n
at_least n k h = ground arith

-- An instrument or a nested network, and not both.
abbrev pub LeafXorNested : Option InstrumentNode → Chain → Type 0
LeafXorNested instrument nested = has_instrument instrument ≡ is_empty nested

require_leaf_xor_nested-LeafXorNested :
    (i : Option InstrumentNode) (nested : Chain) {x : Unit {0}}
    → require_leaf_xor_nested i nested ≡ ok x
    → LeafXorNested i nested
unfolding require_leaf_xor_nested
require_leaf_xor_nested-LeafXorNested i nested h = go (has_instrument i) (is_empty nested) h
  where
    go :
        (a b : Bool) {x : Unit {0}}
        → (raise_if (a && not b) IclModelError.both_populated >>= λ _.
            raise_if (not a && b) IclModelError.neither_populated)
          ≡ ok x
        → a ≡ b
    go true true h = refl
    go true false h = cc
    go false true h = cc
    go false false h = refl

-- All names of slots, each before those of what it gates.
abbrev mutual
  pub slot_names : Chain → List String
  slot_names end = []
  slot_names (sib_node name i nested rest) = name ∷ (slot_names nested ++ slot_names rest)
  slot_names (scan_mux_node name w arms rest) = name ∷ (arm_names arms ++ slot_names rest)

  pub arm_names : Arms → List String
  arm_names no_arms = []
  arm_names (scan_arm values i nested arms) = slot_names nested ++ arm_names arms

-- The names are different from one another and from those seen before.
abbrev pub NewNames : List String → List String → Type 0
NewNames [] seen = Unit
NewNames (n ∷ ns) seen = (name_in n seen ≡ false) × NewNames ns (n ∷ seen)

-- The names seen after those of a list.
abbrev seen_after : List String → List String → List String
seen_after [] seen = seen
seen_after (n ∷ ns) seen = seen_after ns (n ∷ seen)

-- What `validate_physical_graph` asks of each slot, and of the arms of a mux: each has one value, of
-- the range that the select bits have, that no earlier arm has.
abbrev mutual
  pub WellFormed : Chain → Type 0
  WellFormed end = Unit
  WellFormed (sib_node name i nested rest) =
      LeafXorNested i nested × WellFormed nested × WellFormed rest
  WellFormed (scan_mux_node name w arms rest) =
      (1 ≤ w) × (2 ≤ arm_count arms) × WellFormedArms arms (2 ^ w) [] × WellFormed rest

  pub WellFormedArms : Arms → ℕ → List ℕ → Type 0
  WellFormedArms no_arms limit claimed = Unit
  WellFormedArms (scan_arm [] i nested arms) limit claimed = false ≡ true
  WellFormedArms (scan_arm (v ∷ u ∷ vs) i nested arms) limit claimed = false ≡ true
  WellFormedArms (scan_arm (v ∷ []) i nested arms) limit claimed =
      (v < limit)
      × (contains claimed v ≡ false)
      × LeafXorNested i nested
      × WellFormed nested
      × WellFormedArms arms limit (v ∷ claimed)

append-NewNames :
    (xs ys seen : List String)
    → NewNames xs seen
    → NewNames ys (seen_after xs seen)
    → NewNames (xs ++ ys) seen
append-NewNames [] ys seen h h' = h'
append-NewNames (x ∷ xs) ys seen h h' = (h.0, append-NewNames xs ys (x ∷ seen) h.1 h')

seen_after-append :
    (xs ys seen : List String) → seen_after (xs ++ ys) seen ≡ seen_after ys (seen_after xs seen)
seen_after-append [] ys seen = refl
seen_after-append (x ∷ xs) ys seen = seen_after-append xs ys (x ∷ seen)

-- Two lists of names, one after the other.
both_names :
    (xs ys seen seen1 seen2 : List String)
    → (seen1 ≡ seen_after xs seen) × NewNames xs seen
    → (seen2 ≡ seen_after ys seen1) × NewNames ys seen1
    → (seen2 ≡ seen_after (xs ++ ys) seen) × NewNames (xs ++ ys) seen
both_names xs ys seen seen1 seen2 h h' = (
  h'.0 ∙ ap (seen_after ys) h.0 ∙ sym (seen_after-append xs ys seen),
  append-NewNames xs ys seen h.1 (subst (NewNames ys) h.0 h'.1),
)

one_value :
    (v limit : ℕ) (claimed claimed1 : List ℕ)
    → check_values (v ∷ []) limit claimed ≡ ok claimed1
    → (v < limit) × (contains claimed v ≡ false) × (v ∷ claimed ≡ claimed1)
unfolding check_values
one_value v limit claimed claimed1 h =
    let (x, first, later) =
      >>=-eq-ok (raise_if (not (ltb v limit)) IclModelError.value_out_of_range) _ h in
    let (y, second, last) =
      >>=-eq-ok (raise_if (contains claimed v) IclModelError.value_claimed_twice) _ later in
    let small = raised-not (not (ltb v limit)) IclModelError.value_out_of_range first in
    (
      ground arith,
      raised-not (contains claimed v) IclModelError.value_claimed_twice second,
      ok-injective last,
    )

mutual
  unfolding walk_slots check_values

  walk_slots-WellFormed :
      (chain : Chain) (seen seen' : List String)
      → walk_slots chain seen ≡ ok seen'
      → ((seen' ≡ seen_after (slot_names chain) seen) × NewNames (slot_names chain) seen)
        × WellFormed chain
  walk_slots-WellFormed end seen seen' h = ((sym (ok-injective h), tt), tt)
  walk_slots-WellFormed (sib_node name i nested rest) seen seen' h =
      let (x, first, later) =
        >>=-eq-ok (raise_if (name_in name seen) IclModelError.not_unique) _ h in
      let (y, second, later2) = >>=-eq-ok (require_leaf_xor_nested i nested) _ later in
      let (seen1, third, last) = >>=-eq-ok (walk_slots nested (name ∷ seen)) _ later2 in
      let (inner, formed) = walk_slots-WellFormed nested (name ∷ seen) seen1 third in
      let (others, formed') = walk_slots-WellFormed rest seen1 seen' last in
      let names =
        both_names (slot_names nested) (slot_names rest) (name ∷ seen) seen1 seen' inner others in
      (
        (names.0, (raised-not (name_in name seen) IclModelError.not_unique first, names.1)),
        (require_leaf_xor_nested-LeafXorNested i nested second, formed, formed'),
      )
  walk_slots-WellFormed (scan_mux_node name w arms rest) seen seen' h =
      let (x, first, later) =
        >>=-eq-ok (raise_if (name_in name seen) IclModelError.not_unique) _ h in
      let (y, second, later2) =
        >>=-eq-ok (raise_if (ltb w 1) IclModelError.bad_select_width) _ later in
      let (z, third, later3) =
        >>=-eq-ok (raise_if (ltb (arm_count arms) 2) IclModelError.too_few_arms) _ later2 in
      let (seen1, fourth, last) = >>=-eq-ok (walk_arms arms (2 ^ w) [] (name ∷ seen)) _ later3 in
      let (inner, formed) = walk_arms-WellFormed arms (2 ^ w) [] (name ∷ seen) seen1 fourth in
      let (others, formed') = walk_slots-WellFormed rest seen1 seen' last in
      let names =
        both_names (arm_names arms) (slot_names rest) (name ∷ seen) seen1 seen' inner others in
      let wide = raised-not (ltb w 1) IclModelError.bad_select_width second in
      let enough = raised-not (ltb (arm_count arms) 2) IclModelError.too_few_arms third in
      (
        (names.0, (raised-not (name_in name seen) IclModelError.not_unique first, names.1)),
        (at_least w 1 wide, at_least (arm_count arms) 2 enough, formed, formed'),
      )

  walk_arms-WellFormed :
      (arms : Arms) (limit : ℕ) (claimed : List ℕ) (seen seen' : List String)
      → walk_arms arms limit claimed seen ≡ ok seen'
      → ((seen' ≡ seen_after (arm_names arms) seen) × NewNames (arm_names arms) seen)
        × WellFormedArms arms limit claimed
  walk_arms-WellFormed no_arms limit claimed seen seen' h = ((sym (ok-injective h), tt), tt)
  walk_arms-WellFormed (scan_arm [] i nested arms) limit claimed seen seen' h = cc
  walk_arms-WellFormed (scan_arm (v ∷ u ∷ vs) i nested arms) limit claimed seen seen' h = cc
  walk_arms-WellFormed (scan_arm (v ∷ []) i nested arms) limit claimed seen seen' h =
      let (claimed1, first, later) = >>=-eq-ok (check_values (v ∷ []) limit claimed) _ h in
      let (y, second, later2) = >>=-eq-ok (require_leaf_xor_nested i nested) _ later in
      let (seen1, third, last) = >>=-eq-ok (walk_slots nested seen) _ later2 in
      let (small, new, grown) = one_value v limit claimed claimed1 first in
      let (inner, formed) = walk_slots-WellFormed nested seen seen1 third in
      let (others, formed') = walk_arms-WellFormed arms limit claimed1 seen1 seen' last in
      (
        both_names (slot_names nested) (arm_names arms) seen seen1 seen' inner others,
        (
          small,
          new,
          require_leaf_xor_nested-LeafXorNested i nested second,
          formed,
          subst (WellFormedArms arms limit) (sym grown) formed',
        ),
      )

-- A network that passes `validate_physical_graph` has no name twice at any depth; each SIB and each arm
-- gates an instrument or a nested network, and not both; each mux has a select bit and two arms; and
-- each arm has exactly one value, which the select bits can hold and no other arm of the mux has.
pub validate_physical_graph-WellFormed :
    (chain : Chain)
    → validate_physical_graph chain ≡ ok tt
    → NewNames (slot_names chain) [] × WellFormed chain
unfolding validate_physical_graph
validate_physical_graph-WellFormed chain h =
    let (seen, walked, last) = >>=-eq-ok (walk_slots chain []) _ h in
    let (names, formed) = walk_slots-WellFormed chain [] seen walked in (names.1, formed)
