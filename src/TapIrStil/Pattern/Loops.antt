-- ===== src/TapIrStil/Pattern/Loops.antt =====
-- What the statements of the pattern block play (src/warptap/tap_ir_stil.py).
use warptap.Base.{
  ℕ, zero, suc, ◌-◌, ◌<◌, ◌==◌, Bool, true, false, ◌&&◌, List, [], ◌∷◌, ◌++◌, map, Option, none,
  some, String, ok, ◌≡◌, refl, ap, subst, ◌∙◌, inl, inr, arith, replicate, ltb, Bool-cases,
  >>=-eq-ok, ok-injective,
}
use text.Mathlib.TextEquality.{eq_iff}
use warptap.TapFsm.{TapState, run_test_idle}
use warptap.TapIr.{IrOp, goto_state, shift_ir, shift_dr, runtest, pulse_pin, set_pins}
use warptap.TapIrPlay.{shift_cycles, navigation_tms}
use warptap.TapIrStil.{
  Cycle, Pins, shift_vectors, compare_at, walk_op, walk_from, walk_cycles, tms_cycle, drive_pins,
  lift_navigation,
}
use warptap.TapIrStil.Pattern.{
  Statement, use_table, vector, loop, Vector, vector_values, table_name, repeat_of, same_table,
  changes, repeat_lines, cycle_lines, pattern_from, pattern_lines,
}

-- The vectors that statements apply, each with the table in use, loops run out.
abbrev pub played : Option (Option String) → List Statement → List (Option (Option String) × Vector)
played current [] = []
played current (use_table table ∷ statements) = played (some table) statements
played current (vector v ∷ statements) = (current, v) ∷ played current statements
played current (loop repeat v ∷ statements) =
    replicate repeat (current, v) ++ played current statements

-- The vector of each cycle, as often as the cycle is repeated.
abbrev pub vectors_of : Pins → List String → List Cycle → List (Option (Option String) × Vector)
vectors_of pins signals [] = []
vectors_of pins signals (c ∷ cycles) =
    replicate (repeat_of c) (some (table_name c), vector_values pins signals c)
    ++ vectors_of pins signals cycles

-- After the table, the first statement is a vector.
abbrev pub OpensWithVector : List Statement → Type 0
OpensWithVector [] = Unit {0}
OpensWithVector (use_table table ∷ vector v ∷ statements) = Unit {0}
OpensWithVector statements = true ≡ false

abbrev Runs : List Cycle → Type 0
Runs [] = Unit {0}
Runs (c ∷ cycles) = (0 < repeat_of c) × Runs cycles

Runs-append : (xs ys : List Cycle) → Runs xs → Runs ys → Runs (xs ++ ys)
Runs-append [] ys h h' = h'
Runs-append (c ∷ xs) ys h h' = (h.0, Runs-append xs ys h.1 h')

shift_vectors-Runs :
    (static : List (String × ℕ)) (compare : ℕ → Option ℕ) (i : ℕ) (cycles : List (ℕ × ℕ))
    → Runs (shift_vectors static compare i cycles)
unfolding shift_vectors
shift_vectors-Runs static compare i [] = tt
shift_vectors-Runs static compare i ((tms, tdi) ∷ cycles) =
    (omega arith, shift_vectors-Runs static compare (suc i) cycles)

tms_cycles-Runs : (static : List (String × ℕ)) (nav : List ℕ) → Runs (map (tms_cycle static) nav)
tms_cycles-Runs static [] = tt
tms_cycles-Runs static (tms ∷ nav) = (omega arith, tms_cycles-Runs static nav)

played-repeat_lines :
    (current : Option (Option String)) (repeat : ℕ) (v : Vector) (statements : List Statement)
    → played current (repeat_lines repeat v ++ statements)
      ≡ replicate repeat (current, v) ++ played current statements
unfolding repeat_lines
played-repeat_lines current zero v statements = refl
played-repeat_lines current (suc zero) v statements = refl
played-repeat_lines current (suc (suc n)) v statements =
    let many : (suc (suc n) == 1) ≡ false = ground arith in rw many refl

played-cycle_lines :
    (current : Option (Option String)) (first : Bool) (repeat : ℕ) (v : Vector)
    (statements : List Statement)
    → played current (cycle_lines first repeat v ++ statements)
      ≡ replicate repeat (current, v) ++ played current statements
unfolding cycle_lines
played-cycle_lines current first zero v statements = played-repeat_lines current 0 v statements
played-cycle_lines current first (suc zero) v statements =
    played-repeat_lines current 1 v statements
played-cycle_lines current false (suc (suc n)) v statements =
    let off : (ltb 1 (suc (suc n)) && false) ≡ false = ground arith in
    rw off (played-repeat_lines current (suc (suc n)) v statements)
played-cycle_lines current true (suc (suc n)) v statements =
    let on : (ltb 1 (suc (suc n)) && true) ≡ true = ground arith in
    let less : suc (suc n) - 1 ≡ suc n = omega arith in
    rw (on, less)
      (ap (λ (r : List (Option (Option String) × Vector)). (current, v) ∷ r)
        (played-repeat_lines current (suc n) v statements))

walk_op-Runs :
    (pins : Pins) (s : TapState) (static : List (String × ℕ)) (op : IrOp) {s1 : TapState}
    {after : List (String × ℕ)} {vs : List Cycle}
    → walk_op pins s static op ≡ ok (s1, after, vs)
    → Runs vs
unfolding walk_op
walk_op-Runs pins s static (goto_state to) h =
    let (nav, found, done) = >>=-eq-ok (lift_navigation (navigation_tms s to)) _ h in
    subst (λ p. Runs p.2) (ok-injective done) (tms_cycles-Runs static nav)
walk_op-Runs pins s static (shift_ir bits tdi tdo mask) h =
    subst (λ p. Runs p.2) (ok-injective h)
      (shift_vectors-Runs static (compare_at bits tdo mask) 0 (shift_cycles bits tdi))
walk_op-Runs pins s static (shift_dr bits tdi tdo mask) h =
    subst (λ p. Runs p.2) (ok-injective h)
      (shift_vectors-Runs static (compare_at bits tdo mask) 0 (shift_cycles bits tdi))
walk_op-Runs pins s static (runtest zero r e) h = subst (λ p. Runs p.2) (ok-injective h) tt
walk_op-Runs pins s static (runtest (suc count) r e) h =
    let busy : ltb 0 (suc count) ≡ true = ground arith in
    subst (λ p. Runs p.2) (ok-injective (rw busy at h)) (omega arith, tt)
walk_op-Runs pins s static (pulse_pin port zero hold_pins) h =
    subst (λ p. Runs p.2) (ok-injective h) tt
walk_op-Runs pins s static (pulse_pin port (suc count) hold_pins) h =
    let busy : ltb 0 (suc count) ≡ true = ground arith in
    subst (λ p. Runs p.2) (ok-injective (rw busy at h)) (omega arith, tt)
walk_op-Runs pins s static (set_pins driven) h =
    let (set, found, done) = >>=-eq-ok (drive_pins pins.inputs static driven) _ h in
    subst (λ p. Runs p.2) (ok-injective done) tt

walk_from-Runs :
    (pins : Pins) (ops : List IrOp) (s : TapState) (static : List (String × ℕ)) {vs : List Cycle}
    → walk_from pins s static ops ≡ ok vs
    → Runs vs
unfolding walk_from
walk_from-Runs pins [] s static h = subst Runs (ok-injective h) tt
walk_from-Runs pins (op ∷ ops) s static h =
    let ((s1, after, vs1), first, later) = >>=-eq-ok (walk_op pins s static op) _ h in
    let (vs2, second, done) = >>=-eq-ok (walk_from pins s1 after ops) _ later in
    subst Runs (ok-injective done) (
      Runs-append vs1 vs2 (walk_op-Runs pins s static op first)
        (walk_from-Runs pins ops s1 after second))

cycle_lines-opens :
    (table : Option String) (repeat : ℕ) (v : Vector) (statements : List Statement)
    → 0 < repeat
    → OpensWithVector (use_table table ∷ cycle_lines true repeat v ++ statements)
unfolding cycle_lines repeat_lines
cycle_lines-opens table zero v statements h = absurd (omega arith)
cycle_lines-opens table (suc zero) v statements h = tt
cycle_lines-opens table (suc (suc n)) v statements h =
    let on : (ltb 1 (suc (suc n)) && true) ≡ true = ground arith in rw on tt

pattern_lines-opens :
    (pins : Pins) (signals : List String) (cycles : List Cycle)
    → Runs cycles
    → OpensWithVector (pattern_lines pins signals cycles)
unfolding pattern_lines pattern_from
pattern_lines-opens pins signals [] runs = tt
pattern_lines-opens pins signals (c ∷ cycles) runs =
    cycle_lines-opens (table_name c) (repeat_of c) (vector_values pins signals c)
      (pattern_from pins signals false (some (table_name c)) cycles) runs.0

same_table-eq : (a b : Option String) → same_table a b ≡ true → a ≡ b
same_table-eq none none h = refl
same_table-eq none (some b) h = absurd cc
same_table-eq (some a) none h = absurd cc
same_table-eq (some a) (some b) h = ap (λ (s : String). some s) ((eq_iff a b).0 h)

changes-eq :
    (current : Option (Option String)) (table : Option String)
    → changes current table ≡ false
    → current ≡ some table
changes-eq none table h = absurd cc
changes-eq (some current) table h = elim (Bool-cases (same_table current table)) [
  | inl same ↦ ap (λ (t : Option String). some t) (same_table-eq current table same)
  | inr other ↦ absurd (cc (rw other at h))
]

pattern_from-played :
    (pins : Pins) (signals : List String) (first : Bool) (current : Option (Option String))
    (cycles : List Cycle)
    → played current (pattern_from pins signals first current cycles)
      ≡ vectors_of pins signals cycles
unfolding pattern_from
pattern_from-played pins signals first current [] = refl
pattern_from-played pins signals first current (c ∷ cycles) =
    let table = table_name c in
    let v = vector_values pins signals c in
    let rest = pattern_from pins signals false (some table) cycles in
    let now : played (some table) (cycle_lines first (repeat_of c) v ++ rest)
        ≡ vectors_of pins signals (c ∷ cycles) =
      played-cycle_lines (some table) first (repeat_of c) v rest
      ∙ ap
          (λ (r : List (Option (Option String) × Vector)).
            replicate (repeat_of c) (some table, v) ++ r)
          (pattern_from-played pins signals false (some table) cycles) in
    elim (Bool-cases (changes current table)) [
      | inl new ↦ rw new now
      | inr kept ↦ rw kept (
          ap (λ t. played t (cycle_lines first (repeat_of c) v ++ rest))
            (changes-eq current table kept)
          ∙ now)
    ]

-- Of the cycles that the walk lists, the statements of the pattern, with their loops run out, apply
-- the vector of each under its own table, in order and as often as it is repeated, and the first
-- statement after the table is a vector, not a loop.
pub pattern_lines-played :
    (pins : Pins) (signals : List String) (ops : List IrOp) (vs : List Cycle)
    → walk_cycles pins ops ≡ ok vs
    → (played none (pattern_lines pins signals vs) ≡ vectors_of pins signals vs)
      × OpensWithVector (pattern_lines pins signals vs)
unfolding walk_cycles
pattern_lines-played pins signals ops vs h = (
  unfold pattern_lines in pattern_from-played pins signals true none vs,
  pattern_lines-opens pins signals vs (walk_from-Runs pins ops run_test_idle pins.inputs h),
)
