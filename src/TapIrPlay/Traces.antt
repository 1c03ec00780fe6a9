-- ===== src/TapIrPlay/Traces.antt =====
-- Lists of cycles and the traces they leave (src/warptap/tap_ir_play.py).
use warptap.Base.{
  ℕ, zero, suc, ◌-◌, ◌<◌, List, [], ◌∷◌, ◌++◌, map, ◌≡◌, refl, ap, ap₂, sym, ◌∙◌, arith, ok,
  replicate, length, take, drop, >>=-eq-ok, length-append, length-replicate, map-append,
  ok-injective,
}
use warptap.TapFsm.{TapState}
use warptap.TapIr.{IrOp, bits_to_int, bits_from_int}
use warptap.TapIr.Packing.{length-bits_from_int}
use warptap.TapIrPlay.{
  shift_tms, with_tdi_0, zip, shift_cycles, cycles_op, cycles_from, ranges_op, ranges_from,
}

abbrev pub tms_of : ℕ × ℕ → ℕ
tms_of c = c.0

-- An operation that shifts has at least one bit.
abbrev pub Shifts : IrOp → Type 0
Shifts (IrOp.shift_ir bits tdi tdo mask) = 0 < bits
Shifts (IrOp.shift_dr bits tdi tdo mask) = 0 < bits
Shifts _ = Unit

abbrev pub AllShift : List IrOp → Type 0
AllShift [] = Unit {0}
AllShift (op ∷ ops) = Shifts op × AllShift ops

-- The integer that a range of a trace of TDO values packs to.
unfoldable pub observe : List ℕ → ℕ × ℕ → ℕ
observe trace (start, bits) = bits_to_int (take bits (drop start trace))

take-drop_middle :
    (pre mid post : List ℕ) → take (length mid) (drop (length pre) (pre ++ mid ++ post)) ≡ mid
take-drop_middle [] [] post = refl
take-drop_middle [] (x ∷ mid) post = ap (λ (t : List ℕ). x ∷ t) (take-drop_middle [] mid post)
take-drop_middle (p ∷ pre) mid post = take-drop_middle pre mid post

pub observe_middle :
    (bits : ℕ) (pre out post : List ℕ)
    → length out ≡ bits
    → observe (pre ++ out ++ post) (length pre, bits) ≡ bits_to_int out
unfolding observe
observe_middle bits pre out post h = rw (← h) (ap bits_to_int (take-drop_middle pre out post))

zip-tms :
    (ts bs : List ℕ)
    → length ts ≡ length bs
    → (map tms_of (zip ts bs) ≡ ts) × (length (zip ts bs) ≡ length bs)
unfolding zip
zip-tms [] [] h = (refl, refl)
zip-tms [] (b ∷ bs) h = absurd (omega arith)
zip-tms (t ∷ ts) [] h = absurd (omega arith)
zip-tms (t ∷ ts) (b ∷ bs) h =
    let (same, long) = zip-tms ts bs (omega arith) in (ap (λ (r : List ℕ). t ∷ r) same, ap suc long)

length-shift_tms : (bits : ℕ) → 0 < bits → length (shift_tms bits) ≡ bits
unfolding shift_tms
length-shift_tms bits h = omega (
  arith,
  length-append {A = ℕ} (replicate (bits - 1) 0) (1 ∷ []),
  length-replicate {A = ℕ} (bits - 1) 0,
)

pub shift_cycles-tms :
    (bits tdi : ℕ)
    → 0 < bits
    → (map tms_of (shift_cycles bits tdi) ≡ shift_tms bits)
      × (length (shift_cycles bits tdi) ≡ bits)
unfolding shift_cycles
shift_cycles-tms bits tdi h =
    let (same, long) =
      zip-tms (shift_tms bits) (bits_from_int tdi bits)
        (length-shift_tms bits h ∙ sym (length-bits_from_int tdi bits)) in
    (same, long ∙ length-bits_from_int tdi bits)

pub goto-tms : (nav : List ℕ) → (map tms_of (map with_tdi_0 nav) ≡ nav)
goto-tms [] = refl
goto-tms (t ∷ nav) = ap (λ (r : List ℕ). t ∷ r) (goto-tms nav)

pub runtest-tms : (n : ℕ) → (map tms_of (replicate n (0, 0)) ≡ replicate n 0)
runtest-tms zero = refl
runtest-tms (suc n) = ap (λ (r : List ℕ). 0 ∷ r) (runtest-tms n)

pub map_glue :
    (f : ℕ × ℕ → ℕ) (xs ys : List (ℕ × ℕ)) {us vs : List ℕ}
    → us ≡ map f xs
    → vs ≡ map f ys
    → us ++ vs ≡ map f (xs ++ ys)
map_glue f xs ys p q = rw map-append (ap₂ (λ a b. a ++ b) p q)

pub cycles_from-cons :
    (op : IrOp) (ops : List IrOp) (s : TapState) {cs : List (ℕ × ℕ)}
    → cycles_from s (op ∷ ops) ≡ ok cs
    → (s1 : TapState) × (cs1 : List (ℕ × ℕ)) × (cs2 : List (ℕ × ℕ)) × (cycles_op op s
        ≡ ok (s1, cs1))
      × (cycles_from s1 ops ≡ ok cs2)
      × (cs1 ++ cs2 ≡ cs)
unfolding cycles_from
cycles_from-cons op ops s h =
    let ((s1, cs1), first, later) = >>=-eq-ok (cycles_op op s) _ h in
    let (cs2, second, done) = >>=-eq-ok (cycles_from s1 ops) _ later in
    (s1, cs1, cs2, first, second, ok-injective done)

pub ranges_from-ok :
    (op : IrOp) (ops : List IrOp) (s : TapState) (index : ℕ) {s1 : TapState} {index1 : ℕ}
    {here rest : List (ℕ × ℕ)}
    → ranges_op op s index ≡ ok (s1, index1, here)
    → ranges_from s1 index1 ops ≡ ok rest
    → ranges_from s index (op ∷ ops) ≡ ok (here ++ rest)
unfolding ranges_from
ranges_from-ok op ops s index first later = rw (first, later)
