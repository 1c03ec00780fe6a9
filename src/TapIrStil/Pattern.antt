-- ===== src/TapIrStil/Pattern.antt =====
-- The statements of the pattern block, before they are written as text
-- (src/warptap/tap_ir_stil.py).
pub mod Loops
use warptap.Base.{
  ℕ, ◌-◌, ◌==◌, Bool, true, false, not, ◌&&◌, List, [], ◌∷◌, ◌++◌, map, Option, none, some, String,
  ltb, truthy, same_name, if◌then◌else◌,
}
use warptap.Base.Dicts.{lookup, assign}
use warptap.TapIrStil.{Cycle, jtag, pulse, JtagCycle, PulseCycle, Pins, has_name}

-- The characters `0` and `1`, `P`, `X`, `H` and `L`.
pub data Wave : Type 0 where
  level : ℕ → Wave
  held : Wave
  unknown : Wave
  high : Wave
  low : Wave

abbrev pub Vector : Type 0
Vector = List (String × Wave)

-- The waveform table is that of the JTAG cycles (`none`) or of the pulses of a port.
pub data Statement : Type 0 where
  use_table : Option String → Statement
  vector : Vector → Statement
  loop : ℕ → Vector → Statement

abbrev pub tdo_char : Option ℕ → Wave
tdo_char none = unknown
tdo_char (some bit) = if truthy bit then high else low

abbrev pub level_or_held : Option ℕ → Wave
level_or_held (some value) = level value
level_or_held none = held

unfoldable pub jtag_value : Pins → List (String × ℕ) → String → String × Wave
jtag_value pins static sig =
    (sig, if has_name sig pins.outputs then unknown else level_or_held (lookup static sig))

-- `dict(pairs)`: of a key that comes twice, the last value stays.
abbrev pub dict_of : List (String × ℕ) → List (String × ℕ) → List (String × ℕ)
dict_of d [] = d
dict_of d ((name, value) ∷ pairs) = dict_of (assign d name value) pairs

abbrev pub held_value : Option ℕ → Option ℕ → Wave
held_value (some value) declared = level value
held_value none declared = level_or_held declared

unfoldable pub pulse_value : Pins → PulseCycle → String → String × Wave
pulse_value pins c sig = (
  sig,
  if same_name c.port sig
      then level 1
      else if has_name sig pins.outputs
      then unknown
      else held_value (lookup (dict_of [] c.hold_pins) sig) (lookup c.static sig),
)

-- The values of a vector. The list of signals begins with the four of the TAP; the other ones are
-- given.
unfoldable pub vector_values : Pins → List String → Cycle → Vector
unfolding jtag_value pulse_value
vector_values pins signals (jtag c) =
    ("tck", level 1)
    ∷ ("tms", level c.tms)
    ∷ ("tdi", level c.tdi)
    ∷ ("tdo", tdo_char c.tdo_compare)
    ∷ map (jtag_value pins c.static) signals
vector_values pins signals (pulse c) =
    ("tck", held)
    ∷ ("tms", held)
    ∷ ("tdi", held)
    ∷ ("tdo", unknown)
    ∷ map (pulse_value pins c) signals

unfoldable pub table_name : Cycle → Option String
table_name (jtag c) = none
table_name (pulse c) = some c.port

abbrev pub repeat_of : Cycle → ℕ
repeat_of (jtag c) = c.repeat
repeat_of (pulse c) = c.repeat

abbrev pub same_table : Option String → Option String → Bool
same_table none none = true
same_table none (some b) = false
same_table (some a) none = false
same_table (some a) (some b) = same_name a b

-- `current_wft != table_name`, where no table is in use at first
abbrev pub changes : Option (Option String) → Option String → Bool
changes none table = true
changes (some current) table = not (same_table current table)

unfoldable pub repeat_lines : ℕ → Vector → List Statement
repeat_lines repeat v = if repeat == 1 then vector v ∷ [] else loop repeat v ∷ []

-- A loop does not open the pattern: its first cycle is a vector of its own.
unfoldable pub cycle_lines : Bool → ℕ → Vector → List Statement
unfolding repeat_lines
cycle_lines first repeat v =
    if ltb 1 repeat && first then vector v ∷ repeat_lines (repeat - 1) v else repeat_lines repeat v

unfoldable pub pattern_from :
    Pins → List String → Bool → Option (Option String) → List Cycle → List Statement
unfolding vector_values table_name cycle_lines
pattern_from pins signals first current [] = []
pattern_from pins signals first current (c ∷ cycles) =
    let table = table_name c in
    (if changes current table then use_table table ∷ [] else [])
    ++ cycle_lines first (repeat_of c) (vector_values pins signals c)
    ++ pattern_from pins signals false (some table) cycles

unfoldable pub pattern_lines : Pins → List String → List Cycle → List Statement
unfolding pattern_from
pattern_lines pins signals cycles = pattern_from pins signals true none cycles
