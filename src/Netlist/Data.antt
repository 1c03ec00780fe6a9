-- ===== src/Netlist/Data.antt =====
-- A module of a Yosys netlist (src/warptap/netlist.py).
use Prim.Native.Nat.{max}
use warptap.Base.{ℕ, suc, List, [], ◌∷◌, Option, none, some, String}
use warptap.Base.Exec.{Exec}

-- A net of the module, or a constant.
pub data Bit : Type 0 where
  net : ℕ → Bit
  constant : String → Bit

-- The values of parameters and attributes.
pub data Value : Type 0 where
  number : ℕ → Value
  text : String → Value

pub record Port : Type 0 where
  pub direction : String
  pub bits : List Bit

pub record Cell : Type 0 where
  pub hide_name : ℕ
  pub cell_type : String
  pub parameters : List (String × Value)
  pub attributes : List (String × Value)
  pub port_directions : List (String × String)
  pub connections : List (String × List Bit)

pub record Netname : Type 0 where
  pub hide_name : ℕ
  pub bits : List Bit
  pub attributes : List (String × Value)

-- `Module.data` with `_next_bit`
pub record Module : Type 0 where
  pub attributes : Option (List (String × Value))
  pub ports : Option (List (String × Port))
  pub cells : Option (List (String × Cell))
  pub netnames : Option (List (String × Netname))
  pub next_bit : ℕ

-- The ValueErrors and KeyErrors.
pub data NetlistError : Type 0 where
  name_exists : String → NetlistError
  no_such_name : String → NetlistError

abbrev pub Edit : Type 0 → Type 0
Edit A = Exec NetlistError Module A

-- `data.get(key, {})`
abbrev pub or_empty : {A : Type 0} → Option (List A) → List A
or_empty none = []
or_empty (some d) = d

-- One more than the greatest net of the bits and of what was seen before.
unfoldable pub above : ℕ → List Bit → ℕ
above n [] = n
above n (net b ∷ bits) = above (max n (suc b)) bits
above n (constant c ∷ bits) = above n bits

-- The same over the entries of a dictionary.
unfoldable pub above_each : {A : Type 0} → (ℕ → A → ℕ) → ℕ → List (String × A) → ℕ
above_each f n [] = n
above_each f n ((name, entry) ∷ d) = above_each f (f n entry) d

abbrev pub above_port : ℕ → Port → ℕ
above_port n port = above n port.bits

abbrev pub above_cell : ℕ → Cell → ℕ
above_cell n cell = above_each above n cell.connections

abbrev pub above_netname : ℕ → Netname → ℕ
above_netname n entry = above n entry.bits

-- `_scan_max_bit() + 1`
unfoldable pub scan_max_bit :
    Option (List (String × Port))
    → Option (List (String × Cell))
    → Option (List (String × Netname))
    → ℕ
scan_max_bit ports cells netnames =
    above_each above_netname
      (above_each above_cell (above_each above_port 0 (or_empty ports)) (or_empty cells))
      (or_empty netnames)

-- `Module(name, data)`
unfoldable pub new_module :
    Option (List (String × Value))
    → Option (List (String × Port))
    → Option (List (String × Cell))
    → Option (List (String × Netname))
    → Module
unfolding scan_max_bit
new_module attributes ports cells netnames = record {
  attributes = attributes;
  ports = ports;
  cells = cells;
  netnames = netnames;
  next_bit = scan_max_bit ports cells netnames;
}
