-- ===== src/IclModel/OneHot.antt =====
-- Address-decoded register files and their check (src/warptap/icl_model.py).
pub mod Accepted
use warptap.Base.{
  ℕ, zero, suc, ◌^◌, ltb, Bool, true, false, not, ◌&&◌, ◌||◌, List, [], ◌∷◌, Option, none, some,
  String, Result, ok, err, ◌>>=◌, ◌>>◌, raise_if,
}
use warptap.IclModel.{SignalBinding, contains, name_in}

-- An int: a number, or -(n + 1).
pub data Address : Type 0 where
  address negative : ℕ → Address

pub record OneHotDataRegister : Type 0 where
  pub name : String
  pub location : Address  -- the field `address`
  pub width : ℕ
  pub reset_value : Option ℕ
  pub write_signal_bits : List SignalBinding
  pub read_signal_bits : List SignalBinding

pub record OneHotDataGroup : Type 0 where
  pub name : String
  pub address_width : ℕ
  pub data_width : ℕ
  pub registers : List OneHotDataRegister
  pub writable : Bool
  pub readable : Bool

-- What `OneHotDataGroupError` says.
pub data OneHotDataGroupError : Type 0 where
  no_registers unusable_bus same_name_twice address_out_of_range same_address_twice too_wide
        not_writable not_readable :
      OneHotDataGroupError

abbrev pub is_nil : {A : Type 0} → List A → Bool
is_nil [] = true
is_nil (x ∷ xs) = false

-- `0 <= address < limit`
unfoldable pub check_address : Address → ℕ → Result OneHotDataGroupError ℕ
check_address (negative n) limit = err address_out_of_range
check_address (address a) limit = do raise_if (not (ltb a limit)) address_out_of_range; ok a

-- The loop over the registers, with the names and addresses seen so far.
unfoldable pub check_registers :
    OneHotDataGroup
    → List OneHotDataRegister
    → List String
    → List ℕ
    → Result OneHotDataGroupError (Unit {0})
unfolding check_address
check_registers group [] names addresses = ok tt
check_registers group (reg ∷ regs) names addresses = do
  raise_if (name_in reg.name names) same_name_twice
  a ← check_address reg.location (2 ^ group.address_width)
  raise_if (contains addresses a) same_address_twice
  raise_if (ltb group.data_width reg.width) too_wide
  raise_if (not (is_nil reg.write_signal_bits) && not group.writable) not_writable
  raise_if (not (is_nil reg.read_signal_bits) && not group.readable) not_readable
  check_registers group regs (reg.name ∷ names) (a ∷ addresses)

unfoldable pub validate_one_hot_data_group :
    OneHotDataGroup → Result OneHotDataGroupError (Unit {0})
unfolding check_registers
validate_one_hot_data_group group = do
  raise_if (is_nil group.registers) no_registers
  raise_if (not (group.writable || group.readable)) unusable_bus
  check_registers group group.registers [] []
