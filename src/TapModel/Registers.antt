-- ===== src/TapModel/Registers.antt =====
-- The data-register protocol and the two built-in registers (src/warptap/tap_model.py).
use Prim.Native.Nat.{bit_or}
use warptap.Base.{ℕ, ◌-◌, ◌*◌, ◌/◌, ◌%◌, ◌^◌}

-- `DataRegister`: each method as a function of the object's state; `shift` returns TDO too.
pub record DataRegister (R : Type 0) : Type 0 where
  pub capture : R → R
  pub shift : R → ℕ → R × ℕ
  pub update : R → R

-- `(reg >> 1) | ((tdi & 1) << (width - 1))`, for a width of at least 1.
unfoldable pub shift_in : ℕ → ℕ → ℕ → ℕ
shift_in width reg tdi = bit_or (reg / 2) (tdi % 2 * 2 ^ (width - 1))

pub record BypassRegister : Type 0 where
  pub bit : ℕ

unfoldable pub new_bypass : BypassRegister
new_bypass = record { bit = 0 }

unfoldable pub reset_bypass : BypassRegister → BypassRegister
reset_bypass r = record r { bit = 0 }

-- The methods of `BypassRegister`.
unfoldable pub bypass_methods : DataRegister BypassRegister
bypass_methods = record {
  capture = λ r. record r { bit = 0 };
  shift = λ r tdi. (record r { bit = tdi % 2 }, r.bit);
  update = λ r. r;
}

pub record IdcodeRegister : Type 0 where
  pub width : ℕ
  pub value : ℕ
  pub shreg : ℕ

-- `IdcodeRegister(value)`, at the default width.
unfoldable pub new_idcode : ℕ → IdcodeRegister
new_idcode value = record { width = 32; value = value; shreg = 0 }

unfoldable pub reset_idcode : IdcodeRegister → IdcodeRegister
reset_idcode r = record r { shreg = 0 }

-- The methods of `IdcodeRegister`.
unfoldable pub idcode_methods : DataRegister IdcodeRegister
unfolding shift_in
idcode_methods = record {
  capture = λ r. record r { shreg = r.value };
  shift = λ r tdi. (record r { shreg = shift_in r.width r.shreg tdi }, r.shreg % 2);
  update = λ r. r;
}
