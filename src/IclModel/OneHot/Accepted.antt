-- ===== src/IclModel/OneHot/Accepted.antt =====
-- What a register file that passes its check is like (src/warptap/icl_model.py).
use warptap.Base.{
  ℕ, ◌^◌, ◌≤◌, ◌<◌, ltb, Bool, true, false, not, ◌&&◌, ◌||◌, List, [], ◌∷◌, String, ok, raise_if,
  >>=-eq-ok, ok-injective, ◌≡◌, refl, arith,
}
use warptap.IclModel.{SignalBinding, contains, name_in}
use warptap.IclModel.Valid.{raised-not}
use warptap.IclModel.OneHot.{
  Address, address, negative, OneHotDataRegister, OneHotDataGroup, no_registers, unusable_bus,
  same_name_twice, address_out_of_range, same_address_twice, too_wide, not_writable, not_readable,
  is_nil, check_address, check_registers, validate_one_hot_data_group,
}

-- Bindings in a direction that the bus has, or none.
abbrev pub Supported : List SignalBinding → Bool → Type 0
Supported bits capable = (not (is_nil bits) && not capable) ≡ false

-- Each register: a new name, a new address in range, a width that the bus has, and bindings that it
-- supports.
abbrev pub Accepted : OneHotDataGroup → List OneHotDataRegister → List String → List ℕ → Type 0
Accepted group [] names addresses = Unit
Accepted group (reg ∷ regs) names addresses =
    (name_in reg.name names ≡ false)
    × ((a : ℕ) × (reg.location ≡ address a)
        × (a < 2 ^ group.address_width)
        × (contains addresses a ≡ false)
        × (reg.width ≤ group.data_width)
        × Supported reg.write_signal_bits group.writable
        × Supported reg.read_signal_bits group.readable
        × Accepted group regs (reg.name ∷ names) (a ∷ addresses))

in_range :
    (x : Address) (limit : ℕ) {a : ℕ} → check_address x limit ≡ ok a → (x ≡ address a) × (a < limit)
unfolding check_address
in_range (negative n) limit h = cc
in_range (address b) limit h =
    let (u, first, last) = >>=-eq-ok (raise_if (not (ltb b limit)) address_out_of_range) _ h in
    let small = raised-not (not (ltb b limit)) address_out_of_range first in
    let same = ok-injective last in (cc, ground arith)

no_wider : (n k : ℕ) → ltb n k ≡ false → k ≤ n
no_wider n k h = ground arith

registers-Accepted :
    (group : OneHotDataGroup) (regs : List OneHotDataRegister) (names : List String)
    (addresses : List ℕ)
    → check_registers group regs names addresses ≡ ok tt
    → Accepted group regs names addresses
unfolding check_registers
registers-Accepted group [] names addresses h = tt
registers-Accepted group (reg ∷ regs) names addresses h =
    let (u1, h1, k1) = >>=-eq-ok (raise_if (name_in reg.name names) same_name_twice) _ h in
    let (a, h2, k2) = >>=-eq-ok (check_address reg.location (2 ^ group.address_width)) _ k1 in
    let (u3, h3, k3) = >>=-eq-ok (raise_if (contains addresses a) same_address_twice) _ k2 in
    let (u4, h4, k4) = >>=-eq-ok (raise_if (ltb group.data_width reg.width) too_wide) _ k3 in
    let (u5, h5, k5) =
      >>=-eq-ok (raise_if (not (is_nil reg.write_signal_bits) && not group.writable) not_writable) _
        k4 in
    let (u6, h6, k6) =
      >>=-eq-ok (raise_if (not (is_nil reg.read_signal_bits) && not group.readable) not_readable) _
        k5 in
    let (placed, small) = in_range reg.location (2 ^ group.address_width) h2 in
    (
      raised-not (name_in reg.name names) same_name_twice h1,
      (
        a,
        placed,
        small,
        raised-not (contains addresses a) same_address_twice h3,
        no_wider group.data_width reg.width
            (raised-not (ltb group.data_width reg.width) too_wide h4),
        raised-not (not (is_nil reg.write_signal_bits) && not group.writable) not_writable h5,
        raised-not (not (is_nil reg.read_signal_bits) && not group.readable) not_readable h6,
        registers-Accepted group regs (reg.name ∷ names) (a ∷ addresses) k6,
      ),
    )

-- A register file that passes `validate_one_hot_data_group` has a register and can be written or read;
-- no two registers share a name or an address; every address is one that the address port can hold; no
-- register is wider than the bus; and none has bindings in a direction that the bus does not have.
pub validate_one_hot_data_group-Accepted :
    (group : OneHotDataGroup)
    → validate_one_hot_data_group group ≡ ok tt
    → (is_nil group.registers ≡ false)
      × ((group.writable || group.readable) ≡ true)
      × Accepted group group.registers [] []
unfolding validate_one_hot_data_group
validate_one_hot_data_group-Accepted group h =
    let (u1, h1, k1) = >>=-eq-ok (raise_if (is_nil group.registers) no_registers) _ h in
    let (u2, h2, k2) =
      >>=-eq-ok (raise_if (not (group.writable || group.readable)) unusable_bus) _ k1 in
    (
      raised-not (is_nil group.registers) no_registers h1,
      usable (group.writable || group.readable)
          (raised-not (not (group.writable || group.readable)) unusable_bus h2),
      registers-Accepted group group.registers [] [] k2,
    )
  where
    usable : (b : Bool) → not b ≡ false → b ≡ true
    usable true e = refl
    usable false e = cc
