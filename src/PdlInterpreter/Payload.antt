-- ===== src/PdlInterpreter/Payload.antt =====
-- What an `iApply` delivers, by what is pending and committed (src/warptap/pdl_interpreter.py).
use warptap.Base.{ℕ, if◌then◌else◌, Bool, true, false, Option, none, some, String, ◌≡◌, refl}
use warptap.Base.Dicts.{lookup}
use warptap.IclModel.{Chain}
use warptap.SibLayout.{get_or_0}
use warptap.PdlInterpreter.State.{PdlInterpreter, committed}
use warptap.PdlInterpreter.Phases.{is_write_target, payload_for}

-- The pending value, or else what a WRITE instrument was given last, 0 at first; 0 for a READ one.
abbrev pub value_due : Option ℕ → Bool → Option ℕ → ℕ
value_due (some payload) w old = payload
value_due none true old = get_or_0 old
value_due none false old = 0

pub payload_for-due :
    (graph : Chain) (p : PdlInterpreter) (name : String)
    → payload_for graph p name
      ≡ value_due
          (lookup p.pending_writes name)
          (is_write_target graph name)
          (lookup p.committed_writes name)
unfolding payload_for
payload_for-due graph p name = go (lookup p.pending_writes name) (is_write_target graph name)
  where
    go :
        (o : Option ℕ) (w : Bool)
        → (elim o as (λ _. ℕ) [ some payload ↦ payload | none ↦ if w then committed p name else 0 ])
          ≡ value_due o w (lookup p.committed_writes name)
    go (some v) w = refl
    go none true = refl
    go none false = refl
