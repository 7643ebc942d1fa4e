-- ===== src/Prelude/Mod.antt =====
-- Remainders by a number and by its double.
use Prim.Native.Nat.{ℕ, ◌+◌, ◌-◌, ◌*◌, ◌%◌, ◌<◌}
use mathlib.Core.Path.{◌≡◌, sym, ◌∙◌}
use mathlib.Core.Logic.{◌⊎◌, inl, inr}
use native.Mathlib.Decide.{dec_lt}
use native.Mathlib.Omega.{arith}
use native.Mathlib.Nat.{mod-lt, mod-eq_of_lt, mod-eq-sub-mod, mod-mod_of_dvd, dvd-mul_right}

-- The remainder by the double determines the remainder.
pub mod-mod_double : (h l : ℕ) → h % (l * 2) % l ≡ h % l
mod-mod_double h l = mod-mod_of_dvd l h (dvd-mul_right l 2)

-- The remainder by the double is the remainder, or lies one half above it.
pub mod_double : (h l : ℕ) → 0 < l → (h % (l * 2) ≡ h % l) ⊎ (h % (l * 2) ≡ h % l + l)
mod_double h l pos =
    let r = h % (l * 2) in
    let below : r < l * 2 = mod-lt h (omega arith) in
    elim (dec_lt r l) [
      | yes lt ↦ inl (sym (mod-eq_of_lt lt) ∙ mod-mod_double h l)
      | no ge ↦
          let upper : r % l ≡ r - l = mod-eq-sub-mod (omega arith) ∙ mod-eq_of_lt (omega arith) in
          inr (omega (arith, upper, mod-mod_double h l))
    ]
