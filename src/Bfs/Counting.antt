-- ===== src/Bfs/Counting.antt =====
-- How many nodes below a bound the search has not visited.
use mathlib.Core.Bool.{not}
use cuckoo_graph.Prelude.{
  ℕ, zero, suc, ◌+◌, ◌<◌, ◌≤◌, ◌≡◌, ◌∙◌, ap, refl, inl, inr, Bool, false, arith, to_nat, ◌==◌,
  Bool-cases,
}
use cuckoo_graph.Bfs.{mark}

abbrev pub unseen : ℕ → (ℕ → Bool) → ℕ
unseen zero f = 0
unseen (suc n) f = to_nat (not (f n)) + unseen n f

pub unseen_le : (n : ℕ) (f : ℕ → Bool) → unseen n f ≤ n
unseen_le zero f = omega arith
unseen_le (suc n) f = ground (arith, unseen_le n f)

unseen_beyond : (n v : ℕ) (f : ℕ → Bool) → n ≤ v → unseen n (mark v f) ≡ unseen n f
unseen_beyond zero v f h = refl
unseen_beyond (suc n) v f h = let rest = unseen_beyond n v f (omega arith) in ground (arith, rest)

-- A node below the bound that is visited is one fewer.
pub unseen-mark :
    (n v : ℕ) (f : ℕ → Bool) → v < n → f v ≡ false → suc (unseen n (mark v f)) ≡ unseen n f
unseen-mark zero v f lt fresh = absurd (omega arith)
unseen-mark (suc n) v f lt fresh = elim (Bool-cases (n == v)) [
  | inl same ↦
      let at : n ≡ v = ground arith in
      let now : f n ≡ false = ap f at ∙ fresh in
      let rest = unseen_beyond n v f (omega arith) in rw (same, now) (ground (arith, rest))
  | inr other ↦ let rest = unseen-mark n v f (ground arith) fresh in rw other (omega arith)
]
