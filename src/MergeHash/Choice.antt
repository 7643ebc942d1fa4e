-- ===== src/MergeHash/Choice.antt =====
-- The link that `insert` picks is there: the loops find a table, or an empty link.
use cuckoo_graph.Prelude.{
  ℕ, zero, suc, ◌+◌, ◌*◌, ◌/◌, ◌≤◌, ◌<◌, ◌≡◌, ◌⊎◌, inl, inr, refl, arith, Option, none, some, List,
  [], ◌∷◌, length, get_or, Bool-cases, ltb, if◌then◌else◌, pos, ◌∙◌,
}
use cuckoo_graph.Bucket.{bup}
use cuckoo_graph.Cuckoo.{Cuckoo}
use cuckoo_graph.Floats.{Floats}
use cuckoo_graph.MergeHash.{choose, smallest, halved}
use cuckoo_graph.MergeHash.Invariant.{Shaped, pow2}

half-Shaped : {l1 l2 : ℕ} → Shaped l1 l2 → 2 ≤ l2 → Shaped (l1 / 2) (l2 / 2)
half-Shaped {l1} {l2} s h = go s.log s.second s.first
  where
    go : (n : ℕ) → l2 ≡ pow2 n → l1 ≡ pow2 n * s.ratio → Shaped (l1 / 2) (l2 / 2)
    go zero e f = absurd (omega arith)
    go (suc n) e f = record {
      log = n;
      ratio = s.ratio;
      positive = s.positive;
      second = omega arith;
      first = omega arith;
    }

pub double-Shaped : {l1 l2 : ℕ} → Shaped l1 l2 → Shaped (l1 * 2) (l2 * 2)
double-Shaped s = record {
  log = suc s.log;
  ratio = s.ratio;
  positive = s.positive;
  second = omega (arith, s.second);
  first = omega (arith, s.first);
}

-- A link of at most the third place gets a table with two layers of at least one bucket.
pub halved-Shaped :
    (i : ℕ) {l1 l2 : ℕ} → i < 3 → Shaped l1 l2 → 4 ≤ l2 → Shaped (halved i l1) (halved i l2)
unfolding halved
halved-Shaped zero lt s h = s
halved-Shaped (suc zero) lt s h = half-Shaped s (omega arith)
halved-Shaped (suc (suc zero)) lt s h = half-Shaped (half-Shaped s (omega arith)) (omega arith)
halved-Shaped (suc (suc (suc i))) lt s h = absurd (omega arith)

-- The link stands at place `i` of the chain, counted from `from`.
abbrev pub Found : ℕ → List (Option Cuckoo) → ℕ → Type 0
Found from ls i = (j : ℕ) × (c : Cuckoo) × (i ≡ from + j) × (get_or ls j none ≡ some c)

abbrev pub Vacant : ℕ → List (Option Cuckoo) → ℕ → Type 0
Vacant from ls i = (j : ℕ) × (i ≡ from + j) × (j < length ls) × (get_or ls j none ≡ none)

later :
    (from : ℕ) (ls : List (Option Cuckoo)) {i : ℕ} (o : Option Cuckoo)
    → Found (suc from) ls i
    → Found from (o ∷ ls) i
later from ls o (j, c, e, at) = (suc j, c, omega arith, at)

abbrev pub Full : List (Option Cuckoo) → Type 0
Full ls = (i : ℕ) → i < length ls → (c : Cuckoo) × (get_or ls i none ≡ some c)

Full-cons : (c : Cuckoo) (ls : List (Option Cuckoo)) → Full ls → Full (some c ∷ ls)
Full-cons c ls full zero h = (c, refl)
Full-cons c ls full (suc i) h = full i (omega arith)

pub smallest-Found :
    (from : ℕ) (ls : List (Option Cuckoo)) (small aim : ℕ)
    → (smallest from ls small aim ≡ aim) ⊎ Found from ls (smallest from ls small aim)
unfolding smallest
smallest-Found from [] small aim = inl refl
smallest-Found from (none ∷ ls) small aim = elim (smallest-Found (suc from) ls small aim) [
  | inl e ↦ inl e
  | inr f ↦ inr (later from ls none f)
]
smallest-Found from (some c ∷ ls) small aim = elim (Bool-cases (ltb c.len1 small)) [
  | inl e ↦ rw e (elim (smallest-Found (suc from) ls c.len1 from) [
    | inl at ↦ inr (0, c, omega arith, refl)
    | inr f ↦ inr (later from ls (some c) f)
  ])
  | inr e ↦ rw e (elim (smallest-Found (suc from) ls small aim) [
    | inl at ↦ inl at
    | inr f ↦ inr (later from ls (some c) f)
  ])
]

module _ (fl : Floats) where
  open fl use {Double, of_int, div, lt}

  -- Either no link has a lower load than `low`, or the one picked has a table.
  pub choose_aim :
      (from : ℕ) (ls : List (Option Cuckoo)) (low : Double) (aim : ℕ) (tnull : Option ℕ)
      → let r = choose fl from ls low aim tnull in ((r.0 ≡ low) × (r.1 ≡ aim)) ⊎ Found from ls r.1
  unfolding choose
  choose_aim from [] low aim tnull = inl (refl, refl)
  choose_aim from (none ∷ ls) low aim tnull =
      elim (choose_aim (suc from) ls low aim (elim tnull [ none ↦ some from | some j ↦ some j ])) [
        | inl e ↦ inl e
        | inr f ↦ inr (later from ls none f)
      ]
  choose_aim from (some c ∷ ls) low aim tnull =
      let ir = div (of_int c.num) (of_int (pos ((c.len1 + c.len2) * bup))) in
      elim (Bool-cases (lt ir low)) [
        | inl e ↦
            rw (e, choose)
              (elim (choose_aim (suc from) ls ir from tnull) [
                | inl at ↦ inr (0, c, at.1 ∙ omega arith, refl)
                | inr f ↦ inr (later from ls (some c) f)
              ])
        | inr e ↦
            rw (e, choose)
              (elim (choose_aim (suc from) ls low aim tnull) [
                | inl at ↦ inl at
                | inr f ↦ inr (later from ls (some c) f)
              ])
      ]

  choose_kept :
      (from : ℕ) (ls : List (Option Cuckoo)) (low : Double) (aim j : ℕ)
      → (choose fl from ls low aim (some j)).2 ≡ some j
  unfolding choose
  choose_kept from [] low aim j = refl
  choose_kept from (none ∷ ls) low aim j = choose_kept (suc from) ls low aim j
  choose_kept from (some c ∷ ls) low aim j = choose_kept (suc from) ls _ _ j

  -- The first empty link, or none where all links have tables.
  pub choose_null :
      (from : ℕ) (ls : List (Option Cuckoo)) (low : Double) (aim : ℕ)
      → let r = choose fl from ls low aim none in
        ((j : ℕ) × (r.2 ≡ some j) × Vacant from ls j) ⊎ ((r.2 ≡ none) × Full ls)
  unfolding choose
  choose_null from [] low aim = inr (refl, λ i h. absurd (omega arith))
  choose_null from (none ∷ ls) low aim =
      inl (from, choose_kept (suc from) ls low aim from, (0, omega arith, omega arith, refl))
  choose_null from (some c ∷ ls) low aim =
      let ir = div (of_int c.num) (of_int (pos ((c.len1 + c.len2) * bup))) in
      let l = if lt ir low then ir else low in
      let a = if lt ir low then from else aim in
      elim (choose_null (suc from) ls l a) [
        | inl (j, e, (k, at, lt', free)) ↦ inl (j, e, (suc k, omega arith, omega arith, free))
        | inr (e, full) ↦ inr (e, Full-cons c ls full)
      ]
