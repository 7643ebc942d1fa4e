-- ===== src/Cuckoo/Invariant.antt =====
-- A well-formed table: its keys, the invariant, and `query` against the keys.
use mathlib.Core.Bool.{not}
use cuckoo_graph.Prelude.{
  ℕ, ◌+◌, ◌≤◌, ◌<◌, ◌≡◌, ◌≢◌, ◌↔◌, inl, inr, refl, Bool, true, false, ◌==◌, arith, tally,
  Bool-cases, ℤ, pos, ◌∙◌, ap₂, sym,
}
use cuckoo_graph.Hash.{home}
use cuckoo_graph.Layer
use cuckoo_graph.Layer.Placement
use cuckoo_graph.Layer.Placement.{layer_query-count, new_empty, new-IsValid}
use cuckoo_graph.Cuckoo.{Cuckoo, new, query}

-- How many keys of the two layers pass the test; a free slot is a 0, so `p 0` should be false.
abbrev pub total : (ℕ → Bool) → Cuckoo → ℕ
total p c = tally p (Placement.keys c.layer1) + tally p (Placement.keys c.layer2)

abbrev pub is : ℕ → ℕ → Bool
is key x = x == key

abbrev pub is_key : ℕ → Bool
is_key x = not (x == 0)

-- The table holds each key at most once, in its bucket, and `num` counts all but `missing` of them.
pub record IsSound (missing : ℕ) (c : Cuckoo) : Type 0 where
  pub valid1 : Placement.IsValid c.layer1
  pub valid2 : Placement.IsValid c.layer2
  pub length1 : c.layer1.length ≡ c.len1
  pub length2 : c.layer2.length ≡ c.len2
  pub same_seed1 : c.layer1.seed ≡ c.seed1
  pub same_seed2 : c.layer2.seed ≡ c.seed2
  pub unique : (key : ℕ) → key ≢ 0 → total (is key) c ≤ 1
  pub counted : (n : ℕ) × (c.num ≡ pos n) × (n + missing ≡ total is_key c)

-- `num` is the number of keys.
abbrev pub IsValid : Cuckoo → Type 0
IsValid c = IsSound 0 c

-- The constructor makes a valid table without keys.
pub new-IsValid_cuckoo :
    (l1 l2 s1 s2 : ℕ)
    → 0 < l1
    → 0 < l2
    → IsValid (new l1 l2 s1 s2) × ((p : ℕ → Bool) → p 0 ≡ false → total p (new l1 l2 s1 s2) ≡ 0)
unfolding new Layer.new
new-IsValid_cuckoo l1 l2 s1 s2 h1 h2 =
    let none : (p : ℕ → Bool) → p 0 ≡ false → total p (new l1 l2 s1 s2) ≡ 0 =
      λ p e. omega (arith, new_empty l1 s1 p e, new_empty l2 s2 p e) in
    (
      record {
        valid1 = new-IsValid l1 s1 h1;
        valid2 = new-IsValid l2 s2 h2;
        length1 = refl;
        length2 = refl;
        same_seed1 = refl;
        same_seed2 = refl;
        unique = λ key h. ground (arith, none (is key));
        counted = (0, refl, ground (arith, none is_key));
      },
      none,
    )

-- `query` finds a key exactly when one of the layers holds it.
pub cuckoo_query-total :
    (key : ℕ) {d : ℕ} {c : Cuckoo}
    → IsSound d c
    → key ≢ 0
    → (query key c ≡ true) ↔ (0 < total (is key) c)
unfolding query
cuckoo_query-total key {d} {c} v h =
    let a = layer_query-count key v.valid1 h in
    let b = layer_query-count key v.valid2 h in
    (
      λ e. elim (Bool-cases (Layer.query key c.layer1)) [
        | inl f ↦ omega (arith, a.0 f)
        | inr f ↦ omega (arith, b.0 (rw f at e))
      ],
      λ e. elim (Bool-cases (Layer.query key c.layer1)) [
        | inl f ↦ rw f
        | inr f ↦ rw f (b.1 (ground (arith, a)))
      ],
    )

-- New layers and a new counter that count every key correctly make a valid table again.
pub rebuilt-IsValid :
    {d : ℕ} {c : Cuckoo} {m n : Layer.Layer} (num : ℤ) {o1 f1 o2 f2 : ℕ}
    → IsSound d c
    → Placement.Changes o1 f1 c.layer1 m
    → Placement.Changes o2 f2 c.layer2 n
    → ((key : ℕ)
        → key ≢ 0
        → tally (is key) (Placement.keys m) + tally (is key) (Placement.keys n) ≤ 1)
    → (k : ℕ) × (num ≡ pos k)
      × (k + d ≡ tally is_key (Placement.keys m) + tally is_key (Placement.keys n))
    → IsSound d (record c { num = num; layer1 = m; layer2 = n })
rebuilt-IsValid num v a b unique counted = record {
  valid1 = a.valid;
  valid2 = b.valid;
  length1 = a.same_length ∙ v.length1;
  length2 = b.same_length ∙ v.length2;
  same_seed1 = a.same_seed ∙ v.same_seed1;
  same_seed2 = b.same_seed ∙ v.same_seed2;
  unique = unique;
  counted = counted;
}

-- The positions that the table computes are those that its layers compute.
pub home-index :
    (key : ℕ) {d : ℕ} {c : Cuckoo}
    → IsSound d c
    → (home key c.seed1 c.len1 ≡ Layer.index key c.layer1)
      × (home key c.seed2 c.len2 ≡ Layer.index key c.layer2)
home-index key v = (
  ap₂ (home key) (sym v.same_seed1) (sym v.length1),
  ap₂ (home key) (sym v.same_seed2) (sym v.length2),
)

-- The counter may be set to any number that the invariant then asks for.
pub renumber-IsSound :
    {d : ℕ} (d' : ℕ) {c : Cuckoo} (num : ℤ) (k : ℕ)
    → IsSound d c
    → num ≡ pos k
    → k + d' ≡ total is_key c
    → IsSound d' (record c { num = num })
renumber-IsSound d' num k v e counts = record {
  valid1 = v.valid1;
  valid2 = v.valid2;
  length1 = v.length1;
  length2 = v.length2;
  same_seed1 = v.same_seed1;
  same_seed2 = v.same_seed2;
  unique = v.unique;
  counted = (k, e, counts);
}
