-- ===== src/Resize/Expand.antt =====
-- `expand`: twice the width, the same keys.
use cuckoo_graph.Prelude.{
  ℕ, ◌+◌, ◌*◌, ◌<◌, ◌≡◌, ◌⊎◌, inl, inr, ◌∙◌, refl, Bool, false, [], arith, tally, length-append,
  get_or-append, tally-flatten-append, ◌-◌,
}
use native.Mathlib.Decide.{dec_lt}
use cuckoo_graph.Layer
use cuckoo_graph.Layer.{Layer}
use cuckoo_graph.Layer.Placement
use cuckoo_graph.Layer.Placement.{strays}
use cuckoo_graph.Cuckoo.{Cuckoo}
use cuckoo_graph.Cuckoo.Invariant.{IsSound, total, is, is_key}
use cuckoo_graph.Resize.{expand_layer, expand}
use cuckoo_graph.Resize.Halves.{
  lower, upper, lowers, uppers, size-lowers, size-uppers, get_or-lowers, get_or-uppers, size-lower,
  size-upper, lower_placed, upper_placed, all_halves_tally,
}

module _ {l : Layer} (v : Placement.IsValid l) where
  -- Bucket `i` of the wider layer comes from bucket `i` or from the one that lies one width below.
  bucket_cases :
      (i : ℕ)
      → ((i < l.length)
          × (Layer.bucket i (expand_layer l.seed l.length l)
              ≡ lower (λ x. x) 0 l.seed (l.length * 2) i (Layer.bucket i l)))
        ⊎ ((j : ℕ) × (i ≡ j + l.length)
            × (Layer.bucket i (expand_layer l.seed l.length l)
                ≡ upper (λ x. x) 0 l.seed (l.length * 2) j (Layer.bucket j l)))
  unfolding expand_layer
  bucket_cases i =
      let at =
        get_or-append (lowers (λ x. x) 0 l.seed (l.length * 2) 0 l.layer)
          (uppers (λ x. x) 0 l.seed (l.length * 2) 0 l.layer) i [] in
      let low = size-lowers (λ x. x) 0 l.seed l.length 0 l.layer in
      elim (dec_lt i l.length) [
        | yes lt ↦ inl (
          lt,
          ground (arith, at, low, v.sized, get_or-lowers (λ x. x) 0 l.seed l.length 0 i l.layer),
        )
        | no ge ↦ inr (
          i - l.length,
          omega arith,
          ground (
            arith,
            at,
            low,
            v.sized,
            get_or-uppers (λ x. x) 0 l.seed l.length 0 (i - l.length) l.layer,
          ),
        )
      ]

  -- The wider layer is valid and has the same keys.
  pub expand_layer-IsValid : Placement.IsValid (expand_layer l.seed l.length l)
  expand_layer-IsValid = record {
    sized =
        unfold expand_layer in
        omega (
          arith,
          v.sized,
          size-lowers (λ x. x) 0 l.seed l.length 0 l.layer,
          size-uppers (λ x. x) 0 l.seed l.length 0 l.layer,
          length-append (lowers (λ x. x) 0 l.seed (l.length * 2) 0 l.layer)
              (uppers (λ x. x) 0 l.seed (l.length * 2) 0 l.layer),
        );
    positive = unfold expand_layer in omega (arith, v.positive);
    widths = λ i lt. elim (bucket_cases i) [
      | inl (low, e) ↦
          rw e (size-lower (λ x. x) 0 l.seed l.length i (Layer.bucket i l) ∙ v.widths i low)
      | inr (j, at, e) ↦ rw e (
          size-upper (λ x. x) 0 l.seed l.length j (Layer.bucket j l)
          ∙ v.widths j (unfold expand_layer in omega arith))
    ];
    placed = λ i. elim (bucket_cases i) [
      | inl (low, e) ↦
          rw e (
            unfold expand_layer in
            lower_placed (λ x. x) 0 refl l.seed l.length i (Layer.bucket i l))
      | inr (j, at, e) ↦ rw e (
          rw at (
            unfold expand_layer in
            upper_placed (λ x. x) 0 refl l.seed l.length j (Layer.bucket j l) v.positive
              (v.placed j)))
    ];
  }

  pub tally-expand_layer :
      (p : ℕ → Bool)
      → p 0 ≡ false
      → tally p (Placement.keys (expand_layer l.seed l.length l)) ≡ tally p (Placement.keys l)
  unfolding expand_layer
  tally-expand_layer p z =
      tally-flatten-append p (lowers (λ x. x) 0 l.seed (l.length * 2) 0 l.layer)
        (uppers (λ x. x) 0 l.seed (l.length * 2) 0 l.layer)
      ∙ all_halves_tally (λ x. x) 0 refl l.seed l.length p 0 l.layer z

-- `expand` of a sound table, by the table's own seeds, gives a sound table of twice the width that
-- holds the same keys, each as often, with the same counter.
pub expand-IsSound :
    {d : ℕ} {c : Cuckoo}
    → IsSound d c
    → let e = expand c.seed1 c.seed2 c in
      IsSound d e
      × ((p : ℕ → Bool) → p 0 ≡ false → total p e ≡ total p c)
      × (e.len1 ≡ c.len1 * 2)
      × (e.len2 ≡ c.len2 * 2)
unfolding expand
expand-IsSound {d} {c} v =
    let wide1 = expand_layer-IsValid v.valid1 in
    let wide2 = expand_layer-IsValid v.valid2 in
    let keys1 = tally-expand_layer v.valid1 in
    let keys2 = tally-expand_layer v.valid2 in
    rw (← v.same_seed1, ← v.same_seed2, ← v.length1, ← v.length2)
      (
        record {
          valid1 = wide1;
          valid2 = wide2;
          length1 = unfold expand_layer in refl;
          length2 = unfold expand_layer in refl;
          same_seed1 = unfold expand_layer in refl;
          same_seed2 = unfold expand_layer in refl;
          unique = λ key h. ground (arith, keys1 (is key), keys2 (is key), v.unique key h);
          counted =
              (v.counted.0, v.counted.1, ground (arith, keys1 is_key, keys2 is_key, v.counted.2));
        },
        λ p z. ground (arith, keys1 p z, keys2 p z),
        refl,
        refl,
      )
