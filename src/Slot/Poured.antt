-- ===== src/Slot/Poured.antt =====
-- Keys poured into a layer: none is lost or doubled, and the counter keeps count.
use cuckoo_graph.Prelude.{
  ℕ, zero, suc, ◌+◌, ◌*◌, ◌<◌, ◌≤◌, ◌≡◌, ◌≢◌, ◌∙◌, refl, inl, inr, Bool, false, List, [], ◌∷◌, ◌==◌,
  arith, set-get_or, get_or, tally, tally-append, tally-flatten_le, Bool-cases, pos, sym, flatten,
  ap, ap₂, length as size,
}
use cuckoo_graph.Hash.{home}
use cuckoo_graph.Bucket.{Bucket}
use cuckoo_graph.Bucket.Tally.{was_there, was_full, stored, insert_cases}
use cuckoo_graph.Layer
use cuckoo_graph.Layer.{Layer}
use cuckoo_graph.Layer.Placement
use cuckoo_graph.Layer.Placement.{keys, set-Changes}
use cuckoo_graph.Cuckoo.Invariant.{is, is_key}
use cuckoo_graph.Slot.Merge.{Pour, pour_bucket, pour_both}

-- What keys poured into a layer leave: `num` counts those that found room.
pub record Pours (moved : (ℕ → Bool) → ℕ) (s t : Pour) : Type 0 where
  pub valid : Placement.IsValid t.layer
  pub live : tally (is 0) t.mq ≡ 0
  pub stocked :
      (p : ℕ → Bool)
      → p 0 ≡ false
      → tally p (keys t.layer) + tally p t.mq ≡ tally p (keys s.layer) + tally p s.mq + moved p
  pub counts :
      (n : ℕ)
      → s.num ≡ pos n
      → (m : ℕ) × (t.num ≡ pos m)
        × (m + tally is_key (keys s.layer) ≡ n + tally is_key (keys t.layer))
  pub same_length : t.layer.length ≡ s.layer.length
  pub same_seed : t.layer.seed ≡ s.layer.seed

Pours-refl : {s : Pour} → Placement.IsValid s.layer → tally (is 0) s.mq ≡ 0 → Pours (λ p. 0) s s
Pours-refl v live = record {
  valid = v;
  live = live;
  stocked = λ p z. omega arith;
  counts = λ n e. (n, e, refl);
  same_length = refl;
  same_seed = refl;
}

Pours-trans :
    {a b : (ℕ → Bool) → ℕ} (c : (ℕ → Bool) → ℕ) {s t u : Pour}
    → Pours a s t
    → Pours b t u
    → ((p : ℕ → Bool) → p 0 ≡ false → c p ≡ a p + b p)
    → Pours c s u
Pours-trans c f g sum = record {
  valid = g.valid;
  live = g.live;
  stocked = λ p z. omega (arith, f.stocked p z, g.stocked p z, sum p z);
  counts = λ n e.
      let (m, e', c') = f.counts n e in let (l, e'', c'') = g.counts m e' in (l, e'', omega arith);
  same_length = g.same_length ∙ f.same_length;
  same_seed = g.same_seed ∙ f.same_seed;
}

-- One key that is not 0 and not in the layer.
pour_key-Pours :
    (place : ℕ → ℕ) (x : ℕ) (s : Pour)
    → Placement.IsValid s.layer
    → ((y : ℕ) → place y ≡ Layer.index y s.layer)
    → tally (is 0) s.mq ≡ 0
    → x ≢ 0
    → tally (is x) (keys s.layer) ≡ 0
    → Pours (λ p. tally p (x ∷ [])) s (pour_bucket place (x ∷ []) s)
unfolding pour_bucket tally
pour_key-Pours place x s v at live nz absent =
    let zero_test : (x == 0) ≡ false = ground arith in
    let i = place x in
    let inside : i < s.layer.length = rw (at x) (Placement.index-lt x v) in
    elim (insert_cases x (Layer.bucket i s.layer) (v.widths i inside)) [
      | was_there e held ↦ absurd (ground (arith, tally-flatten_le (is x) s.layer.layer i))
      | was_full e none full ↦
          let queue = λ (p : ℕ → Bool). tally-append p s.mq (x ∷ []) in
          rw (zero_test, e)
            (rw (set-get_or s.layer.layer) (record {
              valid = v;
              live = ground (arith, queue (is 0));
              stocked = λ p z. omega (arith, queue p);
              counts = λ n e. (n, e, refl);
              same_length = refl;
              same_seed = refl;
            }))
      | stored b e none r ↦
          let ch =
            set-Changes s.layer i 0 x b v inside (rw (at x) (Placement.index_fits x s.layer)) r in
          rw (zero_test, e)
            (record {
              valid = ch.valid;
              live = live;
              stocked = λ p z. ground (arith, ch.tallies p);
              counts = λ n e. (suc n, rw e refl, ground (arith, ch.tallies is_key));
              same_length = refl;
              same_seed = refl;
            })
    ]

-- How many keys of the buckets from `i` on, `n` of them, pass the test.
abbrev pub rows : (ℕ → Bool) → ℕ → ℕ → List Bucket → ℕ
rows p zero i bs = 0
rows p (suc n) i bs = tally p (get_or bs i []) + rows p n (suc i) bs

rows_shift :
    (p : ℕ → Bool) (n i : ℕ) (b : Bucket) (bs : List Bucket)
    → rows p n (suc i) (b ∷ bs) ≡ rows p n i bs
rows_shift p zero i b bs = refl
rows_shift p (suc n) i b bs = ap (λ r. tally p (get_or bs i []) + r) (rows_shift p n (suc i) b bs)

pub rows_all : (p : ℕ → Bool) (bs : List Bucket) → rows p (size bs) 0 bs ≡ tally p (flatten bs)
unfolding tally flatten
rows_all p [] = refl
rows_all p (b ∷ bs) =
    omega (arith, rows_shift p (size bs) 0 b bs, rows_all p bs, tally-append p b (flatten bs))

module _ (seed wide : ℕ) where
  pour_bucket-Pours :
      (b : Bucket) (s : Pour)
      → Placement.IsValid s.layer
      → s.layer.seed ≡ seed
      → s.layer.length ≡ wide
      → tally (is 0) s.mq ≡ 0
      → ((k : ℕ) → k ≢ 0 → tally (is k) (keys s.layer) + tally (is k) s.mq + tally (is k) b ≤ 1)
      → Pours (λ p. tally p b) s (pour_bucket (λ x. home x seed wide) b s)
  unfolding pour_bucket tally
  pour_bucket-Pours [] s v es en live fresh = Pours-refl v live
  pour_bucket-Pours (x ∷ b) s v es en live fresh = elim (Bool-cases (x == 0)) [
    | inl e ↦
        let rest = pour_bucket-Pours b s v es en live (λ k h. omega (arith, fresh k h)) in
        rw e (
          Pours-trans _ (Pours-refl v live) rest
            (λ p z. let same : x ≡ 0 = ground arith in rw same (ground arith)))
    | inr e ↦
        let nz : x ≢ 0 = ground arith in
        let first =
          pour_key-Pours (λ y. home y seed wide) x s v (λ y. ap₂ (home y) (sym es) (sym en)) live nz
            (ground (arith, fresh x nz)) in
        let rest =
          pour_bucket-Pours b (pour_bucket (λ y. home y seed wide) (x ∷ []) s) first.valid
            (first.same_seed ∙ es) (first.same_length ∙ en) first.live
            (λ k h. ground (arith, fresh k h, first.stocked (is k))) in
        Pours-trans _ first rest (λ p z. omega arith)
  ]

  pub pour_both-Pours :
      (l n i : ℕ) (a b : Layer) (s : Pour)
      → l * 2 ≡ wide
      → Placement.IsValid s.layer
      → s.layer.seed ≡ seed
      → s.layer.length ≡ wide
      → tally (is 0) s.mq ≡ 0
      → ((k : ℕ)
          → k ≢ 0
          → tally (is k) (keys s.layer)
              + tally (is k) s.mq
              + rows (is k) n i a.layer
              + rows (is k) n i b.layer
            ≤ 1)
      → Pours (λ p. rows p n i a.layer + rows p n i b.layer) s (pour_both seed l n i a b s)
  unfolding pour_both
  pour_both-Pours l zero i a b s el v es en live fresh = Pours-refl v live
  pour_both-Pours l (suc n) i a b s el v es en live fresh =
      let place = λ (x : ℕ). home x seed wide in
      let first =
        pour_bucket-Pours (Layer.bucket i a) s v es en live (λ k h. omega (arith, fresh k h)) in
      let s' = pour_bucket place (Layer.bucket i a) s in
      let second =
        pour_bucket-Pours (Layer.bucket i b) s' first.valid (first.same_seed ∙ es)
          (first.same_length ∙ en) first.live
          (λ k h. ground (arith, fresh k h, first.stocked (is k))) in
      let s'' = pour_bucket place (Layer.bucket i b) s' in
      let both = Pours-trans (λ p. _) first second (λ p z. refl) in
      let rest =
        pour_both-Pours l n (suc i) a b s'' el both.valid (both.same_seed ∙ es)
          (both.same_length ∙ en) both.live
          (λ k h. ground (arith, fresh k h, both.stocked (is k))) in
      rw el (Pours-trans _ both rest (λ p z. omega arith))
