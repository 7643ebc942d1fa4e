-- ===== src/Resize/Squeeze.antt =====
-- The loops of `compress` that move the upper half of a layer into the lower half.
use cuckoo_graph.Prelude.{
  ℕ, suc, ◌+◌, ◌<◌, ◌≤◌, ◌≡◌, ◌≢◌, ◌∙◌, refl, inl, inr, Bool, false, List, [], ◌∷◌, ◌++◌, ◌==◌,
  arith, length as size, get_or, subst, set, set-get_or, flatten, tally, tally-append,
  tally-flatten_le, Bool-cases,
}
use native.Mathlib.Nat.{add-zero}
use cuckoo_graph.Bucket.{Bucket}
use cuckoo_graph.Bucket.Tally.{was_there, was_full, stored, insert_cases}
use cuckoo_graph.Layer
use cuckoo_graph.Layer.{Layer}
use cuckoo_graph.Layer.Placement.{IsValid, keys, strays, misplaced, set-Changes}
use cuckoo_graph.Cuckoo.Invariant.{is}
use cuckoo_graph.Resize.{squeeze_bucket, squeeze}

-- What keys moved into a layer, with a queue for those without room, leave.
pub record Moves (moved : List ℕ) (s t : Layer × List ℕ) : Type 0 where
  pub valid : IsValid t.0
  pub live : tally (is 0) t.1 ≡ 0
  pub stocked :
      (p : ℕ → Bool)
      → p 0 ≡ false
      → tally p (keys t.0) + tally p t.1 ≡ tally p (keys s.0) + tally p s.1 + tally p moved
  pub kept : (p : ℕ → Bool) → tally p s.1 ≤ tally p t.1
  pub same_length : t.0.length ≡ s.0.length
  pub same_seed : t.0.seed ≡ s.0.seed

squeeze_bucket-Moves :
    (i : ℕ) (b : Bucket) (l : Layer) (mq : List ℕ)
    → IsValid l
    → i < l.length
    → tally (is 0) mq ≡ 0
    → tally (misplaced l i) b ≡ 0
    → ((key : ℕ) → key ≢ 0 → tally (is key) (keys l) + tally (is key) b ≤ 1)
    → Moves b (l, mq) (squeeze_bucket i b (l, mq))
unfolding squeeze_bucket tally
squeeze_bucket-Moves i [] l mq v lt live fits fresh = record {
  valid = v;
  live = live;
  stocked = λ p z. omega arith;
  kept = λ p. omega arith;
  same_length = refl;
  same_seed = refl;
}
squeeze_bucket-Moves i (x ∷ b) l mq v lt live fits fresh = elim (Bool-cases (x == 0)) [
  | inl free ↦
      let rest =
        squeeze_bucket-Moves i b l mq v lt live (ground arith) (λ k h. omega (arith, fresh k h)) in
      rw free (record {
        valid = rest.valid;
        live = rest.live;
        stocked = λ p z. ground (arith, rest.stocked p z);
        kept = rest.kept;
        same_length = rest.same_length;
        same_seed = rest.same_seed;
      })
  | inr key ↦ elim (insert_cases x (Layer.bucket i l) (v.widths i lt)) [
    | was_there e held ↦ absurd (ground (arith, tally-flatten_le (is x) l.layer i, fresh x))
    | was_full e none full ↦
        let queue = λ (p : ℕ → Bool). tally-append p mq (x ∷ []) in
        let rest =
          squeeze_bucket-Moves i b l (mq ++ x ∷ []) v lt (ground (arith, queue (is 0)))
            (ground arith) (λ k h. omega (arith, fresh k h)) in
        rw (key, e)
          (rw (set-get_or l.layer) (record {
            valid = rest.valid;
            live = rest.live;
            stocked = λ p z. omega (arith, rest.stocked p z, queue p);
            kept = λ p. omega (arith, rest.kept p, queue p);
            same_length = rest.same_length;
            same_seed = rest.same_seed;
          }))
    | stored b' e none r ↦
        let ch = set-Changes l i 0 x b' v lt (ground arith) r in
        let rest =
          squeeze_bucket-Moves i b (record l { layer = set l.layer i b' }) mq ch.valid lt live
            (ground arith) (λ k h. ground (arith, fresh k h, ch.tallies (is k))) in
        rw (key, e)
          (record {
            valid = rest.valid;
            live = rest.live;
            stocked = λ p z. ground (arith, rest.stocked p z, ch.tallies p);
            kept = rest.kept;
            same_length = rest.same_length;
            same_seed = rest.same_seed;
          })
  ]
]

pub squeeze-Moves :
    (seed n i : ℕ) (bs : List Bucket) (l : Layer) (mq : List ℕ)
    → IsValid l
    → l.seed ≡ seed
    → l.length ≡ n
    → i + size bs ≤ n
    → tally (is 0) mq ≡ 0
    → ((j : ℕ) → tally (strays seed n (i + j)) (get_or bs j []) ≡ 0)
    → ((key : ℕ) → key ≢ 0 → tally (is key) (keys l) + tally (is key) (flatten bs) ≤ 1)
    → Moves (flatten bs) (l, mq) (squeeze i bs (l, mq))
unfolding squeeze tally flatten
squeeze-Moves seed n i [] l mq v es en lt live fits fresh = record {
  valid = v;
  live = live;
  stocked = λ p z. omega arith;
  kept = λ p. omega arith;
  same_length = refl;
  same_seed = refl;
}
squeeze-Moves seed n i (b ∷ bs) l mq v es en lt live fits fresh =
    let both = λ (p : ℕ → Bool). tally-append p b (flatten bs) in
    let here : tally (misplaced l i) b ≡ 0 = rw (es, en) (rw add-zero at (fits 0)) in
    let first =
      squeeze_bucket-Moves i b l mq v (omega arith) live here
        (λ k h. omega (arith, fresh k h, both (is k))) in
    let s = squeeze_bucket i b (l, mq) in
    let rest =
      squeeze-Moves seed n (suc i) bs s.0 s.1 first.valid (first.same_seed ∙ es)
        (first.same_length ∙ en) (omega arith) first.live
        (λ j.
          subst (λ k. tally (strays seed n k) (get_or bs j []) ≡ 0) (omega arith) (fits (suc j)))
        (λ k h. ground (arith, fresh k h, both (is k), first.stocked (is k), first.kept (is k))) in
    record {
      valid = rest.valid;
      live = rest.live;
      stocked = λ p z. omega (arith, first.stocked p z, rest.stocked p z, both p);
      kept = λ p. omega (arith, first.kept p, rest.kept p);
      same_length = rest.same_length ∙ first.same_length;
      same_seed = rest.same_seed ∙ first.same_seed;
    }
