-- ===== src/Resize/Offer.antt =====
-- Keys put into a table one after another, with those that it turns out kept in a queue.
use cuckoo_graph.Prelude.{
  ℕ, ◌+◌, ◌≤◌, ◌≡◌, ◌≢◌, ◌∙◌, refl, Bool, false, List, [], ◌∷◌, arith, tally, tally-append,
}
use cuckoo_graph.Cuckoo
use cuckoo_graph.Cuckoo.Invariant.{IsSound, total, is}
use cuckoo_graph.Cuckoo.Insert.{insert-Takes}
use cuckoo_graph.Resize.{Stage, offer, offer_all}

-- How many keys of the table and of the queue pass the test.
abbrev pub stock : (ℕ → Bool) → Stage → ℕ
stock p s = total p s.table + tally p s.left

-- What a stage that received `keys` has become: no key is lost or doubled.
pub record Receives (missing : ℕ) (keys : List ℕ) (s t : Stage) : Type 0 where
  pub sound : IsSound missing t.table
  pub live : tally (is 0) t.left ≡ 0
  pub stocked : (p : ℕ → Bool) → p 0 ≡ false → stock p t ≡ stock p s + tally p keys
  pub len1 : t.table.len1 ≡ s.table.len1
  pub len2 : t.table.len2 ≡ s.table.len2
  pub seed1 : t.table.seed1 ≡ s.table.seed1
  pub seed2 : t.table.seed2 ≡ s.table.seed2

pub offer-Receives :
    {d : ℕ} (key : ℕ) (s : Stage)
    → IsSound d s.table
    → tally (is 0) s.left ≡ 0
    → key ≢ 0
    → total (is key) s.table ≡ 0
    → Receives d (key ∷ []) s (offer key s)
unfolding offer tally
offer-Receives key s v live nonzero absent =
    let t = insert-Takes s.globals v nonzero absent in
    let r = Cuckoo.insert key s.table s.globals in
    let queue = λ (p : ℕ → Bool). tally-append p s.left (r.globals.mykick ∷ []) in
    record {
      sound = t.valid;
      live = ground (arith, queue (is 0), t.left_over);
      stocked = λ p z. ground (arith, queue p, t.tallies p z);
      len1 = t.len1;
      len2 = t.len2;
      seed1 = t.seed1;
      seed2 = t.seed2;
    }

-- A sound table that receives the keys of a list, where no key but 0 is twice in the table, the queue
-- and the list together and neither the queue nor the list has a 0, becomes a sound table of the same
-- shape, and the table and the queue hold what they held before and the keys of the list.
pub offer_all-Receives :
    {d : ℕ} (keys : List ℕ) (s : Stage)
    → IsSound d s.table
    → tally (is 0) s.left ≡ 0
    → tally (is 0) keys ≡ 0
    → ((key : ℕ) → key ≢ 0 → stock (is key) s + tally (is key) keys ≤ 1)
    → Receives d keys s (offer_all keys s)
unfolding offer_all tally
offer_all-Receives [] s v live keyed fresh = record {
  sound = v;
  live = live;
  stocked = λ p z. omega arith;
  len1 = refl;
  len2 = refl;
  seed1 = refl;
  seed2 = refl;
}
offer_all-Receives (key ∷ keys) s v live keyed fresh =
    let nonzero : key ≢ 0 = ground arith in
    let absent : total (is key) s.table ≡ 0 = ground (arith, fresh key nonzero) in
    let first = offer-Receives key s v live nonzero absent in
    let rest =
      offer_all-Receives keys (offer key s) first.sound first.live (ground arith)
        (λ k h. ground (arith, first.stocked (is k), fresh k h)) in
    record {
      sound = rest.sound;
      live = rest.live;
      stocked = λ p z. omega (arith, first.stocked p z, rest.stocked p z);
      len1 = rest.len1 ∙ first.len1;
      len2 = rest.len2 ∙ first.len2;
      seed1 = rest.seed1 ∙ first.seed1;
      seed2 = rest.seed2 ∙ first.seed2;
    }
