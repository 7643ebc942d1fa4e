-- ===== src/Cuckoo/Delete.antt =====
-- `Cuckoo::del`: the key goes out, the other keys stay, and `query` sees just that.
use cuckoo_graph.Prelude.{
  ℕ, ◌+◌, ◌-◌, ◌≡◌, ◌≢◌, ◌↔◌, refl, Bool, true, false, arith, dec, to_nat, if◌then◌else◌,
}
use cuckoo_graph.Layer
use cuckoo_graph.Layer.Placement.{
  Changes, Changes-refl, layer_del_cases, layer_lacked, layer_removed,
}
use cuckoo_graph.Cuckoo.{Cuckoo, del, query}
use cuckoo_graph.Cuckoo.Invariant.{IsValid, total, is, is_key, rebuilt-IsValid, cuckoo_query-total}

-- What a deletion of `key` leaves: a valid table of the same shape, with the keys of `c` but
-- `key`, and an answer that says whether it was there.
pub record Drops (key : ℕ) (c : Cuckoo) (r : Bool × Cuckoo) : Type 0 where
  pub valid : IsValid r.1
  pub tallies :
      (p : ℕ → Bool) → p 0 ≡ false → total p r.1 + (if r.0 then to_nat (p key) else 0) ≡ total p c
  pub gone : total (is key) r.1 ≡ 0
  pub len1 : r.1.len1 ≡ c.len1
  pub len2 : r.1.len2 ≡ c.len2
  pub seed1 : r.1.seed1 ≡ c.seed1
  pub seed2 : r.1.seed2 ≡ c.seed2

module _ {key : ℕ} {c : Cuckoo} (v : IsValid c) (nonzero : key ≢ 0) where
  -- One of the layers has lost the key.
  removed-Drops :
      {m n : Layer.Layer} {o1 f1 o2 f2 : ℕ}
      → Changes o1 f1 c.layer1 m
      → Changes o2 f2 c.layer2 n
      → ((p : ℕ → Bool)
          → p 0 ≡ false
          → to_nat (p o1) + to_nat (p o2) ≡ to_nat (p f1) + to_nat (p f2) + to_nat (p key))
      → Drops key c (true, record c { num = dec c.num; layer1 = m; layer2 = n })
  removed-Drops a b balance = record {
    valid =
        rebuilt-IsValid (dec c.num) v a b
          (λ k h. ground (arith, v.unique k h, a.tallies (is k), b.tallies (is k), balance (is k)))
          (
            v.counted.0 - 1,
            rw v.counted.1
                (ground (arith, v.counted.2, a.tallies is_key, b.tallies is_key, balance is_key)),
            ground (arith, v.counted.2, a.tallies is_key, b.tallies is_key, balance is_key),
          );
    tallies = λ p e. omega (arith, a.tallies p, b.tallies p, balance p e);
    gone =
        ground
          (arith, v.unique key nonzero, a.tallies (is key), b.tallies (is key), balance (is key));
    len1 = refl;
    len2 = refl;
    seed1 = refl;
    seed2 = refl;
  }

  -- For a valid table, `del` of a key leaves a valid table of the same shape that holds the other
  -- keys and not this one, and its answer says whether the key was there.
  pub del-Drops : Drops key c (del key c)
  unfolding del
  del-Drops = elim (layer_del_cases key v.valid1 nonzero) [
    | layer_removed m e ch ↦
        rw (e, del) (removed-Drops ch (Changes-refl 0 v.valid2) (λ p z. ground arith))
    | layer_lacked e none ↦ elim (layer_del_cases key v.valid2 nonzero) [
      | layer_removed n f ch ↦
          rw (e, f, del) (removed-Drops (Changes-refl 0 v.valid1) ch (λ p z. ground arith))
      | layer_lacked f none2 ↦
          rw (e, f, del)
            (record {
              valid = v;
              tallies = λ p z. omega arith;
              gone = omega arith;
              len1 = refl;
              len2 = refl;
              seed1 = refl;
              seed2 = refl;
            })
    ]
  ]

-- The same as the answers of `query`: `del` answers what `query` would have answered, and
-- afterwards `query` finds just the other keys.
pub query-del :
    (item key : ℕ) (c : Cuckoo)
    → IsValid c
    → item ≢ 0
    → key ≢ 0
    → ((del item c).0 ≡ query item c)
      × ((query key (del item c).1 ≡ true) ↔ ((query key c ≡ true) × (key ≢ item)))
query-del item key c v nonzero live =
    let d = del-Drops v nonzero in
    let before = cuckoo_query-total item v nonzero in
    let old = cuckoo_query-total key v live in
    let now = cuckoo_query-total key d.valid live in
    (
      ground (arith, before, d.tallies (is item), d.gone),
      ground (arith, before, old, now, d.tallies (is key), d.tallies (is item), d.gone),
    )
