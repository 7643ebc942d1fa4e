-- ===== src/Tests/Witnesses.antt =====
-- The theorems on the tables and the chain, each applied at a concrete input.
use cuckoo_graph.Prelude.{
  ℕ, ◌+◌, ◌<◌, ◌≤◌, ◌≡◌, ◌≢◌, ◌↔◌, ◌⊎◌, refl, Bool, true, false, Option, none, some, List, [], ◌∷◌,
  All, arith, tally, length, ◌==◌, flatten, get_or,
}
use cuckoo_graph.Bucket
use cuckoo_graph.Bucket.{Bucket, bup}
use cuckoo_graph.Bucket.Scalar
use cuckoo_graph.Bucket.Simd.{bucket_simd-scalar}
use cuckoo_graph.Layer
use cuckoo_graph.Layer.Placement.{
  Inserts, Deletes, new-IsValid, layer_insert_cases, layer_del_cases,
}
use cuckoo_graph.Cuckoo
use cuckoo_graph.Cuckoo.{Cuckoo}
use cuckoo_graph.Cuckoo.Invariant
use cuckoo_graph.Cuckoo.Invariant.{total, is, new-IsValid_cuckoo}
use cuckoo_graph.Cuckoo.Kick.{Takes}
use cuckoo_graph.Cuckoo.Insert.{insert-Takes, query-insert}
use cuckoo_graph.Cuckoo.Delete.{query-del}
use cuckoo_graph.Resize.{Stage, offer_all, expand, compress}
use cuckoo_graph.Resize.Offer.{Receives, stock, offer_all-Receives}
use cuckoo_graph.Resize.Expand.{expand-IsSound}
use cuckoo_graph.Resize.Compress.{compress-IsValid}
use cuckoo_graph.MergeHash
use cuckoo_graph.MergeHash.{MergeHash}
use cuckoo_graph.MergeHash.Invariant.{Shaped, new_chain-IsValid, query-held, held}
use cuckoo_graph.MergeHash.Insert.{query-insert_chain}
use cuckoo_graph.MergeHash.Delete.{query-del_chain}
use cuckoo_graph.Sketch
use cuckoo_graph.Sketch.{query_bounds, least, sharing, after}
use cuckoo_graph.Tests.Filled.{filled-IsSound}
use cuckoo_graph.Tests.Inputs.{
  nonzero_up, globals, table_code, filled, upto, chain_after, fractions,
}

-- A table with the keys 1 to 6.
abbrev six_keys : Cuckoo
six_keys = (filled (upto 6) (Cuckoo.new 4 2 0 221) globals).0

six_keys-IsValid : Invariant.IsValid six_keys
unfolding upto tally
six_keys-IsValid =
    let (v, bare) = new-IsValid_cuckoo 4 2 0 221 (omega arith) (omega arith) in
    filled-IsSound (upto 6) (Cuckoo.new 4 2 0 221) globals v (nonzero_up 6)
      (λ k nz. ground (arith, bare (is k)))

seven_absent : total (is 7) six_keys ≡ 0
unfolding table_code filled upto tally flatten
seven_absent = refl

chain_after-IsValid :
    (ks : List ℕ) (m : MergeHash) (g : Cuckoo.Globals)
    → MergeHash.Invariant.IsValid m
    → All (λ k. k ≢ 0) ks
    → MergeHash.Invariant.IsValid (chain_after ks m g)
unfolding chain_after
chain_after-IsValid [] m g v h = v
chain_after-IsValid (k ∷ ks) m g v h =
    let (n, g', run, valid, _) = query-insert_chain fractions refl v k g h.0 in
    rw (run, chain_after) (chain_after-IsValid ks n g' valid h.1)

pub eight_four : Shaped 8 4
eight_four = record { log = 2; ratio = 2; positive = omega arith; second = refl; first = refl }

new_chain-IsValid_eight : MergeHash.Invariant.IsValid (MergeHash.new 8 4 0 221)
new_chain-IsValid_eight = (new_chain-IsValid 8 4 0 221 eight_four (omega arith)).0

-- The chain with the keys 1 to 14 in one table.
abbrev pub fourteen_keys : MergeHash
fourteen_keys = chain_after (upto 14) (MergeHash.new 8 4 0 221) globals

pub fourteen_keys-IsValid : MergeHash.Invariant.IsValid fourteen_keys
fourteen_keys-IsValid =
    chain_after-IsValid (upto 14) _ globals new_chain-IsValid_eight (nonzero_up 14)

-- A key of the tables, and one that is not.
abbrev two : ℕ
two = 2

abbrev seven : ℕ
seven = 7

query-insert_chain_example :
    let m = fourteen_keys in
    (n : MergeHash) × (g' : Cuckoo.Globals) × (MergeHash.insert fractions 15 m globals
      ≡ some (true, n, g'))
    × MergeHash.Invariant.IsValid n
    × ((k : ℕ) → k ≢ 0 → (MergeHash.query k n ≡ true) ↔ ((MergeHash.query k m ≡ true) ⊎ (k ≡ 15)))
query-insert_chain_example =
    query-insert_chain fractions refl fourteen_keys-IsValid 15 globals (omega arith)

query-del_chain_example :
    let m = fourteen_keys in
    let (found, n, g') = MergeHash.del fractions 3 m globals in
    MergeHash.Invariant.IsValid n
    × (found ≡ MergeHash.query 3 m)
    × ((k : ℕ) → k ≢ 0 → (MergeHash.query k n ≡ true) ↔ ((MergeHash.query k m ≡ true) × (k ≢ 3)))
query-del_chain_example = query-del_chain fractions fourteen_keys-IsValid 3 globals (omega arith)

query-held_example : (MergeHash.query 3 fourteen_keys ≡ true) ↔ (0 < held (is 3) fourteen_keys)
query-held_example = query-held 3 fourteen_keys-IsValid (omega arith)

new_chain-IsValid_example :
    MergeHash.Invariant.IsValid (MergeHash.new 8 4 0 221)
    × ((p : ℕ → Bool) → held p (MergeHash.new 8 4 0 221) ≡ 0)
new_chain-IsValid_example = new_chain-IsValid 8 4 0 221 eight_four (omega arith)

insert-Takes_example : Takes 0 7 six_keys (Cuckoo.insert 7 six_keys globals)
insert-Takes_example = insert-Takes globals six_keys-IsValid (omega arith) seven_absent

seven_fresh : Cuckoo.query 7 six_keys ≡ false
unfolding table_code filled upto
seven_fresh = refl

query-insert_example :
    let r = Cuckoo.insert seven six_keys globals in
    (Cuckoo.query two r.table ≡ true) ↔ (
      ((Cuckoo.query two six_keys ≡ true) ⊎ (two ≡ seven))
      × ((r.done ≡ true) ⊎ (two ≢ r.globals.mykick)))
query-insert_example =
    query-insert seven two six_keys globals six_keys-IsValid (omega arith) (omega arith) seven_fresh

query-del_example :
    ((Cuckoo.del seven six_keys).0 ≡ Cuckoo.query seven six_keys)
    × ((Cuckoo.query two (Cuckoo.del seven six_keys).1 ≡ true)
        ↔ ((Cuckoo.query two six_keys ≡ true) × (two ≢ seven)))
query-del_example = query-del seven 2 six_keys six_keys-IsValid (omega arith) (omega arith)

compress-IsValid_example :
    let s = compress 0 221 six_keys globals in
    Invariant.IsSound 0 s.table
    × (tally (is 0) s.left ≡ 0)
    × ((p : ℕ → Bool) → p 0 ≡ false → total p s.table + tally p s.left ≡ total p six_keys)
    × (s.table.len1 ≡ 2)
    × (s.table.len2 ≡ 1)
    × (s.table.seed1 ≡ 0)
    × (s.table.seed2 ≡ 221)
unfolding table_code filled upto
compress-IsValid_example = compress-IsValid 2 1 six_keys globals six_keys-IsValid refl refl

expand-IsSound_example :
    let e = expand 0 221 six_keys in
    Invariant.IsSound 0 e
    × ((p : ℕ → Bool) → p 0 ≡ false → total p e ≡ total p six_keys)
    × (e.len1 ≡ 8)
    × (e.len2 ≡ 4)
unfolding table_code filled upto
expand-IsSound_example = expand-IsSound six_keys-IsValid

abbrev some_bucket : Bucket
some_bucket = 4 ∷ 0 ∷ 7 ∷ 0 ∷ 7 ∷ 0 ∷ 0 ∷ 9 ∷ []

bucket_simd-scalar_example :
    (Bucket.query 7 some_bucket ≡ Scalar.query 7 some_bucket)
    × (Bucket.del 7 some_bucket ≡ Scalar.del 7 some_bucket)
    × (Bucket.insert 7 some_bucket ≡ Scalar.insert 7 some_bucket)
bucket_simd-scalar_example = bucket_simd-scalar 7 some_bucket refl

abbrev stream : List ℕ
stream = 5 ∷ 6 ∷ 5 ∷ []

query_bounds_example :
    let q = Sketch.query 5 (after stream) in
    (q ≡ least stream 5)
    × (tally (λ x. x == 5) stream ≤ q)
    × (q ≤ length stream)
    × ((i : ℕ)
        → i < 3
        → sharing 5 i stream ≡ tally (λ x. x == 5) stream
        → q ≡ tally (λ x. x == 5) stream)
query_bounds_example = query_bounds stream 5 (omega arith)

-- Nine keys on their way into two buckets of eight.
abbrev nine_keys : List ℕ
nine_keys = 1 ∷ 2 ∷ 3 ∷ 4 ∷ 5 ∷ 6 ∷ 7 ∷ 8 ∷ 9 ∷ []

abbrev empty_stage : Stage
empty_stage = record { table = Cuckoo.new 1 1 0 221; left = []; globals = globals }

nine_unique : (k : ℕ) → k ≢ 0 → stock (is k) empty_stage + tally (is k) nine_keys ≤ 1
unfolding tally
nine_unique k h =
    ground (arith, (new-IsValid_cuckoo 1 1 0 221 (omega arith) (omega arith)).1 (is k))

offer_all-Receives_example : Receives 0 nine_keys empty_stage (offer_all nine_keys empty_stage)
unfolding tally
offer_all-Receives_example =
    offer_all-Receives nine_keys empty_stage
      (new-IsValid_cuckoo 1 1 0 221 (omega arith) (omega arith)).0 refl refl nine_unique

layer_insert_cases_example : Inserts 7 (Layer.new 3 0) (Layer.insert 7 (Layer.new 3 0))
layer_insert_cases_example = layer_insert_cases 7 (new-IsValid 3 0 (omega arith)) (omega arith)

layer_del_cases_example : Deletes 7 six_keys.layer1 (Layer.del 7 six_keys.layer1)
layer_del_cases_example = layer_del_cases 7 six_keys-IsValid.valid1 (omega arith)

-- The chain of the source's tests after 66 keys: both tables are too full.
abbrev many_keys : MergeHash
many_keys = chain_after (upto 66) (MergeHash.new 4 2 0 221) globals

-- The table at a link.
table_at : ℕ → List (Option Cuckoo) → Cuckoo
table_at i ls = elim (get_or ls i none) [ none ↦ six_keys | some c ↦ c ]
