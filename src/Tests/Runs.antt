-- ===== src/Tests/Runs.antt =====
-- Runs of the tables on concrete keys.
use cuckoo_graph.Prelude.{◌≡◌, refl, true, [], ◌∷◌}
use cuckoo_graph.Hash.{mmhash}
use cuckoo_graph.Bucket
use cuckoo_graph.Bucket.{inserted, duplicate, no_room}
use cuckoo_graph.Cuckoo
use cuckoo_graph.Cuckoo.{Cuckoo}
use cuckoo_graph.MergeHash
use cuckoo_graph.MergeHash.{MergeHash}
use cuckoo_graph.Tests.Inputs.{
  slot_code, slot_after, slot_widths, empty_world, one_edge, globals, table_code, chain_code,
  filled, upto, chain_after, widths, fractions,
}

mmhash_five : mmhash 5 221 ≡ 210088067
unfolding mmhash
mmhash_five = refl

-- The lowest free slot is taken, and the lowest slot of the key is cleared.
insert_first :
    Bucket.insert 9 (4 ∷ 0 ∷ 7 ∷ 0 ∷ 0 ∷ 0 ∷ 0 ∷ 0 ∷ [])
    ≡ (inserted, 4 ∷ 9 ∷ 7 ∷ 0 ∷ 0 ∷ 0 ∷ 0 ∷ 0 ∷ [])
unfolding Bucket.insert
insert_first = refl

del_first :
    Bucket.del 7 (4 ∷ 0 ∷ 7 ∷ 0 ∷ 7 ∷ 0 ∷ 0 ∷ 0 ∷ []) ≡ (true, 4 ∷ 0 ∷ 0 ∷ 0 ∷ 7 ∷ 0 ∷ 0 ∷ 0 ∷ [])
unfolding Bucket.del
del_first = refl

-- Of seventeen keys one finds no room in two buckets of eight, after 500 kicks.
seventeen_keys : (filled (upto 17) (Cuckoo.new 1 1 0 221) globals).2 ≡ 1
unfolding table_code filled upto
seventeen_keys = refl

-- Seventy keys open a third table whose second layer has no bucket.
third_table :
    widths (chain_after (upto 70) (MergeHash.new 4 2 0 221) globals).link
    ≡ (4, 2) ∷ (2, 1) ∷ (1, 0) ∷ []
unfolding chain_code chain_after upto widths
third_table = refl

-- Of fourteen keys thirteen are left, fewer than 0.35 of the slots, and the table is halved.
halved_table :
    let m = chain_after (upto 14) (MergeHash.new 8 4 0 221) globals in
    widths (MergeHash.del fractions 3 m globals).1.link ≡ (4, 2) ∷ []
unfolding chain_code chain_after upto widths
halved_table = refl

-- Seven destinations move into a table, more of them open a second and a third one, and then the
-- three are merged.
slot_tables :
    (slot_widths (slot_after (upto 6) one_edge empty_world).0 ≡ [])
    × (slot_widths (slot_after (upto 7) one_edge empty_world).0 ≡ (4, 2) ∷ [])
    × (slot_widths (slot_after (upto 50) one_edge empty_world).0 ≡ (4, 2) ∷ (2, 1) ∷ [])
    × (slot_widths (slot_after (upto 70) one_edge empty_world).0 ≡ (4, 2) ∷ (2, 1) ∷ (2, 1) ∷ [])
    × (slot_widths (slot_after (upto 100) one_edge empty_world).0 ≡ (8, 4) ∷ (4, 2) ∷ [])
unfolding slot_code slot_after upto slot_widths
slot_tables = (refl, refl, refl, refl, refl)
