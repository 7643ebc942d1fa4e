-- ===== src/Tests/SlotWitnesses.antt =====
-- The theorems on the slots, each applied at a concrete input.
use cuckoo_graph.Prelude.{
  ◌++◌, ℕ, ◌+◌, ◌<◌, ◌≤◌, ◌≡◌, ◌≢◌, ◌↔◌, inl, refl, List, [], ◌∷◌, ◌++◌, All, arith, tally, length,
  map, to_nat, ltb, ◌*◌,
}
use cuckoo_graph.Cuckoo
use cuckoo_graph.Cuckoo.Invariant
use cuckoo_graph.Cuckoo.Invariant.{total, is}
use cuckoo_graph.Slot
use cuckoo_graph.Slot.{Slot, World, edge, query}
use cuckoo_graph.Slot.Neighbours.{query_successor, get_neighbors}
use cuckoo_graph.Slot.Invariant.{Fits, IsValid, held, slot_query-held}
use cuckoo_graph.Slot.Listing.{successors-query}
use cuckoo_graph.Cuckoo.Insert.{insert-Takes}
use cuckoo_graph.MergeHash.Invariant.{pow2}
use cuckoo_graph.Slot.Merge.{merge3}
use cuckoo_graph.Slot.Merged.{merge3-Holds}
use cuckoo_graph.Slot.Place.{Holds, listed, new-Fits, Takes-Fits}
use cuckoo_graph.Slot.Delete.{IsSmall, Quits, query-del_slot}
use cuckoo_graph.Slot.Insert.{Enters, query-insert_slot}
use cuckoo_graph.Tests.Inputs.{
  slot_code, filled, nonzero_up, fractions, globals, upto, slot_after, empty_world, one_edge,
}

one_edge-IsValid : IsValid one_edge empty_world
unfolding tally Slot.own
one_edge-IsValid = record { formed = (refl, refl, refl); unique = λ d nz. ground arith }

slot_after-IsValid :
    (ks : List ℕ) (b : Slot) (w : World)
    → b.src ≡ 1
    → IsValid b w
    → All (λ k. k ≢ 0) ks
    → let (b', w') = slot_after ks b w in (b'.src ≡ 1) × IsValid b' w'
unfolding slot_after
slot_after-IsValid [] b w e v h = (e, v)
slot_after-IsValid (k ∷ ks) b w e v h =
    let (code, b', w', runs, e', v', _, _) = query-insert_slot fractions (edge 1 k) v h.0 (inl e) in
    rw (runs, slot_after) (slot_after-IsValid ks b' w' e' v' h.1)

-- A slot with 69 destinations in three tables that are nearly full.
abbrev full_slot : Slot
full_slot = (slot_after (upto 69) one_edge empty_world).0

abbrev full_world : World
full_world = (slot_after (upto 69) one_edge empty_world).1

full_slot-IsValid : (full_slot.src ≡ 1) × IsValid full_slot full_world
full_slot-IsValid =
    slot_after-IsValid (upto 69) one_edge empty_world refl one_edge-IsValid (nonzero_up 69)

query-insert_slot_example :
    Enters
      (edge 1 99)
      full_slot
      full_world
      (Slot.Grow.insert fractions (edge 1 99) full_slot full_world)
query-insert_slot_example =
    query-insert_slot fractions (edge 1 99) full_slot-IsValid.1 (omega arith)
      (inl full_slot-IsValid.0)

slot_query-held_example :
    (0 < query (edge full_slot.src 7) full_slot full_world) ↔ (0 < held (is 7) full_slot full_world)
slot_query-held_example = slot_query-held 7 full_slot-IsValid.1 (omega arith)

successors-query_example :
    (ks : List ℕ) × (query_successor full_slot.src (3 ∷ []) full_slot full_world
      ≡ (3 ∷ [] ++ ks, length ks))
    × (get_neighbors full_slot.src full_slot full_world ≡ map (λ d. (d, 1)) ks)
    × (tally (is 0) ks ≡ 0)
    × ((d : ℕ)
        → d ≢ 0
        → tally (is d) ks ≡ to_nat (ltb 0 (query (edge full_slot.src d) full_slot full_world)))
successors-query_example = successors-query (3 ∷ []) full_slot-IsValid.1

-- Tables with one key each.
abbrev one_key : ℕ → ℕ → ℕ → Cuckoo.Cuckoo
one_key l1 l2 key = (Cuckoo.insert key (Cuckoo.new l1 l2 0 221) globals).table

one_key-Fits :
    (k l1 l2 key : ℕ)
    → l1 ≡ pow2 k * 2
    → l2 ≡ pow2 k
    → key ≢ 0
    → Fits k (one_key l1 l2 key)
      × ((j : ℕ) → j ≢ 0 → total (is j) (one_key l1 l2 key) ≤ to_nat (is j key))
one_key-Fits k l1 l2 key e1 e2 nz =
    let (fits, bare) = new-Fits k l1 l2 e1 e2 in
    let t = insert-Takes globals fits.valid nz (ground (arith, bare (is key))) in
    (Takes-Fits fits t, λ j h. ground (arith, bare (is j), t.tallies (is j)))

keys_unique :
    (j : ℕ)
    → j ≢ 0
    → total (is j) (one_key 4 2 5) + total (is j) (one_key 2 1 6) + total (is j) (one_key 2 1 7) ≤ 1
keys_unique j h = ground (
  arith,
  (one_key-Fits 1 4 2 5 refl refl (omega arith)).1 j h,
  (one_key-Fits 0 2 1 6 refl refl (omega arith)).1 j h,
  (one_key-Fits 0 2 1 7 refl refl (omega arith)).1 j h,
)

merge3-Holds_example :
    Holds 2 1
      (λ p.
        total p (one_key 4 2 5)
        + total p (one_key 2 1 6)
        + total p (one_key 2 1 7)
        + listed p 1 empty_world)
      empty_world
      (merge3 1 (one_key 4 2 5) (one_key 2 1 6) (one_key 2 1 7) empty_world)
unfolding tally Slot.own
merge3-Holds_example =
    merge3-Holds 1 (one_key 4 2 5) (one_key 2 1 6) (one_key 2 1 7) empty_world
      (one_key-Fits 1 4 2 5 refl refl (omega arith)).0
      (one_key-Fits 0 2 1 6 refl refl (omega arith)).0
      (one_key-Fits 0 2 1 7 refl refl (omega arith)).0 refl keys_unique

-- Sixteen keys that all belong in the same two buckets, which they fill.
abbrev crowd : List ℕ
crowd = 2 ∷ 9 ∷ 11 ∷ 15 ∷ 24 ∷ 26 ∷ 32 ∷ 38 ∷ 41 ∷ 44 ∷ 53 ∷ 54 ∷ 58 ∷ 62 ∷ 71 ∷ 84 ∷ []

abbrev crowded : Cuckoo.Cuckoo
crowded = (filled crowd (Cuckoo.new 4 2 0 221) globals).0

-- A slot with 50 destinations in two tables.
abbrev fifty : Slot × World
fifty = slot_after (upto 50) one_edge empty_world

fifty-IsValid : (fifty.0.src ≡ 1) × IsValid fifty.0 fifty.1
fifty-IsValid =
    slot_after-IsValid (upto 50) one_edge empty_world refl one_edge-IsValid (nonzero_up 50)

fifty-IsSmall : IsSmall fifty.0.slot × (Slot.own 0 fifty.1.sblacklist ≡ [])
unfolding slot_code slot_after upto
fifty-IsSmall = (tt, refl)

query-del_slot_example :
    Quits (edge 1 20) fifty.0 fifty.1 (Slot.Shrink.del fractions (edge 1 20) fifty.0 fifty.1)
query-del_slot_example =
    query-del_slot fractions (edge 1 20) fifty-IsValid.1 fifty-IsSmall.0 (omega arith)
      fifty-IsValid.0 fifty-IsSmall.1
