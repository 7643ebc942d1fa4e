-- ===== src/Slot/Listing.antt =====
-- The neighbours that `query_successor` and `GetNeighbors` list are those that `query` finds.
use cuckoo_graph.Prelude.{
  ℕ, ◌+◌, ◌≡◌, ◌≢◌, inl, inr, refl, Bool, false, ◌==◌, arith, Option, none, some, List, [], ◌∷◌,
  ◌++◌, length, map, tally, tally-append, Bool-cases, to_nat, ltb, ◌∙◌,
}
use cuckoo_graph.Layer.Placement
use cuckoo_graph.Cuckoo.{Cuckoo}
use cuckoo_graph.Cuckoo.Invariant.{total, is, is_key}
use cuckoo_graph.MergeHash.Invariant.{link_total}
use cuckoo_graph.Slot.{edge, World, Content, few, grown, Slot, query, own}
use cuckoo_graph.Slot.Lists.{tally-le-keys}
use cuckoo_graph.Slot.Shrink.{contents}
use cuckoo_graph.Slot.Neighbours.{taken, table_keys, gather, query_successor, get_neighbors}
use cuckoo_graph.Slot.Invariant.{held, IsFormed, IsValid, slot_query-held}

tally-taken : (p : ℕ → Bool) (xs : List ℕ) → p 0 ≡ false → tally p (taken xs) ≡ tally p xs
unfolding taken tally
tally-taken p [] z = refl
tally-taken p (x ∷ xs) z = elim (Bool-cases (x == 0)) [
  | inl e ↦ let same : x ≡ 0 = ground arith in rw e (rw same (ground (arith, tally-taken p xs z)))
  | inr e ↦ rw e (omega (arith, tally-taken p xs z))
]

taken_live : (xs : List ℕ) → tally (is 0) (taken xs) ≡ 0
unfolding taken tally
taken_live [] = refl
taken_live (x ∷ xs) = ground (arith, taken_live xs)

pub tally-contents : (p : ℕ → Bool) (c : Cuckoo) → tally p (contents c) ≡ total p c
unfolding contents
tally-contents p c = tally-append p (Placement.keys c.layer1) (Placement.keys c.layer2)

tally-table_keys :
    (p : ℕ → Bool) (o : Option Cuckoo) → p 0 ≡ false → tally p (table_keys o) ≡ link_total p o
unfolding table_keys tally
tally-table_keys p none z = refl
tally-table_keys p (some c) z = tally-taken p (contents c) z ∙ tally-contents p c

table_keys_live : (o : Option Cuckoo) → tally (is 0) (table_keys o) ≡ 0
unfolding table_keys tally
table_keys_live none = refl
table_keys_live (some c) = taken_live (contents c)

append4_tally :
    (p : ℕ → Bool) (a b c d : List ℕ)
    → tally p (a ++ b ++ c ++ d) ≡ tally p a + tally p b + tally p c + tally p d
append4_tally p a b c d =
    omega (arith, tally-append p (a ++ b ++ c) d, tally-append p (a ++ b) c, tally-append p a b)

-- What is gathered: each destination once, and no free slot.
gather-held :
    {b : Slot} {w : World} (p : ℕ → Bool)
    → IsValid b w
    → p 0 ≡ false
    → (tally p (gather b.src b w) ≡ held p b w) × (tally (is 0) (gather b.src b w) ≡ 0)
unfolding gather tally
gather-held {b} {w} p v z = go b.slot v.formed
  where
    go :
        (c : Content)
        → let b' : Slot = record { src = b.src; slot = c } in
          IsFormed b' w
          → (tally p (gather b.src b' w) ≡ held p b' w) × (tally (is 0) (gather b.src b' w) ≡ 0)
    go (few pt ks) f = elim (Bool-cases (pt == 0)) [
      | inl e ↦ rw e (ground (arith, tally-le-keys p ks z, f.1), refl)
      | inr e ↦ rw e (tally-taken p ks z, taken_live ks)
    ]
    go (grown s0 s1 s2) f =
        let k0 = table_keys s0 in
        let k1 = table_keys s1 in
        let k2 = table_keys s2 in
        let o = own b.src w.sblacklist in
        let all : tally p (k0 ++ k1 ++ k2 ++ o)
            ≡ link_total p s0 + link_total p s1 + link_total p s2 + tally p o =
          omega (
            arith,
            append4_tally p k0 k1 k2 o,
            tally-table_keys p s0 z,
            tally-table_keys p s1 z,
            tally-table_keys p s2 z,
          ) in
        let live : tally (is 0) (k0 ++ k1 ++ k2 ++ o) ≡ 0 = omega (
          arith,
          append4_tally (is 0) k0 k1 k2 o,
          table_keys_live s0,
          table_keys_live s1,
          table_keys_live s2,
          f.1,
        ) in
        (all, live)

-- On a valid slot `query_successor` appends to the array, and `GetNeighbors` returns with the weight
-- 1, one list of keys: it has each destination that `query` finds once, no other, and no 0.
pub successors-query :
    {b : Slot} {w : World} (successor : List ℕ)
    → IsValid b w
    → (ks : List ℕ) × (query_successor b.src successor b w ≡ (successor ++ ks, length ks))
      × (get_neighbors b.src b w ≡ map (λ d. (d, 1)) ks)
      × (tally (is 0) ks ≡ 0)
      × ((d : ℕ) → d ≢ 0 → tally (is d) ks ≡ to_nat (ltb 0 (query (edge b.src d) b w)))
successors-query {b} {w} successor v = (
  gather b.src b w,
  unfold query_successor in refl,
  unfold get_neighbors in refl,
  (gather-held is_key v refl).1,
  λ d nz.
      ground (arith, gather-held (is d) v (ground arith), slot_query-held d v nz, v.unique d nz),
)
