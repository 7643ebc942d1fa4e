-- ===== src/HoleMerge/Successors.antt =====
-- holemerge::query_successor and holemerge::GetNeighbors against the graph.
use cuckoo_graph.Prelude.{
  ℕ, ◌+◌, ◌<◌, ◌≡◌, ◌≢◌, ◌↔◌, ◌∙◌, refl, sym, subst, ap, inl, inr, true, ◌==◌, Option, none, some,
  List, [], ◌∷◌, ◌++◌, map, append-nil, arith, length, tally, to_nat, ltb, All, Bool-cases,
}
use cuckoo_graph.Hash.{home}
use cuckoo_graph.Bucket.{bup}
use cuckoo_graph.Cuckoo.Invariant.{is}
use cuckoo_graph.Slot.{edge, Slot, World, query}
use cuckoo_graph.Slot.Neighbours
use cuckoo_graph.Slot.Stands.{Graph, Stands}
use cuckoo_graph.Slot.Listing.{successors-query}
use cuckoo_graph.NodeTable.Row.{Row}
use cuckoo_graph.NodeTable.Layers
use cuckoo_graph.NodeTable.Kicks.{NodeTable}
use cuckoo_graph.NodeTable.Placement.{on, count-home, index-lt}
use cuckoo_graph.NodeTable.Conserve.{IsSound}
use cuckoo_graph.HoleMerge.{HoleMerge, pick, pick_listed, slot_of, query_successor, get_neighbors}
use cuckoo_graph.HoleMerge.Invariant.{Represents, links_total}

-- What a search for the slot of `s` gives: that slot, or none where there is none.
data Picks (P : Slot → Type 0) (s n : ℕ) (r : Option Slot) : Type 0 where
  picked : (b : Slot) → r ≡ some b → b.src ≡ s → P b → Picks P s n r
  no_slot : r ≡ none → n ≡ 0 → Picks P s n r

module _ (P : Slot → Type 0) (s : ℕ) where
  pick-Picks :
      (xs ys : Row)
      → All P xs
      → All P ys
      → length xs ≡ length ys
      → Picks P s (tally (on (is s)) xs + tally (on (is s)) ys) (pick s xs ys)
  unfolding pick tally
  pick-Picks [] [] a b e = no_slot refl (omega arith)
  pick-Picks [] (y ∷ ys) a b e = absurd (omega arith)
  pick-Picks (x ∷ xs) [] a b e = absurd (omega arith)
  pick-Picks (x ∷ xs) (y ∷ ys) a b e = elim (Bool-cases (s == x.src)) [
    | inl t ↦ picked x (rw t refl) (ground arith) a.0
    | inr f ↦ elim (Bool-cases (s == y.src)) [
      | inl t ↦ picked y (rw (f, t) refl) (ground arith) b.0
      | inr f2 ↦ elim (pick-Picks xs ys a.1 b.1 (omega arith)) [
        | picked z r at h ↦ picked z (rw (f, f2, r) refl) at h
        | no_slot r none_there ↦ no_slot (rw (f, f2, r) refl) (ground arith)
      ]
    ]
  ]

  pick_listed-Picks :
      (bs : List Slot) → All P bs → Picks P s (tally (on (is s)) bs) (pick_listed s bs)
  unfolding pick_listed tally
  pick_listed-Picks [] a = no_slot refl refl
  pick_listed-Picks (b ∷ bs) a = elim (Bool-cases (b.src == s)) [
    | inl t ↦ picked b (rw t refl) (ground arith) a.0
    | inr f ↦ elim (pick_listed-Picks bs a.1) [
      | picked z r at h ↦ picked z (rw (f, r) refl) at h
      | no_slot r none_there ↦ no_slot (rw (f, r) refl) (ground arith)
    ]
  ]

  slot_of-Picks :
      (cs : List NodeTable) (bs : List Slot)
      → s ≢ 0
      → All (IsSound P) cs
      → All P bs
      → Picks P s (links_total (is s) cs + tally (on (is s)) bs) (slot_of s cs bs)
  unfolding slot_of
  slot_of-Picks [] bs live a b = elim (pick_listed-Picks bs b) [
    | picked z r at h ↦ picked z r at h
    | no_slot r none_there ↦ no_slot r (omega arith)
  ]
  slot_of-Picks (c ∷ cs) bs live a b =
      let v = a.0 in
      let i = home s c.seed1 c.layer1.length in
      let j = home s c.seed2 c.layer2.length in
      let at1 : i ≡ Layers.index s c.layer1 =
        ap (λ k. home s k c.layer1.length) (sym v.same_seed1) in
      let at2 : j ≡ Layers.index s c.layer2 =
        ap (λ k. home s k c.layer2.length) (sym v.same_seed2) in
      let wide1 : length (Layers.row i c.layer1) ≡ bup =
        v.valid1.widths i (rw at1 (index-lt s v.valid1)) in
      let wide2 : length (Layers.row j c.layer2) ≡ bup =
        v.valid2.widths j (rw at2 (index-lt s v.valid2)) in
      let here1 = count-home s v.valid1 live in
      let here2 = count-home s v.valid2 live in
      let same1 = ap (λ k. tally (on (is s)) (Layers.row k c.layer1)) at1 in
      let same2 = ap (λ k. tally (on (is s)) (Layers.row k c.layer2)) at2 in
      elim (pick-Picks (Layers.row i c.layer1) (Layers.row j c.layer2) (v.valid1.stands i)
        (v.valid2.stands j) (wide1 ∙ sym wide2)) [
          | picked z r at h ↦ picked z (rw (r, slot_of) refl) at h
          | no_slot r none_there ↦ elim (slot_of-Picks cs bs live a.1 b) [
            | picked z r2 at h ↦ picked z (rw (r, slot_of) (rw r2 refl)) at h
            | no_slot r2 none_here ↦ no_slot (rw (r, slot_of) (rw r2 refl)) (omega arith)
          ]
        ]

-- On a well-formed store and for a source that is not 0, `query_successor` appends to the array, and
-- `GetNeighbors` returns with the weight 1, one list: it has each destination of the source in the
-- graph once, no other, and no 0.
pub successors-graph :
    (s : ℕ) (successor : List ℕ) {graph : Graph} {m : HoleMerge} {w : World}
    → Represents graph m w
    → s ≢ 0
    → (ks : List ℕ) × (query_successor s successor m w ≡ (successor ++ ks, length ks))
      × (get_neighbors s m w ≡ map (λ d. (d, 1)) ks)
      × (tally (is 0) ks ≡ 0)
      × ((d : ℕ) → d ≢ 0 → tally (is d) ks ≡ to_nat (graph s d))
unfolding query_successor get_neighbors tally
successors-graph s successor {graph} {m} {w} v live =
    elim (slot_of-Picks (Stands graph w) s m.link m.blacklist live v.sound v.stands) [
      | picked b r at h ↦
          let found = (λ (t : ℕ) (i : b.src ≡ t).
            subst
              (λ k.
                (ks : List ℕ) × (Neighbours.query_successor k successor b w
                  ≡ (successor ++ ks, length ks))
                × (Neighbours.get_neighbors k b w ≡ map (λ d. (d, 1)) ks)
                × (tally (is 0) ks ≡ 0)
                × ((d : ℕ) → d ≢ 0 → tally (is d) ks ≡ to_nat (ltb 0 (query (edge k d) b w))))
              i (successors-query successor h.valid)) in
          let (ks, run1, run2, no_zero, each) = found s at in
          (
            ks,
            rw (r, query_successor) run1,
            rw (r, get_neighbors) run2,
            no_zero,
            λ d nz.
                let there =
                  subst (λ k. (0 < query (edge k d) b w) ↔ (graph k d ≡ true)) at
                    (h.lists (λ z. live (sym at ∙ z)) d nz) in
                ground (arith, each d nz, there),
          )
      | no_slot r none_there ↦
          let (blank, unlisted) = v.known s live none_there in
          (
            [],
            rw (r, query_successor) (ap (λ l. (l, 0)) (sym (append-nil successor))),
            rw (r, get_neighbors) refl,
            refl,
            λ d nz. rw (blank d) refl,
          )
    ]
