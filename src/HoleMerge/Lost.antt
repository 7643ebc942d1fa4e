-- ===== src/HoleMerge/Lost.antt =====
-- The second loop of holemerge::post_del where no table has room.
use cuckoo_graph.Prelude.{
  ℕ, zero, suc, ◌+◌, ◌-◌, ◌≤◌, ◌≡◌, ◌≢◌, ◌∙◌, refl, ap, subst, to_nat, inl, inr, Bool, true, false,
  arith, ltb, Bool-cases, some, List, [], ◌∷◌, length, drop, All, tally,
}
use cuckoo_graph.Cuckoo.Invariant.{is}
use cuckoo_graph.Floats.{Floats}
use cuckoo_graph.Slot.{edge, Slot}
use cuckoo_graph.Slot.Stands.{Graph, Stands}
use cuckoo_graph.NodeTable.Kicks.{NodeTable, Store}
use cuckoo_graph.NodeTable.Placement.{on, free}
use cuckoo_graph.HoleMerge.{HoleMerge, query, bbl}
use cuckoo_graph.HoleMerge.Offer.{room}
use cuckoo_graph.HoleMerge.Shrink.{rehome_slot, rehome}
use cuckoo_graph.HoleMerge.Invariant.{
  Represents, links_total, links_query-graph, listed_query-graph,
}

-- Nothing is dropped from a short list.
drop_short : (bs : List Slot) → length bs ≤ bbl → bs ≡ drop (length bs - bbl) bs
drop_short bs h = let e : 0 ≡ length bs - bbl = omega arith in ap (λ k. drop k bs) e

module _ (fl : Floats) where
  rehome_slot_full :
      (b : Slot) (cs : List NodeTable) (left : List Slot) (g : Store)
      → All (λ c. room fl c ≡ false) cs
      → rehome_slot fl b cs left g ≡ (false, cs, left, g)
  unfolding rehome_slot
  rehome_slot_full b [] left g a = refl
  rehome_slot_full b (c ∷ cs) left g a = rw (rehome_slot_full b cs left g a.1, a.0) refl

  rehome_drops :
      (n : ℕ) (bs : List Slot) (m : HoleMerge) (g : Store)
      → All (λ c. room fl c ≡ false) m.link
      → length bs ≤ n + bbl
      → rehome fl n (record m { blacklist = bs }) g
        ≡ some (record m { blacklist = drop (length bs - bbl) bs }, g)
  unfolding rehome
  rehome_drops zero bs m g a enough =
      let shut : ltb bbl (length bs) ≡ false = ground arith in
      let short : length bs ≤ bbl = omega arith in
      rw shut (ap (λ l. some (record m { blacklist = l }, g)) (drop_short bs short))
  rehome_drops (suc n) [] m g a enough = refl
  rehome_drops (suc n) (b ∷ bs) m g a enough = elim (Bool-cases (ltb bbl (suc (length bs)))) [
    | inl more ↦
        let step : suc (length bs - bbl) ≡ suc (length bs) - bbl = ground arith in
        rw (more, rehome_slot_full b m.link bs g a)
          (rehome_drops n bs m g a (omega arith)
            ∙ ap (λ k. some (record m { blacklist = drop k (b ∷ bs) }, g)) step)
    | inr few_left ↦
        rw few_left
          (ap (λ l. some (record m { blacklist = l }, g)) (drop_short (b ∷ bs) (ground arith)))
  ]

length-drop : (n : ℕ) (bs : List Slot) → length (drop n bs) ≡ length bs - n
length-drop zero bs = omega arith
length-drop (suc n) [] = omega arith
length-drop (suc n) (b ∷ bs) = omega (arith, length-drop n bs)

-- What is left of a list where more than its first entry is dropped.
module _ (p : Slot → Bool) where
  tally-drop : (n : ℕ) (bs : List Slot) → tally p (drop n bs) ≤ tally p bs
  unfolding tally
  tally-drop zero bs = omega arith
  tally-drop (suc n) [] = omega arith
  tally-drop (suc n) (b ∷ bs) = omega (arith, tally-drop n bs)

All-drop : (P : Slot → Type 0) (n : ℕ) (bs : List Slot) → All P bs → All P (drop n bs)
All-drop P zero bs a = a
All-drop P (suc n) [] a = tt
All-drop P (suc n) (b ∷ bs) a = All-drop P n bs a.1

-- On a well-formed store none of whose tables has room by its load, and whose blacklist has more than
-- 128 slots, the second loop of `post_del` ends within one round for each slot. It leaves the tables
-- and the global variables as they are and keeps the last 128 slots of the blacklist only, and
-- `query` then finds no edge of the source of the first slot, whatever edges the graph has for it.
pub query-rehome :
    (fl : Floats) {graph : Graph} (m : HoleMerge) (g : Store) (b : Slot) (bs : List Slot)
    → Represents graph m g.world
    → m.blacklist ≡ b ∷ bs
    → bbl ≤ length bs
    → All (λ c. room fl c ≡ false) m.link
    → (m' : HoleMerge) × (rehome fl (length m.blacklist) m g ≡ some (m', g))
      × (m'.link ≡ m.link)
      × (m'.blacklist ≡ drop (length m.blacklist - bbl) m.blacklist)
      × (length m'.blacklist ≡ bbl)
      × ((d : ℕ) → d ≢ 0 → query (edge b.src d) m' g.world ≡ 0)
unfolding query tally
query-rehome fl {graph} m g b bs v at many full =
    let n = length m.blacklist - bbl in
    let left = drop n m.blacklist in
    let m' : HoleMerge = record m { blacklist = left } in
    let lives : tally (on free) (b ∷ bs) ≡ 0 = subst (λ l. tally (on free) l ≡ 0) at v.live in
    let live : b.src ≢ 0 = ground arith in
    let counts : tally (on (is b.src)) m.blacklist
        ≡ to_nat (is b.src b.src) + tally (on (is b.src)) bs =
      ap (tally (on (is b.src))) at in
    let once = v.unique b.src live in
    let dropped : left ≡ drop (length bs - bbl) bs =
      let step : suc (length bs) - bbl ≡ suc (length bs - bbl) = ground arith in
      ap (λ l. drop (length l - bbl) l) at ∙ ap (λ k. drop k (b ∷ bs)) step in
    let few_left = tally-drop (on (is b.src)) (length bs - bbl) bs in
    let same : tally (on (is b.src)) left ≡ tally (on (is b.src)) (drop (length bs - bbl) bs) =
      ap (tally (on (is b.src))) dropped in
    let one : is b.src b.src ≡ true = ground arith in
    let none_left : links_total (is b.src) m.link + tally (on (is b.src)) left ≡ 0 = ground arith in
    (
      m',
      rehome_drops fl (length m.blacklist) m.blacklist m g full (omega arith),
      refl,
      refl,
      omega (arith, length-drop n m.blacklist, ap length at),
      λ d nz.
          let w = g.world in
          let e = edge b.src d in
          let x = links_query-graph graph w e live nz m.link v.sound in
          let y =
            listed_query-graph graph w e live nz left
              (All-drop (Stands graph w) n m.blacklist v.stands) in
          ground (arith, x, y),
    )
