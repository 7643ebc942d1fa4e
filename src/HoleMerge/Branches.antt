-- ===== src/HoleMerge/Branches.antt =====
-- The branches of holemerge::insert by the number of tables, for an edge whose source has no slot.
use cuckoo_graph.Prelude.{
  ℕ, ◌+◌, ◌*◌, ◌/◌, ◌<◌, ◌≤◌, ◌≡◌, ◌≢◌, ◌∙◌, refl, ap, ap₂, inl, inr, Bool, false, not, ◌||◌, leb,
  List, [], ◌∷◌, arith, tally, length as size, All, Bool-cases,
}
use cuckoo_graph.Cuckoo.Invariant.{is}
use cuckoo_graph.Floats.{Floats}
use cuckoo_graph.Slot
use cuckoo_graph.Slot.{Edge, Slot, World, own}
use cuckoo_graph.Slot.Stands.{Graph, adds, Stands, Stands-other, new_slot-Stands, Stands-world}
use cuckoo_graph.NodeTable
use cuckoo_graph.NodeTable.Kicks.{NodeTable, Store}
use cuckoo_graph.NodeTable.Placement.{on, free, IsTidy}
use cuckoo_graph.NodeTable.Conserve.{IsSound, total, new-IsSound, new-total}
use cuckoo_graph.NodeTable.Update.{All-moves, IsSound-weaker}
use cuckoo_graph.HoleMerge.{HoleMerge, bbl}
use cuckoo_graph.HoleMerge.Offer.{room}
use cuckoo_graph.HoleMerge.Merge.{merge3}
use cuckoo_graph.HoleMerge.Grow.{place, reopen, open_to, merged, insert_new}
use cuckoo_graph.HoleMerge.Receive.{Stocked, stock, offer_all_slots-Receives}
use cuckoo_graph.HoleMerge.Merged.{Fits, merge3-Fits}
use cuckoo_graph.HoleMerge.Invariant.{
  Represents, Shape, Dims, dims, all_dims, sized, links_total, count,
}
use cuckoo_graph.HoleMerge.Fresh.{Adds, place-Adds}

new-dims : (l1 l2 s1 s2 : ℕ) → dims (NodeTable.new l1 l2 s1 s2) ≡ sized s1 s2 l1 l2
unfolding NodeTable.new
new-dims l1 l2 s1 s2 = refl

-- A new table that takes in the slots of a list.
reopen-Stocked :
    {P : Slot → Type 0} (tidy : (b : Slot) → P b → IsTidy b) (l1 l2 s1 s2 : ℕ) (bs : List Slot)
    (g : Store)
    → P Slot.new
    → 0 < l1
    → 0 < l2
    → All P bs
    → tally (on free) bs ≡ 0
    → let s = reopen bs (NodeTable.new l1 l2 s1 s2) g in
      Stocked P s
      × (dims s.table ≡ sized s1 s2 l1 l2)
      × ((p : ℕ → Bool) → p 0 ≡ false → stock p s ≡ tally (on p) bs)
      × (s.store.world.sblacklist ≡ g.world.sblacklist)
unfolding reopen tally
reopen-Stocked tidy l1 l2 s1 s2 bs g h p q stands live =
    let c = NodeTable.new l1 l2 s1 s2 in
    let r =
      offer_all_slots-Receives tidy bs (record { table = c; left = []; store = g })
        (record { sound = new-IsSound l1 l2 s1 s2 p q h; stands = tt; live = refl }) stands live in
    (
      r.kept,
      unfold NodeTable.new in
          λ i. record { len1 = r.len1 i; len2 = r.len2 i; seed1 = r.seed1 i; seed2 = r.seed2 i },
      λ k z. omega (arith, r.stocked k z, new-total l1 l2 s1 s2 k z),
      r.listed,
    )

module _ (fl : Floats) (graph : Graph) (e : Edge) (m : HoleMerge) (g : Store) (live : e.src ≢ 0)
    (nz : e.dst ≢ 0) (v : Represents graph m g.world) (absent : count (is e.src) m ≡ 0) where
  tidy : (b : Slot) → Stands (adds e graph) g.world b → IsTidy b
  tidy b h = h.tidy

  -- The slots of the blacklist, none of which is of the source.
  pub kept_list : All (Stands (adds e graph) g.world) m.blacklist
  kept_list =
      All-moves (Stands graph g.world) (Stands (adds e graph) g.world) e.src
        (λ y h other. Stands-other e g.world g.world y (λ t k. refl) h other) m.blacklist v.stands
        (omega (arith, absent))

  into_old :
      (links : NodeTable → List NodeTable) (rest : (ℕ → Bool) → ℕ) (c : NodeTable) (b1 b2 : ℕ)
      → 0 < b1
      → 0 < b2
      → IsSound (Stands (adds e graph) g.world) c
      → ((w : World)
          → w.sblacklist ≡ g.world.sblacklist
          → (t : NodeTable) → IsSound (Stands (adds e graph) w) t
          → All (IsSound (Stands (adds e graph) w)) (links t))
      → ((t : NodeTable) → dims t ≡ dims c → Shape m.s1 m.s2 b1 b2 (all_dims (links t)))
      → ((t : NodeTable) → size (all_dims (links t)) ≤ 3)
      → ((p : ℕ → Bool) (t : NodeTable) → links_total p (links t) ≡ total p t + rest p)
      → ((k : ℕ)
          → k ≢ 0
          → rest (is k) + (total (is k) c + tally (on (is k)) m.blacklist) ≡ count (is k) m)
      → Adds graph e (place fl e links (record { table = c; left = m.blacklist; store = g }) m)
  into_old links rest c b1 b2 p q sound others shape few_tables split whole =
      place-Adds fl graph e m g live nz v absent links rest
        (record { table = c; left = m.blacklist; store = g }) b1 b2 p q
        (record { sound = sound; stands = kept_list; live = v.live }) refl others shape few_tables
        split whole

  -- A new table opens, into which the blacklist goes first.
  into_new :
      (links : NodeTable → List NodeTable) (rest : (ℕ → Bool) → ℕ) (bs : List Slot) (st : Store)
      (l1 l2 b1 b2 : ℕ)
      → 0 < b1
      → 0 < b2
      → 0 < l1
      → 0 < l2
      → All (Stands (adds e graph) g.world) bs
      → tally (on free) bs ≡ 0
      → st.world.sblacklist ≡ g.world.sblacklist
      → ((w : World)
          → w.sblacklist ≡ g.world.sblacklist
          → (t : NodeTable) → IsSound (Stands (adds e graph) w) t
          → All (IsSound (Stands (adds e graph) w)) (links t))
      → ((t : NodeTable)
          → dims t ≡ sized m.s1 m.s2 l1 l2
          → Shape m.s1 m.s2 b1 b2 (all_dims (links t)))
      → ((t : NodeTable) → size (all_dims (links t)) ≤ 3)
      → ((p : ℕ → Bool) (t : NodeTable) → links_total p (links t) ≡ total p t + rest p)
      → ((k : ℕ) → k ≢ 0 → rest (is k) + tally (on (is k)) bs ≡ count (is k) m)
      → Adds graph e (place fl e links (reopen bs (NodeTable.new l1 l2 m.s1 m.s2) st) m)
  into_new links rest bs st l1 l2 b1 b2 p q p' q' stands bare same others shape few_tables split
        whole =
      let (kept, wide, stocked, listed') =
        reopen-Stocked tidy l1 l2 m.s1 m.s2 bs st
          (new_slot-Stands (adds e graph) g.world v.free_list) p' q' stands bare in
      place-Adds fl graph e m g live nz v absent links rest
        (reopen bs (NodeTable.new l1 l2 m.s1 m.s2) st) b1 b2 p q kept (listed' ∙ same) others
        (λ t d. shape t (d ∙ wide)) few_tables split
        (λ k h.
          let zero_test : is k 0 ≡ false = ground arith in
          omega (arith, whole k h, stocked (is k) zero_test))

  weaker_links :
      (w : World)
      → w.sblacklist ≡ g.world.sblacklist
      → (c : NodeTable) → IsSound (Stands (adds e graph) g.world) c
      → IsSound (Stands (adds e graph) w) c
  weaker_links w same c h =
      IsSound-weaker (Stands (adds e graph) g.world) (Stands (adds e graph) w)
        (λ b k. Stands-world g.world w b same k) h

  fits :
      (c : NodeTable) (l1 l2 : ℕ)
      → IsSound (Stands (adds e graph) g.world) c
      → dims c ≡ sized m.s1 m.s2 l1 l2
      → Fits (Stands (adds e graph) g.world) m.s1 m.s2 l1 l2 c
  fits c l1 l2 h d = record {
    sound = h;
    seed1 = ap (λ (x : Dims). x.seed1) d;
    seed2 = ap (λ (x : Dims). x.seed2) d;
    len1 = ap (λ (x : Dims). x.len1) d;
    len2 = ap (λ (x : Dims). x.len2) d;
  }

  merged-Adds :
      (c0 c1 c2 : NodeTable)
      → All (IsSound (Stands (adds e graph) g.world)) (c0 ∷ c1 ∷ c2 ∷ [])
      → Shape m.s1 m.s2 v.width1 v.width2 (all_dims (c0 ∷ c1 ∷ c2 ∷ []))
      → ((p : ℕ → Bool) → links_total p (c0 ∷ c1 ∷ c2 ∷ []) + tally (on p) m.blacklist ≡ count p m)
      → Adds graph e (merged fl e c0 c1 c2 m g)
  unfolding merged
  merged-Adds c0 c1 c2 a shape whole =
      let t = merge3 m.s1 m.s2 c0 c1 c2 m.blacklist g in
      let (f, kept, stocked, same) =
        merge3-Fits tidy (new_slot-Stands (adds e graph) g.world v.free_list) m.blacklist g
          (fits c0 _ _ a.0 shape.0) (fits c1 _ _ a.1.0 shape.1.0) (fits c2 _ _ a.1.1.0 shape.1.1.0)
          kept_list v.live in
      let b1 = v.width1 * 2 in
      let b2 = v.width2 * 2 in
      let half1 : t.table.len1 / 2 ≡ b1 = omega (arith, f.len1) in
      let half2 : t.table.len2 / 2 ≡ b2 = omega (arith, f.len2) in
      let wide : dims t.table ≡ sized m.s1 m.s2 (b1 * 2) (b2 * 2) =
        λ i. record { len1 = f.len1 i; len2 = f.len2 i; seed1 = f.seed1 i; seed2 = f.seed2 i } in
      into_new (λ c. t.table ∷ c ∷ []) (λ p. total p t.table) t.left t.store (t.table.len1 / 2)
        (t.table.len2 / 2) b1 b2 (omega (arith, v.wide1)) (omega (arith, v.wide2))
        (omega (arith, v.wide1)) (omega (arith, v.wide2)) kept.stands kept.live same
        (λ w same' c h. (weaker_links w same' t.table kept.sound, (h, tt)))
        (λ c d. (wide, (d ∙ ap₂ (sized m.s1 m.s2) half1 half2, tt))) (λ c. omega arith)
        (λ p c. omega arith)
        (λ k h.
          let zero_test : is k 0 ≡ false = ground arith in
          omega (arith, stocked (is k) zero_test, whole (is k)))

  pub insert_new-Adds :
      (cs : List NodeTable)
      → All (IsSound (Stands (adds e graph) g.world)) cs
      → Shape m.s1 m.s2 v.width1 v.width2 (all_dims cs)
      → size (all_dims cs) ≤ 3
      → ((p : ℕ → Bool) → links_total p cs + tally (on p) m.blacklist ≡ count p m)
      → Adds graph e (insert_new fl e cs m g)
  unfolding insert_new
  insert_new-Adds [] a shape few_tables whole =
      let (h1, e1, p1) = v.half1 in
      let (h2, e2, p2) = v.half2 in
      let widths : sized m.s1 m.s2 m.ll1 m.ll2 ≡ sized m.s1 m.s2 (h1 * 2) (h2 * 2) =
        ap₂ (sized m.s1 m.s2) e1 e2 in
      into_old (λ t. t ∷ []) (λ p. 0) (NodeTable.new m.ll1 m.ll2 m.s1 m.s2) h1 h2 p1 p2
        (new-IsSound m.ll1 m.ll2 m.s1 m.s2 (omega arith) (omega arith)
          (new_slot-Stands (adds e graph) g.world v.free_list))
        (λ w same t h. (h, tt)) (λ t d. ((d ∙ new-dims m.ll1 m.ll2 m.s1 m.s2) ∙ widths, tt))
        (λ t. omega arith) (λ p t. omega arith)
        (λ k h.
          let zero_test : is k 0 ≡ false = ground arith in
          omega (arith, whole (is k), new-total m.ll1 m.ll2 m.s1 m.s2 (is k) zero_test))
  insert_new-Adds (c0 ∷ []) a shape few_tables whole =
      let w1 : c0.len1 / 2 ≡ v.width1 = omega (arith, ap (λ (d : Dims). d.len1) shape.0) in
      let w2 : c0.len2 / 2 ≡ v.width2 = omega (arith, ap (λ (d : Dims). d.len2) shape.0) in
      elim (Bool-cases (not (room fl c0) || leb bbl (size m.blacklist))) [
        | inl full ↦ rw full (
            into_new (λ t. c0 ∷ t ∷ []) (λ p. total p c0) m.blacklist g (c0.len1 / 2) (c0.len2 / 2)
              v.width1 v.width2 v.wide1 v.wide2 (rw w1 v.wide1) (rw w2 v.wide2) kept_list v.live
              refl (λ w same t h. (weaker_links w same c0 a.0, (h, tt)))
              (λ t d. (shape.0, (d ∙ ap₂ (sized m.s1 m.s2) w1 w2, tt))) (λ t. omega arith)
              (λ p t. omega arith) (λ k h. omega (arith, whole (is k))))
        | inr free_room ↦ rw free_room (
            into_old (λ t. t ∷ []) (λ p. 0) c0 v.width1 v.width2 v.wide1 v.wide2 a.0
              (λ w same t h. (h, tt)) (λ t d. (d ∙ shape.0, tt)) (λ t. omega arith)
              (λ p t. omega arith) (λ k h. omega (arith, whole (is k))))
      ]
  insert_new-Adds (c0 ∷ c1 ∷ []) a shape few_tables whole =
      let w1 : c1.len1 ≡ v.width1 = ap (λ (d : Dims). d.len1) shape.1.0 in
      let w2 : c1.len2 ≡ v.width2 = ap (λ (d : Dims). d.len2) shape.1.0 in
      elim (Bool-cases (open_to fl m c1)) [
        | inl free_room ↦ rw free_room (
            into_old (λ t. c0 ∷ t ∷ []) (λ p. total p c0) c1 v.width1 v.width2 v.wide1 v.wide2 a.1.0
              (λ w same t h. (weaker_links w same c0 a.0, (h, tt)))
              (λ t d. (shape.0, (d ∙ shape.1.0, tt))) (λ t. omega arith) (λ p t. omega arith)
              (λ k h. omega (arith, whole (is k))))
        | inr full ↦ rw full (elim (Bool-cases (open_to fl m c0)) [
          | inl free_room ↦ rw free_room (
              into_old (λ t. t ∷ c1 ∷ []) (λ p. total p c1) c0 v.width1 v.width2 v.wide1 v.wide2 a.0
                (λ w same t h. (h, (weaker_links w same c1 a.1.0, tt)))
                (λ t d. (d ∙ shape.0, (shape.1.0, tt))) (λ t. omega arith) (λ p t. omega arith)
                (λ k h. omega (arith, whole (is k))))
          | inr full0 ↦ rw full0 (
              into_new (λ t. c0 ∷ c1 ∷ t ∷ []) (λ p. total p c0 + total p c1) m.blacklist g c1.len1
                c1.len2 v.width1 v.width2 v.wide1 v.wide2 (rw w1 v.wide1) (rw w2 v.wide2) kept_list
                v.live refl
                (λ w same t h.
                  (weaker_links w same c0 a.0, (weaker_links w same c1 a.1.0, (h, tt))))
                (λ t d. (shape.0, (shape.1.0, (d ∙ ap₂ (sized m.s1 m.s2) w1 w2, tt))))
                (λ t. omega arith) (λ p t. omega arith) (λ k h. omega (arith, whole (is k))))
        ])
      ]
  insert_new-Adds (c0 ∷ c1 ∷ c2 ∷ []) a shape few_tables whole =
      elim (Bool-cases (open_to fl m c2)) [
        | inl free_room ↦ rw free_room (
            into_old (λ t. c0 ∷ c1 ∷ t ∷ []) (λ p. total p c0 + total p c1) c2 v.width1 v.width2
              v.wide1 v.wide2 a.1.1.0
              (λ w same t h. (weaker_links w same c0 a.0, (weaker_links w same c1 a.1.0, (h, tt))))
              (λ t d. (shape.0, (shape.1.0, (d ∙ shape.1.1.0, tt)))) (λ t. omega arith)
              (λ p t. omega arith) (λ k h. omega (arith, whole (is k))))
        | inr full2 ↦ rw full2 (elim (Bool-cases (open_to fl m c1)) [
          | inl free_room ↦ rw free_room (
              into_old (λ t. c0 ∷ t ∷ c2 ∷ []) (λ p. total p c0 + total p c2) c1 v.width1 v.width2
                v.wide1 v.wide2 a.1.0
                (λ w same t h.
                  (weaker_links w same c0 a.0, (h, (weaker_links w same c2 a.1.1.0, tt))))
                (λ t d. (shape.0, (d ∙ shape.1.0, (shape.1.1.0, tt)))) (λ t. omega arith)
                (λ p t. omega arith) (λ k h. omega (arith, whole (is k))))
          | inr full1 ↦ rw full1 (elim (Bool-cases (open_to fl m c0)) [
            | inl free_room ↦ rw free_room (
                into_old (λ t. t ∷ c1 ∷ c2 ∷ []) (λ p. total p c1 + total p c2) c0 v.width1 v.width2
                  v.wide1 v.wide2 a.0
                  (λ w same t h.
                    (h, (weaker_links w same c1 a.1.0, (weaker_links w same c2 a.1.1.0, tt))))
                  (λ t d. (d ∙ shape.0, (shape.1.0, (shape.1.1.0, tt)))) (λ t. omega arith)
                  (λ p t. omega arith) (λ k h. omega (arith, whole (is k))))
            | inr full0 ↦ rw full0 (merged-Adds c0 c1 c2 a shape whole)
          ])
        ])
      ]
  insert_new-Adds (c0 ∷ c1 ∷ c2 ∷ c3 ∷ cs) a shape few_tables whole = absurd (omega arith)
