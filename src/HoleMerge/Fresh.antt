-- ===== src/HoleMerge/Fresh.antt =====
-- holemerge::insert of an edge whose source has no slot: a table takes a new slot in.
use cuckoo_graph.Prelude.{
  ℕ, ◌+◌, ◌<◌, ◌≤◌, ◌≡◌, ◌≢◌, ◌∙◌, refl, ap, Bool, true, false, Option, some, List, arith, tally,
  length as size, All, to_nat, ==_of_ne,
}
use cuckoo_graph.Cuckoo.Invariant.{is}
use cuckoo_graph.Floats.{Floats}
use cuckoo_graph.Slot.{Edge, Slot, World, own}
use cuckoo_graph.Slot.Stands.{Graph, adds, Stands, Stands-world}
use cuckoo_graph.NodeTable
use cuckoo_graph.NodeTable.Kicks.{NodeTable, Store, Outcome}
use cuckoo_graph.NodeTable.Placement.{on, free}
use cuckoo_graph.NodeTable.Conserve.{IsSound, total}
use cuckoo_graph.NodeTable.Enter.{insert_edge-Takes}
use cuckoo_graph.NodeTable.Update.{All-weaker, IsSound-weaker}
use cuckoo_graph.HoleMerge.{HoleMerge}
use cuckoo_graph.HoleMerge.Offer.{Stage, staged, offer_edge}
use cuckoo_graph.HoleMerge.Grow.{place}
use cuckoo_graph.HoleMerge.Receive.{Stocked, stock, staged-Receives}
use cuckoo_graph.HoleMerge.Invariant.{Represents, Shape, dims, all_dims, links_total, count}

-- The insertion of the edge runs and leaves a store that stands for the graph with the edge.
abbrev pub Adds : Graph → Edge → Option (Bool × HoleMerge × Store) → Type 0
Adds graph e r =
    (m : HoleMerge) × (g : Store) × (r ≡ some (true, m, g)) × Represents (adds e graph) m g.world

offer_runs :
    (fl : Floats) (e : Edge) (s : Stage) (r : Outcome)
    → NodeTable.insert fl e s.table s.store ≡ some r
    → offer_edge fl e s ≡ some (staged s.left r)
unfolding offer_edge
offer_runs fl e s r h = rw (h, offer_edge) refl

place_runs :
    (fl : Floats) (e : Edge) (links : NodeTable → List NodeTable) (s : Stage) (m : HoleMerge)
    (r : Outcome)
    → NodeTable.insert fl e s.table s.store ≡ some r
    → let t = staged s.left r in
      place fl e links s m
      ≡ some (true, record m { link = links t.table; blacklist = t.left }, t.store)
unfolding place
place_runs fl e links s m r h = rw (offer_runs fl e s r h, place) refl

module _ (fl : Floats) (graph : Graph) (e : Edge) (m : HoleMerge) (g : Store) (live : e.src ≢ 0)
    (nz : e.dst ≢ 0) (v : Represents graph m g.world) (absent : count (is e.src) m ≡ 0) where
  -- What the slots satisfy once the edge is in; so do those of other sources now.
  abbrev pub Fine : World → Slot → Type 0
  Fine w b = Stands (adds e graph) w b

  -- Tables and a blacklist in which there is one more slot of the source.
  assembled-Represents :
      (links : List NodeTable) (left : List Slot) (w : World) (b1 b2 : ℕ)
      → 0 < b1
      → 0 < b2
      → w.sblacklist ≡ g.world.sblacklist
      → Shape m.s1 m.s2 b1 b2 (all_dims links)
      → size (all_dims links) ≤ 3
      → All (IsSound (Stands (adds e graph) w)) links
      → All (Stands (adds e graph) w) left
      → tally (on free) left ≡ 0
      → ((s : ℕ)
          → s ≢ 0
          → links_total (is s) links + tally (on (is s)) left
            ≡ count (is s) m + to_nat (is s e.src))
      → Represents (adds e graph) (record m { link = links; blacklist = left }) w
  assembled-Represents links left w b1 b2 p q same shape few_tables sound stands live' counts =
      record {
        half1 = v.half1;
        half2 = v.half2;
        width1 = b1;
        width2 = b2;
        wide1 = p;
        wide2 = q;
        shape = shape;
        few_tables = few_tables;
        sound = sound;
        stands = stands;
        live = live';
        unique = λ s h. ground (arith, counts s h, v.unique s h, absent);
        known = λ s h none_there.
            let other : s ≢ e.src = ground (arith, counts s h) in
            let (blank, unlisted) = v.known s h (omega (arith, counts s h)) in
            (λ d. rw (==_of_ne s e.src other) (blank d), ap (own s) same ∙ unlisted);
        free_list = ap (own 0) same ∙ v.free_list;
      }

  -- The edge goes into the table of a stage that holds all of the store but the other tables.
  pub place-Adds :
      (links : NodeTable → List NodeTable) (rest : (ℕ → Bool) → ℕ) (s : Stage) (b1 b2 : ℕ)
      → 0 < b1
      → 0 < b2
      → Stocked (Stands (adds e graph) g.world) s
      → s.store.world.sblacklist ≡ g.world.sblacklist
      → ((w : World)
          → w.sblacklist ≡ g.world.sblacklist
          → (t : NodeTable) → IsSound (Stands (adds e graph) w) t
          → All (IsSound (Stands (adds e graph) w)) (links t))
      → ((t : NodeTable) → dims t ≡ dims s.table → Shape m.s1 m.s2 b1 b2 (all_dims (links t)))
      → ((t : NodeTable) → size (all_dims (links t)) ≤ 3)
      → ((p : ℕ → Bool) (t : NodeTable) → links_total p (links t) ≡ total p t + rest p)
      → ((k : ℕ) → k ≢ 0 → rest (is k) + stock (is k) s ≡ count (is k) m)
      → Adds graph e (place fl e links s m)
  place-Adds links rest s b1 b2 p q k same others shape few_tables split whole =
      let w = s.store.world in
      let F = Stands (adds e graph) g.world in
      let F1 = Stands (adds e graph) w in
      let now =
        λ (b : Slot) (h : Stands (adds e graph) g.world b). Stands-world g.world w b same h in
      let (blank, unlisted) = v.known e.src live absent in
      let (r, runs, takes) =
        insert_edge-Takes fl graph e s.table s.store live nz (ap (own e.src) same ∙ unlisted)
          (ap (own 0) same ∙ v.free_list) blank (IsSound-weaker F F1 now k.sound)
          (omega (arith, whole e.src live, absent)) in
      let got =
        staged-Receives s
          (record {
            sound = IsSound-weaker F F1 now k.sound;
            stands = All-weaker F F1 now s.left k.stands;
            live = k.live;
          })
          takes in
      let t = staged s.left r in
      let w' = t.store.world in
      let F2 = Stands (adds e graph) w' in
      let later = λ (b : Slot) (h : Stands (adds e graph) w b). Stands-world w w' b got.listed h in
      let final : w'.sblacklist ≡ g.world.sblacklist = got.listed ∙ same in
      (
        record m { link = links t.table; blacklist = t.left },
        t.store,
        place_runs fl e links s m r runs,
        assembled-Represents (links t.table) t.left w' b1 b2 p q final
            (shape t.table (λ i. record {
              len1 = got.len1 i;
              len2 = got.len2 i;
              seed1 = got.seed1 i;
              seed2 = got.seed2 i;
            }))
            (few_tables t.table)
            (others w' final t.table (IsSound-weaker F1 F2 later got.kept.sound))
            (All-weaker F1 F2 later t.left got.kept.stands) got.kept.live
            (λ j h.
              let zero_test : is j 0 ≡ false = ground arith in
              omega (arith, split (is j) t.table, got.stocked (is j) zero_test, whole j h)),
      )
