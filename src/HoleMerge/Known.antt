-- ===== src/HoleMerge/Known.antt =====
-- holemerge::query3, and holemerge::insert of an edge whose source has a slot.
use cuckoo_graph.Prelude.{
  ℕ, suc, ◌+◌, ◌<◌, ◌≤◌, ◌≡◌, ◌≢◌, refl, ap, Bool, true, Option, some, List, [], ◌∷◌, arith, All,
}
use cuckoo_graph.Cuckoo.Invariant.{is}
use cuckoo_graph.Bucket.{bup}
use cuckoo_graph.Floats.{Floats}
use cuckoo_graph.Slot.{Edge, Slot, World, own}
use cuckoo_graph.Slot.Stands.{Graph, adds, Stands, Stands-other, known-Extends}
use cuckoo_graph.NodeTable.{Place, first, second}
use cuckoo_graph.NodeTable.Layers
use cuckoo_graph.NodeTable.Kicks.{NodeTable}
use cuckoo_graph.NodeTable.Placement.{on, All-get_or}
use cuckoo_graph.NodeTable.Placement
use cuckoo_graph.NodeTable.Conserve.{IsSound, total}
use cuckoo_graph.NodeTable.Lookup.{
  table_sure, table_first, table_second, table_missing, table_query3_cases,
}
use cuckoo_graph.NodeTable.Update.{first_moves, second_moves, IsSound-moves}
use cuckoo_graph.HoleMerge.{Found, surely, linked, query3_listed, query3_from}
use cuckoo_graph.HoleMerge.Grow.{insert_place, insert_linked}
use cuckoo_graph.HoleMerge.Invariant.{links_total, dims, all_dims}

-- The listed edges of other sources stay.
abbrev pub Framed : ℕ → World → World → Type 0
Framed s w w' = (t : ℕ) → t ≢ s → own t w'.sblacklist ≡ own t w.sblacklist

module _ (fl : Floats) (graph : Graph) (w : World) (e : Edge) (live : e.src ≢ 0)
    (nz : e.dst ≢ 0) where
  -- What an insertion into a slot of a table leaves.
  record TableGrows (c : NodeTable) (r : Option (NodeTable × World)) : Type 0 where
    pub table : NodeTable
    pub world : World
    pub runs : r ≡ some (table, world)
    pub sound : IsSound (Stands (adds e graph) world) table
    pub same : (p : ℕ → Bool) → total p table ≡ total p c
    pub same_dims : dims table ≡ dims c
    pub frame : Framed e.src w world
    pub there : 0 < total (is e.src) c

  first-TableGrows :
      {c : NodeTable} (x : ℕ)
      → IsSound (Stands graph w) c
      → total (is e.src) c ≤ 1
      → x < bup
      → (Layers.read (Layers.index e.src c.layer1) x c.layer1).src ≡ e.src
      → TableGrows c (insert_place fl e (first (Layers.index e.src c.layer1) x) c w)
  unfolding insert_place
  first-TableGrows {c} x v once lt at =
      let i = Layers.index e.src c.layer1 in
      let b = Layers.read i x c.layer1 in
      let stands : Stands graph w b = Placement.read-All e.src x v.valid1 lt in
      let (code, b', w', run, source, grown, frame) = known-Extends fl e stands live nz at in
      let (sound, same, there) =
        first_moves (Stands graph w) (Stands (adds e graph) w') e.src
          (λ y h other. Stands-other e w w' y frame h other) i x b' refl live v once lt at source
          grown in
      record {
        table = record c { layer1 = Layers.write i x b' c.layer1 };
        world = w';
        runs = rw (run, insert_place) refl;
        sound = sound;
        same = same;
        same_dims = refl;
        frame = frame;
        there = there;
      }

  second-TableGrows :
      {c : NodeTable} (x : ℕ)
      → IsSound (Stands graph w) c
      → total (is e.src) c ≤ 1
      → x < bup
      → (Layers.read (Layers.index e.src c.layer2) x c.layer2).src ≡ e.src
      → TableGrows c (insert_place fl e (second (Layers.index e.src c.layer2) x) c w)
  unfolding insert_place
  second-TableGrows {c} x v once lt at =
      let i = Layers.index e.src c.layer2 in
      let b = Layers.read i x c.layer2 in
      let stands : Stands graph w b = Placement.read-All e.src x v.valid2 lt in
      let (code, b', w', run, source, grown, frame) = known-Extends fl e stands live nz at in
      let (sound, same, there) =
        second_moves (Stands graph w) (Stands (adds e graph) w') e.src
          (λ y h other. Stands-other e w w' y frame h other) i x b' refl live v once lt at source
          grown in
      record {
        table = record c { layer2 = Layers.write i x b' c.layer2 };
        world = w';
        runs = rw (run, insert_place) refl;
        sound = sound;
        same = same;
        same_dims = refl;
        frame = frame;
        there = there;
      }

  -- What `query3` finds in the links from `i` on, and what the insertion there leaves.
  pub record LinksGrow (cs : List NodeTable) (r : Option (List NodeTable × World)) : Type 0 where
    pub links : List NodeTable
    pub world : World
    pub runs : r ≡ some (links, world)
    pub sound : All (IsSound (Stands (adds e graph) world)) links
    pub same : (p : ℕ → Bool) → links_total p links ≡ links_total p cs
    pub same_dims : all_dims links ≡ all_dims cs
    pub frame : Framed e.src w world
    pub there : 0 < links_total (is e.src) cs

  -- The other tables have no slot of the source.
  pub All-IsSound-moves :
      (w' : World) (cs : List NodeTable)
      → Framed e.src w w'
      → All (IsSound (Stands graph w)) cs
      → links_total (is e.src) cs ≡ 0
      → All (IsSound (Stands (adds e graph) w')) cs
  All-IsSound-moves w' [] frame a h = tt
  All-IsSound-moves w' (c ∷ cs) frame a h = (
    IsSound-moves (Stands graph w) (Stands (adds e graph) w') e.src
        (λ y v other. Stands-other e w w' y frame v other) a.0 (omega arith),
    All-IsSound-moves w' cs frame a.1 (omega arith),
  )

  pub data LinksSee (i : ℕ) (bs : List Slot) (cs : List NodeTable) (r : Found) : Type 0 where
    links_sure : r ≡ surely → graph e.src e.dst ≡ true → LinksSee i bs cs r
    links_known :
        (k : ℕ) (p : Place)
        → r ≡ linked (i + k) p
        → LinksGrow cs (insert_linked fl e k p cs w)
        → LinksSee i bs cs r
    links_passed : r ≡ query3_listed 0 e bs w → links_total (is e.src) cs ≡ 0 → LinksSee i bs cs r

  -- The slot stands in the first of the tables.
  here-LinksGrow :
      (p : Place) (c : NodeTable) (cs : List NodeTable)
      → All (IsSound (Stands graph w)) cs
      → links_total (is e.src) (c ∷ cs) ≤ 1
      → TableGrows c (insert_place fl e p c w)
      → LinksGrow (c ∷ cs) (insert_linked fl e 0 p (c ∷ cs) w)
  unfolding insert_linked
  here-LinksGrow p c cs a once t = record {
    links = t.table ∷ cs;
    world = t.world;
    runs = rw (t.runs, insert_linked) refl;
    sound = (t.sound, All-IsSound-moves t.world cs t.frame a (omega (arith, t.there)));
    same = λ q. omega (arith, t.same q);
    same_dims = ap (λ d. d ∷ all_dims cs) t.same_dims;
    frame = t.frame;
    there = omega (arith, t.there);
  }

  -- The slot stands in one of the further tables.
  later-LinksGrow :
      (k : ℕ) (p : Place) (c : NodeTable) (cs : List NodeTable)
      → IsSound (Stands graph w) c
      → links_total (is e.src) (c ∷ cs) ≤ 1
      → LinksGrow cs (insert_linked fl e k p cs w)
      → LinksGrow (c ∷ cs) (insert_linked fl e (suc k) p (c ∷ cs) w)
  unfolding insert_linked
  later-LinksGrow k p c cs v once t = record {
    links = c ∷ t.links;
    world = t.world;
    runs = rw (t.runs, insert_linked) refl;
    sound =
        ((All-IsSound-moves t.world (c ∷ []) t.frame (v, tt) (omega (arith, t.there))).0, t.sound);
    same = λ q. omega (arith, t.same q);
    same_dims = ap (λ ds. dims c ∷ ds) t.same_dims;
    frame = t.frame;
    there = omega (arith, t.there);
  }

  pub links_query3_cases :
      (i : ℕ) (bs : List Slot) (cs : List NodeTable)
      → All (IsSound (Stands graph w)) cs
      → links_total (is e.src) cs ≤ 1
      → LinksSee i bs cs (query3_from i e cs bs w)
  unfolding query3_from
  links_query3_cases i bs [] a once = links_passed refl refl
  links_query3_cases i bs (c ∷ cs) a once =
      let zero_sum : i ≡ i + 0 = omega arith in
      elim (table_query3_cases graph w e live nz a.0) [
        | table_sure r h ↦ links_sure (rw (r, query3_from) refl) h
        | table_first x r lt at ↦
            links_known 0 _ (rw (r, query3_from) (ap (λ j. linked j _) zero_sum))
              (here-LinksGrow _ c cs a.1 once (first-TableGrows x a.0 (omega arith) lt at))
        | table_second x r lt at ↦
            links_known 0 _ (rw (r, query3_from) (ap (λ j. linked j _) zero_sum))
              (here-LinksGrow _ c cs a.1 once (second-TableGrows x a.0 (omega arith) lt at))
        | table_missing r none_there ↦ elim (links_query3_cases (suc i) bs cs a.1 (omega arith)) [
          | links_sure r2 h ↦ links_sure (rw (r, query3_from) (rw r2 refl)) h
          | links_known k p r2 t ↦
              links_known (suc k) p
                (rw (r, query3_from) (rw r2 (ap (λ j. linked j p) (omega arith))))
                (later-LinksGrow k p c cs a.0 once t)
          | links_passed r2 h ↦ links_passed (rw (r, query3_from) (rw r2 refl)) (omega arith)
        ]
      ]
