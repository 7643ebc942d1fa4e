-- ===== src/HoleMerge/Insert.antt =====
-- holemerge::insert: on a well-formed store it runs, whichever of its branches is taken, and leaves a
-- well-formed store that stands for the graph with the edge.
use cuckoo_graph.Prelude.{
  ℕ, ◌<◌, ◌≡◌, ◌≢◌, ◌∙◌, refl, sym, ap, ap₂, ==_of_ne, subst, inl, inr, Bool, true, ◌==◌, ◌&&◌,
  List, [], ◌∷◌, arith, tally, All, Bool-cases,
}
use cuckoo_graph.Cuckoo.Invariant.{is}
use cuckoo_graph.Floats.{Floats}
use cuckoo_graph.Slot.{Edge, Slot, World}
use cuckoo_graph.Slot.Stands.{Graph, adds, Stands, Stands-other, Stands-row}
use cuckoo_graph.NodeTable.Kicks.{NodeTable, Store}
use cuckoo_graph.NodeTable.Placement.{on, free}
use cuckoo_graph.NodeTable.Conserve.{IsSound}
use cuckoo_graph.NodeTable.Update.{All-moves, All-weaker, IsSound-weaker}
use cuckoo_graph.HoleMerge.{HoleMerge, linked, listed, query3}
use cuckoo_graph.HoleMerge.Grow.{insert}
use cuckoo_graph.HoleMerge.Invariant.{Represents, all_dims, links_total, count}
use cuckoo_graph.HoleMerge.Known.{
  Framed, links_sure, links_known, links_passed, links_query3_cases, All-IsSound-moves,
}
use cuckoo_graph.HoleMerge.Listed.{list_sure, list_known, list_missing, listed_query3_cases}
use cuckoo_graph.HoleMerge.Fresh.{Adds}
use cuckoo_graph.HoleMerge.Branches.{insert_new-Adds}

All-IsSound-weaker :
    (P Q : Slot → Type 0)
    → ((b : Slot) → P b → Q b)
    → (cs : List NodeTable) → All (IsSound P) cs
    → All (IsSound Q) cs
All-IsSound-weaker P Q f [] a = tt
All-IsSound-weaker P Q f (c ∷ cs) a = (IsSound-weaker P Q f a.0, All-IsSound-weaker P Q f cs a.1)

module _ (fl : Floats) (graph : Graph) (e : Edge) (m : HoleMerge) (g : Store) (live : e.src ≢ 0)
    (nz : e.dst ≢ 0) (v : Represents graph m g.world) where
  -- An edge that the graph has.
  had-Represents : graph e.src e.dst ≡ true → Represents (adds e graph) m g.world
  had-Represents had =
      let same : (s d : ℕ) → adds e graph s d ≡ graph s d = λ s d.
        elim (Bool-cases ((s == e.src) && (d == e.dst))) [
          | inl t ↦
              let at : s ≡ e.src = ground arith in
              let to : d ≡ e.dst = ground arith in rw t (sym (ap₂ graph at to ∙ had))
          | inr f ↦ rw f refl
        ] in
      let moved = λ (b : Slot) (h : Stands graph g.world b).
        Stands-row (adds e graph) h (λ k d. same b.src d) in
      let P = Stands graph g.world in
      let Q = Stands (adds e graph) g.world in
      record {
        half1 = v.half1;
        half2 = v.half2;
        width1 = v.width1;
        width2 = v.width2;
        wide1 = v.wide1;
        wide2 = v.wide2;
        shape = v.shape;
        few_tables = v.few_tables;
        sound = All-IsSound-weaker P Q moved m.link v.sound;
        stands = All-weaker P Q moved m.blacklist v.stands;
        live = v.live;
        unique = v.unique;
        known = λ s h none_there.
            let (blank, unlisted) = v.known s h none_there in (λ d. same s d ∙ blank d, unlisted);
        free_list = v.free_list;
      }

  -- The slot of the source was rewritten, and no slot came or went.
  grown-Represents :
      (links : List NodeTable) (left : List Slot) (w : World)
      → Framed e.src g.world w
      → all_dims links ≡ all_dims m.link
      → All (IsSound (Stands (adds e graph) w)) links
      → All (Stands (adds e graph) w) left
      → ((p : ℕ → Bool) → links_total p links ≡ links_total p m.link)
      → ((p : ℕ → Bool) → tally (on p) left ≡ tally (on p) m.blacklist)
      → 0 < count (is e.src) m
      → Represents (adds e graph) (record m { link = links; blacklist = left }) w
  grown-Represents links left w frame same_dims sound stands same1 same2 there = record {
    half1 = v.half1;
    half2 = v.half2;
    width1 = v.width1;
    width2 = v.width2;
    wide1 = v.wide1;
    wide2 = v.wide2;
    shape = rw same_dims v.shape;
    few_tables = rw same_dims v.few_tables;
    sound = sound;
    stands = stands;
    live = omega (arith, same2 free, v.live);
    unique = λ s h. omega (arith, same1 (is s), same2 (is s), v.unique s h);
    known = λ s h none_there.
        let before : count (is s) m ≡ 0 = omega (arith, same1 (is s), same2 (is s)) in
        let other : s ≢ e.src = λ i.
          let none_left : count (is e.src) m ≡ 0 = subst (λ t. count (is t) m ≡ 0) i before in
          omega arith in
        let (blank, unlisted) = v.known s h before in
        (λ d. rw (==_of_ne s e.src other) (blank d), frame s other ∙ unlisted);
    free_list = frame 0 (λ i. live (sym i)) ∙ v.free_list;
  }

  -- On a well-formed store and for an edge whose ends are not 0, `insert` dereferences no null pointer,
  -- fails no assertion and answers true, and the store that it leaves is well formed and stands for
  -- the graph with the edge.
  pub insert-Adds : Adds graph e (insert fl e m g)
  unfolding insert query3
  insert-Adds =
      let P = Stands graph g.world in
      let once = v.unique e.src live in
      elim (links_query3_cases fl graph g.world e live nz 0 m.blacklist m.link v.sound
        (omega arith)) [
          | links_sure r h ↦ (m, g, rw (r, insert) refl, had-Represents h)
          | links_known k p r t ↦
              let Q = Stands (adds e graph) t.world in
              let at : query3 e m g.world ≡ linked k p = r ∙ ap (λ j. linked j p) (omega arith) in
              (
                record m { link = t.links },
                record g { world = t.world },
                rw (at, insert) (rw (t.runs, insert) refl),
                grown-Represents t.links m.blacklist t.world t.frame t.same_dims t.sound
                    (All-moves P Q e.src
                      (λ b h other. Stands-other e g.world t.world b t.frame h other) m.blacklist
                      v.stands (omega (arith, t.there)))
                    t.same (λ p. refl) (omega (arith, t.there)),
              )
          | links_passed r none_linked ↦
              elim (listed_query3_cases fl graph g.world e live nz 0 m.blacklist v.stands
                (omega arith)) [
                  | list_sure r2 h ↦ (m, g, rw (r ∙ r2, insert) refl, had-Represents h)
                  | list_known k r2 t ↦
                      let at : query3 e m g.world ≡ listed k = (r ∙ r2) ∙ ap listed (omega arith) in
                      (
                        record m { blacklist = t.slots },
                        record g { world = t.world },
                        rw (at, insert) (rw (t.runs, insert) refl),
                        grown-Represents m.link t.slots t.world t.frame refl
                            (All-IsSound-moves fl graph g.world e live nz t.world m.link t.frame
                              v.sound none_linked)
                            t.stands (λ p. refl) t.same (omega (arith, t.there)),
                      )
                  | list_missing r2 none_listed ↦
                      let absent : count (is e.src) m ≡ 0 = omega arith in
                      rw (r ∙ r2, insert)
                        (insert_new-Adds fl graph e m g live nz v absent m.link
                          (All-IsSound-moves fl graph g.world e live nz g.world m.link (λ t h. refl)
                            v.sound none_linked)
                          v.shape v.few_tables (λ p. refl))
                ]
        ]
