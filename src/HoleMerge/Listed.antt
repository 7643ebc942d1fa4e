-- ===== src/HoleMerge/Listed.antt =====
-- holemerge::query3 and holemerge::insert where the slot of the source stands in `blacklist`.
use cuckoo_graph.Prelude.{
  ℕ, suc, ◌+◌, ◌<◌, ◌≤◌, ◌≡◌, ◌≢◌, ◌∙◌, sym, to_nat, refl, ap, inl, inr, Bool, true, ◌==◌, Option,
  some, List, [], ◌∷◌, arith, tally, All, Bool-cases,
}
use cuckoo_graph.Cuckoo.Invariant.{is}
use cuckoo_graph.Floats.{Floats}
use cuckoo_graph.Slot
use cuckoo_graph.Slot.{Edge, Slot, World}
use cuckoo_graph.Slot.Stands.{Graph, adds, Stands, Stands-other, known-Extends}
use cuckoo_graph.NodeTable.Placement.{on}
use cuckoo_graph.NodeTable.Lookup.{own_query}
use cuckoo_graph.NodeTable.Update.{All-moves}
use cuckoo_graph.HoleMerge.{Found, surely, listed, missing, query3_listed}
use cuckoo_graph.HoleMerge.Grow.{insert_listed}
use cuckoo_graph.HoleMerge.Known.{Framed}

module _ (fl : Floats) (graph : Graph) (w : World) (e : Edge) (live : e.src ≢ 0)
    (nz : e.dst ≢ 0) where
  -- What an insertion into a slot of the blacklist leaves.
  pub record ListGrows (bs : List Slot) (r : Option (List Slot × World)) : Type 0 where
    pub slots : List Slot
    pub world : World
    pub runs : r ≡ some (slots, world)
    pub stands : All (Stands (adds e graph) world) slots
    pub same : (p : ℕ → Bool) → tally (on p) slots ≡ tally (on p) bs
    pub frame : Framed e.src w world
    pub there : 0 < tally (on (is e.src)) bs

  -- What `query3` finds in the blacklist from the index `j` on.
  pub data ListSees (j : ℕ) (bs : List Slot) (r : Found) : Type 0 where
    list_sure : r ≡ surely → graph e.src e.dst ≡ true → ListSees j bs r
    list_known :
        (k : ℕ) → r ≡ listed (j + k) → ListGrows bs (insert_listed fl e k bs w) → ListSees j bs r
    list_missing : r ≡ missing → tally (on (is e.src)) bs ≡ 0 → ListSees j bs r

  here-ListGrows :
      (b : Slot) (bs : List Slot)
      → All (Stands graph w) (b ∷ bs)
      → tally (on (is e.src)) (b ∷ bs) ≤ 1
      → b.src ≡ e.src
      → ListGrows (b ∷ bs) (insert_listed fl e 0 (b ∷ bs) w)
  unfolding insert_listed tally
  here-ListGrows b bs a once at =
      let (code, b', w', run, source, grown, frame) = known-Extends fl e a.0 live nz at in
      let one : (b.src == e.src) ≡ true = ground arith in
      record {
        slots = b' ∷ bs;
        world = w';
        runs = rw (run, insert_listed) refl;
        stands = (
          grown,
          All-moves (Stands graph w) (Stands (adds e graph) w') e.src
              (λ y v other. Stands-other e w w' y frame v other) bs a.1 (ground arith),
        );
        same = λ p.
            let moved : to_nat (p b'.src) ≡ to_nat (p b.src) =
              ap (λ s. to_nat (p s)) (source ∙ sym at) in
            omega arith;
        frame = frame;
        there = ground arith;
      }

  later-ListGrows :
      (k : ℕ) (b : Slot) (bs : List Slot)
      → Stands graph w b
      → b.src ≢ e.src
      → ListGrows bs (insert_listed fl e k bs w)
      → ListGrows (b ∷ bs) (insert_listed fl e (suc k) (b ∷ bs) w)
  unfolding insert_listed tally
  later-ListGrows k b bs v other t = record {
    slots = b ∷ t.slots;
    world = t.world;
    runs = rw (t.runs, insert_listed) refl;
    stands = (Stands-other e w t.world b t.frame v other, t.stands);
    same = λ p. omega (arith, t.same p);
    frame = t.frame;
    there = omega (arith, t.there);
  }

  pub listed_query3_cases :
      (j : ℕ) (bs : List Slot)
      → All (Stands graph w) bs
      → tally (on (is e.src)) bs ≤ 1
      → ListSees j bs (query3_listed j e bs w)
  unfolding query3_listed tally
  listed_query3_cases j [] a once = list_missing refl refl
  listed_query3_cases j (b ∷ bs) a once = elim (Bool-cases (b.src == e.src)) [
    | inl same ↦
        let at : b.src ≡ e.src = ground arith in
        let q = own_query graph w e live nz a.0 at in
        elim (Bool-cases (Slot.query e b w == 0)) [
          | inl z ↦
              list_known 0 (rw (same, z) (ap listed (omega arith))) (here-ListGrows b bs a once at)
          | inr f ↦ list_sure (rw (same, f) refl) (q.0 (ground arith))
        ]
    | inr other ↦ elim (listed_query3_cases (suc j) bs a.1 (omega arith)) [
      | list_sure r h ↦ list_sure (rw (other, r) refl) h
      | list_known k r t ↦
          list_known (suc k) (rw (other, r) (ap listed (omega arith)))
            (later-ListGrows k b bs a.0 (ground arith) t)
      | list_missing r h ↦ list_missing (rw (other, r) refl) (ground arith)
    ]
  ]
