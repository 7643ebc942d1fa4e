-- ===== src/NodeTable/Enter.antt =====
-- bCuckoo::insert of an edge whose source no slot of the table has: a new slot goes in.
use cuckoo_graph.Prelude.{
  ℕ, ◌≡◌, ◌≢◌, refl, inl, inr, Bool, true, false, ◌==◌, arith, Option, some, [], ◌∷◌, inc, ap,
  subst, tally, tally-flatten_le, Bool-cases, set-get_or, All,
}
use cuckoo_graph.Bucket.{no_room, inserted, Code}
use cuckoo_graph.Floats.{Floats}
use cuckoo_graph.Slot
use cuckoo_graph.Slot.{Edge, Slot, World, own}
use cuckoo_graph.Slot.Stands.{
  Graph, adds, Stands, Stands-row, new_slot-Stands, free-Extends, other_insert,
}
use cuckoo_graph.NodeTable.{insert}
use cuckoo_graph.NodeTable.Row
use cuckoo_graph.NodeTable.Row.{Row}
use cuckoo_graph.NodeTable.Layers
use cuckoo_graph.NodeTable.Layers.{Layer}
use cuckoo_graph.NodeTable.Kicks.{NodeTable, Store, Outcome, rounds, kicks}
use cuckoo_graph.NodeTable.Placement
use cuckoo_graph.NodeTable.Placement.{
  on, free, slots, Swaps, Changes, Changes-refl, set-Changes, index-lt, index_fits,
}
use cuckoo_graph.NodeTable.Conserve.{
  IsSound, Takes, total, home-row, settled-Takes, kick_loop_slot-Takes,
}

-- The ways in which `insert` of an edge of a new source can end.
data RowEnters (P : Slot → Type 0) (s : ℕ) (w : World) (xs : Row) (r : Option (Code × Row × World))
    : Type 0 where
  enter_full : r ≡ some (no_room, xs, w) → tally (on free) xs ≡ 0 → RowEnters P s w xs r
  enter_took : (ys : Row) → r ≡ some (inserted, ys, w) → Swaps P 0 s xs ys → RowEnters P s w xs r

data NewEnters (P : Slot → Type 0) (s : ℕ) (w : World) (xs : Row) (r : Option (Bool × Row × World))
    : Type 0 where
  new_full : r ≡ some (false, xs, w) → tally (on free) xs ≡ 0 → NewEnters P s w xs r
  new_took : (ys : Row) → r ≡ some (true, ys, w) → Swaps P 0 s xs ys → NewEnters P s w xs r

data LayerEnters (P : Slot → Type 0) (s : ℕ) (w : World) (l : Layer)
    (r : Option (Code × Layer × World)) : Type 0 where
  layer_shut :
      r ≡ some (no_room, l, w)
      → tally (on free) (Layers.row (Layers.index s l) l) ≡ 0
      → LayerEnters P s w l r
  layer_entered :
      (m : Layer) → r ≡ some (inserted, m, w) → Changes P 0 s l m → LayerEnters P s w l r

module _ (fl : Floats) (graph : Graph) (e : Edge) (w : World) (live : e.src ≢ 0) (nz : e.dst ≢ 0)
    (unlisted : own e.src w.sblacklist ≡ []) (blank : (d : ℕ) → graph e.src d ≡ false) where
  abbrev Fine : Slot → Type 0
  Fine b = Stands (adds e graph) w b

  abbrev from_source : ℕ → Bool
  from_source s = s == e.src

  unknown_row :
      (xs : Row) → tally (on from_source) xs ≡ 0 → Row.insert_known fl e xs w ≡ some (false, xs, w)
  unfolding Row.insert_known tally
  unknown_row [] h = refl
  unknown_row (b ∷ xs) h =
      let other : (b.src == e.src) ≡ false = ground arith in
      rw (other, unknown_row xs (ground arith)) refl

  new_row_cases :
      (xs : Row)
      → All (Stands (adds e graph) w) xs
      → tally (on from_source) xs ≡ 0
      → NewEnters (Stands (adds e graph) w) e.src w xs (Row.insert_new fl e xs w)
  unfolding Row.insert_new tally
  new_row_cases [] a h = new_full refl refl
  new_row_cases (b ∷ xs) a h = elim (Bool-cases (b.src == 0)) [
    | inl z ↦
        let none_there : b.src ≡ 0 = ground arith in
        let (b', run, source, stands) =
          free-Extends fl {graph = graph} e
            (Stands-row graph a.0 (λ busy d. absurd (busy none_there))) live nz none_there unlisted
            blank in
        new_took (b' ∷ xs) (rw (run, Row.insert_new) refl) (record {
          width = refl;
          tallies = λ p. rw (source, none_there) (omega arith);
          stands = (stands, a.1);
        })
    | inr z ↦
        let run = other_insert fl e a.0 (ground arith) (ground arith) in
        elim (new_row_cases xs a.1 (ground arith)) [
          | new_full more full ↦
              new_full (rw (run, Row.insert_new) (rw (more, Row.insert_new) refl)) (ground arith)
          | new_took ys more s ↦
              new_took (b ∷ ys) (rw (run, Row.insert_new) (rw (more, Row.insert_new) refl))
                (record {
                  width = ground (arith, s.width);
                  tallies = λ p. omega (arith, s.tallies p);
                  stands = (a.0, s.stands);
                })
        ]
  ]

  row_enter_cases :
      (xs : Row)
      → All (Stands (adds e graph) w) xs
      → tally (on from_source) xs ≡ 0
      → RowEnters (Stands (adds e graph) w) e.src w xs (Row.insert fl e xs w)
  unfolding Row.insert
  row_enter_cases xs a h = elim (new_row_cases xs a h) [
    | new_full run full ↦
        enter_full (rw (unknown_row xs h, Row.insert) (rw (run, Row.insert) refl)) full
    | new_took ys run s ↦
        enter_took ys (rw (unknown_row xs h, Row.insert) (rw (run, Row.insert) refl)) s
  ]

  layer_enter_cases :
      (l : Layer)
      → Placement.IsValid (Stands (adds e graph) w) l
      → tally (on from_source) (slots l) ≡ 0
      → LayerEnters (Stands (adds e graph) w) e.src w l (Layers.insert fl e l w)
  unfolding Layers.insert
  layer_enter_cases l v h =
      let i = Layers.index e.src l in
      let here : tally (on from_source) (Layers.row i l) ≡ 0 =
        omega (arith, tally-flatten_le (on from_source) l.layer i) in
      elim (row_enter_cases (Layers.row i l) (v.stands i) here) [
        | enter_full run full ↦
            layer_shut (rw (run, Layers.insert) (rw (set-get_or l.layer) refl)) full
        | enter_took ys run s ↦
            layer_entered _ (rw (run, Layers.insert) refl)
              (set-Changes l i 0 e.src ys v (index-lt e.src v) (index_fits e.src l) s)
      ]

module _ (fl : Floats) (graph : Graph) (e : Edge) (c : NodeTable) (g : Store) (live : e.src ≢ 0)
    (nz : e.dst ≢ 0) (unlisted : own e.src g.world.sblacklist ≡ [])
    (free_list : own 0 g.world.sblacklist ≡ []) (blank : (d : ℕ) → graph e.src d ≡ false)
    (v : IsSound (Stands (adds e graph) g.world) c) (absent : total (λ s. s == e.src) c ≡ 0) where
  -- A sound table without a slot of the source takes the edge in by `insert(Edge)`: no null pointer
  -- is dereferenced, and it leaves a sound table of the same shape with its slots and one of the
  -- source that stands for the edge, less the slot in `holekick` where it returns false.
  pub insert_edge-Takes :
      (r : Outcome) × (insert fl e c g ≡ some r) × Takes (Stands (adds e graph) g.world) e.src c g r
  unfolding insert kicks
  insert_edge-Takes =
      let w = g.world in
      elim (layer_enter_cases fl graph e w live nz unlisted blank c.layer1 v.valid1 (omega arith)) [
        | layer_entered m run ch ↦ (
          record { done = true; table = record c { num = inc c.num; layer1 = m }; store = g },
          rw (run, insert) refl,
          settled-Takes v g ch (Changes-refl 0 v.valid2) (λ p z. ground arith) g refl,
        )
        | layer_shut run full ↦
            elim (layer_enter_cases fl graph e w live nz unlisted blank c.layer2 v.valid2
              (omega arith)) [
                | layer_entered n run2 ch ↦ (
                  record {
                    done = true;
                    table = record c { num = inc c.num; layer2 = n };
                    store = g;
                  },
                  rw (run, insert) (rw (run2, insert) refl),
                  settled-Takes v g (Changes-refl 0 v.valid1) ch (λ p z. ground arith) g refl,
                )
                | layer_shut run2 full2 ↦
                    let (ins, made, source, stands) =
                      free-Extends fl {graph = graph} e (new_slot-Stands graph w free_list) live nz
                        (unfold Slot.new in refl) unlisted blank in
                    let at = (home-row ins.src v).0 in
                    let full' : tally (on free)
                          (Layers.row (Layers.index ins.src c.layer1) c.layer1)
                        ≡ 0 =
                      rw (ap (λ s. Layers.index s c.layer1) source) full in
                    (
                      kicks rounds ins c g,
                      rw (run, insert) (rw (run2, insert) (rw (made, insert) refl)),
                      subst (λ s. Takes (Stands (adds e graph) w) s c g (kicks rounds ins c g))
                          source
                          (kick_loop_slot-Takes (λ b h. h.tidy) rounds true _ _ ins c g v stands
                            (ground (arith, source)) (at, rw at full')),
                    )
              ]
      ]
