-- ===== src/NodeTable/Uncounted.antt =====
-- bCuckoo::del where the last edge of a source stands in `sblacklist`: the slot keeps its source, but
-- is counted out, and it is not counted in again when an edge comes back.
use cuckoo_graph.Prelude.{
  ℕ, ◌<◌, ◌≡◌, ◌≢◌, ◌∙◌, refl, sym, ap, inl, inr, Bool, true, false, ◌==◌, ==_refl, arith, none,
  some, negsuc, dec, List, [], ◌∷◌, length as size, get_or, set, get_or-set_self, set-get_or, subst,
  tally, tally-flatten-set, Bool-cases,
}
use cuckoo_graph.Floats.{Floats}
use cuckoo_graph.Slot
use cuckoo_graph.Slot.{Edge, edge, Slot, World, grown, own}
use cuckoo_graph.Slot.Shrink
use cuckoo_graph.Slot.Shrink.{purge, drop_key, is_null}
use cuckoo_graph.Slot.Invariant.{IsValid}
use cuckoo_graph.Slot.Insert.{at, query-insert_slot}
use cuckoo_graph.NodeTable.{del, query, first, counted, is_pos_zero}
use cuckoo_graph.NodeTable.Update.{same_tally}
use cuckoo_graph.HoleMerge.Grow.{insert_place}
use cuckoo_graph.NodeTable.Row
use cuckoo_graph.NodeTable.Row.{Row}
use cuckoo_graph.NodeTable.Layers
use cuckoo_graph.NodeTable.Kicks.{NodeTable}
use cuckoo_graph.NodeTable.Placement.{on, index-lt}
use cuckoo_graph.NodeTable.Conserve.{IsSound, total}

-- A slot without tables.
abbrev pub drained : ℕ → Slot
drained s = at s (grown none none none)

purge_none : (s d : ℕ) (xs : List Edge) → own s xs ≡ [] → purge (edge s d) xs ≡ (xs, false, false)
unfolding purge own
purge_none s d [] h = refl
purge_none s d (x ∷ xs) h = elim (Bool-cases (x.src == s)) [
  | inl same ↦
      let clash : x.dst ∷ own s xs ≡ [] = rw same at h in absurd (omega (arith, ap size clash))
  | inr other ↦ let rest : own s xs ≡ [] = rw other at h in rw (other, purge_none s d xs rest) refl
]

-- The one listed edge of the source is taken out.
purge_last :
    (s d : ℕ) (xs : List Edge)
    → own s xs ≡ d ∷ []
    → (rest : List Edge) × (purge (edge s d) xs ≡ (rest, true, false)) × (own s rest ≡ [])
unfolding purge own
purge_last s d [] h = absurd (omega (arith, ap size h))
purge_last s d (x ∷ xs) h = elim (Bool-cases (x.src == s)) [
  | inl same ↦
      let both : x.dst ∷ own s xs ≡ d ∷ [] = rw same at h in
      let first : x.dst ≡ d = ap (λ l. get_or l 0 0) both in
      let rest : own s xs ≡ [] =
        ap (λ (l : List ℕ). elim l as (λ y. List ℕ) [ [] ↦ [] | y ∷ ys ↦ ys ]) both in
      let found : (x.dst == d) ≡ true = ground arith in
      (xs, rw (same, found, purge_none s d xs rest) refl, rest)
  | inr other ↦
      let rest : own s xs ≡ d ∷ [] = rw other at h in
      let (ys, run, none_left) = purge_last s d xs rest in
      (x ∷ ys, rw (other, run) refl, rw other none_left)
]

-- `del` of the last edge: the answer is -1, and the slot stays as it is.
drained-del :
    (fl : Floats) (e : Edge) (w : World)
    → own e.src w.sblacklist ≡ e.dst ∷ []
    → (w' : World) × (Shrink.del fl e (drained e.src) w ≡ some (negsuc 0, drained e.src, w'))
      × (own e.src w'.sblacklist ≡ [])
unfolding Shrink.del Shrink.del_grown drop_key is_null
drained-del fl e w h =
    let (rest, run, none_left) = purge_last e.src e.dst w.sblacklist h in
    (record w { sblacklist = rest }, rw (==_refl e.src, run) refl, none_left)

drained-IsValid : (s : ℕ) (w : World) → own s w.sblacklist ≡ [] → IsValid (drained s) w
unfolding is_null tally
drained-IsValid s w h = record {
  formed = (
    record { log = 0; fits0 = tt; fits1 = tt; fits2 = tt; order1 = λ e. refl; order2 = λ e. refl },
    rw h refl,
  );
  unique = λ d nz. rw h (omega arith);
}

row_seen :
    (e : Edge) (b : Slot) (bs : Row) (w : World)
    → b.src ≡ e.src
    → Row.query e (b ∷ bs) w ≡ Slot.query e b w
unfolding Row.query
row_seen e b bs w same = let hit : (b.src == e.src) ≡ true = ground arith in rw hit refl

table_seen :
    (e : Edge) (c : NodeTable) (w : World) → 0 < Layers.query e c.layer1 w → 0 < query e c w
unfolding query
table_seen e c w h = let busy : (Layers.query e c.layer1 w == 0) ≡ false = ground arith in rw busy h

module _ {P : Slot → Type 0} (fl : Floats) (e : Edge) (c : NodeTable) (w : World) (bs : Row)
    (v : IsSound P c) (nz : e.dst ≢ 0)
    (here : Layers.row (Layers.index e.src c.layer1) c.layer1 ≡ drained e.src ∷ bs)
    (last : own e.src w.sblacklist ≡ e.dst ∷ []) where
  row_del :
      (w' : World)
      → Shrink.del fl e (drained e.src) w ≡ some (negsuc 0, drained e.src, w')
      → Row.del fl e (drained e.src ∷ bs) w ≡ some (negsuc 0, drained e.src ∷ bs, w')
  unfolding Row.del
  row_del w' run = rw (==_refl e.src, Row.del) (rw (run, Row.del) refl)

  layer_del :
      (w' : World)
      → Shrink.del fl e (drained e.src) w ≡ some (negsuc 0, drained e.src, w')
      → Layers.del fl e c.layer1 w ≡ some (negsuc 0, c.layer1, w')
  unfolding Layers.del
  layer_del w' run =
      let i = Layers.index e.src c.layer1 in
      let deleted : Row.del fl e (Layers.row i c.layer1) w
          ≡ some (negsuc 0, Layers.row i c.layer1, w') =
        subst (λ r. Row.del fl e r w ≡ some (negsuc 0, r, w')) (sym here) (row_del w' run) in
      rw (deleted, Layers.del) (rw (set-get_or c.layer1.layer) refl)

  -- A sound table whose row of the source begins with a slot of it that has no tables, while the list
  -- has one edge of the source: `del` of this edge answers -1 and takes one off `num`, `insert` of the
  -- edge into the slot that is still there puts the edge back, so that `query` finds it, and `num`
  -- stays one lower although each source has as many slots as before.
  pub num-del_insert :
      (c1 : NodeTable) × (w1 : World) × (c2 : NodeTable) × (w2 : World) × (del fl e c w
        ≡ some (negsuc 0, c1, w1))
      × (insert_place fl e (first (Layers.index e.src c.layer1) 0) c1 w1 ≡ some (c2, w2))
      × (0 < query e c2 w2)
      × (c2.num ≡ dec c.num)
      × ((p : ℕ → Bool) → total p c2 ≡ total p c)
  unfolding del counted is_pos_zero insert_place Layers.read Layers.write
  num-del_insert =
      let i = Layers.index e.src c.layer1 in
      let r = Layers.row i c.layer1 in
      let (w1, run, none_left) = drained-del fl e w last in
      let (code, b, w2, made, source, valid, found, frame) =
        query-insert_slot fl e (drained-IsValid e.src w1 none_left) nz (inl refl) in
      let inside : i < size c.layer1.layer =
        omega (arith, index-lt e.src v.valid1, v.valid1.sized) in
      let there : get_or r 0 Slot.new ≡ drained e.src = ap (λ q. get_or q 0 Slot.new) here in
      let wide : 0 < size r = omega (arith, ap size here) in
      let stays =
        λ (p : ℕ → Bool). same_tally r 0 b p wide (ap (λ (x : Slot). x.src) there ∙ sym source) in
      let changed : set r 0 b ≡ b ∷ bs = ap (λ q. set q 0 b) here in
      let seen : 0 < Slot.query e b w2 = (found e.dst nz).1 (inr refl) in
      let read : Slot.Grow.insert fl e (get_or r 0 Slot.new) w1 ≡ some (code, b, w2) =
        ap (λ x. Slot.Grow.insert fl e x w1) there ∙ made in
      let hit : Layers.query e (Layers.write i 0 b c.layer1) w2 ≡ Slot.query e b w2 =
        unfold Layers.query Layers.write in
        ap (λ q. Row.query e q w2)
          (get_or-set_self c.layer1.layer i (set r 0 b) [] inside ∙ changed)
        ∙ row_seen e b bs w2 source in
      (
        record c { num = dec c.num },
        w1,
        record c { num = dec c.num; layer1 = Layers.write i 0 b c.layer1 },
        w2,
        rw (layer_del w1 run, del) refl,
        rw (read, insert_place) refl,
        table_seen e (record c { num = dec c.num; layer1 = Layers.write i 0 b c.layer1 }) w2
            (rw hit seen),
        refl,
        λ p. omega (arith, tally-flatten-set (on p) c.layer1.layer i (set r 0 b) inside, stays p),
      )
