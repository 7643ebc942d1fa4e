-- ===== src/Slot/Grown.antt =====
-- `bSlot::insert` where the keys stand in tables: the new one goes in and none is lost.
use cuckoo_graph.Prelude.{
  ℕ, suc, ◌+◌, ◌≤◌, ◌≡◌, ◌≢◌, ◌∙◌, inl, inr, Bool, false, arith, to_nat, Option, none, Option-cases,
  pos, leb, length, sym, subst,
}
use cuckoo_graph.Cuckoo.{Cuckoo}
use cuckoo_graph.Cuckoo.Invariant.{is}
use cuckoo_graph.Floats.{Floats}
use cuckoo_graph.Slot.{Edge, World, own, sbl}
use cuckoo_graph.Slot.Grow.{Attempt, visit, grow, insert_grown}
use cuckoo_graph.Slot.Invariant.{Shape}
use cuckoo_graph.Slot.Place.{listed}
use cuckoo_graph.Slot.Visit.{carried, carried_open, carried_shut, visit-Visits}
use cuckoo_graph.Slot.Growth.{Grows, Grows-map, links, filled, built-Grows, grow-Grows}

-- The loops over the tables, then `grow` if none of them took the key.
pub insert_grown-Grows :
    (fl : Floats) (e : Edge) (s0 s1 s2 : Option Cuckoo) (w : World)
    → e.dst ≢ 0
    → listed (is 0) e.src w ≡ 0
    → Shape s0 s1 s2
    → ((j : ℕ) → j ≢ 0 → links (is j) s0 s1 s2 + listed (is j) e.src w + to_nat (is j e.dst) ≤ 1)
    → Grows e.src e.dst (λ p. links p s0 s1 s2 + listed p e.src w) w (insert_grown fl e s0 s1 s2 w)
unfolding insert_grown
insert_grown-Grows fl e s0 s1 s2 w nz live shape fresh =
    let s = e.src in
    let before = λ (p : ℕ → Bool). links p s0 s1 s2 + listed p s w in
    let long = leb sbl (length w.sblacklist) in
    let start : Attempt = record {
      answer = none;
      count = 0;
      fff = false;
      dst = e.dst;
      world = w;
    } in
    let v2 =
      visit-Visits fl long s 2 shape.log s2 start shape.fits2 live nz
        (λ o. ground (arith, fresh e.dst nz)) in
    let (t2, a2) = visit fl long s 2 s2 start in
    let v1 = visit-Visits fl long s 1 shape.log s1 a2 shape.fits1 v2.live v2.nonzero (λ o.
      ground
        (arith, fresh a2.dst v2.nonzero, v2.stocked (is a2.dst), carried_open (is a2.dst) a2 o)) in
    let (t1, a1) = visit fl long s 1 s1 a2 in
    let v0 = visit-Visits fl long s 0 (suc shape.log) s0 a1 shape.fits0 v1.live v1.nonzero (λ o.
      ground (
        arith,
        fresh a1.dst v1.nonzero,
        v2.stocked (is a1.dst),
        v1.stocked (is a1.dst),
        carried_open (is a1.dst) a1 o,
      )) in
    let (t0, a) = visit fl long s 0 s0 a1 in
    let shape' : Shape t0 t1 t2 = record {
      log = shape.log;
      fits0 = v0.fits (suc shape.log) shape.fits0;
      fits1 = v1.fits shape.log shape.fits1;
      fits2 = v2.fits shape.log shape.fits2;
      order1 = λ h. v1.same ∙ shape.order1 (sym v0.same ∙ h);
      order2 = λ h. v2.same ∙ shape.order2 (sym v1.same ∙ h);
    } in
    let frame : (t : ℕ) → t ≢ s → own t a.world.sblacklist ≡ own t w.sblacklist =
      λ t h. v0.frame t h ∙ v1.frame t h ∙ v2.frame t h in
    let kept : (p : ℕ → Bool)
        → p 0 ≡ false
        → links p t0 t1 t2 + listed p s a.world + carried p a
          ≡ links p s0 s1 s2 + listed p s w + to_nat (p e.dst) =
      λ p z. omega (arith, v0.stocked p z, v1.stocked p z, v2.stocked p z) in
    elim (Option-cases a.answer) [
      | inr (n, took) ↦
          rw (took, insert_grown)
            (built-Grows s e.dst w nz live before (pos n) t0 t1 t2 a.world shape' v0.live
              (λ p z. omega (arith, kept p z, carried_shut p n a took)) fresh frame)
      | inl open_ ↦
          let (open1, n0) = v0.seen open_ in
          let (open2, n1) = v1.seen open1 in
          let (open3, n2) = v2.seen open2 in
          let n : filled t0 t1 t2 ≡ a.count = rw (v0.same, v1.same, v2.same) (omega arith) in
          let g =
            grow-Grows s a.dst a.world v0.nonzero v0.live t0 t1 t2 shape'
              (λ j h. ground (arith, fresh j h, kept (is j), carried_open (is j) a open_)) in
          rw (open_, insert_grown)
            (subst (λ k. Grows s e.dst before w (grow s a.dst t0 t1 t2 k a.world)) n
              (Grows-map g (λ p z. omega (arith, kept p z, carried_open p a open_)) frame))
    ]
