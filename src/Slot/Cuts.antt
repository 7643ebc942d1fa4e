-- ===== src/Slot/Cuts.antt =====
-- `bSlot::del` where the keys stand in at most two tables: the edge goes out, and no other is lost.
use mathlib.Core.Bool.{false≢true}
use cuckoo_graph.Prelude.{
  ℕ, ◌+◌, ◌≤◌, ◌<◌, ◌≡◌, ◌≢◌, ◌⊎◌, ◌∙◌, refl, inl, inr, Bool, true, false, ◌&&◌, ◌==◌, arith,
  to_nat, Bool-cases, Option, none, some, [], tally, ℤ, pos, negsuc, if◌then◌else◌,
}
use cuckoo_graph.Cuckoo
use cuckoo_graph.Cuckoo.{Cuckoo}
use cuckoo_graph.Cuckoo.Invariant.{is}
use cuckoo_graph.Cuckoo.Delete.{Drops, del-Drops}
use cuckoo_graph.MergeHash.Invariant.{link_total}
use cuckoo_graph.Floats.{Floats}
use cuckoo_graph.Slot.{edge, World, grown, Slot, own, is_slot_empty}
use cuckoo_graph.Slot.Shrink.{drop_key, purge, is_null, measure, settled, del_grown}
use cuckoo_graph.Slot.Lists.{purge-own, purge-own_ne}
use cuckoo_graph.Slot.Invariant.{Fits, Shape, held, IsValid}
use cuckoo_graph.Slot.Place.{listed}
use cuckoo_graph.Slot.Outcomes.{Leaves, settle_one-Leaves, settle_two-Leaves}

-- What a deletion of `d` makes of a slot of the source `s`: the answer is 2 where it was not there.
pub record Cuts (s d : ℕ) (before : (ℕ → Bool) → ℕ) (w : World) (r : Option (ℤ × Slot × World))
    : Type 0 where
  pub code : ℤ
  pub slot : Slot
  pub world : World
  pub runs : r ≡ some (code, slot, world)
  pub source : (slot.src ≡ s) ⊎ (is_slot_empty slot ≡ true)
  pub valid : IsValid slot world
  pub frame : (t : ℕ) → t ≢ s → own t world.sblacklist ≡ own t w.sblacklist
  pub found : (code ≡ pos 2) ⊎ (0 < before (is d))
  pub gone : (code ≢ pos 2) ⊎ (before (is d) ≡ 0)
  pub holds :
      (p : ℕ → Bool)
      → p 0 ≡ false
      → held p slot world + (if 0 == before (is d) then 0 else to_nat (p d)) ≡ before p

Leaves-Cuts :
    {s d : ℕ} {rest : (ℕ → Bool) → ℕ} (before : (ℕ → Bool) → ℕ) {w : World}
    {r : Option (ℤ × Slot × World)}
    → Leaves s rest w r
    → ((p : ℕ → Bool) → p 0 ≡ false → rest p + to_nat (p d) ≡ before p)
    → d ≢ 0
    → Cuts s d before w r
Leaves-Cuts {s} {d} before l cut nz =
    let there : 0 < before (is d) = ground (arith, cut (is d)) in
    record {
      code = l.code;
      slot = l.slot;
      world = l.world;
      runs = l.runs;
      source = l.source;
      valid = l.valid;
      frame = l.frame;
      found = inr there;
      gone = inl l.found;
      holds = λ p z. ground (arith, cut p z, l.holds p z);
    }

Drops-Fits : {k d : ℕ} {c : Cuckoo} {r : Bool × Cuckoo} → Fits k c → Drops d c r → Fits k r.1
Drops-Fits f h = record {
  valid = h.valid;
  wide1 = h.len1 ∙ f.wide1;
  wide2 = h.len2 ∙ f.wide2;
  seed1 = h.seed1 ∙ f.seed1;
  seed2 = h.seed2 ∙ f.seed2;
}

module _ (fl : Floats) (s d : ℕ) (w : World) (nz : d ≢ 0) (live : listed (is 0) s w ≡ 0) where
  -- No table held the key.
  purged-Cuts :
      (s0 s1 s2 : Option Cuckoo)
      → Shape s0 s1 s2
      → let before =
          λ (p : ℕ → Bool). link_total p s0 + link_total p s1 + link_total p s2 + listed p s w in
        ((j : ℕ) → j ≢ 0 → before (is j) ≤ 1)
        → link_total (is d) s0 + link_total (is d) s1 + link_total (is d) s2 ≡ 0
        → (drop_key d s0).0 ≡ false
        → (drop_key d s1).0 ≡ false
        → (drop_key d s2).0 ≡ false
        → Cuts s d before w (del_grown fl (edge s d) s0 s1 s2 w)
  unfolding del_grown
  purged-Cuts s0 s1 s2 shape unique nowhere h0 h1 h2 =
      let (rest, f2, flag) = purge (edge s d) w.sblacklist in
      let few_listed : listed (is d) s w ≤ 1 = omega (arith, unique d nz) in
      let cut = λ (p : ℕ → Bool). purge-own s d w.sblacklist p few_listed in
      let w' : World = record w { sblacklist = rest } in
      let slot : Slot = record { src = s; slot = grown s0 s1 s2 } in
      let valid : IsValid slot w' = record {
        formed = (shape, ground (arith, cut (is 0)));
        unique = λ j h. ground (arith, unique j h, cut (is j));
      } in
      let frame : (t : ℕ) → t ≢ s → own t rest ≡ own t w.sblacklist =
        λ t h. purge-own_ne s d t w.sblacklist h in
      let before =
        λ (p : ℕ → Bool). link_total p s0 + link_total p s1 + link_total p s2 + listed p s w in
      let left : (p : ℕ → Bool)
          → p 0 ≡ false
          → link_total p s0
              + link_total p s1
              + link_total p s2
              + tally p (own s rest)
              + (if 0 == before (is d) then 0 else to_nat (p d))
            ≡ before p =
        λ p z. ground (arith, cut p, nowhere) in
      let build : (code : ℤ)
          → (code ≡ pos 2) ⊎ (0 < before (is d))
          → (code ≢ pos 2) ⊎ (before (is d) ≡ 0)
          → Cuts s d before w (some (code, slot, w')) =
        λ code found gone. record {
          code = code;
          slot = slot;
          world = w';
          runs = refl;
          source = inl refl;
          valid = valid;
          frame = frame;
          found = found;
          gone = gone;
          holds = left;
        } in
      rw (h0, del_grown)
        (rw (h1, del_grown)
          (rw (h2, del_grown)
            (elim (Bool-cases f2) [
              | inr e ↦
                  rw (e, del_grown) (build (pos 2) (inl refl) (inr (ground (arith, cut (is d)))))
              | inl e ↦
                  let there : 0 < before (is d) = ground (arith, cut (is d)) in
                  rw (e, del_grown)
                    (elim (Bool-cases flag) [
                      | inl g ↦ rw (g, del_grown) (build (pos 1) (inr there) (inl (λ q. cc)))
                      | inr g ↦
                          rw (g, del_grown)
                            (elim (Bool-cases (is_null s0 && is_null s1 && is_null s2)) [
                              | inl n ↦
                                  rw (n, del_grown) (build (negsuc 0) (inr there) (inl (λ q. cc)))
                              | inr n ↦
                                  rw (n, del_grown) (build (pos 1) (inr there) (inl (λ q. cc)))
                            ])
                    ])
            ])))

  -- The slot has at most two tables.
  pub del_grown-Cuts :
      (s0 s1 : Option Cuckoo)
      → Shape s0 s1 none
      → own 0 w.sblacklist ≡ []
      → let before = λ (p : ℕ → Bool). link_total p s0 + link_total p s1 + 0 + listed p s w in
        ((j : ℕ) → j ≢ 0 → before (is j) ≤ 1)
        → Cuts s d before w (del_grown fl (edge s d) s0 s1 none w)
  del_grown-Cuts none none shape free unique =
      unfold drop_key in purged-Cuts none none none shape unique refl refl refl refl
  del_grown-Cuts (some a) none shape free unique =
      let h = del-Drops shape.fits0.valid nz in
      let a' = (Cuckoo.del d a).1 in
      elim (Bool-cases (Cuckoo.del d a).0) [
        | inr e ↦
            purged-Cuts (some a) none none shape unique (ground (arith, h.gone, h.tallies (is d)))
              (unfold drop_key in e) (unfold drop_key in refl) (unfold drop_key in refl)
        | inl e ↦
            unfold del_grown drop_key settled measure in
            rw e (
              Leaves-Cuts _
                (settle_one-Leaves fl s shape.log _ a' w (Drops-Fits shape.fits0 h) live free
                  (λ j g. ground (arith, unique j g, h.tallies (is j))))
                (λ p z. ground (arith, h.tallies p z)) nz)
      ]
  del_grown-Cuts (some a) (some b) shape free unique =
      let h = del-Drops shape.fits0.valid nz in
      let g = del-Drops shape.fits1.valid nz in
      let a' = (Cuckoo.del d a).1 in
      let b' = (Cuckoo.del d b).1 in
      elim (Bool-cases (Cuckoo.del d a).0) [
        | inl e ↦
            unfold del_grown drop_key settled measure in
            rw e (
              Leaves-Cuts _
                (settle_two-Leaves fl s shape.log _ a' b w (Drops-Fits shape.fits0 h) shape.fits1
                  live (λ j n. ground (arith, unique j n, h.tallies (is j))))
                (λ p z. ground (arith, h.tallies p z)) nz)
        | inr e ↦ elim (Bool-cases (Cuckoo.del d b).0) [
          | inl o ↦
              unfold del_grown drop_key settled measure in
              rw e (
                rw o (
                  Leaves-Cuts _
                    (settle_two-Leaves fl s shape.log _ a b' w shape.fits0
                      (Drops-Fits shape.fits1 g) live
                      (λ j n. ground (arith, unique j n, g.tallies (is j))))
                    (λ p z. ground (arith, g.tallies p z)) nz))
          | inr o ↦
              purged-Cuts (some a) (some b) none shape unique
                (ground (arith, h.gone, h.tallies (is d), g.gone, g.tallies (is d)))
                (unfold drop_key in e) (unfold drop_key in o) (unfold drop_key in refl)
        ]
      ]
  del_grown-Cuts none (some b) shape free unique =
      absurd (false≢true (unfold is_null in shape.order1 refl))
