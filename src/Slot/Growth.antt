-- ===== src/Slot/Growth.antt =====
-- `bSlot::insert` where no table took the key: one is opened, or the three are merged.
use mathlib.Core.Bool.{false≢true}
use cuckoo_graph.Prelude.{
  ℕ, suc, ◌+◌, ◌/◌, ◌≤◌, ◌≡◌, ◌≢◌, ◌∙◌, refl, Bool, false, not, arith, to_nat, Option, none, some,
  ℤ,
}
use cuckoo_graph.Cuckoo
use cuckoo_graph.Cuckoo.{Cuckoo}
use cuckoo_graph.Cuckoo.Invariant.{is}
use cuckoo_graph.MergeHash.Invariant.{link_total}
use cuckoo_graph.Slot.{World, grown, Slot, own, us1, us2, u1, u2}
use cuckoo_graph.Slot.Merge.{merge3}
use cuckoo_graph.Slot.Grow.{grow}
use cuckoo_graph.Slot.Shrink.{is_null}
use cuckoo_graph.Slot.Invariant.{Shape, held, IsValid}
use cuckoo_graph.Slot.Place.{listed, put_in-Holds, take_in-Holds, new-Fits}
use cuckoo_graph.Slot.Merged.{merge3-Holds}

-- What an insertion of `d` makes of a slot of the source `s`; `before` says how many of its
-- destinations passed a test.
pub record Grows (s d : ℕ) (before : (ℕ → Bool) → ℕ) (w : World) (r : Option (ℤ × Slot × World))
    : Type 0 where
  pub code : ℤ
  pub slot : Slot
  pub world : World
  pub runs : r ≡ some (code, slot, world)
  pub source : slot.src ≡ s
  pub valid : IsValid slot world
  pub gains : (p : ℕ → Bool) → p 0 ≡ false → held p slot world ≡ before p + to_nat (p d)
  pub frame : (t : ℕ) → t ≢ s → own t world.sblacklist ≡ own t w.sblacklist

abbrev pub links : (ℕ → Bool) → Option Cuckoo → Option Cuckoo → Option Cuckoo → ℕ
links p s0 s1 s2 = link_total p s0 + link_total p s1 + link_total p s2

abbrev pub filled : Option Cuckoo → Option Cuckoo → Option Cuckoo → ℕ
filled s0 s1 s2 = to_nat (not (is_null s0)) + to_nat (not (is_null s1)) + to_nat (not (is_null s2))

module _ (s d : ℕ) (w : World) (nz : d ≢ 0) (live : listed (is 0) s w ≡ 0) where
  -- The three links after the insertion.
  pub built-Grows :
      (before : (ℕ → Bool) → ℕ) (code : ℤ) (t0 t1 t2 : Option Cuckoo) (w' : World)
      → Shape t0 t1 t2
      → listed (is 0) s w' ≡ 0
      → ((p : ℕ → Bool) → p 0 ≡ false → links p t0 t1 t2 + listed p s w' ≡ before p + to_nat (p d))
      → ((j : ℕ) → j ≢ 0 → before (is j) + to_nat (is j d) ≤ 1)
      → ((t : ℕ) → t ≢ s → own t w'.sblacklist ≡ own t w.sblacklist)
      → Grows s d before w (some (code, record { src = s; slot = grown t0 t1 t2 }, w'))
  built-Grows before code t0 t1 t2 w' shape live' gains fresh frame = record {
    code = code;
    slot = record { src = s; slot = grown t0 t1 t2 };
    world = w';
    runs = refl;
    source = refl;
    valid = record {
      formed = (shape, live');
      unique = λ j h. omega (arith, fresh j h, gains (is j) (ground arith));
    };
    gains = gains;
    frame = frame;
  }

  -- `grow` where the tables are as many as it was told.
  pub grow-Grows :
      (t0 t1 t2 : Option Cuckoo)
      → Shape t0 t1 t2
      → ((j : ℕ) → j ≢ 0 → links (is j) t0 t1 t2 + listed (is j) s w + to_nat (is j d) ≤ 1)
      → Grows s d (λ p. links p t0 t1 t2 + listed p s w) w (grow s d t0 t1 t2 (filled t0 t1 t2) w)
  unfolding grow is_null
  grow-Grows none none none shape fresh =
      let (fits, bare) = new-Fits 1 u1 u2 refl refl in
      let h =
        put_in-Holds s d (Cuckoo.new u1 u2 us1 us2) w fits live nz (bare (is d) (ground arith)) in
      built-Grows _ _ _ _ _ _
        (record {
          log = 0;
          fits0 = h.fits;
          fits1 = tt;
          fits2 = tt;
          order1 = λ e. refl;
          order2 = λ e. e;
        })
        h.live (λ p z. omega (arith, h.stocked p z, bare p z)) fresh h.frame
  grow-Grows (some a) none none shape fresh =
      let (fits, bare) =
        new-Fits shape.log (a.len1 / 2) (a.len2 / 2) (omega (arith, shape.fits0.wide1))
          (omega (arith, shape.fits0.wide2)) in
      let h =
        take_in-Holds s d (Cuckoo.new (a.len1 / 2) (a.len2 / 2) us1 us2) w fits bare live nz
          (λ j g. omega (arith, fresh j g)) in
      built-Grows _ _ _ _ _ _
        (record {
          log = shape.log;
          fits0 = shape.fits0;
          fits1 = h.fits;
          fits2 = tt;
          order1 = λ e. cc;
          order2 = λ e. refl;
        })
        h.live (λ p z. omega (arith, h.stocked p z)) fresh h.frame
  grow-Grows (some a) (some b) none shape fresh =
      let (fits, bare) = new-Fits shape.log b.len1 b.len2 shape.fits1.wide1 shape.fits1.wide2 in
      let h =
        take_in-Holds s d (Cuckoo.new b.len1 b.len2 us1 us2) w fits bare live nz
          (λ j g. omega (arith, fresh j g)) in
      built-Grows _ _ _ _ _ _
        (record {
          log = shape.log;
          fits0 = shape.fits0;
          fits1 = shape.fits1;
          fits2 = h.fits;
          order1 = λ e. cc;
          order2 = λ e. cc;
        })
        h.live (λ p z. omega (arith, h.stocked p z)) fresh h.frame
  grow-Grows (some a) (some b) (some c) shape fresh =
      let m =
        merge3-Holds s a b c w shape.fits0 shape.fits1 shape.fits2 live
          (λ j g. omega (arith, fresh j g)) in
      let (t, w1) = merge3 s a b c w in
      let (fits, bare) =
        new-Fits (suc shape.log) (t.len1 / 2) (t.len2 / 2) (omega (arith, m.fits.wide1))
          (omega (arith, m.fits.wide2)) in
      let h =
        take_in-Holds s d (Cuckoo.new (t.len1 / 2) (t.len2 / 2) us1 us2) w1 fits bare m.live nz
          (λ j g. ground (arith, fresh j g, m.stocked (is j))) in
      built-Grows _ _ _ _ _ _
        (record {
          log = suc shape.log;
          fits0 = m.fits;
          fits1 = h.fits;
          fits2 = tt;
          order1 = λ e. cc;
          order2 = λ e. refl;
        })
        h.live (λ p z. omega (arith, h.stocked p z, m.stocked p z)) fresh
        (λ u g. h.frame u g ∙ m.frame u g)
  grow-Grows none none (some c) shape fresh = absurd (false≢true (shape.order2 refl))
  grow-Grows none (some b) t2 shape fresh = absurd (false≢true (shape.order1 refl))
  grow-Grows (some a) none (some c) shape fresh = absurd (false≢true (shape.order2 refl))

pub Grows-map :
    {s d d' : ℕ} {before before' : (ℕ → Bool) → ℕ} {w w' : World} {r : Option (ℤ × Slot × World)}
    → Grows s d' before' w' r
    → ((p : ℕ → Bool) → p 0 ≡ false → before' p + to_nat (p d') ≡ before p + to_nat (p d))
    → ((t : ℕ) → t ≢ s → own t w'.sblacklist ≡ own t w.sblacklist)
    → Grows s d before w r
Grows-map g same frame = record {
  code = g.code;
  slot = g.slot;
  world = g.world;
  runs = g.runs;
  source = g.source;
  valid = g.valid;
  gains = λ p z. omega (arith, g.gains p z, same p z);
  frame = λ t h. g.frame t h ∙ frame t h;
}
