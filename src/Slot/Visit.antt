-- ===== src/Slot/Visit.antt =====
-- The loops of `bSlot::insert` over the tables: no key is lost on the way.
use cuckoo_graph.Prelude.{
  ℕ, ◌+◌, ◌≡◌, ◌≢◌, refl, inl, inr, Bool, false, not, ◌&&◌, arith, to_nat, Bool-cases, Option, none,
  some, Option-cases, sym, subst,
}
use cuckoo_graph.Cuckoo
use cuckoo_graph.Cuckoo.{Cuckoo}
use cuckoo_graph.Cuckoo.Invariant.{total, is}
use cuckoo_graph.Cuckoo.Insert.{insert-Takes}
use cuckoo_graph.MergeHash.Invariant.{link_total}
use cuckoo_graph.Floats.{Floats}
use cuckoo_graph.Slot.{own, room}
use cuckoo_graph.Slot.Grow.{Attempt, try, visit}
use cuckoo_graph.Slot.Shrink.{is_null}
use cuckoo_graph.Slot.Invariant.{Fits, LinkFits}
use cuckoo_graph.Slot.Place.{listed, put_in-Holds, Takes-Fits}

-- The key that still has to go into a table.
abbrev pub carried : (ℕ → Bool) → Attempt → ℕ
carried p a = elim a.answer [ none ↦ to_nat (p a.dst) | some n ↦ 0 ]

pub carried_open : (p : ℕ → Bool) (a : Attempt) → a.answer ≡ none → carried p a ≡ to_nat (p a.dst)
carried_open p a e = rw e refl

pub carried_shut : (p : ℕ → Bool) (n : ℕ) (a : Attempt) → a.answer ≡ some n → carried p a ≡ 0
carried_shut p n a e = rw e refl

-- What a round of the loop leaves.
pub record Visits (s : ℕ) (o : Option Cuckoo) (a : Attempt) (r : Option Cuckoo × Attempt)
    : Type 0 where
  pub fits : (k : ℕ) → LinkFits k o → LinkFits k r.0
  pub same : is_null r.0 ≡ is_null o
  pub live : listed (is 0) s r.1.world ≡ 0
  pub stocked :
      (p : ℕ → Bool)
      → p 0 ≡ false
      → link_total p r.0 + listed p s r.1.world + carried p r.1
        ≡ link_total p o + listed p s a.world + carried p a
  pub nonzero : r.1.dst ≢ 0
  pub seen :
      r.1.answer ≡ none → (a.answer ≡ none) × (r.1.count ≡ a.count + to_nat (not (is_null o)))
  pub frame : (t : ℕ) → t ≢ s → own t r.1.world.sblacklist ≡ own t a.world.sblacklist

module _ (fl : Floats) where
  try-Visits :
      (long : Bool) (s i k : ℕ) (c : Cuckoo) (a : Attempt)
      → Fits k c
      → a.answer ≡ none
      → listed (is 0) s a.world ≡ 0
      → a.dst ≢ 0
      → total (is a.dst) c ≡ 0
      → let r = try fl long s i c a in Visits s (some c) a (some r.0, r.1)
  unfolding try is_null
  try-Visits long s i k c a f open_ live nz absent =
      let t = insert-Takes a.world.globals f.valid nz absent in
      let h = put_in-Holds s a.dst c a.world f live nz absent in
      let r = Cuckoo.insert a.dst c a.world.globals in
      elim (Bool-cases (room fl c && not a.fff)) [
        | inl go ↦ rw go (elim (Bool-cases (long && not r.done)) [
          | inl out ↦
              let failed : r.done ≡ false = ground arith in
              rw out (record {
                fits = λ j g. Takes-Fits g t;
                same = refl;
                live = live;
                stocked = λ p z. rw open_ (ground (arith, t.tallies p z));
                nonzero = ground (arith, t.left_over);
                seen = λ e. (open_, omega arith);
                frame = λ t h. refl;
              })
          | inr in_ ↦ rw in_ (record {
            fits = λ j g. (put_in-Holds s a.dst c a.world g live nz absent).fits;
            same = refl;
            live = h.live;
            stocked = λ p z. rw open_ (omega (arith, h.stocked p z));
            nonzero = nz;
            seen = λ e. cc;
            frame = h.frame;
          })
        ])
        | inr skip ↦ rw skip (record {
          fits = λ j g. g;
          same = refl;
          live = live;
          stocked = λ p z. refl;
          nonzero = nz;
          seen = λ e. (open_, omega arith);
          frame = λ t h. refl;
        })
      ]

  visit_open :
      (long : Bool) (s i : ℕ) (c : Cuckoo) (a : Attempt)
      → a.answer ≡ none
      → visit fl long s i (some c) a ≡ (some (try fl long s i c a).0, (try fl long s i c a).1)
  unfolding visit
  visit_open long s i c a e = rw e refl

  visit_shut :
      (long : Bool) (s i n : ℕ) (c : Cuckoo) (a : Attempt)
      → a.answer ≡ some n
      → visit fl long s i (some c) a ≡ (some c, a)
  unfolding visit
  visit_shut long s i n c a e = rw e refl

  pub visit-Visits :
      (long : Bool) (s i k : ℕ) (o : Option Cuckoo) (a : Attempt)
      → LinkFits k o
      → listed (is 0) s a.world ≡ 0
      → a.dst ≢ 0
      → (a.answer ≡ none → link_total (is a.dst) o ≡ 0)
      → Visits s o a (visit fl long s i o a)
  unfolding visit
  visit-Visits long s i k none a f live nz absent = record {
    fits = λ j g. tt;
    same = refl;
    live = live;
    stocked = λ p z. refl;
    nonzero = nz;
    seen = λ e. (e, unfold is_null in omega arith);
    frame = λ t h. refl;
  }
  visit-Visits long s i k (some c) a f live nz absent = elim (Option-cases a.answer) [
    | inl e ↦
        subst (Visits s (some c) a) (sym (visit_open long s i c a e))
          (try-Visits long s i k c a f e live nz (absent e))
    | inr (n, e) ↦ subst (Visits s (some c) a) (sym (visit_shut long s i n c a e)) (record {
      fits = λ j g. g;
      same = refl;
      live = live;
      stocked = λ p z. refl;
      nonzero = nz;
      seen = λ h. cc;
      frame = λ t h. refl;
    })
  ]
