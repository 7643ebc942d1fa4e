-- ===== src/HoleMerge/Merged.antt =====
-- The three-table `merge` of the store: no slot of the three tables is lost or doubled.
use cuckoo_graph.Prelude.{
  ℕ, ◌+◌, ◌*◌, ◌/◌, ◌≡◌, ◌∙◌, refl, ℤ, Bool, false, List, [], arith, tally, subst, All,
  length as size,
}
use cuckoo_graph.Slot
use cuckoo_graph.Slot.{Slot}
use cuckoo_graph.NodeTable.Layers.{Layer}
use cuckoo_graph.NodeTable.Kicks.{NodeTable, Store}
use cuckoo_graph.NodeTable.Placement
use cuckoo_graph.NodeTable.Placement.{on, free, slots, IsTidy}
use cuckoo_graph.NodeTable.Conserve.{IsSound, total}
use cuckoo_graph.HoleMerge.Merge.{Pour, pour_both, poured, merge3, double_layer}
use cuckoo_graph.HoleMerge.Receive.{Stocked, stock, offer_all_slots-Receives}
use cuckoo_graph.HoleMerge.Double.{double_layer-IsValid, tally-double_layer}
use cuckoo_graph.HoleMerge.Poured.{Ready, in_all, rows, rows_all, pour_both_slots-Pours}

-- A sound table of the given seeds and widths.
pub record Fits (P : Slot → Type 0) (s1 s2 l1 l2 : ℕ) (c : NodeTable) : Type 0 where
  pub sound : IsSound P c
  pub seed1 : c.seed1 ≡ s1
  pub seed2 : c.seed2 ≡ s2
  pub len1 : c.len1 ≡ l1
  pub len2 : c.len2 ≡ l2

-- All rows of two layers of the same length.
rows-slots :
    {P : Slot → Type 0} (n : ℕ) (a b : Layer) (p : ℕ → Bool)
    → Placement.IsValid P a
    → Placement.IsValid P b
    → a.length ≡ n
    → b.length ≡ n
    → rows p n 0 a.layer + rows p n 0 b.layer ≡ tally (on p) (slots a) + tally (on p) (slots b)
rows-slots n a b p v w e f =
    let one = λ (l : Layer) (g : size l.layer ≡ n).
      subst (λ k. rows p k 0 l.layer ≡ tally (on p) (slots l)) g (rows_all p l.layer) in
    omega (arith, one a (v.sized ∙ e), one b (w.sized ∙ f))

-- A layer at twice the width, before slots are poured into it; the queue is not empty in general.
doubled-Ready :
    {P : Slot → Type 0} (seed n : ℕ) (l : Layer) (num : ℤ) (mq : List Slot)
    → P Slot.new
    → Placement.IsValid P l
    → l.seed ≡ seed
    → l.length ≡ n
    → All P mq
    → tally (on free) mq ≡ 0
    → let s : Pour = record { layer = double_layer seed n l; num = num; mq = mq } in
      Ready P seed (n * 2) s
      × ((p : ℕ → Bool) → p 0 ≡ false → in_all p s ≡ tally (on p) (slots l) + tally (on p) mq)
doubled-Ready seed n l num mq g v es en a live =
    let wide = double_layer-IsValid g v in
    let same = tally-double_layer g v in
    rw (← es, ← en)
      (
        record {
          valid = wide;
          stands = a;
          live = live;
          same_seed = unfold double_layer in refl;
          same_length = unfold double_layer in refl;
        },
        λ p z. omega (arith, same p z),
      )

module _ {P : Slot → Type 0} (tidy : (b : Slot) → P b → IsTidy b) (g : P Slot.new) where
  -- `merge` of a table and two of half its width gives a table of twice its width that holds, with
  -- the blacklist, the slots of the three and those of the blacklist.
  pub merge3-Fits :
      {a1 a2 s1 s2 : ℕ} {c0 c1 c2 : NodeTable} (left : List Slot) (st : Store)
      → Fits P s1 s2 (a1 * 2) (a2 * 2) c0
      → Fits P s1 s2 a1 a2 c1
      → Fits P s1 s2 a1 a2 c2
      → All P left
      → tally (on free) left ≡ 0
      → let t = merge3 s1 s2 c0 c1 c2 left st in
        Fits P s1 s2 (a1 * 2 * 2) (a2 * 2 * 2) t.table
        × Stocked P t
        × ((p : ℕ → Bool)
            → p 0 ≡ false
            → stock p t ≡ total p c0 + total p c1 + total p c2 + tally (on p) left)
        × (t.store.world.sblacklist ≡ st.world.sblacklist)
  unfolding merge3 poured tally
  merge3-Fits {a1} {a2} {s1} {s2} {c0} {c1} {c2} left st f0 f1 f2 stands live =
      let v0 = f0.sound in
      let v1 = f1.sound in
      let v2 = f2.sound in
      let half1 : c0.len1 / 2 ≡ a1 = omega (arith, f0.len1) in
      let half2 : c0.len2 / 2 ≡ a2 = omega (arith, f0.len2) in
      let all1 = λ (p : ℕ → Bool).
        rows-slots a1 c1.layer1 c2.layer1 p v1.valid1 v2.valid1 (v1.length1 ∙ f1.len1)
          (v2.length1 ∙ f2.len1) in
      let all2 = λ (p : ℕ → Bool).
        rows-slots a2 c1.layer2 c2.layer2 p v1.valid2 v2.valid2 (v1.length2 ∙ f1.len2)
          (v2.length2 ∙ f2.len2) in
      let start : Pour = record {
        layer = double_layer s1 c0.len1 c0.layer1;
        num = c0.num;
        mq = [];
      } in
      let (ready1, same1) =
        doubled-Ready s1 c0.len1 c0.layer1 c0.num [] g v0.valid1 (v0.same_seed1 ∙ f0.seed1)
          v0.length1 tt refl in
      let p1 =
        pour_both_slots-Pours tidy s1 (c0.len1 * 2) c0.len1 a1 0 c1.layer1 c2.layer1 start refl
          ready1 v1.valid1.stands v2.valid1.stands in
      let p = pour_both s1 c0.len1 a1 0 c1.layer1 c2.layer1 start in
      let next : Pour = record {
        layer = double_layer s2 c0.len2 c0.layer2;
        num = p.num;
        mq = p.mq;
      } in
      let (ready2, same2) =
        doubled-Ready s2 c0.len2 c0.layer2 p.num p.mq g v0.valid2 (v0.same_seed2 ∙ f0.seed2)
          v0.length2 p1.ready.stands p1.ready.live in
      let p2 =
        pour_both_slots-Pours tidy s2 (c0.len2 * 2) c0.len2 a2 0 c1.layer2 c2.layer2 next refl
          ready2 v1.valid2.stands v2.valid2.stands in
      let q = pour_both s2 c0.len2 a2 0 c1.layer2 c2.layer2 next in
      let table : NodeTable = record {
        len1 = c0.len1 * 2;
        len2 = c0.len2 * 2;
        seed1 = s1;
        seed2 = s2;
        num = q.num;
        layer1 = p.layer;
        layer2 = q.layer;
      } in
      let sound : IsSound P table = record {
        valid1 = p1.ready.valid;
        valid2 = p2.ready.valid;
        length1 = p1.ready.same_length;
        length2 = p2.ready.same_length;
        same_seed1 = p1.ready.same_seed;
        same_seed2 = p2.ready.same_seed;
      } in
      let r =
        offer_all_slots-Receives tidy q.mq (record { table = table; left = left; store = st })
          (record { sound = sound; stands = stands; live = live }) p2.ready.stands p2.ready.live in
      rw (half1, half2)
        (
          record {
            sound = r.kept.sound;
            seed1 = r.seed1;
            seed2 = r.seed2;
            len1 = omega (arith, r.len1, f0.len1);
            len2 = omega (arith, r.len2, f0.len2);
          },
          r.kept,
          λ k z. omega (
            arith,
            r.stocked k z,
            p1.stocked k z,
            p2.stocked k z,
            same1 k z,
            same2 k z,
            all1 k,
            all2 k,
          ),
          r.listed,
        )
