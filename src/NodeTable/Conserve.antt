-- ===== src/NodeTable/Conserve.antt =====
-- bCuckoo::insert of a slot, and its rounds of kicks: no slot is lost or doubled, whatever `rand()`
-- returns, and the slot that is left over when the rounds run out is in `holekick`.
use cuckoo_graph.Prelude.{
  ℕ, zero, suc, ◌+◌, ◌%◌, ◌<◌, ◌≡◌, ◌≢◌, ◌∙◌, refl, sym, ap₂, Bool, true, false, ℤ, inc, to_nat,
  arith, tally, if◌then◌else◌,
}
use cuckoo_graph.Hash.{home}
use cuckoo_graph.Bucket.{bup}
use cuckoo_graph.Slot
use cuckoo_graph.Slot.{Edge, Slot, World}
use cuckoo_graph.NodeTable.{new, insert_slot}
use cuckoo_graph.NodeTable.Layers
use cuckoo_graph.NodeTable.Layers.{Layer}
use cuckoo_graph.NodeTable.Kicks.{NodeTable, Store, Outcome, rounds, roll, kick_loop, kicks}
use cuckoo_graph.NodeTable.Placement
use cuckoo_graph.NodeTable.Placement.{
  on, free, slots, Changes, Changes-refl, IsTidy, layer_full, layer_took, layer_insert_slot_cases,
  write_slot-Changes, new_layer-IsValid, new_layer_empty,
}

-- How many slots of the two layers have a source that passes the test; `p 0` should be false.
abbrev pub total : (ℕ → Bool) → NodeTable → ℕ
total p c = tally (on p) (slots c.layer1) + tally (on p) (slots c.layer2)

-- Every slot satisfies `P` and stands in the row of its source.
pub record IsSound (P : Slot → Type 0) (c : NodeTable) : Type 0 where
  pub valid1 : Placement.IsValid P c.layer1
  pub valid2 : Placement.IsValid P c.layer2
  pub length1 : c.layer1.length ≡ c.len1
  pub length2 : c.layer2.length ≡ c.len2
  pub same_seed1 : c.layer1.seed ≡ c.seed1
  pub same_seed2 : c.layer2.seed ≡ c.seed2

pub new-IsSound :
    {P : Slot → Type 0} (l1 l2 s1 s2 : ℕ)
    → 0 < l1
    → 0 < l2
    → P Slot.new
    → IsSound P (new l1 l2 s1 s2)
unfolding new Layers.new
new-IsSound l1 l2 s1 s2 h1 h2 g = record {
  valid1 = new_layer-IsValid l1 s1 h1 g;
  valid2 = new_layer-IsValid l2 s2 h2 g;
  length1 = refl;
  length2 = refl;
  same_seed1 = refl;
  same_seed2 = refl;
}

pub new-total : (l1 l2 s1 s2 : ℕ) (p : ℕ → Bool) → p 0 ≡ false → total p (new l1 l2 s1 s2) ≡ 0
unfolding new
new-total l1 l2 s1 s2 p z = omega (arith, new_layer_empty l1 s1 p z, new_layer_empty l2 s2 p z)

-- The positions that the table computes are those that its layers compute.
pub home-row :
    {P : Slot → Type 0} (s : ℕ) {c : NodeTable}
    → IsSound P c
    → (home s c.seed1 c.len1 ≡ Layers.index s c.layer1)
      × (home s c.seed2 c.len2 ≡ Layers.index s c.layer2)
home-row s v = (
  ap₂ (home s) (sym v.same_seed1) (sym v.length1),
  ap₂ (home s) (sym v.same_seed2) (sym v.length2),
)

abbrev pub IsFull : ℕ → Layer → Type 0
IsFull i l = tally (on free) (Layers.row i l) ≡ 0

-- Where the slot that is on its way is to go.
abbrev pub Waits : Bool → ℕ → ℕ → Slot → NodeTable → Type 0
Waits true pos1 pos2 ins c = (pos1 ≡ Layers.index ins.src c.layer1) × IsFull pos1 c.layer1
Waits false pos1 pos2 ins c = (pos2 ≡ Layers.index ins.src c.layer2) × IsFull pos2 c.layer2

abbrev pub lost : (ℕ → Bool) → Outcome → ℕ
lost p r = if r.done then 0 else to_nat (p r.store.holekick.src)

-- What an insertion of a slot of the source `s` leaves: a sound table of the same shape with the
-- slots of `c` and the new one, less the one in `holekick` where the insertion failed; `num` counts
-- the slot where it did not. Of the global variables only `rand()` and `holekick` change.
pub record Takes (P : Slot → Type 0) (s : ℕ) (c : NodeTable) (g : Store) (r : Outcome)
    : Type 0 where
  pub sound : IsSound P r.table
  pub tallies : (p : ℕ → Bool) → p 0 ≡ false → total p r.table + lost p r ≡ total p c + to_nat (p s)
  pub counts : r.table.num ≡ (if r.done then inc c.num else c.num)
  pub len1 : r.table.len1 ≡ c.len1
  pub len2 : r.table.len2 ≡ c.len2
  pub seed1 : r.table.seed1 ≡ c.seed1
  pub seed2 : r.table.seed2 ≡ c.seed2
  pub left_over : r.done ≡ false → P r.store.holekick × (r.store.holekick.src ≢ 0)
  pub listed : r.store.world.sblacklist ≡ g.world.sblacklist

changed-IsSound :
    {P : Slot → Type 0} {c : NodeTable} {m n : Layer} {o1 f1 o2 f2 : ℕ} (num : ℤ)
    → IsSound P c
    → Changes P o1 f1 c.layer1 m
    → Changes P o2 f2 c.layer2 n
    → IsSound P (record c { num = num; layer1 = m; layer2 = n })
changed-IsSound num v a b = record {
  valid1 = a.valid;
  valid2 = b.valid;
  length1 = a.same_length ∙ v.length1;
  length2 = b.same_length ∙ v.length2;
  same_seed1 = a.same_seed ∙ v.same_seed1;
  same_seed2 = b.same_seed ∙ v.same_seed2;
}

module _ {P : Slot → Type 0} {c : NodeTable} (v : IsSound P c) {s : ℕ} (g : Store) {m n : Layer}
    {o1 f1 o2 f2 : ℕ} (a : Changes P o1 f1 c.layer1 m) (b : Changes P o2 f2 c.layer2 n) where
  -- The last change of an insertion: the layers have gained the slot, and it is counted.
  pub settled-Takes :
      ((p : ℕ → Bool)
        → p 0 ≡ false
        → to_nat (p f1) + to_nat (p f2) ≡ to_nat (p o1) + to_nat (p o2) + to_nat (p s))
      → (g' : Store) → g'.world.sblacklist ≡ g.world.sblacklist
      → Takes P s c g (record {
        done = true;
        table = record c { num = inc c.num; layer1 = m; layer2 = n };
        store = g';
      })
  settled-Takes balance g' same = record {
    sound = changed-IsSound (inc c.num) v a b;
    tallies = λ p e. omega (arith, a.tallies p, b.tallies p, balance p e);
    counts = refl;
    len1 = refl;
    len2 = refl;
    seed1 = refl;
    seed2 = refl;
    left_over = λ e. cc;
    listed = same;
  }

  -- A round that finds no room: the slot is in, a slot of the source `k` is out, and the next round
  -- goes on from there.
  passed :
      {k : ℕ}
      → ((p : ℕ → Bool)
          → to_nat (p f1) + to_nat (p f2) + to_nat (p k)
            ≡ to_nat (p o1) + to_nat (p o2) + to_nat (p s))
      → IsSound P (record c { layer1 = m; layer2 = n })
        × ((r : Outcome)
            → Takes P k (record c { layer1 = m; layer2 = n }) (roll g) r
            → Takes P s c g r)
  passed {k} balance = (
    changed-IsSound c.num v a b,
    λ r t. record {
      sound = t.sound;
      tallies = λ p e. omega (arith, t.tallies p e, a.tallies p, b.tallies p, balance p);
      counts = t.counts;
      len1 = t.len1;
      len2 = t.len2;
      seed1 = t.seed1;
      seed2 = t.seed2;
      left_over = t.left_over;
      listed = t.listed;
    },
  )

module _ {P : Slot → Type 0} (tidy : (b : Slot) → P b → IsTidy b) where
  pub kick_loop_slot-Takes :
      (times : ℕ) (flag : Bool) (pos1 pos2 : ℕ) (ins : Slot) (c : NodeTable) (g : Store)
      → IsSound P c
      → P ins
      → ins.src ≢ 0
      → Waits flag pos1 pos2 ins c
      → Takes P ins.src c g (kick_loop times flag pos1 pos2 ins c g)
  unfolding kick_loop
  kick_loop_slot-Takes zero flag pos1 pos2 ins c g v h nonzero waits = record {
    sound = v;
    tallies = λ p e. refl;
    counts = refl;
    len1 = refl;
    len2 = refl;
    seed1 = refl;
    seed2 = refl;
    left_over = λ e. (h, nonzero);
    listed = refl;
  }
  kick_loop_slot-Takes (suc times) true pos1 pos2 ins c g v h nonzero waits =
      let x = g.world.globals.rand 0 % bup in
      let kick = Layers.read pos1 x c.layer1 in
      let (live, stands, ch) =
        write_slot-Changes pos1 x ins v.valid1 h waits.0 (omega arith) waits.1 in
      elim (layer_insert_slot_cases tidy kick v.valid2 stands) [
        | layer_took n e ch' ↦ rw e (settled-Takes v g ch ch' (λ p z. ground arith) (roll g) refl)
        | layer_full e full ↦
            let (v', more) =
              passed v g ch (Changes-refl 0 v.valid2) {k = kick.src} (λ p. omega arith) in
            rw e (
              more _ (
                kick_loop_slot-Takes times false pos1 _ kick _ (roll g) v' stands live
                  (let at = (home-row kick.src v).1 in (at, rw at full))))
      ]
  kick_loop_slot-Takes (suc times) false pos1 pos2 ins c g v h nonzero waits =
      let x = g.world.globals.rand 0 % bup in
      let kick = Layers.read pos2 x c.layer2 in
      let (live, stands, ch) =
        write_slot-Changes pos2 x ins v.valid2 h waits.0 (omega arith) waits.1 in
      elim (layer_insert_slot_cases tidy kick v.valid1 stands) [
        | layer_took n e ch' ↦ rw e (settled-Takes v g ch' ch (λ p z. ground arith) (roll g) refl)
        | layer_full e full ↦
            let (v', more) =
              passed v g (Changes-refl 0 v.valid1) ch {k = kick.src} (λ p. omega arith) in
            rw e (
              more _ (
                kick_loop_slot-Takes times true _ pos2 kick _ (roll g) v' stands live
                  (let at = (home-row kick.src v).0 in (at, rw at full))))
      ]

  -- A sound table takes a slot in by `insert(bSlot)`: it leaves a sound table of the same shape with
  -- its slots and the new one, less the slot in `holekick` where it returns false.
  pub insert_slot-Takes :
      (b : Slot) {c : NodeTable} (g : Store)
      → IsSound P c
      → P b
      → b.src ≢ 0
      → Takes P b.src c g (insert_slot b c g)
  unfolding insert_slot kicks
  insert_slot-Takes b {c} g v h nonzero = elim (layer_insert_slot_cases tidy b v.valid1 h) [
    | layer_took m e ch ↦
        rw e (settled-Takes v g ch (Changes-refl 0 v.valid2) (λ p z. ground arith) g refl)
    | layer_full e full ↦ elim (layer_insert_slot_cases tidy b v.valid2 h) [
      | layer_took n e2 ch ↦
          rw (e, e2) (settled-Takes v g (Changes-refl 0 v.valid1) ch (λ p z. ground arith) g refl)
      | layer_full e2 full2 ↦
          let at = (home-row b.src v).0 in
          rw (e, e2) (kick_loop_slot-Takes rounds true _ _ b c g v h nonzero (at, rw at full))
    ]
  ]
