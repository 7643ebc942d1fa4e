-- ===== src/NodeTable/Kicks.antt =====
-- CuckooGraph/main.cpp, the loops of bCuckoo::insert(Edge) and bCuckoo::insert(bSlot), which are the
-- same: a slot that finds no room kicks another one out of its row.
use cuckoo_graph.Prelude.{ℕ, zero, suc, ◌%◌, Bool, true, false, ℤ, inc, if◌then◌else◌}
use cuckoo_graph.Hash.{home}
use cuckoo_graph.Bucket.{bup}
use cuckoo_graph.Cuckoo.{drawn}
use cuckoo_graph.Slot.{Slot, World}
use cuckoo_graph.NodeTable.Layers
use cuckoo_graph.NodeTable.Layers.{Layer}

-- the `500` of the two functions
abbrev pub rounds : ℕ
rounds = 500

pub record NodeTable : Type 0 where
  pub len1 : ℕ
  pub len2 : ℕ
  pub seed1 : ℕ
  pub seed2 : ℕ
  pub num : ℤ
  pub layer1 : Layer
  pub layer2 : Layer

-- The global variables, `holekick` among them.
pub record Store : Type 0 where
  pub world : World
  pub holekick : Slot

pub record Outcome : Type 0 where
  pub done : Bool
  pub table : NodeTable
  pub store : Store

-- a call of `rand()`
abbrev pub roll : Store → Store
roll g = record g { world = record g.world { globals = drawn g.world.globals } }

-- `while (times)`
unfoldable pub kick_loop : ℕ → Bool → ℕ → ℕ → Slot → NodeTable → Store → Outcome
kick_loop zero flag pos1 pos2 ins c g = record {
  done = false;
  table = c;
  store = record g { holekick = ins };
}
kick_loop (suc times) true pos1 pos2 ins c g =
    let x = g.world.globals.rand 0 % bup in
    let kick = Layers.read pos1 x c.layer1 in
    let m = Layers.write pos1 x ins c.layer1 in
    let (f, n) = Layers.insert_slot kick c.layer2 in
    let rest =
      kick_loop times false pos1 (home kick.src c.seed2 c.len2) kick
        (record c { layer1 = m; layer2 = n }) (roll g) in
    if f
    then record {
      done = true;
      table = record c { num = inc c.num; layer1 = m; layer2 = n };
      store = roll g;
    }
    else rest
kick_loop (suc times) false pos1 pos2 ins c g =
    let x = g.world.globals.rand 0 % bup in
    let kick = Layers.read pos2 x c.layer2 in
    let n = Layers.write pos2 x ins c.layer2 in
    let (f, m) = Layers.insert_slot kick c.layer1 in
    let rest =
      kick_loop times true (home kick.src c.seed1 c.len1) pos2 kick
        (record c { layer1 = m; layer2 = n }) (roll g) in
    if f
    then record {
      done = true;
      table = record c { num = inc c.num; layer1 = m; layer2 = n };
      store = roll g;
    }
    else rest

-- The loop from the start: `ins` is to go into its row of the first layer.
unfoldable pub kicks : ℕ → Slot → NodeTable → Store → Outcome
kicks times ins c g =
    kick_loop times true (home ins.src c.seed1 c.len1) (home ins.src c.seed2 c.len2) ins c g
