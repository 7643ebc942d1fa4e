-- ===== src/Cuckoo.antt =====
-- CuckooGraph/Cuckoo.h, class Cuckoo: a cuckoo hash table of two layers. A key that finds no room
-- kicks a random key out of its bucket, which then goes to its bucket of the other layer, for at
-- most 500 rounds. The results of `rand()` are a stream, and `mykick` is the global variable that
-- holds the key left over when the rounds run out. (TEST_KICK and TEST_MEM are not defined.)
pub mod Invariant
pub mod Kick
pub mod Insert
pub mod Delete
use cuckoo_graph.Prelude.{ℕ, zero, suc, ◌%◌, Bool, true, false, ℤ, pos, inc, dec, if◌then◌else◌}
use cuckoo_graph.Hash.{home}
use cuckoo_graph.Bucket.{duplicate, no_room, inserted, bup}
use cuckoo_graph.Layer
use cuckoo_graph.Layer.{Layer}

abbrev pub kicktimes : ℕ
kicktimes = 500

pub record Globals : Type 0 where
  pub rand : ℕ → ℕ
  pub mykick : ℕ

-- The globals after a call of `rand()`, whose result is `g.rand 0`.
abbrev pub drawn : Globals → Globals
drawn g = record g { rand = λ n. g.rand (suc n) }

pub record Cuckoo : Type 0 where
  pub len1 : ℕ
  pub len2 : ℕ
  pub seed1 : ℕ
  pub seed2 : ℕ
  pub num : ℤ
  pub layer1 : Layer
  pub layer2 : Layer

unfoldable pub new : ℕ → ℕ → ℕ → ℕ → Cuckoo
new l1 l2 s1 s2 = record {
  len1 = l1;
  len2 = l2;
  seed1 = s1;
  seed2 = s2;
  num = pos 0;
  layer1 = Layer.new l1 s1;
  layer2 = Layer.new l2 s2;
}

-- What `insert` returns, and the table and the globals that it leaves.
pub record Outcome : Type 0 where
  pub done : Bool
  pub table : Cuckoo
  pub globals : Globals

-- `while (times)`; `flag` says that `ins` is to be put into bucket `pos1` of the first layer.
unfoldable pub kick_loop : ℕ → Bool → ℕ → ℕ → ℕ → Cuckoo → Globals → Outcome
kick_loop zero flag pos1 pos2 ins c g = record {
  done = false;
  table = c;
  globals = record g { mykick = ins };
}
kick_loop (suc times) true pos1 pos2 ins c g =
    let x = g.rand 0 % bup in
    let kick = Layer.read pos1 x c.layer1 in
    let m = Layer.write pos1 x ins c.layer1 in
    let (f, n) = Layer.insert kick c.layer2 in
    elim f [
      | inserted ↦ record {
        done = true;
        table = record c { num = inc c.num; layer1 = m; layer2 = n };
        globals = drawn g;
      }
      | duplicate ↦ record {
        done = true;
        table = record c { layer1 = m; layer2 = n };
        globals = drawn g;
      }
      | no_room ↦
          kick_loop times false pos1 (home kick c.seed2 c.len2) kick
            (record c { layer1 = m; layer2 = n }) (drawn g)
    ]
kick_loop (suc times) false pos1 pos2 ins c g =
    let x = g.rand 0 % bup in
    let kick = Layer.read pos2 x c.layer2 in
    let n = Layer.write pos2 x ins c.layer2 in
    let (f, m) = Layer.insert kick c.layer1 in
    elim f [
      | inserted ↦ record {
        done = true;
        table = record c { num = inc c.num; layer1 = m; layer2 = n };
        globals = drawn g;
      }
      | duplicate ↦ record {
        done = true;
        table = record c { layer1 = m; layer2 = n };
        globals = drawn g;
      }
      | no_room ↦
          kick_loop times true (home kick c.seed1 c.len1) pos2 kick
            (record c { layer1 = m; layer2 = n }) (drawn g)
    ]

unfoldable pub insert2 : ℕ → Cuckoo → Globals → Outcome
insert2 item c g =
    let (ir, n) = Layer.insert item c.layer2 in
    elim ir [
      | inserted ↦ record {
        done = true;
        table = record c { num = inc c.num; layer2 = n };
        globals = g;
      }
      | duplicate ↦ record { done = true; table = record c { layer2 = n }; globals = g }
      | no_room ↦
          kick_loop kicktimes true (home item c.seed1 c.len1) (home item c.seed2 c.len2) item
            (record c { layer2 = n }) g
    ]

unfoldable pub insert : ℕ → Cuckoo → Globals → Outcome
insert item c g =
    let (ir, m) = Layer.insert item c.layer1 in
    elim ir [
      | inserted ↦ record {
        done = true;
        table = record c { num = inc c.num; layer1 = m };
        globals = g;
      }
      | duplicate ↦ record { done = true; table = record c { layer1 = m }; globals = g }
      | no_room ↦ insert2 item (record c { layer1 = m }) g
    ]

unfoldable pub query : ℕ → Cuckoo → Bool
query item c = if Layer.query item c.layer1 then true else Layer.query item c.layer2

unfoldable pub del : ℕ → Cuckoo → Bool × Cuckoo
del item c =
    let (found1, m) = Layer.del item c.layer1 in
    let (found2, n) = Layer.del item c.layer2 in
    if found1
    then (true, record c { num = dec c.num; layer1 = m })
    else if found2
    then (true, record c { num = dec c.num; layer1 = m; layer2 = n })
    else (false, record c { layer1 = m; layer2 = n })
