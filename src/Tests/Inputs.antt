-- ===== src/Tests/Inputs.antt =====
-- The inputs of the tests: exact fractions for `double`, a stream for `rand()`, small tables.
use cuckoo_graph.Prelude.{
  ◌≢◌, All, arith, ℕ, zero, suc, ◌+◌, ◌*◌, ℤ, pos, negsuc, Option, none, some, List, [], ◌∷◌, ltb,
  if◌then◌else◌, ◌++◌,
}
use cuckoo_graph.Hash.{mmhash, home}
use cuckoo_graph.Bucket
use cuckoo_graph.Bucket.Scalar
use cuckoo_graph.Layer
use cuckoo_graph.Cuckoo
use cuckoo_graph.Cuckoo.{Cuckoo, Globals}
use cuckoo_graph.Resize
use cuckoo_graph.Resize.Halves
use cuckoo_graph.Floats.{Floats}
use cuckoo_graph.MergeHash
use cuckoo_graph.Slot
use cuckoo_graph.MergeHash.{MergeHash}

abbrev pub fraction : ℤ → ℕ × ℕ
fraction (pos n) = (n, 1)
fraction (negsuc n) = (0, 1)

-- Fractions of natural numbers; a negative number counts as 0.
abbrev pub fractions : Floats
fractions = record {
  Double = ℕ × ℕ;
  of_int = fraction;
  add = λ a b. (a.0 * b.1 + b.0 * a.1, a.1 * b.1);
  mul = λ a b. (a.0 * b.0, a.1 * b.1);
  div = λ a b. (a.0 * b.1, a.1 * b.0);
  lt = λ a b. ltb (a.0 * b.1) (b.0 * a.1);
  two = (2, 1);
  rate = (9, 10);
  cthres = (35, 100);
}

abbrev pub globals : Globals
globals = record { rand = λ n. n; mykick = 0 }

-- All that a test of the tables computes with.
unfoldable pub table_code : Unit {0}
unfolding mmhash home Bucket.query Bucket.del Bucket.insert Layer.new Layer.query Layer.del
    Layer.insert Layer.write Layer.read Cuckoo.new Cuckoo.kick_loop Cuckoo.insert2 Cuckoo.insert
    Cuckoo.query Cuckoo.del
table_code = tt

-- The table, the globals and the number of failures after the keys of a list.
unfoldable pub filled : List ℕ → Cuckoo → Globals → Cuckoo × Globals × ℕ
filled [] c g = (c, g, 0)
filled (k ∷ ks) c g =
    let r = Cuckoo.insert k c g in
    let (t, g', n) = filled ks r.table r.globals in (t, g', if r.done then n else n + 1)

unfoldable pub upto : ℕ → List ℕ
upto zero = []
upto (suc n) = upto n ++ suc n ∷ []

nonzero_snoc : (ks : List ℕ) (k : ℕ) → All (λ j. j ≢ 0) ks → All (λ j. j ≢ 0) (ks ++ suc k ∷ [])
nonzero_snoc [] k h = (omega arith, tt)
nonzero_snoc (j ∷ ks) k h = (h.0, nonzero_snoc ks k h.1)

pub nonzero_up : (n : ℕ) → All (λ k. k ≢ 0) (upto n)
unfolding upto
nonzero_up zero = tt
nonzero_up (suc n) = nonzero_snoc (upto n) n (nonzero_up n)

unfoldable pub chain_code : Unit {0}
unfolding table_code Halves.lower Halves.upper Halves.lowers Halves.uppers Resize.expand_layer
    Resize.expand Resize.squeeze_bucket Resize.squeeze Resize.squeeze_layer Resize.offer
    Resize.offer_all Resize.less Resize.compress MergeHash.new MergeHash.query_links
    MergeHash.listed MergeHash.query MergeHash.halved MergeHash.store MergeHash.refill
    MergeHash.smallest MergeHash.expand_smallest MergeHash.is_zero MergeHash.erase MergeHash.choose
    MergeHash.insert MergeHash.shrink MergeHash.del_links MergeHash.del
chain_code = tt

-- The chain after the keys of a list; no insertion dereferences a null pointer.
unfoldable pub chain_after : List ℕ → MergeHash → Globals → MergeHash
chain_after [] m g = m
chain_after (k ∷ ks) m g = elim (MergeHash.insert fractions k m g) [
  | none ↦ m
  | some (b, n, g') ↦ chain_after ks n g'
]

unfoldable pub widths : List (Option Cuckoo) → List (ℕ × ℕ)
widths [] = []
widths (none ∷ ls) = widths ls
widths (some c ∷ ls) = (c.len1, c.len2) ∷ widths ls

unfoldable pub slot_code : Unit {0}
unfolding chain_code Scalar.query Scalar.overwrite Slot.new Slot.put_in Slot.has Slot.on_list
    Slot.query Slot.is_slot_empty Slot.own Slot.others Slot.room Slot.Merge.pour_bucket
    Slot.Merge.pour Slot.Merge.pour_both Slot.Merge.pour_rest Slot.Merge.merge2 Slot.Merge.merge3
    Slot.Grow.take_in Slot.Grow.try Slot.Grow.visit Slot.Grow.grow Slot.Grow.insert_grown
    Slot.Grow.put_all Slot.Grow.insert_few Slot.Grow.insert
slot_code = tt

-- The slot after edges of source 1 to the destinations of a list; no insertion fails.
unfoldable pub slot_after : List ℕ → Slot.Slot → Slot.World → Slot.Slot × Slot.World
slot_after [] b w = (b, w)
slot_after (k ∷ ks) b w = elim (Slot.Grow.insert fractions (Slot.edge 1 k) b w) [
  | none ↦ (b, w)
  | some (code, b', w') ↦ slot_after ks b' w'
]

-- The widths of the three tables of a slot.
unfoldable pub slot_widths : Slot.Slot → List (ℕ × ℕ)
unfolding widths
slot_widths b = elim b.slot [
  | Slot.few pt ks ↦ []
  | Slot.grown s0 s1 s2 ↦ widths (s0 ∷ s1 ∷ s2 ∷ [])
]

abbrev pub empty_world : Slot.World
empty_world = record { globals = globals; sblacklist = [] }

-- A slot of source 1 with the destination 5.
abbrev pub one_edge : Slot.Slot
one_edge = record { src = 1; slot = Slot.few 1 (5 ∷ 0 ∷ 0 ∷ 0 ∷ 0 ∷ 0 ∷ []) }
