-- ===== src/HoleMerge/Merge.antt =====
-- CuckooGraph/main.cpp, the two functions holemerge::merge, and holemerge::compress: tables of slots
-- poured into one of twice the width, and a table rebuilt at half its width. `s1` and `s2` are the
-- seeds of the owner of the tables, `left` its blacklist.
use cuckoo_graph.Prelude.{
  ℕ, zero, suc, ◌+◌, ◌*◌, ◌/◌, Bool, true, false, ℤ, pos, inc, dec, List, [], ◌∷◌, ◌++◌, ◌==◌,
  if◌then◌else◌, set, take, drop,
}
use cuckoo_graph.Hash.{home}
use cuckoo_graph.Resize.Halves.{lowers, uppers}
use cuckoo_graph.Slot
use cuckoo_graph.Slot.{Slot}
use cuckoo_graph.NodeTable
use cuckoo_graph.NodeTable.Row
use cuckoo_graph.NodeTable.Row.{Row}
use cuckoo_graph.NodeTable.Layers
use cuckoo_graph.NodeTable.Layers.{Layer}
use cuckoo_graph.NodeTable.Kicks.{NodeTable, Store}
use cuckoo_graph.HoleMerge.Offer.{Stage, offer, offer_all}

abbrev pub source : Slot → ℕ
source b = b.src

-- The two `memcpy` calls for a layer, and the loop that clears each slot in one of its two places.
unfoldable pub double_layer : ℕ → ℕ → Layer → Layer
double_layer seed l from = record {
  layer =
      lowers source Slot.new seed (l * 2) 0 from.layer
      ++ uppers source Slot.new seed (l * 2) 0 from.layer;
  length = l * 2;
  seed = seed;
}

-- The layer that is filled, the counter, and the queue `mq`.
pub record Pour : Type 0 where
  pub layer : Layer
  pub num : ℤ
  pub mq : List Slot

-- The slots of one row go into the rows that `place` names.
unfoldable pub pour_row : (ℕ → ℕ) → Row → Pour → Pour
pour_row place [] s = s
pour_row place (b ∷ bs) s =
    let (done, r) = Row.insert_slot b (Layers.row (place b.src) s.layer) in
    let m = record s.layer { layer = set s.layer.layer (place b.src) r } in
    pour_row place bs (
      if b.src == 0 then s else record {
        layer = if done then m else s.layer;
        num = if done then inc s.num else s.num;
        mq = if done then s.mq else s.mq ++ b ∷ [];
      })

-- The rows from `i` on, `n` of them: the slots of row `i` go into `i` or `i + l`.
unfoldable pub pour : ℕ → ℕ → ℕ → ℕ → Layer → Pour → Pour
pour seed l zero i a s = s
pour seed l (suc n) i a s =
    let place = λ (x : ℕ). if home x seed (l * 2) == i then i else i + l in
    pour seed l n (suc i) a (pour_row place (Layers.row i a) s)

-- The rows of two layers in turn: each slot goes into the row of its hash.
unfoldable pub pour_both : ℕ → ℕ → ℕ → ℕ → Layer → Layer → Pour → Pour
pour_both seed l zero i a b s = s
pour_both seed l (suc n) i a b s =
    let place = λ (x : ℕ). home x seed (l * 2) in
    pour_both seed l n (suc i) a b
      (pour_row place (Layers.row i b) (pour_row place (Layers.row i a) s))

-- The wider table with the layers that were filled, and the loop over the queue.
unfoldable pub poured :
    ℕ → ℕ → NodeTable → Layer → Layer → ℤ → List Slot → List Slot → Store → Stage
poured s1 s2 c m n num mq left g =
    let t : NodeTable = record {
      len1 = c.len1 * 2;
      len2 = c.len2 * 2;
      seed1 = s1;
      seed2 = s2;
      num = num;
      layer1 = m;
      layer2 = n;
    } in
    offer_all mq (record { table = t; left = left; store = g })

-- `merge` of two tables of the same width
unfoldable pub merge2 : ℕ → ℕ → NodeTable → NodeTable → List Slot → Store → Stage
merge2 s1 s2 c1 c2 left g =
    let p =
      pour s1 c1.len1 c1.len1 0 c2.layer1
        (record { layer = double_layer s1 c1.len1 c1.layer1; num = c1.num; mq = [] }) in
    let q =
      pour s2 c1.len2 c1.len2 0 c2.layer2
        (record { layer = double_layer s2 c1.len2 c1.layer2; num = p.num; mq = p.mq }) in
    poured s1 s2 c1 p.layer q.layer q.num q.mq left g

-- `merge` of a table and two of half its width
unfoldable pub merge3 : ℕ → ℕ → NodeTable → NodeTable → NodeTable → List Slot → Store → Stage
merge3 s1 s2 c0 c1 c2 left g =
    let p =
      pour_both s1 c0.len1 (c0.len1 / 2) 0 c1.layer1 c2.layer1
        (record { layer = double_layer s1 c0.len1 c0.layer1; num = c0.num; mq = [] }) in
    let q =
      pour_both s2 c0.len2 (c0.len2 / 2) 0 c1.layer2 c2.layer2
        (record { layer = double_layer s2 c0.len2 c0.layer2; num = p.num; mq = p.mq }) in
    poured s1 s2 c0 p.layer q.layer q.num q.mq left g

-- The loop over `m`: the slot goes to the first place of the row whose source is 0.
unfoldable pub fill : Slot → Row → Bool × Row
fill b [] = (false, [])
fill b (x ∷ xs) =
    let (flag, ys) = fill b xs in if x.src == 0 then (true, b ∷ xs) else (flag, x ∷ ys)

-- One row of the upper half goes into row `i`; a slot that finds no place goes to the queue.
unfoldable pub squeeze_row : ℕ → Row → Layer × List Slot → Layer × List Slot
squeeze_row i [] s = s
squeeze_row i (b ∷ bs) (l, mq) =
    let (flag, r) = fill b (Layers.row i l) in
    squeeze_row i bs (
      if b.src == 0
      then (l, mq)
      else if flag
      then (record l { layer = set l.layer i r }, mq)
      else (l, mq ++ b ∷ []))

unfoldable pub squeeze : ℕ → List Row → Layer × List Slot → Layer × List Slot
squeeze i [] s = s
squeeze i (r ∷ rs) s = squeeze (suc i) rs (squeeze_row i r s)

unfoldable pub squeeze_layer : ℕ → ℕ → Layer → List Slot → Layer × List Slot
squeeze_layer seed half from mq =
    squeeze 0 (drop half from.layer)
      (record { layer = take half from.layer; length = half; seed = seed }, mq)

-- The queue of `compress`: `asum` goes down by one for each slot that is turned out.
unfoldable pub offer_less : List Slot → Stage → ℤ → Stage × ℤ
offer_less [] s asum = (s, asum)
offer_less (b ∷ bs) s asum =
    let t = NodeTable.insert_slot b s.table s.store in
    offer_less bs (offer b s) (if t.done then asum else dec asum)

unfoldable pub compress : ℕ → ℕ → NodeTable → List Slot → Store → Stage
compress s1 s2 c1 left g =
    let cl1 = c1.len1 / 2 in
    let cl2 = c1.len2 / 2 in
    let (m, mq1) = squeeze_layer s1 cl1 c1.layer1 [] in
    let (n, mq) = squeeze_layer s2 cl2 c1.layer2 mq1 in
    let c : NodeTable = record {
      len1 = cl1;
      len2 = cl2;
      seed1 = s1;
      seed2 = s2;
      num = pos 0;
      layer1 = m;
      layer2 = n;
    } in
    let (s, asum) = offer_less mq (record { table = c; left = left; store = g }) c1.num in
    record s { table = record s.table { num = asum } }
