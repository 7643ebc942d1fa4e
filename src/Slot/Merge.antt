-- ===== src/Slot/Merge.antt =====
-- CuckooGraph/main.cpp, the two functions bSlot::merge: tables poured into one of twice the width.
use cuckoo_graph.Prelude.{
  ℕ, zero, suc, ◌+◌, ◌*◌, ◌/◌, ℤ, inc, List, [], ◌∷◌, ◌++◌, ◌==◌, if◌then◌else◌, map, set,
}
use cuckoo_graph.Hash.{home}
use cuckoo_graph.Bucket
use cuckoo_graph.Bucket.{Bucket, duplicate, no_room, inserted}
use cuckoo_graph.Layer
use cuckoo_graph.Layer.{Layer}
use cuckoo_graph.Cuckoo.{Cuckoo}
use cuckoo_graph.Resize.{offer_all, expand}
use cuckoo_graph.Slot.{World, edge, us1, us2}

-- The layer that is filled, the counter, and the queue `mq`.
pub record Pour : Type 0 where
  pub layer : Layer
  pub num : ℤ
  pub mq : List ℕ

-- The keys of one bucket go into the buckets that `place` names.
unfoldable pub pour_bucket : (ℕ → ℕ) → Bucket → Pour → Pour
pour_bucket place [] s = s
pour_bucket place (x ∷ xs) s =
    let (code, b) = Bucket.insert x (Layer.bucket (place x) s.layer) in
    let m = record s.layer { layer = set s.layer.layer (place x) b } in
    pour_bucket place xs (
      if x == 0 then s else record {
        layer = m;
        num = elim code [ no_room ↦ s.num | duplicate ↦ inc s.num | inserted ↦ inc s.num ];
        mq = elim code [ no_room ↦ s.mq ++ x ∷ [] | duplicate ↦ s.mq | inserted ↦ s.mq ];
      })

-- The buckets from `i` on, `n` of them: the keys of bucket `i` go into `i` or `i + l`.
unfoldable pub pour : ℕ → ℕ → ℕ → ℕ → Layer → Pour → Pour
pour seed l zero i a s = s
pour seed l (suc n) i a s =
    let place = λ (x : ℕ). if home x seed (l * 2) == i then i else i + l in
    pour seed l n (suc i) a (pour_bucket place (Layer.bucket i a) s)

-- The buckets of two layers in turn: each key goes into the bucket of its hash.
unfoldable pub pour_both : ℕ → ℕ → ℕ → ℕ → Layer → Layer → Pour → Pour
pour_both seed l zero i a b s = s
pour_both seed l (suc n) i a b s =
    let place = λ (x : ℕ). home x seed (l * 2) in
    pour_both seed l n (suc i) a b
      (pour_bucket place (Layer.bucket i b) (pour_bucket place (Layer.bucket i a) s))

-- `while (!mq.empty())`: a key that is turned out goes to `sblacklist` with the source `s`.
unfoldable pub pour_rest : ℕ → Cuckoo → List ℕ → World → Cuckoo × World
pour_rest s c mq w =
    let t = offer_all mq (record { table = c; left = []; globals = w.globals }) in
    (t.table, record { globals = t.globals; sblacklist = w.sblacklist ++ map (edge s) t.left })

-- `merge` of two tables of the same width
unfoldable pub merge2 : ℕ → Cuckoo → Cuckoo → World → Cuckoo × World
merge2 s c1 c2 w =
    let c = expand us1 us2 c1 in
    let p =
      pour us1 c1.len1 c1.len1 0 c2.layer1 (record { layer = c.layer1; num = c.num; mq = [] }) in
    let q =
      pour us2 c1.len2 c1.len2 0 c2.layer2 (record { layer = c.layer2; num = p.num; mq = p.mq }) in
    pour_rest s (record c { num = q.num; layer1 = p.layer; layer2 = q.layer }) q.mq w

-- `merge` of a table and two of half its width
unfoldable pub merge3 : ℕ → Cuckoo → Cuckoo → Cuckoo → World → Cuckoo × World
merge3 s c0 c1 c2 w =
    let c = expand us1 us2 c0 in
    let p =
      pour_both us1 c0.len1 (c0.len1 / 2) 0 c1.layer1 c2.layer1
        (record { layer = c.layer1; num = c.num; mq = [] }) in
    let q =
      pour_both us2 c0.len2 (c0.len2 / 2) 0 c1.layer2 c2.layer2
        (record { layer = c.layer2; num = p.num; mq = p.mq }) in
    pour_rest s (record c { num = q.num; layer1 = p.layer; layer2 = q.layer }) q.mq w
