-- ===== src/Resize.antt =====
-- CuckooGraph/main.cpp, mergehash1::expand and mergehash1::compress: a table rebuilt at twice and at
-- half its width. (bSlot::compress differs only in where it puts the keys that are left over.)
pub mod Halves
pub mod Offer
pub mod Expand
pub mod Squeeze
pub mod Compress
use cuckoo_graph.Prelude.{
  ℕ, zero, suc, ◌+◌, ◌*◌, ◌/◌, Bool, true, false, ℤ, pos, dec, List, [], ◌∷◌, ◌++◌, ◌==◌,
  if◌then◌else◌, map, set, take, drop,
}
use cuckoo_graph.Hash.{home}
use cuckoo_graph.Bucket
use cuckoo_graph.Bucket.{Bucket, duplicate, no_room, inserted}
use cuckoo_graph.Layer
use cuckoo_graph.Layer.{Layer}
use cuckoo_graph.Cuckoo
use cuckoo_graph.Cuckoo.{Cuckoo, Globals}
use Halves.{lowers, uppers}

unfoldable pub expand_layer : ℕ → ℕ → Layer → Layer
expand_layer seed l from = record {
  layer =
      lowers (λ x. x) 0 seed (l * 2) 0 from.layer ++ uppers (λ x. x) 0 seed (l * 2) 0 from.layer;
  length = l * 2;
  seed = seed;
}

-- `expand`; `s1` and `s2` are the seeds of the owner of the table.
unfoldable pub expand : ℕ → ℕ → Cuckoo → Cuckoo
expand s1 s2 c1 = record {
  len1 = c1.len1 * 2;
  len2 = c1.len2 * 2;
  seed1 = s1;
  seed2 = s2;
  num = c1.num;
  layer1 = expand_layer s1 c1.len1 c1.layer1;
  layer2 = expand_layer s2 c1.len2 c1.layer2;
}

-- One bucket of the upper half goes into bucket `i` of the smaller layer; a key that finds no room
-- goes to the end of the queue `mq`.
unfoldable pub squeeze_bucket : ℕ → Bucket → Layer × List ℕ → Layer × List ℕ
squeeze_bucket i [] s = s
squeeze_bucket i (x ∷ xs) (l, mq) =
    let (code, b) = Bucket.insert x (Layer.bucket i l) in
    let m = record l { layer = set l.layer i b } in
    squeeze_bucket i xs (
      if x == 0
      then (l, mq)
      else (m, elim code [ no_room ↦ mq ++ x ∷ [] | duplicate ↦ mq | inserted ↦ mq ]))

unfoldable pub squeeze : ℕ → List Bucket → Layer × List ℕ → Layer × List ℕ
squeeze i [] s = s
squeeze i (b ∷ bs) s = squeeze (suc i) bs (squeeze_bucket i b s)

-- The first `memcpy`, and the loop over the buckets of the upper half.
unfoldable pub squeeze_layer : ℕ → ℕ → Layer → List ℕ → Layer × List ℕ
squeeze_layer seed half from mq =
    squeeze 0 (drop half from.layer)
      (record { layer = take half from.layer; length = half; seed = seed }, mq)

-- Keys on their way into a table, and those that it turned out of it.
pub record Stage : Type 0 where
  pub table : Cuckoo
  pub left : List ℕ
  pub globals : Globals

-- `if (!c->insert(key)) left.push_back(mykick);`
unfoldable pub offer : ℕ → Stage → Stage
offer key s =
    let r = Cuckoo.insert key s.table s.globals in
    record {
      table = r.table;
      left = if r.done then s.left else s.left ++ r.globals.mykick ∷ [];
      globals = r.globals;
    }

unfoldable pub offer_all : List ℕ → Stage → Stage
offer_all [] s = s
offer_all (key ∷ keys) s = offer_all keys (offer key s)

-- `asum` after the loop: less one for each key that was turned out.
unfoldable pub less : ℤ → List ℕ → ℤ
less n [] = n
less n (key ∷ keys) = less (dec n) keys

-- `compress`; the result is the new table with the keys for the blacklist behind it.
unfoldable pub compress : ℕ → ℕ → Cuckoo → Globals → Stage
compress s1 s2 c1 g =
    let cl1 = c1.len1 / 2 in
    let cl2 = c1.len2 / 2 in
    let (m, mq1) = squeeze_layer s1 cl1 c1.layer1 [] in
    let (n, mq) = squeeze_layer s2 cl2 c1.layer2 mq1 in
    let c : Cuckoo = record {
      len1 = cl1;
      len2 = cl2;
      seed1 = s1;
      seed2 = s2;
      num = pos 0;
      layer1 = m;
      layer2 = n;
    } in
    let s = offer_all mq (record { table = c; left = []; globals = g }) in
    record s { table = record s.table { num = less c1.num s.left } }
