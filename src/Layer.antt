-- ===== src/Layer.antt =====
-- CuckooGraph/Cuckoo.h, class Layer: an array of buckets; a key belongs in the bucket of its hash.
pub mod Placement
use cuckoo_graph.Prelude.{ℕ, Bool, List, [], length as size, get_or, set, replicate}
use cuckoo_graph.Hash.{home}
use cuckoo_graph.Bucket
use cuckoo_graph.Bucket.{Bucket, Code}

pub record Layer : Type 0 where
  pub layer : List Bucket
  pub length : ℕ
  pub seed : ℕ

unfoldable pub new : ℕ → ℕ → Layer
new num s = record { layer = replicate num Bucket.empty; length = num; seed = s }

-- the index of the bucket of a key; a length of 0 is a division by zero in C++
abbrev pub index : ℕ → Layer → ℕ
index key l = home key l.seed l.length

abbrev pub bucket : ℕ → Layer → Bucket
bucket i l = get_or l.layer i []

unfoldable pub query : ℕ → Layer → Bool
query key l = Bucket.query key (bucket (index key l) l)

unfoldable pub del : ℕ → Layer → Bool × Layer
del key l =
    let (found, b) = Bucket.del key (bucket (index key l) l) in
    (found, record l { layer = set l.layer (index key l) b })

unfoldable pub insert : ℕ → Layer → Code × Layer
insert key l =
    let (code, b) = Bucket.insert key (bucket (index key l) l) in
    (code, record l { layer = set l.layer (index key l) b })

-- `layer[pos].bslot[x] = key`
unfoldable pub write : ℕ → ℕ → ℕ → Layer → Layer
write pos x key l = record l { layer = set l.layer pos (set (bucket pos l) x key) }

-- `layer[pos].bslot[x]`
unfoldable pub read : ℕ → ℕ → Layer → ℕ
read pos x l = get_or (bucket pos l) x 0
