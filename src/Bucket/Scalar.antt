-- ===== src/Bucket/Scalar.antt =====
-- CuckooGraph/Cuckoo.h, class Bucket: the branches of `del`, `insert` and `query` without SIMD.
use cuckoo_graph.Prelude.{ℕ, Bool, true, false, [], ◌∷◌, ◌==◌, if◌then◌else◌}
use cuckoo_graph.Bucket.{Bucket, Code, duplicate, no_room, inserted}

-- `for (i = 0; i < bup; ++i) if (bslot[i] == key) return 1;`, also the method `tq`
unfoldable pub query : ℕ → Bucket → Bool
query key [] = false
query key (x ∷ b) = if x == key then true else query key b

-- The loop that writes to the first slot that holds `key`.
unfoldable pub overwrite : ℕ → ℕ → Bucket → Bool × Bucket
overwrite key new [] = (false, [])
overwrite key new (x ∷ b) =
    let (done, rest) = overwrite key new b in if x == key then (true, new ∷ b) else (done, x ∷ rest)

unfoldable pub del : ℕ → Bucket → Bool × Bucket
unfolding overwrite
del key b = overwrite key 0 b

unfoldable pub insert : ℕ → Bucket → Code × Bucket
unfolding query overwrite
insert key b =
    if query key b
    then (duplicate, b)
    else let (done, b') = overwrite 0 key b in if done then (inserted, b') else (no_room, b)
