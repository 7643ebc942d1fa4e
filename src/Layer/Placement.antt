-- ===== src/Layer/Placement.antt =====
-- A well-formed layer, and what its operations do to the keys that it holds.
use mathlib.Core.Bool.{not, ◌&&◌}
use cuckoo_graph.Prelude.{
  ℕ, zero, suc, ◌+◌, ◌<◌, ◌≡◌, ◌≢◌, ◌↔◌, ◌∙◌, refl, Bool, true, false, List, [], ◌∷◌, ◌==◌, to_nat,
  arith, length as size, get_or, set, flatten, tally, tally-flatten-set, tally-flatten_only,
  tally_mono, tally_empty, set-get_or, length-set, get_or-set, length-replicate, get_or-replicate,
  Replaces, Replaces-set,
}
use cuckoo_graph.Hash.{home}
use cuckoo_graph.Bucket
use cuckoo_graph.Bucket.{Bucket, Code, inserted, no_room, duplicate, bup}
use cuckoo_graph.Bucket.Tally.{
  was_there, was_full, stored, was_absent, removed, insert_cases, del_cases, query-count,
}
use cuckoo_graph.Layer.{Layer, new, index, bucket, query, del, insert, write, read}

abbrev pub keys : Layer → List ℕ
keys l = flatten l.layer

abbrev pub count : ℕ → Layer → ℕ
count key l = tally (λ x. x == key) (keys l)

-- A key that bucket `i` of `width` buckets should not hold.
abbrev pub strays : ℕ → ℕ → ℕ → ℕ → Bool
strays seed width i x = not (x == 0) && not (home x seed width == i)

abbrev pub misplaced : Layer → ℕ → ℕ → Bool
misplaced l i = strays l.seed l.length i

-- All buckets have eight slots, and a key stands only in the bucket of its hash.
pub record IsValid (l : Layer) : Type 0 where
  pub sized : size l.layer ≡ l.length
  pub positive : 0 < l.length
  pub widths : (i : ℕ) → i < l.length → size (bucket i l) ≡ bup
  pub placed : (i : ℕ) → tally (misplaced l i) (bucket i l) ≡ 0

-- `m` is `l` with an occurrence of `old` replaced by `fresh`.
pub record Changes (old fresh : ℕ) (l m : Layer) : Type 0 where
  pub valid : IsValid m
  pub tallies :
      (p : ℕ → Bool) → tally p (keys m) + to_nat (p old) ≡ tally p (keys l) + to_nat (p fresh)
  pub same_length : m.length ≡ l.length
  pub same_seed : m.seed ≡ l.seed

-- One bucket is rewritten by a key that belongs there, or by a free slot.
pub set-Changes :
    (l : Layer) (i old fresh : ℕ) (b : Bucket)
    → IsValid l
    → i < l.length
    → misplaced l i fresh ≡ false
    → Replaces old fresh (bucket i l) b
    → Changes old fresh l (record l { layer = set l.layer i b })
set-Changes l i old fresh b v h fits r =
    let inside : i < size l.layer = omega (arith, v.sized) in
    record {
      valid = record {
        sized = length-set l.layer i b ∙ v.sized;
        positive = v.positive;
        widths =
            λ j lt. ground (arith, get_or-set l.layer i j b [], r.width, v.widths i, v.widths j);
        placed = λ j.
            ground (
              arith,
              get_or-set l.layer i j b [],
              r.tallies (misplaced l i),
              v.placed i,
              v.placed j,
            );
      };
      tallies = λ p. omega (arith, tally-flatten-set p l.layer i b inside, r.tallies p);
      same_length = refl;
      same_seed = refl;
    }

pub index-lt : (key : ℕ) {l : Layer} → IsValid l → index key l < l.length
unfolding home
index-lt key v = omega (arith, v.positive)

pub index_fits : (key : ℕ) (l : Layer) → misplaced l (index key l) key ≡ false
index_fits key l = ground arith

-- A new layer is valid and holds no key.
pub new-IsValid : (num s : ℕ) → 0 < num → IsValid (new num s)
unfolding new tally
new-IsValid num s h = record {
  sized = length-replicate num Bucket.empty;
  positive = h;
  widths = λ i lt. ground (arith, get_or-replicate num i Bucket.empty []);
  placed = λ i. ground (arith, get_or-replicate num i Bucket.empty []);
}

pub new_empty : (num s : ℕ) (p : ℕ → Bool) → p 0 ≡ false → tally p (keys (new num s)) ≡ 0
unfolding new tally
new_empty num s p h = tally_empty p num Bucket.empty (ground arith)

-- A key is counted in its own bucket only.
pub count-home :
    (key : ℕ) {l : Layer}
    → IsValid l
    → key ≢ 0
    → count key l ≡ tally (λ x. x == key) (bucket (index key l) l)
count-home key {l} v h = tally-flatten_only _ l.layer (index key l) λ i e. omega (
  arith,
  v.placed i,
  tally_mono (λ x. x == key) (misplaced l i) (bucket i l) (λ x same. ground arith),
)

-- `query` of a key finds it exactly when the layer holds it.
pub layer_query-count :
    (key : ℕ) {l : Layer} → IsValid l → key ≢ 0 → (query key l ≡ true) ↔ (0 < count key l)
unfolding query
layer_query-count key v h = rw (count-home key v h) (query-count key _)

-- The three ways in which `insert` can end.
pub data Inserts (key : ℕ) (l : Layer) (r : Code × Layer) : Type 0 where
  layer_had : r ≡ (duplicate, l) → 0 < count key l → Inserts key l r
  layer_full :
      r ≡ (no_room, l)
      → count key l ≡ 0
      → tally (λ x. x == 0) (bucket (index key l) l) ≡ 0
      → Inserts key l r
  layer_stored :
      (m : Layer) → r ≡ (inserted, m) → count key l ≡ 0 → Changes 0 key l m → Inserts key l r

-- The two ways in which `del` can end.
pub data Deletes (key : ℕ) (l : Layer) (r : Bool × Layer) : Type 0 where
  layer_lacked : r ≡ (false, l) → count key l ≡ 0 → Deletes key l r
  layer_removed : (m : Layer) → r ≡ (true, m) → Changes key 0 l m → Deletes key l r

-- In a valid layer and for a key that is not 0, `insert` ends in one of three ways: the key was
-- there and nothing changes; it was not, its bucket has no free slot and nothing changes; or it was
-- not, and the layer that is left is valid and has the key in place of a free slot.
pub layer_insert_cases : (key : ℕ) {l : Layer} → IsValid l → key ≢ 0 → Inserts key l (insert key l)
unfolding insert
layer_insert_cases key {l} v h =
    let lt = index-lt key v in
    elim (insert_cases key (bucket (index key l) l) (v.widths _ lt)) [
      | was_there e held ↦ layer_had (rw (e, set-get_or l.layer)) (rw (count-home key v h) held)
      | was_full e none full ↦
          layer_full (rw (e, set-get_or l.layer)) (rw (count-home key v h) none) full
      | stored b e none r ↦
          layer_stored _ (rw e) (rw (count-home key v h) none)
            (set-Changes l _ 0 key b v lt (index_fits key l) r)
    ]

-- In a valid layer and for a key that is not 0, `del` ends in one of two ways: the key was absent and
-- nothing changes, or the layer that is left is valid and has a free slot in place of the key.
pub layer_del_cases : (key : ℕ) {l : Layer} → IsValid l → key ≢ 0 → Deletes key l (del key l)
unfolding del
layer_del_cases key {l} v h =
    let lt = index-lt key v in
    elim (del_cases key (bucket (index key l) l) (v.widths _ lt)) [
      | was_absent e none ↦ layer_lacked (rw (e, set-get_or l.layer)) (rw (count-home key v h) none)
      | removed b e r ↦ layer_removed _ (rw e) (set-Changes l _ key 0 b v lt refl r)
    ]

-- A full bucket: the slot that is read holds a key.
read_full : (b : Bucket) (x : ℕ) → x < size b → tally (λ k. k == 0) b ≡ 0 → get_or b x 0 ≢ 0
unfolding tally
read_full [] x lt h = absurd (omega arith)
read_full (k ∷ b) zero lt h = ground arith
read_full (k ∷ b) (suc x) lt h = read_full b x (omega arith) (ground arith)

-- Kicking a key out of a full bucket for one that belongs there.
pub write-Changes :
    (pos x key : ℕ) {l : Layer}
    → IsValid l
    → pos ≡ index key l
    → x < bup
    → tally (λ k. k == 0) (bucket pos l) ≡ 0
    → (read pos x l ≢ 0) × Changes (read pos x l) key l (write pos x key l)
unfolding read write
write-Changes pos x key {l} v at lt full =
    let inside : pos < l.length = rw at (index-lt key v) in
    let wide : x < size (bucket pos l) = omega (arith, v.widths pos inside) in
    (
      read_full (bucket pos l) x wide full,
      set-Changes l pos _ key _ v inside (ground arith) (Replaces-set (bucket pos l) x key 0 wide),
    )

pub Changes-refl : (k : ℕ) {l : Layer} → IsValid l → Changes k k l l
Changes-refl k v = record { valid = v; tallies = λ p. refl; same_length = refl; same_seed = refl }
