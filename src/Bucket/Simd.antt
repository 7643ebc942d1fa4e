-- ===== src/Bucket/Simd.antt =====
-- The SIMD branches of Bucket against the plain loops.
use cuckoo_graph.Prelude.{
  ℕ, zero, suc, ◌+◌, ◌*◌, ◌/◌, ◌%◌, ◌≤◌, ◌<◌, ◌≡◌, refl, true, false, not, [], ◌∷◌, ◌==◌, arith,
  length, set, Bool-cases, lt→ltb, inl, inr,
}
use cuckoo_graph.Bucket.{Bucket, cmpeq, movemask, count_zeros, tzcnt, query, del, insert, bup}
use cuckoo_graph.Bucket.Scalar

movemask_iff : (key : ℕ) (b : Bucket) → not (movemask (cmpeq key b) == 0) ≡ Scalar.query key b
unfolding movemask cmpeq Scalar.query
movemask_iff key [] = refl
movemask_iff key (x ∷ b) = ground (arith, movemask_iff key b)

count_zeros_odd : (bits m : ℕ) → count_zeros (suc bits) (1 + 2 * m) ≡ 0
unfolding count_zeros
count_zeros_odd bits m = ground arith

count_zeros_even : (bits m : ℕ) → count_zeros (suc bits) (0 + 2 * m) ≡ suc (count_zeros bits m)
unfolding count_zeros
count_zeros_even bits m =
    let half : (0 + 2 * m) / 2 ≡ m = omega arith in
    let even : ((0 + 2 * m) % 2 == 1) ≡ false = ground arith in rw (even, half)

-- The lowest set bit is the first slot that the loop would write to.
overwrite-count_zeros :
    (bits key new : ℕ) (b : Bucket)
    → length b ≤ bits
    → Scalar.query key b ≡ true
    → (count_zeros bits (movemask (cmpeq key b)) < length b)
      × (Scalar.overwrite key new b ≡ (true, set b (count_zeros bits (movemask (cmpeq key b))) new))
unfolding movemask cmpeq Scalar.query Scalar.overwrite
overwrite-count_zeros bits key new [] h q = ground arith
overwrite-count_zeros zero key new (x ∷ b) h q = absurd (omega arith)
overwrite-count_zeros (suc bits) key new (x ∷ b) h q = elim (Bool-cases (x == key)) [
  | inl e ↦ rw (e, count_zeros_odd bits) (omega arith, refl)
  | inr e ↦
      let q' : Scalar.query key b ≡ true = ground arith in
      let (low, same) = overwrite-count_zeros bits key new b (omega arith) q' in
      rw (e, count_zeros_even bits, same) (omega arith, refl)
]

overwrite_absent :
    (key new : ℕ) (b : Bucket)
    → Scalar.query key b ≡ false
    → Scalar.overwrite key new b ≡ (false, b)
unfolding Scalar.query Scalar.overwrite
overwrite_absent key new [] h = refl
overwrite_absent key new (x ∷ b) h = ground (arith, overwrite_absent key new b)

pub query_simd : (key : ℕ) (b : Bucket) → query key b ≡ Scalar.query key b
unfolding query
query_simd key b = movemask_iff key b

module _ (key : ℕ) (b : Bucket) (full_width : length b ≡ bup) where
  lane-lt :
      (k new : ℕ)
      → Scalar.query k b ≡ true
      → (tzcnt (movemask (cmpeq k b)) < bup)
        × (Scalar.overwrite k new b ≡ (true, set b (tzcnt (movemask (cmpeq k b))) new))
  unfolding tzcnt
  lane-lt k new q =
      let (low, same) = overwrite-count_zeros 32 k new b (omega arith) q in (omega arith, same)

  pub del_simd : del key b ≡ Scalar.del key b
  unfolding del Scalar.del
  del_simd = elim (Bool-cases (Scalar.query key b)) [
    | inl e ↦ let (low, same) = lane-lt key 0 e in rw (movemask_iff key b, e, lt→ltb _ _ low, same)
    | inr e ↦ rw (movemask_iff key b, e, overwrite_absent key 0 b e)
  ]

  pub insert_simd : insert key b ≡ Scalar.insert key b
  unfolding insert Scalar.insert
  insert_simd = elim (Bool-cases (Scalar.query key b)) [
    | inl e ↦ rw (movemask_iff key b, e)
    | inr e ↦
        rw (movemask_iff key b, movemask_iff 0 b, e)
          (elim (Bool-cases (Scalar.query 0 b)) [
            | inl f ↦ let (low, same) = lane-lt 0 key f in rw (f, lt→ltb _ _ low, same)
            | inr f ↦ rw (f, overwrite_absent 0 key b f)
          ])
  ]

-- On a bucket of eight slots the three SIMD operations give the results of the plain loops: the
-- same answer of `query`, and the same result code and the same slots after `del` and `insert`.
pub bucket_simd-scalar :
    (key : ℕ) (b : Bucket)
    → length b ≡ bup
    → (query key b ≡ Scalar.query key b)
      × (del key b ≡ Scalar.del key b)
      × (insert key b ≡ Scalar.insert key b)
bucket_simd-scalar key b h = (query_simd key b, del_simd key b h, insert_simd key b h)
