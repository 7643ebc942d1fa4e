-- ===== src/Bucket/Tally.antt =====
-- What the operations of a bucket do to the number of slots that pass a test.
use cuckoo_graph.Prelude.{
  ℕ, ◌<◌, ◌≡◌, ◌↔◌, inl, inr, refl, Bool, true, false, [], ◌∷◌, ◌==◌, arith, length, tally,
  Bool-cases, Replaces,
}
use cuckoo_graph.Bucket.{Bucket, Code, inserted, no_room, duplicate, query, del, insert, bup}
use cuckoo_graph.Bucket.Scalar
use cuckoo_graph.Bucket.Simd.{query_simd, del_simd, insert_simd}

-- How many slots hold the key.
abbrev pub count : ℕ → Bucket → ℕ
count key b = tally (λ x. x == key) b

pub scan_absent : (key : ℕ) (b : Bucket) → Scalar.query key b ≡ false → count key b ≡ 0
unfolding Scalar.query tally
scan_absent key [] h = refl
scan_absent key (x ∷ b) h = ground (arith, scan_absent key b)

pub scan_present : (key : ℕ) (b : Bucket) → Scalar.query key b ≡ true → 0 < count key b
unfolding Scalar.query tally
scan_present key [] h = ground arith
scan_present key (x ∷ b) h = ground (arith, scan_present key b)

pub overwrite-Replaces :
    (key new : ℕ) (b : Bucket)
    → Scalar.query key b ≡ true
    → (b' : Bucket) × (Scalar.overwrite key new b ≡ (true, b')) × Replaces key new b b'
unfolding Scalar.query Scalar.overwrite tally
overwrite-Replaces key new [] h = ground arith
overwrite-Replaces key new (x ∷ b) h = elim (Bool-cases (x == key)) [
  | inl e ↦
      let same : x ≡ key = ground arith in
      (new ∷ b, ground arith, record { width = refl; tallies = λ p. rw same (omega arith) })
  | inr e ↦
      let (b', same, r) = overwrite-Replaces key new b (ground arith) in
      (
        x ∷ b',
        ground arith,
        record { width = ground (arith, r.width); tallies = λ p. omega (arith, r.tallies p) },
      )
]

pub overwrite_absent :
    (key new : ℕ) (b : Bucket)
    → Scalar.query key b ≡ false
    → Scalar.overwrite key new b ≡ (false, b)
unfolding Scalar.query Scalar.overwrite
overwrite_absent key new [] h = refl
overwrite_absent key new (x ∷ b) h = ground (arith, overwrite_absent key new b)

-- The three ways in which `insert` can end.
pub data Inserts (key : ℕ) (b : Bucket) (r : Code × Bucket) : Type 0 where
  was_there : r ≡ (duplicate, b) → 0 < count key b → Inserts key b r
  was_full : r ≡ (no_room, b) → count key b ≡ 0 → count 0 b ≡ 0 → Inserts key b r
  stored :
      (b' : Bucket) → r ≡ (inserted, b') → count key b ≡ 0 → Replaces 0 key b b' → Inserts key b r

-- The two ways in which `del` can end.
pub data Deletes (key : ℕ) (b : Bucket) (r : Bool × Bucket) : Type 0 where
  was_absent : r ≡ (false, b) → count key b ≡ 0 → Deletes key b r
  removed : (b' : Bucket) → r ≡ (true, b') → Replaces key 0 b b' → Deletes key b r

scalar_insert_cases : (key : ℕ) (b : Bucket) → Inserts key b (Scalar.insert key b)
unfolding Scalar.insert
scalar_insert_cases key b = elim (Bool-cases (Scalar.query key b)) [
  | inl e ↦ was_there (rw e) (scan_present key b e)
  | inr e ↦ elim (Bool-cases (Scalar.query 0 b)) [
    | inl f ↦
        let (b', same, r) = overwrite-Replaces 0 key b f in
        stored b' (rw (e, same)) (scan_absent key b e) r
    | inr f ↦
        was_full (rw (e, overwrite_absent 0 key b f)) (scan_absent key b e) (scan_absent 0 b f)
  ]
]

scalar_del_cases : (key : ℕ) (b : Bucket) → Deletes key b (Scalar.del key b)
unfolding Scalar.del
scalar_del_cases key b = elim (Bool-cases (Scalar.query key b)) [
  | inl e ↦ let (b', same, r) = overwrite-Replaces key 0 b e in removed b' same r
  | inr e ↦ was_absent (overwrite_absent key 0 b e) (scan_absent key b e)
]

-- `query` answers whether some slot holds the key.
pub query-count : (key : ℕ) (b : Bucket) → (query key b ≡ true) ↔ (0 < count key b)
query-count key b = rw (query_simd key b) (
  scan_present key b,
  λ h. elim (Bool-cases (Scalar.query key b)) [
    | inl e ↦ e
    | inr e ↦ absurd (omega (arith, scan_absent key b e))
  ],
)

pub insert_cases : (key : ℕ) (b : Bucket) → length b ≡ bup → Inserts key b (insert key b)
insert_cases key b h = rw (insert_simd key b h) (scalar_insert_cases key b)

pub del_cases : (key : ℕ) (b : Bucket) → length b ≡ bup → Deletes key b (del key b)
del_cases key b h = rw (del_simd key b h) (scalar_del_cases key b)
