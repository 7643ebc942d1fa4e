-- ===== src/Slot/Invariant.antt =====
-- A well-formed slot, and its `query` against the keys that it and the list hold.
use cuckoo_graph.Prelude.{
  ℕ, suc, ◌+◌, ◌*◌, ◌≤◌, ◌<◌, ◌≡◌, ◌≢◌, ◌↔◌, refl, Bool, true, arith, Option, none, some, List, [],
  length, tally, tally_mono, ==_refl, if◌then◌else◌,
}
use cuckoo_graph.Bucket.Scalar
use cuckoo_graph.Bucket.Tally.{scan_absent, scan_present}
use cuckoo_graph.Cuckoo.{Cuckoo}
use cuckoo_graph.Cuckoo.Invariant.{total, is, is_key, cuckoo_query-total}
use cuckoo_graph.Cuckoo.Invariant
use cuckoo_graph.MergeHash.Invariant.{pow2, link_total}
use cuckoo_graph.Slot.{
  edge, World, Content, few, grown, Slot, inline_keys, us1, us2, has, query, own, new,
}
use cuckoo_graph.Slot.Shrink.{is_null}
use cuckoo_graph.Slot.Lists.{on_list-own}

-- A table whose layers have `2 ^ (k + 1)` and `2 ^ k` buckets, with the seeds of all slots.
pub record Fits (k : ℕ) (c : Cuckoo) : Type 0 where
  pub valid : Invariant.IsValid c
  pub wide1 : c.len1 ≡ pow2 k * 2
  pub wide2 : c.len2 ≡ pow2 k
  pub seed1 : c.seed1 ≡ us1
  pub seed2 : c.seed2 ≡ us2

abbrev pub LinkFits : ℕ → Option Cuckoo → Type 0
LinkFits k none = Unit
LinkFits k (some c) = Fits k c

-- The tables fill the links from the left, and the second and third have half the width of the
-- first.
pub record Shape (s0 s1 s2 : Option Cuckoo) : Type 0 where
  pub log : ℕ
  pub fits0 : LinkFits (suc log) s0
  pub fits1 : LinkFits log s1
  pub fits2 : LinkFits log s2
  pub order1 : is_null s0 ≡ true → is_null s1 ≡ true
  pub order2 : is_null s1 ≡ true → is_null s2 ≡ true

-- How many destinations of the slot's source pass the test.
abbrev pub held : (ℕ → Bool) → Slot → World → ℕ
held p b w = elim b.slot [
  | few pt ks ↦ tally p ks
  | grown s0 s1 s2 ↦
      link_total p s0 + link_total p s1 + link_total p s2 + tally p (own b.src w.sblacklist)
]

abbrev pub IsFormed : Slot → World → Type 0
IsFormed b w = elim b.slot [
  | few pt ks ↦ (length ks ≡ inline_keys) × (tally is_key ks ≡ pt) × (own b.src w.sblacklist ≡ [])
  | grown s0 s1 s2 ↦ Shape s0 s1 s2 × (tally (is 0) (own b.src w.sblacklist) ≡ 0)
]

-- The slot holds each destination once; the list has edges of its source only if it has grown.
pub record IsValid (b : Slot) (w : World) : Type 0 where
  pub formed : IsFormed b w
  pub unique : (d : ℕ) → d ≢ 0 → held (is d) b w ≤ 1

has-total :
    (d k : ℕ) (o : Option Cuckoo)
    → LinkFits k o
    → d ≢ 0
    → (has d o ≡ true) ↔ (0 < link_total (is d) o)
unfolding has
has-total d k none f nz = ground arith
has-total d k (some c) f nz = cuckoo_query-total d f.valid nz

few-query :
    (d pt : ℕ) (ks : List ℕ)
    → tally is_key ks ≡ pt
    → d ≢ 0
    → (0 < (if Scalar.query d ks then pt else 0)) ↔ (0 < tally (is d) ks)
few-query d pt ks counted nz =
    let some_key = tally_mono (is d) is_key ks (λ x h. ground arith) in
    ground (arith, scan_absent d ks, scan_present d ks, some_key)

-- `query` of a valid slot finds a destination of its source exactly when it or the list holds it.
pub slot_query-held :
    (d : ℕ) {b : Slot} {w : World}
    → IsValid b w
    → d ≢ 0
    → (0 < query (edge b.src d) b w) ↔ (0 < held (is d) b w)
unfolding query
slot_query-held d {b} {w} v nz = go b.slot v.formed
  where
    go :
        (c : Content)
        → IsFormed (record { src = b.src; slot = c }) w
        → (0 < query (edge b.src d) (record { src = b.src; slot = c }) w)
          ↔ (0 < held (is d) (record { src = b.src; slot = c }) w)
    go (few pt ks) f = rw (==_refl b.src) (few-query d pt ks f.1 nz)
    go (grown s0 s1 s2) f = rw (==_refl b.src) (
        ground (
          arith,
          has-total d _ s0 f.0.fits0 nz,
          has-total d _ s1 f.0.fits1 nz,
          has-total d _ s2 f.0.fits2 nz,
          on_list-own b.src d w.sblacklist,
        ))

-- The constructor makes a valid slot.
pub new_slot-IsValid : (w : World) → own 0 w.sblacklist ≡ [] → IsValid new w
unfolding new tally
new_slot-IsValid w unlisted = record {
  formed = (refl, refl, unlisted);
  unique = λ d nz. ground arith;
}
