-- ===== src/Slot/Insert.antt =====
-- `bSlot::insert`: no null pointer is dereferenced, no assertion fails, the edge goes in, and no
-- other is lost.
use cuckoo_graph.Prelude.{
  ℕ, ◌<◌, ◌≡◌, ◌≢◌, ◌↔◌, ◌⊎◌, refl, inl, inr, Bool, true, false, arith, Bool-cases, Option, some,
  List, [], ◌==◌, ℤ, pos, subst, ==_refl, if◌then◌else◌,
}
use cuckoo_graph.Bucket.Scalar
use cuckoo_graph.Bucket.Tally.{scan_present}
use cuckoo_graph.Cuckoo.Invariant.{is}
use cuckoo_graph.Floats.{Floats}
use cuckoo_graph.Slot.{Edge, edge, World, Content, few, grown, Slot, own, query, is_slot_empty}
use cuckoo_graph.Slot.Grow.{insert_few, insert}
use cuckoo_graph.Slot.Lists.{tally-le-keys}
use cuckoo_graph.Slot.Invariant.{held, IsValid, slot_query-held}
use cuckoo_graph.Slot.Growth.{Grows, Grows-map}
use cuckoo_graph.Slot.Grown.{insert_grown-Grows}
use cuckoo_graph.Slot.Few.{first_key-Grows, insert_few-Grows}

abbrev pub at : ℕ → Content → Slot
at s c = record { src = s; slot = c }

-- A slot without keys, of whatever source.
insert_empty-Grows :
    (fl : Floats) (s d s' : ℕ) (c : Content) (w : World)
    → IsValid (at s' c) w
    → d ≢ 0
    → is_slot_empty (at s' c) ≡ true
    → own s w.sblacklist ≡ []
    → Grows s d (λ p. 0) w (insert fl (edge s d) (at s' c) w)
unfolding insert is_slot_empty
insert_empty-Grows fl s d s' (few pt ks) w v nz empty unlisted =
    rw empty (first_key-Grows s d w nz unlisted ks v.formed.0 (ground (arith, v.formed.1)))
insert_empty-Grows fl s d s' (grown s0 s1 s2) w v nz empty unlisted = cc

-- A destination that the slot does not hold, where the slot is of the source.
insert_own-Grows :
    (fl : Floats) (s d : ℕ) (c : Content) (w : World)
    → IsValid (at s c) w
    → d ≢ 0
    → query (edge s d) (at s c) w ≡ 0
    → Grows s d (λ p. held p (at s c) w) w (insert fl (edge s d) (at s c) w)
unfolding insert
insert_own-Grows fl s d (few pt ks) w v nz fresh =
    let (wide, counted, unlisted) = v.formed in
    let absent = slot_query-held d v nz in
    elim (Bool-cases (pt == 0)) [
      | inl e ↦ rw e (
          Grows-map (first_key-Grows s d w nz unlisted ks wide (ground (arith, counted)))
            (λ p z. ground (arith, tally-le-keys p ks z, counted)) (λ t h. refl))
      | inr e ↦
          let unseen : Scalar.query d ks ≡ false = elim (Bool-cases (Scalar.query d ks)) [
            | inl q ↦ absurd (ground (arith, scan_present d ks q, absent))
            | inr q ↦ q
          ] in
          rw e
            (rw (==_refl s) (insert_few-Grows s d w nz unlisted pt ks wide counted v.unique unseen))
    ]
insert_own-Grows fl s d (grown s0 s1 s2) w v nz fresh =
    let (shape, live) = v.formed in
    let absent = slot_query-held d v nz in
    rw (==_refl s) (
      rw fresh (
        insert_grown-Grows fl (edge s d) s0 s1 s2 w nz live shape
          (λ j h. ground (arith, v.unique j h, absent))))

few_seen :
    (s d pt : ℕ) (ks : List ℕ) (w : World)
    → 0 < query (edge s d) (at s (few pt ks)) w
    → (0 < pt) × (Scalar.query d ks ≡ true)
unfolding query
few_seen s d pt ks w old =
    let q : 0 < (if Scalar.query d ks then pt else 0) = rw (==_refl s) at old in
    (ground arith, ground arith)

-- A destination that the slot holds.
insert_old :
    (fl : Floats) (s d : ℕ) (c : Content) (w : World)
    → 0 < query (edge s d) (at s c) w
    → (code : ℤ) × (insert fl (edge s d) (at s c) w ≡ some (code, at s c, w))
unfolding insert insert_few
insert_old fl s d (few pt ks) w old =
    let (used, seen) = few_seen s d pt ks w old in
    let busy : (pt == 0) ≡ false = ground arith in (pos pt, rw busy (rw (==_refl s) (rw seen refl)))
insert_old fl s d (grown s0 s1 s2) w old =
    let q = query (edge s d) (at s (grown s0 s1 s2)) w in
    let found : (q == 0) ≡ false = ground arith in (pos q, rw (==_refl s) (rw found refl))

-- The slot that `insert` of the edge leaves: it is of the source and valid, and `query` finds in it
-- the destinations that it found before and the new one. The listed edges of other sources stay.
abbrev pub Enters : Edge → Slot → World → Option (ℤ × Slot × World) → Type 0
Enters e b w r =
    (code : ℤ) × (b' : Slot) × (w' : World) × (r ≡ some (code, b', w'))
    × (b'.src ≡ e.src)
    × IsValid b' w'
    × ((k : ℕ)
        → k ≢ 0
        → (0 < query (edge e.src k) b' w') ↔ ((0 < query (edge e.src k) b w) ⊎ (k ≡ e.dst)))
    × ((t : ℕ) → t ≢ e.src → own t w'.sblacklist ≡ own t w.sblacklist)

Grows-Enters :
    {e : Edge} (b : Slot) {w : World} {r : Option (ℤ × Slot × World)} {before : (ℕ → Bool) → ℕ}
    → Grows e.src e.dst before w r
    → ((k : ℕ) → k ≢ 0 → (0 < query (edge e.src k) b w) ↔ (0 < before (is k)))
    → Enters e b w r
Grows-Enters {e} b g old = (
  g.code,
  g.slot,
  g.world,
  g.runs,
  g.source,
  g.valid,
  λ k h.
      let now =
        subst (λ s. (0 < query (edge s k) g.slot g.world) ↔ (0 < held (is k) g.slot g.world))
          g.source (slot_query-held k g.valid h) in
      ground (arith, now, old k h, g.gains (is k)),
  g.frame,
)

own-Enters :
    (fl : Floats) (d : ℕ) {b : Slot} {w : World}
    → IsValid b w
    → d ≢ 0
    → Enters (edge b.src d) b w (insert fl (edge b.src d) b w)
own-Enters fl d {b} {w} v nz = elim (Bool-cases (query (edge b.src d) b w == 0)) [
  | inl e ↦
      Grows-Enters b (insert_own-Grows fl b.src d b.slot w v nz (ground arith))
        (λ k h. slot_query-held k v h)
  | inr e ↦
      let (code, runs) = insert_old fl b.src d b.slot w (ground arith) in
      (code, b, w, runs, refl, v, λ k h. ground arith, λ t h. refl)
]

pub empty_query :
    (s k s' : ℕ) (c : Content) (w : World)
    → is_slot_empty (at s' c) ≡ true
    → query (edge s k) (at s' c) w ≡ 0
unfolding query is_slot_empty
empty_query s k s' (few pt ks) w empty = ground arith
empty_query s k s' (grown s0 s1 s2) w empty = cc

-- A valid slot that is of the source of the edge, or is empty while the list has no edge of that
-- source, takes in an edge whose destination is not 0: `insert` dereferences no null pointer and
-- fails no assertion, and the slot is then of the source and valid, `query` finds in it the
-- destinations that it found before and the new one, and the listed edges of other sources stay.
pub query-insert_slot :
    (fl : Floats) (e : Edge) {b : Slot} {w : World}
    → IsValid b w
    → e.dst ≢ 0
    → (b.src ≡ e.src) ⊎ ((is_slot_empty b ≡ true) × (own e.src w.sblacklist ≡ []))
    → Enters e b w (insert fl e b w)
query-insert_slot fl e {b} {w} v nz (inl same) =
    subst (λ s. Enters (edge s e.dst) b w (insert fl (edge s e.dst) b w)) same
      (own-Enters fl e.dst v nz)
query-insert_slot fl e {b} {w} v nz (inr (empty, unlisted)) =
    Grows-Enters b (insert_empty-Grows fl e.src e.dst b.src b.slot w v nz empty unlisted)
      (λ k h. rw (empty_query e.src k b.src b.slot w empty) (ground arith))
