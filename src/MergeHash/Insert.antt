-- ===== src/MergeHash/Insert.antt =====
-- `mergehash1::insert`: no null pointer is dereferenced, the key goes in, and no other is lost.
use mathlib.Core.Bool.{false≢true}
use cuckoo_graph.Prelude.{
  ℕ, zero, suc, ◌*◌, ◌<◌, ◌≡◌, ◌≢◌, ◌↔◌, ◌⊎◌, inl, inr, refl, Bool, true, false, to_nat, arith,
  Option, none, some, List, [], ◌∷◌, length, get_or, Bool-cases, ◌∙◌, subst, sym,
}
use cuckoo_graph.Cuckoo
use cuckoo_graph.Cuckoo.{Cuckoo, Globals}
use cuckoo_graph.Cuckoo.Invariant.{total, is, new-IsValid_cuckoo}
use cuckoo_graph.Resize.{expand}
use cuckoo_graph.Resize.Expand.{expand-IsSound}
use cuckoo_graph.Floats.{Floats}
use cuckoo_graph.MergeHash.{
  MergeHash, query, insert, choose, store, expand_smallest, refill, smallest, halved,
}
use cuckoo_graph.MergeHash.Invariant.{
  TableFits, Shaped, link_total, held, IsValid, query-held, pow2,
}
use cuckoo_graph.MergeHash.Links.{Fits-get_or, Gains, store-Gains, refill-stock, link_total_le}
use cuckoo_graph.MergeHash.Choice.{
  double-Shaped, halved-Shaped, Vacant, Full, smallest-Found, choose_aim, choose_null,
}

abbrev Adds : ℕ → MergeHash → Option (Bool × MergeHash × Globals) → Type 0
Adds e m r =
    (n : MergeHash) × (g : Globals) × (r ≡ some (true, n, g)) × Gains (λ p. to_nat (p e)) m n

pow2_pos : (n : ℕ) → 0 < pow2 n
pow2_pos zero = omega arith
pow2_pos (suc n) = omega (arith, pow2_pos n)

Shaped-pos : {l1 l2 : ℕ} → Shaped l1 l2 → (0 < l1) × (0 < l2)
Shaped-pos s =
    (grind (arith, pow2_pos s.log, s.first, s.positive), omega (arith, pow2_pos s.log, s.second))

some-lt :
    (ls : List (Option Cuckoo)) (i : ℕ) {c : Cuckoo} → get_or ls i none ≡ some c → i < length ls
some-lt [] i h = cc
some-lt (o ∷ ls) zero h = omega arith
some-lt (o ∷ ls) (suc i) h = omega (arith, some-lt ls i h)

module _ {m : MergeHash} (v : IsValid m) (e : ℕ) (g : Globals) (nonzero : e ≢ 0)
    (absent : held (is e) m ≡ 0) where
  -- The table of a link takes in the key alone.
  store-Adds :
      (aim : ℕ) (c : Cuckoo)
      → aim < length m.link
      → get_or m.link aim none ≡ some c
      → Adds e m (store e aim (record { table = c; left = m.blacklist; globals = g }) m)
  store-Adds aim c inside at =
      store-Gains v e aim nonzero absent inside _ (Fits-get_or m.s1 m.s2 m.link aim c v.tables at)
        v.live (λ p z. rw at)

  -- A table at a link, new or wider, takes in the blacklist and the key.
  refill-Adds :
      (aim : ℕ) (c : Cuckoo)
      → aim < length m.link
      → TableFits m.s1 m.s2 c
      → ((p : ℕ → Bool) → p 0 ≡ false → total p c ≡ link_total p (get_or m.link aim none))
      → Adds e m (store e aim (refill c m g) m)
  refill-Adds aim c inside fits same =
      let (fits', live, stocked) = refill-stock v c g fits (λ k h.
        let z : is k 0 ≡ false = ground arith in
        omega (arith, same (is k) z, link_total_le (is k) m.link aim, v.unique k h)) in
      store-Gains v e aim nonzero absent inside _ fits' live
        (λ p z. omega (arith, stocked p z, same p z))

  new_table-Adds :
      (i : ℕ)
      → Vacant 0 m.link i
      → Adds e m (store e i (refill (Cuckoo.new (halved i m.ll1) (halved i m.ll2) m.s1 m.s2) m g) m)
  new_table-Adds i (j, at, inside, free) =
      let lt : i < 3 = omega (arith, v.three) in
      let same : j ≡ i = omega arith in
      let vacant : get_or m.link i none ≡ none =
        subst (λ k. get_or m.link k none ≡ none) same free in
      let shape = halved-Shaped i lt v.shaped v.wide in
      let (pos1, pos2) = Shaped-pos shape in
      let (valid, bare) =
        new-IsValid_cuckoo (halved i m.ll1) (halved i m.ll2) m.s1 m.s2 pos1 pos2 in
      refill-Adds i _ (omega arith)
        (unfold Cuckoo.new in record { valid = valid; shaped = shape; seed1 = refl; seed2 = refl })
        (λ p z. rw vacant (bare p z))

  expand-Fits :
      (c : Cuckoo)
      → TableFits m.s1 m.s2 c
      → TableFits m.s1 m.s2 (expand m.s1 m.s2 c)
        × ((p : ℕ → Bool) → p 0 ≡ false → total p (expand m.s1 m.s2 c) ≡ total p c)
  expand-Fits c fits =
      let (sound, same, wide1, wide2) = expand-IsSound fits.valid in
      rw (← fits.seed1, ← fits.seed2)
        (
          record {
            valid = sound;
            shaped =
                subst (λ l. Shaped l (expand c.seed1 c.seed2 c).len2) (sym wide1)
                  (subst (Shaped (c.len1 * 2)) (sym wide2) (double-Shaped fits.shaped));
            seed1 = unfold expand in refl;
            seed2 = unfold expand in refl;
          },
          same,
        )

  expand-Adds : Full m.link → Adds e m (expand_smallest e m g)
  unfolding expand_smallest
  expand-Adds full =
      let (c0, at0) = full 0 (omega (arith, v.three)) in
      let aim = smallest 0 m.link c0.len1 0 in
      let (c, at) : (c : Cuckoo) × (get_or m.link aim none ≡ some c) =
        elim (smallest-Found 0 m.link c0.len1 0) [
          | inl e ↦ (c0, rw e at0)
          | inr (j, c, e, at) ↦ (c, subst (λ k. get_or m.link k none ≡ some c) (omega arith) at)
        ] in
      let (fits, same) = expand-Fits c (Fits-get_or m.s1 m.s2 m.link aim c v.tables at) in
      rw (at0, expand_smallest)
        (rw (at, expand_smallest)
          (refill-Adds aim _ (some-lt m.link aim at) fits (λ p z. rw at (same p z))))

module _ (fl : Floats) (sane : fl.lt fl.two fl.rate ≡ false) {m : MergeHash} (v : IsValid m) (e : ℕ)
    (g : Globals) (nonzero : e ≢ 0) where
  insert_new-Adds : query e m ≡ false → Adds e m (insert fl e m g)
  unfolding insert
  insert_new-Adds new_key =
      let q = query-held e v nonzero in
      let absent : held (is e) m ≡ 0 = ground (arith, q) in
      let c = choose fl 0 m.link fl.two 0 none in
      rw (new_key, insert)
        (elim (Bool-cases (fl.lt c.0 fl.rate)) [
          | inl low ↦ elim (choose_aim fl 0 m.link fl.two 0 none) [
            | inl (same, _) ↦ absurd (false≢true (sym sane ∙ (rw same at low)))
            | inr (j, t, at, found) ↦
                let spot : get_or m.link c.1 none ≡ some t =
                  subst (λ k. get_or m.link k none ≡ some t) (omega arith) found in
                rw low (
                  rw (spot, insert)
                    (store-Adds v e g nonzero absent c.1 t (some-lt m.link c.1 spot) spot))
          ]
          | inr high ↦ rw high (elim (choose_null fl 0 m.link fl.two 0) [
            | inl (j, at, vacant) ↦ rw (at, insert) (new_table-Adds v e g nonzero absent j vacant)
            | inr (at, full) ↦ rw (at, insert) (expand-Adds v e g nonzero absent full)
          ])
        ])

  -- For a valid chain and a key that is not 0, `insert` dereferences no null pointer, returns true
  -- and leaves a valid chain, in which `query` finds the key and just the keys that it found before.
  pub query-insert_chain :
      (n : MergeHash) × (g' : Globals) × (insert fl e m g ≡ some (true, n, g'))
      × IsValid n
      × ((k : ℕ) → k ≢ 0 → (query k n ≡ true) ↔ ((query k m ≡ true) ⊎ (k ≡ e)))
  query-insert_chain = elim (Bool-cases (query e m)) [
    | inl old ↦ (m, g, unfold insert in rw (old, insert), v, λ k h. ground arith)
    | inr fresh ↦
        let (n, g', run, gains) = insert_new-Adds fresh in
        (
          n,
          g',
          run,
          gains.valid,
          λ k h. ground (arith, query-held k v h, query-held k gains.valid h, gains.holds (is k)),
        )
  ]
