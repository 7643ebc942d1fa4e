-- ===== src/MergeHash/Delete.antt =====
-- `mergehash1::del`: the key goes out, and no other is lost, also where a table is dropped or halved.
use mathlib.Core.Bool.{false≢true}
use cuckoo_graph.Prelude.{
  ℕ, zero, suc, ◌+◌, ◌*◌, ◌≤◌, ◌≡◌, ◌≢◌, ◌↔◌, inl, inr, refl, sym, Bool, true, false, ◌==◌, to_nat,
  arith, Option, none, some, List, [], ◌∷◌, ◌++◌, All, length, tally, tally-append, tally_mono,
  Bool-cases, if◌then◌else◌, ◌∙◌, subst, pos, leb, ap,
}
use cuckoo_graph.Bucket.{bup}
use cuckoo_graph.Layer.Placement
use cuckoo_graph.Cuckoo
use cuckoo_graph.Cuckoo.{Cuckoo, Globals}
use cuckoo_graph.Cuckoo.Invariant.{total, is, is_key}
use cuckoo_graph.Cuckoo.Delete.{Drops, del-Drops}
use cuckoo_graph.Resize.{compress}
use cuckoo_graph.Resize.Compress.{compress-IsValid}
use cuckoo_graph.Floats.{Floats}
use cuckoo_graph.MergeHash.{MergeHash, query, listed, erase, is_zero, shrink, del_links, del, minc2}
use cuckoo_graph.MergeHash.Invariant.{
  Fits, TableFits, Shaped, link_total, links_total, held, IsValid, query-held, listed-tally, pow2,
}

-- A test that no free slot passes, passes no more often than there are keys.
pub total-le-keys : (p : ℕ → Bool) (c : Cuckoo) → p 0 ≡ false → total p c ≤ total is_key c
total-le-keys p c z =
    let key : (x : ℕ) → p x ≡ true → is_key x ≡ true = λ x h. elim (Bool-cases (x == 0)) [
      | inl e ↦ let same : x ≡ 0 = ground arith in absurd (false≢true (sym z ∙ (rw same at h)))
      | inr e ↦ rw e
    ] in
    omega (
      arith,
      tally_mono p is_key (Placement.keys c.layer1) key,
      tally_mono p is_key (Placement.keys c.layer2) key,
    )

-- The halves of a shape whose second width is at least four.
halves :
    {l1 l2 : ℕ} → Shaped l1 l2 → 4 ≤ l2 → (h1 h2 : ℕ) × (l1 ≡ h1 * 2) × (l2 ≡ h2 * 2) × Shaped h1 h2
halves {l1} {l2} s h = go s.log s.second s.first
  where
    go :
        (n : ℕ)
        → l2 ≡ pow2 n
        → l1 ≡ pow2 n * s.ratio
        → (h1 h2 : ℕ) × (l1 ≡ h1 * 2) × (l2 ≡ h2 * 2) × Shaped h1 h2
    go zero e f = absurd (omega arith)
    go (suc n) e f = (
      pow2 n * s.ratio,
      pow2 n,
      omega arith,
      omega arith,
      record { log = n; ratio = s.ratio; positive = s.positive; second = refl; first = refl },
    )

-- What is left of a table, and the keys for the blacklist.
record Shrinks (s1 s2 : ℕ) (c : Cuckoo) (r : Option Cuckoo × List ℕ × Globals) : Type 0 where
  fits : Fits s1 s2 r.0
  live : tally (is 0) r.1 ≡ 0
  holds : (p : ℕ → Bool) → p 0 ≡ false → link_total p r.0 + tally p r.1 ≡ total p c

compress-Shrinks :
    (s1 s2 : ℕ) (c : Cuckoo) (g : Globals)
    → TableFits s1 s2 c
    → 4 ≤ c.len2
    → let s = compress s1 s2 c g in Shrinks s1 s2 c (some s.table, s.left, s.globals)
compress-Shrinks s1 s2 c g f wide =
    let (h1, h2, e1, e2, shape) = halves f.shaped wide in
    let (valid, live, holds, len1, len2, seed1, seed2) = compress-IsValid h1 h2 c g f.valid e1 e2 in
    rw (← f.seed1, ← f.seed2)
      (record {
        fits = record {
          valid = valid;
          shaped =
              subst (λ l. Shaped l (compress c.seed1 c.seed2 c g).table.len2) (sym len1)
                (subst (Shaped h1) (sym len2) shape);
          seed1 = seed1;
          seed2 = seed2;
        };
        live = live;
        holds = holds;
      })

kept-Shrinks :
    (s1 s2 : ℕ) (c : Cuckoo) (g : Globals) → TableFits s1 s2 c → Shrinks s1 s2 c (some c, [], g)
unfolding tally
kept-Shrinks s1 s2 c g f = record { fits = f; live = refl; holds = λ p z. omega arith }

-- What a deletion of `e` makes of the links: the answer, the links, the keys for the blacklist.
record Cuts (s1 s2 e : ℕ) (ls : List (Option Cuckoo))
    (r : Bool × List (Option Cuckoo) × List ℕ × Globals) : Type 0 where
  fits : All (Fits s1 s2) r.1
  same_length : length r.1 ≡ length ls
  live : tally (is 0) r.2 ≡ 0
  holds :
      (p : ℕ → Bool)
      → p 0 ≡ false
      → links_total p r.1 + tally p r.2 + (if r.0 then to_nat (p e) else 0) ≡ links_total p ls
  missed : r.0 ≡ false → (links_total (is e) ls ≡ 0) × (r.2 ≡ [])

dropped-Fits :
    {s1 s2 e : ℕ} {c : Cuckoo} {r : Bool × Cuckoo}
    → TableFits s1 s2 c
    → Drops e c r
    → TableFits s1 s2 r.1
dropped-Fits f d = record {
  valid = d.valid;
  shaped = record {
    log = f.shaped.log;
    ratio = f.shaped.ratio;
    positive = f.shaped.positive;
    second = d.len2 ∙ f.shaped.second;
    first = d.len1 ∙ f.shaped.first;
  };
  seed1 = d.seed1 ∙ f.seed1;
  seed2 = d.seed2 ∙ f.seed2;
}

module _ (fl : Floats) (s1 s2 : ℕ) where
  shrink-Shrinks :
      (c : Cuckoo) (g : Globals) → TableFits s1 s2 c → Shrinks s1 s2 c (shrink fl s1 s2 c g)
  unfolding shrink tally
  shrink-Shrinks c g f = elim (Bool-cases (is_zero c.num)) [
    | inl empty ↦
        let none_left : total is_key c ≡ 0 =
          unfold is_zero in ground (arith, f.valid.counted.1, f.valid.counted.2) in
        rw (empty, shrink)
          (record {
            fits = tt;
            live = refl;
            holds = λ p z. omega (arith, none_left, total-le-keys p c z);
          })
    | inr some_left ↦
        rw (some_left, shrink)
          (elim (Bool-cases (leb minc2 c.len2)) [
            | inl wide ↦
                rw wide
                  (elim (Bool-cases (
                    fl.lt (fl.of_int c.num)
                      (fl.mul (fl.of_int (pos ((c.len1 + c.len2) * bup))) fl.cthres))) [
                        | inl thin ↦ rw thin (compress-Shrinks s1 s2 c g f (ground arith))
                        | inr thick ↦ rw thick (kept-Shrinks s1 s2 c g f)
                      ])
            | inr narrow ↦ rw narrow (kept-Shrinks s1 s2 c g f)
          ])
  ]

  del_links-Cuts :
      (e : ℕ) (ls : List (Option Cuckoo)) (g : Globals)
      → e ≢ 0
      → All (Fits s1 s2) ls
      → Cuts s1 s2 e ls (del_links fl s1 s2 e ls g)
  unfolding del_links tally
  del_links-Cuts e [] g h fits = record {
    fits = tt;
    same_length = refl;
    live = refl;
    holds = λ p z. omega arith;
    missed = λ _. (refl, refl);
  }
  del_links-Cuts e (none ∷ ls) g h fits =
      let rest = del_links-Cuts e ls g h fits.1 in
      record {
        fits = (tt, rest.fits);
        same_length = ap suc rest.same_length;
        live = rest.live;
        holds = λ p z. omega (arith, rest.holds p z);
        missed = λ q. let (none_here, no_more) = rest.missed q in (omega arith, no_more);
      }
  del_links-Cuts e (some c ∷ ls) g h fits =
      let d = del-Drops fits.0.valid h in
      let rest = del_links-Cuts e ls g h fits.1 in
      let c' = (Cuckoo.del e c).1 in
      let fits' = dropped-Fits fits.0 d in
      let s = shrink-Shrinks c' g fits' in
      elim (Bool-cases (Cuckoo.del e c).0) [
        | inl hit ↦
            rw (hit, del_links)
              (record {
                fits = (s.fits, fits.1);
                same_length = refl;
                live = s.live;
                holds = λ p z. ground (arith, s.holds p z, d.tallies p z);
                missed = λ q. cc;
              })
        | inr miss ↦
            rw (miss, del_links)
              (record {
                fits = (fits', rest.fits);
                same_length = ap suc rest.same_length;
                live = rest.live;
                holds = λ p z. ground (arith, rest.holds p z, d.tallies p z);
                missed = λ q.
                    let (none_here, no_more) = rest.missed q in
                    (ground (arith, d.gone, d.tallies (is e)), no_more);
              })
      ]

tally-erase :
    (e : ℕ) (xs : List ℕ) (p : ℕ → Bool)
    → tally p (erase e xs) + (if listed e xs then to_nat (p e) else 0) ≡ tally p xs
unfolding erase listed tally
tally-erase e [] p = omega arith
tally-erase e (x ∷ xs) p = elim (Bool-cases (x == e)) [
  | inl same ↦ let at : x ≡ e = ground arith in ground (arith, ap (λ k. to_nat (p k)) at)
  | inr other ↦ rw other (omega (arith, tally-erase e xs p))
]

-- What a deletion of `e` makes of a chain.
record Loses (e : ℕ) (m : MergeHash) (r : Bool × MergeHash × Globals) : Type 0 where
  valid : IsValid r.1
  holds : (p : ℕ → Bool) → p 0 ≡ false → held p r.1 + (if r.0 then to_nat (p e) else 0) ≡ held p m
  missed : r.0 ≡ false → held (is e) m ≡ 0

module _ (fl : Floats) {m : MergeHash} (v : IsValid m) (e : ℕ) (g : Globals) (nonzero : e ≢ 0) where
  rebuilt-Loses :
      (found : Bool) (ls : List (Option Cuckoo)) (bl : List ℕ) (g' : Globals)
      → All (Fits m.s1 m.s2) ls
      → length ls ≡ length m.link
      → tally (is 0) bl ≡ 0
      → ((p : ℕ → Bool)
          → p 0 ≡ false
          → links_total p ls + tally p bl + (if found then to_nat (p e) else 0) ≡ held p m)
      → (found ≡ false → held (is e) m ≡ 0)
      → Loses e m (found, record m { link = ls; blacklist = bl }, g')
  rebuilt-Loses found ls bl g' fits same live holds missed = record {
    valid = record {
      tables = fits;
      three = same ∙ v.three;
      shaped = v.shaped;
      wide = v.wide;
      live = live;
      unique = λ k h. ground (arith, holds (is k), v.unique k h);
    };
    holds = holds;
    missed = missed;
  }

  del-Loses : Loses e m (del fl e m g)
  unfolding del
  del-Loses =
      let c = del_links-Cuts fl m.s1 m.s2 e m.link g nonzero v.tables in
      let r = del_links fl m.s1 m.s2 e m.link g in
      let more = λ (p : ℕ → Bool). tally-append p m.blacklist r.2 in
      elim (Bool-cases r.0) [
        | inl hit ↦
            rw (hit, del)
              (rebuilt-Loses true r.1 (m.blacklist ++ r.2) r.3 c.fits c.same_length
                (omega (arith, more (is 0), v.live, c.live))
                (λ p z. ground (arith, c.holds p z, more p)) (λ q. cc))
        | inr miss ↦
            let (nowhere, no_more) = c.missed miss in
            let none_left : (p : ℕ → Bool) → tally p r.2 ≡ 0 =
              λ p. rw no_more (unfold tally in refl) in
            let at = tally-erase e m.blacklist in
            rw (miss, del)
              (rebuilt-Loses (listed e m.blacklist) r.1 (erase e m.blacklist) r.3 c.fits
                c.same_length (omega (arith, at (is 0), v.live))
                (λ p z. ground (arith, c.holds p z, none_left p, at p))
                (λ q. ground (arith, nowhere, listed-tally e m.blacklist)))
      ]

  -- For a valid chain and a key that is not 0, `del` leaves a valid chain in which `query` finds
  -- just the other keys, and it answers what `query` would have answered.
  pub query-del_chain :
      let (found, n, g') = del fl e m g in
      IsValid n
      × (found ≡ query e m)
      × ((k : ℕ) → k ≢ 0 → (query k n ≡ true) ↔ ((query k m ≡ true) × (k ≢ e)))
  query-del_chain =
      let l = del-Loses in
      let before = query-held e v nonzero in
      (
        l.valid,
        ground (arith, before, l.missed, l.holds (is e), v.unique e nonzero),
        λ k h. ground (
          arith,
          query-held k v h,
          query-held k l.valid h,
          l.holds (is k),
          l.holds (is e),
          l.missed,
          v.unique e nonzero,
        ),
      )
