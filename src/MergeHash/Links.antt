-- ===== src/MergeHash/Links.antt =====
-- One link of the chain is read and replaced.
use cuckoo_graph.Prelude.{
  ℕ, zero, suc, ◌+◌, ◌≤◌, ◌<◌, ◌≡◌, ◌≢◌, refl, Bool, true, false, to_nat, arith, Option, none, some,
  List, [], ◌∷◌, All, length, length-set, get_or, set, tally, ◌∙◌, subst,
}
use cuckoo_graph.Cuckoo.{Cuckoo, Globals}
use cuckoo_graph.Cuckoo.Invariant.{total, is}
use cuckoo_graph.Resize.{Stage, offer}
use cuckoo_graph.Resize.Offer.{Receives, offer-Receives, offer_all-Receives, stock}
use cuckoo_graph.MergeHash.{MergeHash, store, refill}
use cuckoo_graph.MergeHash.Invariant.{Fits, TableFits, link_total, links_total, held, IsValid}

pub links_total-set :
    (p : ℕ → Bool) (ls : List (Option Cuckoo)) (i : ℕ) (c : Cuckoo)
    → i < length ls
    → links_total p (set ls i (some c)) + link_total p (get_or ls i none)
      ≡ links_total p ls + total p c
links_total-set p [] i c h = absurd (omega arith)
links_total-set p (o ∷ ls) zero c h = omega arith
links_total-set p (o ∷ ls) (suc i) c h = omega (arith, links_total-set p ls i c)

All-set :
    (s1 s2 : ℕ) (ls : List (Option Cuckoo)) (i : ℕ) (c : Cuckoo)
    → All (Fits s1 s2) ls
    → TableFits s1 s2 c
    → All (Fits s1 s2) (set ls i (some c))
All-set s1 s2 [] i c fits h = tt
All-set s1 s2 (o ∷ ls) zero c fits h = (h, fits.1)
All-set s1 s2 (o ∷ ls) (suc i) c fits h = (fits.0, All-set s1 s2 ls i c fits.1 h)

pub Fits-get_or :
    (s1 s2 : ℕ) (ls : List (Option Cuckoo)) (i : ℕ) (c : Cuckoo)
    → All (Fits s1 s2) ls
    → get_or ls i none ≡ some c
    → TableFits s1 s2 c
Fits-get_or s1 s2 [] i c fits e = cc
Fits-get_or s1 s2 (o ∷ ls) zero c fits e = subst (Fits s1 s2) e fits.0
Fits-get_or s1 s2 (o ∷ ls) (suc i) c fits e = Fits-get_or s1 s2 ls i c fits.1 e

pub link_total_le :
    (p : ℕ → Bool) (ls : List (Option Cuckoo)) (i : ℕ)
    → link_total p (get_or ls i none) ≤ links_total p ls
link_total_le p [] i = omega arith
link_total_le p (o ∷ ls) zero = omega arith
link_total_le p (o ∷ ls) (suc i) = omega (arith, link_total_le p ls i)

-- A table that received keys has its old shape and seeds.
received :
    {s1 s2 : ℕ} {keys : List ℕ} {s t : Stage}
    → TableFits s1 s2 s.table
    → Receives 0 keys s t
    → TableFits s1 s2 t.table
received fits r = record {
  valid = r.sound;
  shaped = record {
    log = fits.shaped.log;
    ratio = fits.shaped.ratio;
    positive = fits.shaped.positive;
    second = r.len2 ∙ fits.shaped.second;
    first = r.len1 ∙ fits.shaped.first;
  };
  seed1 = r.seed1 ∙ fits.seed1;
  seed2 = r.seed2 ∙ fits.seed2;
}

-- What an operation that adds the keys that pass `gain` makes of a chain.
pub record Gains (gain : (ℕ → Bool) → ℕ) (m n : MergeHash) : Type 0 where
  pub valid : IsValid n
  pub holds : (p : ℕ → Bool) → p 0 ≡ false → held p n ≡ held p m + gain p

-- The table of link `i`, or a new one, has received keys and takes the key `e` in: what it had
-- before, `c0`, and the keys `from` of the blacklist and `e` are now in it or in the blacklist.
module _ {m : MergeHash} (v : IsValid m) (e i : ℕ) (nonzero : e ≢ 0) (absent : held (is e) m ≡ 0)
    (inside : i < length m.link) where
  pub store-Gains :
      (s : Stage)
      → TableFits m.s1 m.s2 s.table
      → tally (is 0) s.left ≡ 0
      → ((p : ℕ → Bool)
          → p 0 ≡ false
          → stock p s ≡ link_total p (get_or m.link i none) + tally p m.blacklist)
      → (n : MergeHash) × (g : Globals) × (store e i s m ≡ some (true, n, g))
        × Gains (λ p. to_nat (p e)) m n
  unfolding store tally
  store-Gains s fits live stocked =
      let new_key : is e 0 ≡ false = ground arith in
      let fresh : total (is e) s.table ≡ 0 =
        omega (arith, stocked (is e) new_key, link_total_le (is e) m.link i) in
      let t = offer-Receives e s fits.valid live nonzero fresh in
      let c = (offer e s).table in
      let holds = λ (p : ℕ → Bool) (z : p 0 ≡ false).
        let x : links_total p (set m.link i (some c)) + tally p (offer e s).left
            ≡ held p m + to_nat (p e) =
          omega (arith, t.stocked p z, stocked p z, links_total-set p m.link i c inside) in
        x in
      (
        record m { link = set m.link i (some c); blacklist = (offer e s).left },
        (offer e s).globals,
        refl,
        record {
          valid = record {
            tables = All-set m.s1 m.s2 m.link i c v.tables (received fits t);
            three = length-set m.link i (some c) ∙ v.three;
            shaped = v.shaped;
            wide = v.wide;
            live = t.live;
            unique = λ k h. ground (arith, holds (is k), v.unique k h, absent);
          };
          holds = holds;
        },
      )

-- A table takes the blacklist in.
pub refill-stock :
    {m : MergeHash} (v : IsValid m) (c : Cuckoo) (g : Globals)
    → TableFits m.s1 m.s2 c
    → ((k : ℕ) → k ≢ 0 → total (is k) c + tally (is k) m.blacklist ≤ 1)
    → let s = refill c m g in
      TableFits m.s1 m.s2 s.table
      × (tally (is 0) s.left ≡ 0)
      × ((p : ℕ → Bool) → p 0 ≡ false → stock p s ≡ total p c + tally p m.blacklist)
unfolding refill tally
refill-stock {m} v c g fits fresh =
    let t =
      offer_all-Receives m.blacklist (record { table = c; left = []; globals = g }) fits.valid refl
        v.live (λ k h. omega (arith, fresh k h)) in
    (received fits t, t.live, λ p z. omega (arith, t.stocked p z))
