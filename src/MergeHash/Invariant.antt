-- ===== src/MergeHash/Invariant.antt =====
-- A well-formed chain of tables: its keys, the invariant, and `query` against the keys.
use cuckoo_graph.Prelude.{
  ℕ, zero, suc, ◌+◌, ◌*◌, ◌≤◌, ◌<◌, ◌≡◌, ◌≢◌, ◌↔◌, refl, Bool, true, arith, Option, none, some,
  List, [], ◌∷◌, All, length, tally,
}
use cuckoo_graph.Cuckoo.{Cuckoo}
use cuckoo_graph.Cuckoo.Invariant.{total, is, cuckoo_query-total}
use cuckoo_graph.Cuckoo.Invariant
use cuckoo_graph.MergeHash.{MergeHash, query_links, listed, query, link_num, new}

abbrev pub pow2 : ℕ → ℕ
pow2 zero = 1
pow2 (suc n) = pow2 n * 2

-- The second width is a power of two and divides the first one.
pub record Shaped (l1 l2 : ℕ) : Type 0 where
  pub log : ℕ
  pub ratio : ℕ
  pub positive : 0 < ratio
  pub second : l2 ≡ pow2 log
  pub first : l1 ≡ pow2 log * ratio

-- A table of a chain with the seeds `s1` and `s2`, or an empty link.
pub record TableFits (s1 s2 : ℕ) (c : Cuckoo) : Type 0 where
  pub valid : Invariant.IsValid c
  pub shaped : Shaped c.len1 c.len2
  pub seed1 : c.seed1 ≡ s1
  pub seed2 : c.seed2 ≡ s2

abbrev pub Fits : ℕ → ℕ → Option Cuckoo → Type 0
Fits s1 s2 none = Unit
Fits s1 s2 (some c) = TableFits s1 s2 c

-- How many keys of a link, of all links and of the whole chain pass the test.
abbrev pub link_total : (ℕ → Bool) → Option Cuckoo → ℕ
link_total p none = 0
link_total p (some c) = total p c

abbrev pub links_total : (ℕ → Bool) → List (Option Cuckoo) → ℕ
links_total p [] = 0
links_total p (o ∷ ls) = link_total p o + links_total p ls

abbrev pub held : (ℕ → Bool) → MergeHash → ℕ
held p m = links_total p m.link + tally p m.blacklist

-- Each table is valid and each key is held once; a third table of the first widths, twice halved,
-- still has two layers.
pub record IsValid (m : MergeHash) : Type 0 where
  pub tables : All (Fits m.s1 m.s2) m.link
  pub three : length m.link ≡ link_num
  pub shaped : Shaped m.ll1 m.ll2
  pub wide : 4 ≤ m.ll2
  pub live : tally (is 0) m.blacklist ≡ 0
  pub unique : (key : ℕ) → key ≢ 0 → held (is key) m ≤ 1

-- The constructor makes a valid chain without keys.
pub new_chain-IsValid :
    (l1 l2 s1 s2 : ℕ)
    → Shaped l1 l2
    → 4 ≤ l2
    → IsValid (new l1 l2 s1 s2) × ((p : ℕ → Bool) → held p (new l1 l2 s1 s2) ≡ 0)
unfolding new tally
new_chain-IsValid l1 l2 s1 s2 shape wide = (
  record {
    tables = (tt, (tt, (tt, tt)));
    three = refl;
    shaped = shape;
    wide = wide;
    live = refl;
    unique = λ key h. omega arith;
  },
  λ p. omega arith,
)

query_links-total :
    (s1 s2 e : ℕ) (ls : List (Option Cuckoo))
    → All (Fits s1 s2) ls
    → e ≢ 0
    → (query_links e ls ≡ true) ↔ (0 < links_total (is e) ls)
unfolding query_links
query_links-total s1 s2 e [] fits h = ground arith
query_links-total s1 s2 e (none ∷ ls) fits h = ground (arith, query_links-total s1 s2 e ls fits.1 h)
query_links-total s1 s2 e (some c ∷ ls) fits h =
    ground (arith, query_links-total s1 s2 e ls fits.1 h, cuckoo_query-total e fits.0.valid h)

pub listed-tally : (e : ℕ) (xs : List ℕ) → (listed e xs ≡ true) ↔ (0 < tally (is e) xs)
unfolding listed tally
listed-tally e [] = ground arith
listed-tally e (x ∷ xs) = ground (arith, listed-tally e xs)

-- `query` finds a key exactly when a table or the blacklist holds it.
pub query-held :
    (e : ℕ) {m : MergeHash} → IsValid m → e ≢ 0 → (query e m ≡ true) ↔ (0 < held (is e) m)
unfolding query
query-held e {m} v h =
    ground (arith, query_links-total m.s1 m.s2 e m.link v.tables h, listed-tally e m.blacklist)
