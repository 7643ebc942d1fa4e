-- ===== src/MergeHash.antt =====
-- CuckooGraph/main.cpp, class mergehash1: a set of keys in at most three cuckoo tables and a
-- blacklist. A key turned out of a table goes to the blacklist; a full chain opens another table or
-- doubles the smallest one, which then takes the blacklist in; a thin table is halved.
-- A dereference of a null pointer is the result `none`.
pub mod Invariant
pub mod Links
pub mod Choice
pub mod Insert
pub mod Delete
pub mod Narrow
pub mod Calls
use cuckoo_graph.Prelude.{
  ℕ, zero, suc, ◌+◌, ◌*◌, ◌/◌, Bool, true, false, ◌&&◌, ℤ, pos, negsuc, Option, none, some, List,
  [], ◌∷◌, ◌++◌, ◌==◌, ltb, leb, if◌then◌else◌, get_or, set, replicate,
}
use cuckoo_graph.Bucket.{bup}
use cuckoo_graph.Cuckoo
use cuckoo_graph.Cuckoo.{Cuckoo, Globals}
use cuckoo_graph.Resize.{Stage, offer, offer_all, expand, compress}
use cuckoo_graph.Floats.{Floats}

abbrev pub link_num : ℕ
link_num = 3

abbrev pub minc2 : ℕ
minc2 = 4

pub record MergeHash : Type 0 where
  pub link : List (Option Cuckoo)
  pub ll1 : ℕ
  pub ll2 : ℕ
  pub s1 : ℕ
  pub s2 : ℕ
  pub blacklist : List ℕ

unfoldable pub new : ℕ → ℕ → ℕ → ℕ → MergeHash
new l1 l2 s1 s2 = record {
  link = replicate link_num none;
  ll1 = l1;
  ll2 = l2;
  s1 = s1;
  s2 = s2;
  blacklist = [];
}

unfoldable pub query_links : ℕ → List (Option Cuckoo) → Bool
query_links e [] = false
query_links e (none ∷ ls) = query_links e ls
query_links e (some c ∷ ls) = if Cuckoo.query e c then true else query_links e ls

-- the loop over the blacklist
unfoldable pub listed : ℕ → List ℕ → Bool
listed e [] = false
listed e (x ∷ xs) = if x == e then true else listed e xs

unfoldable pub query : ℕ → MergeHash → Bool
query e m = if query_links e m.link then true else listed e m.blacklist

-- `_l1 = _l1 / 2`, `k` times
unfoldable pub halved : ℕ → ℕ → ℕ
halved zero l = l
halved (suc k) l = halved k (l / 2)

-- The table that takes `e` in, for the link `i`.
unfoldable pub store : ℕ → ℕ → Stage → MergeHash → Option (Bool × MergeHash × Globals)
store e i s m =
    let t = offer e s in
    some (true, record m { link = set m.link i (some t.table); blacklist = t.left }, t.globals)

-- The table takes in the blacklist first: the keys that it turns out are the new blacklist.
unfoldable pub refill : Cuckoo → MergeHash → Globals → Stage
refill c m g = offer_all m.blacklist (record { table = c; left = []; globals = g })

-- The link with the shortest first layer.
unfoldable pub smallest : ℕ → List (Option Cuckoo) → ℕ → ℕ → ℕ
smallest i [] small aim = aim
smallest i (none ∷ ls) small aim = smallest (suc i) ls small aim
smallest i (some c ∷ ls) small aim =
    let less = ltb c.len1 small in
    smallest (suc i) ls (if less then c.len1 else small) (if less then i else aim)

unfoldable pub expand_smallest : ℕ → MergeHash → Globals → Option (Bool × MergeHash × Globals)
expand_smallest e m g = elim (get_or m.link 0 none) [
  | none ↦ none
  | some c0 ↦
      let aim = smallest 0 m.link c0.len1 0 in
      elim (get_or m.link aim none) [
        | none ↦ none
        | some c ↦ store e aim (refill (expand m.s1 m.s2 c) m g) m
      ]
]

unfoldable pub is_zero : ℤ → Bool
is_zero (pos zero) = true
is_zero (pos (suc n)) = false
is_zero (negsuc n) = false

-- `blacklist.erase(it)` at the first `e`
unfoldable pub erase : ℕ → List ℕ → List ℕ
erase e [] = []
erase e (x ∷ xs) = if x == e then xs else x ∷ erase e xs

module _ (fl : Floats) where
  open fl use {Double, of_int, mul, div, lt, two, rate, cthres}

  -- The first loop of `insert`: the lowest load with its link, and the first empty link.
  unfoldable pub choose : ℕ → List (Option Cuckoo) → Double → ℕ → Option ℕ → Double × ℕ × Option ℕ
  choose i [] tr aim tnull = (tr, aim, tnull)
  choose i (none ∷ ls) tr aim tnull =
      choose (suc i) ls tr aim (elim tnull [ none ↦ some i | some j ↦ some j ])
  choose i (some c ∷ ls) tr aim tnull =
      let ir = div (of_int c.num) (of_int (pos ((c.len1 + c.len2) * bup))) in
      choose (suc i) ls (if lt ir tr then ir else tr) (if lt ir tr then i else aim) tnull

  unfoldable pub insert : ℕ → MergeHash → Globals → Option (Bool × MergeHash × Globals)
  insert e m g =
      let (tr, aim, tnull) = choose 0 m.link two 0 none in
      if query e m
      then some (true, m, g)
      else if lt tr rate
      then elim (get_or m.link aim none) [
        | none ↦ none
        | some c ↦ store e aim (record { table = c; left = m.blacklist; globals = g }) m
      ]
      else elim tnull [
        | none ↦ expand_smallest e m g
        | some i ↦
            let c = Cuckoo.new (halved i m.ll1) (halved i m.ll2) m.s1 m.s2 in
            store e i (refill c m g) m
      ]

  -- What becomes of a table that has lost a key, with the keys for the blacklist.
  unfoldable pub shrink : ℕ → ℕ → Cuckoo → Globals → Option Cuckoo × List ℕ × Globals
  shrink s1 s2 c g =
      let s = compress s1 s2 c g in
      if is_zero c.num
      then (none, [], g)
      else if leb minc2 c.len2
          && lt (of_int c.num) (mul (of_int (pos ((c.len1 + c.len2) * bup))) cthres)
      then (some s.table, s.left, s.globals)
      else (some c, [], g)

  unfoldable pub del_links :
      ℕ → ℕ → ℕ → List (Option Cuckoo) → Globals → Bool × List (Option Cuckoo) × List ℕ × Globals
  del_links s1 s2 e [] g = (false, [], [], g)
  del_links s1 s2 e (none ∷ ls) g =
      let (found, ls', more, g') = del_links s1 s2 e ls g in (found, none ∷ ls', more, g')
  del_links s1 s2 e (some c ∷ ls) g =
      let (hit, c') = Cuckoo.del e c in
      let (o, more, g') = shrink s1 s2 c' g in
      let (found, ls', more', g'') = del_links s1 s2 e ls g in
      if hit then (true, o ∷ ls, more, g') else (found, some c' ∷ ls', more', g'')

  unfoldable pub del : ℕ → MergeHash → Globals → Bool × MergeHash × Globals
  del e m g =
      let (found, ls, more, g') = del_links m.s1 m.s2 e m.link g in
      if found
      then (true, record m { link = ls; blacklist = m.blacklist ++ more }, g')
      else (listed e m.blacklist, record m { link = ls; blacklist = erase e m.blacklist }, g')
