-- ===== src/Slot.antt =====
-- CuckooGraph/main.cpp, class bSlot: the neighbours of one source node. Up to six of them stand in
-- the memory of the three table pointers; more of them go into cuckoo tables, and keys that these
-- turn out go to the global list `sblacklist`.
-- A negative `pt` says that the memory holds pointers: it is the constructor `grown`. A dereference
-- of a null pointer, and a failed `assert`, is the result `none`.
pub mod Merge
pub mod Grow
pub mod Shrink
pub mod Neighbours
pub mod Lists
pub mod Invariant
pub mod Listing
pub mod Place
pub mod Poured
pub mod Merged
pub mod Visit
pub mod Growth
pub mod Grown
pub mod Few
pub mod Insert
pub mod Stands
pub mod Spread
pub mod Settle
pub mod Outcomes
pub mod Cuts
pub mod Delete
use cuckoo_graph.Prelude.{
  ℕ, zero, ◌+◌, ◌*◌, Bool, true, false, not, ◌&&◌, Option, none, some, List, [], ◌∷◌, ◌++◌, ◌==◌,
  if◌then◌else◌, replicate, map, pos,
}
use cuckoo_graph.Bucket.{bup}
use cuckoo_graph.Bucket.Scalar
use cuckoo_graph.Cuckoo
use cuckoo_graph.Cuckoo.{Cuckoo, Globals}
use cuckoo_graph.Floats.{Floats}

-- `lt`, `u1`, `u2`, `us1`, `us2`, `sbl` and `blist`
abbrev pub inline_keys : ℕ
inline_keys = 6

abbrev pub u1 : ℕ
u1 = 4

abbrev pub u2 : ℕ
u2 = 2

abbrev pub us1 : ℕ
us1 = 0

abbrev pub us2 : ℕ
us2 = 221

abbrev pub sbl : ℕ
sbl = 128

abbrev pub blist : ℕ
blist = 33

pub record Edge : Type 0 where
  pub src : ℕ
  pub dst : ℕ

abbrev pub edge : ℕ → ℕ → Edge
edge s d = record { src = s; dst = d }

-- The global variables of the tables with the list of edges that found no room.
pub record World : Type 0 where
  pub globals : Globals
  pub sblacklist : List Edge

pub data Content : Type 0 where
  -- `pt` and the keys in place of the pointers
  few : ℕ → List ℕ → Content
  -- the three pointers, `pt` being -1
  grown : Option Cuckoo → Option Cuckoo → Option Cuckoo → Content

pub record Slot : Type 0 where
  pub src : ℕ
  pub slot : Content

-- `bSlot()`
unfoldable pub new : Slot
new = record { src = 0; slot = few 0 (replicate inline_keys 0) }

-- `if (!c->insert(key)) sblacklist.push_back(…)`, with the source `s` and `mykick`
unfoldable pub put_in : ℕ → ℕ → Cuckoo → World → Cuckoo × World
put_in s key c w =
    let r = Cuckoo.insert key c w.globals in
    (
      r.table,
      record {
        globals = r.globals;
        sblacklist = if r.done then w.sblacklist else w.sblacklist ++ edge s r.globals.mykick ∷ [];
      },
    )

unfoldable pub has : ℕ → Option Cuckoo → Bool
has key none = false
has key (some c) = Cuckoo.query key c

-- the loop of `query` over `sblacklist`
unfoldable pub on_list : Edge → List Edge → Bool
on_list e [] = false
on_list e (x ∷ xs) = if x.src == e.src && x.dst == e.dst then true else on_list e xs

unfoldable pub query : Edge → Slot → World → ℕ
query e b w = if not (e.src == b.src) then 0 else elim b.slot [
  | grown s0 s1 s2 ↦
      if has e.dst s0
      then 9
      else if has e.dst s1
      then 10
      else if has e.dst s2
      then 11
      else if on_list e w.sblacklist
      then blist
      else 0
  | few pt ks ↦ if Scalar.query e.dst ks then pt else 0
]

unfoldable pub is_slot_empty : Slot → Bool
is_slot_empty b = elim b.slot [ few pt ks ↦ pt == 0 | grown s0 s1 s2 ↦ false ]

-- The destinations of the listed edges from `s`, and the other edges.
unfoldable pub own : ℕ → List Edge → List ℕ
own s [] = []
own s (x ∷ xs) = if x.src == s then x.dst ∷ own s xs else own s xs

unfoldable pub others : ℕ → List Edge → List Edge
others s [] = []
others s (x ∷ xs) = if x.src == s then others s xs else x ∷ others s xs

-- `c->num < (c->len1 + c->len2) * bup * rate`
unfoldable pub room : Floats → Cuckoo → Bool
room fl c = fl.lt (fl.of_int c.num) (fl.mul (fl.of_int (pos ((c.len1 + c.len2) * bup))) fl.rate)
