-- ===== src/Tests/Crowd.antt =====
-- A store without tables whose blacklist has many slots, each with one destination.
use cuckoo_graph.Prelude.{
  ℕ, zero, suc, ◌-◌, ◌≤◌, ◌≡◌, ◌≢◌, refl, ap, ◌&&◌, ◌==◌, ltb, leb, to_nat, some, pos, List, [],
  ◌∷◌, arith, length, drop, tally, All,
}
use cuckoo_graph.Cuckoo.Invariant.{is}
use cuckoo_graph.Slot
use cuckoo_graph.Slot.{edge, Slot}
use cuckoo_graph.Slot.Stands.{Graph, adds, Stands, Stands-row, new_slot-Stands, free-Extends}
use cuckoo_graph.NodeTable.Kicks.{Store}
use cuckoo_graph.NodeTable.Placement.{on, free}
use cuckoo_graph.HoleMerge.{HoleMerge, query, bbl}
use cuckoo_graph.HoleMerge.Shrink.{rehome}
use cuckoo_graph.HoleMerge.Invariant.{Represents, no_edges}
use cuckoo_graph.HoleMerge.Lost.{query-rehome}
use cuckoo_graph.Tests.Inputs.{fractions, empty_world}

one :
    (n : ℕ)
    → (b : Slot) × (Slot.Grow.insert fractions (edge (suc n) 5) Slot.new empty_world
        ≡ some (pos 1, b, empty_world))
      × (b.src ≡ suc n)
      × Stands (adds (edge (suc n) 5) no_edges) empty_world b
unfolding Slot.own
one n =
    free-Extends fractions {graph = no_edges} (edge (suc n) 5)
      (new_slot-Stands no_edges empty_world refl) (omega arith) (omega arith)
      (unfold Slot.new in refl) refl (λ d. refl)

abbrev many : ℕ → List Slot
many zero = []
many (suc n) = (one n).0 ∷ many n

-- The sources 1 to `n`, each with an edge to 5.
abbrev star : ℕ → Graph
star n s d = ltb 0 s && leb s n && (d == 5)

many-length : (n : ℕ) → length (many n) ≡ n
many-length zero = refl
many-length (suc n) = ap suc (many-length n)

many-tally : (n s : ℕ) → s ≢ 0 → tally (on (is s)) (many n) ≡ to_nat (leb s n)
unfolding tally
many-tally zero s nz = ground arith
many-tally (suc n) s nz =
    let here : is s (one n).0.src ≡ is s (suc n) = ap (is s) (one n).2 in
    ground (arith, here, many-tally n s nz)

many_live : (n : ℕ) → tally (on free) (many n) ≡ 0
unfolding tally
many_live zero = refl
many_live (suc n) =
    let here : free (one n).0.src ≡ free (suc n) = ap free (one n).2 in
    ground (arith, here, many_live n)

star_row : (n m s d : ℕ) → s ≡ suc n → suc n ≤ m → star m s d ≡ adds (edge (suc n) 5) no_edges s d
star_row n m s d at h = ground arith

many-Stands : (n m : ℕ) → n ≤ m → All (Stands (star m) empty_world) (many n)
many-Stands zero m h = tt
many-Stands (suc n) m h = (
  Stands-row (star m) (one n).3 (λ live d. star_row n m (one n).0.src d (one n).2 h),
  many-Stands n m (omega arith),
)

abbrev crowd : HoleMerge
crowd = record { link = []; ll1 = 2; ll2 = 2; s1 = 0; s2 = 221; blacklist = many 130 }

abbrev start : Store
start = record { world = empty_world; holekick = Slot.new }

crowd-Represents : Represents (star 130) crowd empty_world
unfolding Slot.own
crowd-Represents = record {
  half1 = (1, refl, omega arith);
  half2 = (1, refl, omega arith);
  width1 = 1;
  width2 = 1;
  wide1 = omega arith;
  wide2 = omega arith;
  shape = tt;
  few_tables = omega arith;
  sound = tt;
  stands = many-Stands 130 130 (omega arith);
  live = many_live 130;
  unique = λ s nz. ground (arith, many-tally 130 s nz);
  known = λ s nz none_there. (λ d. ground (arith, many-tally 130 s nz, none_there), refl);
  free_list = refl;
}

query-rehome_example :
    (m : HoleMerge) × (rehome fractions (length crowd.blacklist) crowd start ≡ some (m, start))
    × (m.link ≡ crowd.link)
    × (m.blacklist ≡ drop (length crowd.blacklist - bbl) crowd.blacklist)
    × (length m.blacklist ≡ bbl)
    × ((d : ℕ) → d ≢ 0 → query (edge (one 129).0.src d) m empty_world ≡ 0)
query-rehome_example =
    query-rehome fractions crowd start (one 129).0 (many 129) crowd-Represents refl
      (omega (arith, many-length 129)) tt
