-- ===== src/HoleMerge/Triangles.antt =====
-- holemerge::query_triangles: it counts something exactly where the graph has a triangle.
use mathlib.Core.Bool.{false≢true}
use cuckoo_graph.Prelude.{
  ℕ, ◌<◌, ◌≡◌, ◌≢◌, ◌↔◌, inl, inr, Bool, true, not, ◌&&◌, ◌==◌, List, [], ◌∷◌, arith, tally, to_nat,
  ltb, Bool-cases, ap, sym, subst, ◌∙◌,
}
use cuckoo_graph.Cuckoo.Invariant.{is}
use cuckoo_graph.Slot.{edge, World}
use cuckoo_graph.Slot.Stands.{Graph}
use cuckoo_graph.HoleMerge.{HoleMerge, query, query_successor, closing, triangles, query_triangles}
use cuckoo_graph.HoleMerge.Invariant.{Represents, query-graph}
use cuckoo_graph.HoleMerge.Successors.{successors-graph}

-- `s`, `mid` and `far` are three nodes, and each has an edge to the next one.
pub record Triangle (graph : Graph) (s mid far : ℕ) : Type 0 where
  pub live : (mid ≢ 0) × (far ≢ 0)
  pub apart : (mid ≢ s) × (far ≢ s) × (far ≢ mid)
  pub out : graph s mid ≡ true
  pub on : graph mid far ≡ true
  pub back : graph far s ≡ true

module _ (graph : Graph) (m : HoleMerge) (w : World) (v : Represents graph m w) (s : ℕ)
    (live : s ≢ 0) where
  -- The test in the inner loop.
  abbrev closes : ℕ → ℕ → Bool
  closes mid far =
      not (far == mid) && not (mid == s) && not (far == s) && ltb 0 (query (edge far s) m w)

  closing-graph :
      (mid : ℕ) (fars : List ℕ)
      → (0 < closing s mid fars m w)
        ↔ ((far : ℕ) × (0 < tally (is far) fars) × (closes mid far ≡ true))
  unfolding closing tally
  closing-graph mid [] = (λ h. absurd (omega arith), λ (far, h, c). absurd (omega arith))
  closing-graph mid (x ∷ fars) =
      let (to, from) = closing-graph mid fars in
      elim (Bool-cases (closes mid x)) [
        | inl yes_it ↦ rw yes_it (λ h. (x, ground arith, yes_it), λ h. omega arith)
        | inr no_it ↦ rw no_it (
          λ h. let (far, t, c) = to h in (far, omega arith, c),
          λ (far, t, c). elim (Bool-cases (x == far)) [
            | inl same ↦
                let at : x ≡ far = ground arith in
                absurd (false≢true (sym no_it ∙ (ap (closes mid) at ∙ c)))
            | inr other ↦ from (far, ground arith, c)
          ],
        )
      ]

  abbrev next : ℕ → List ℕ
  next mid = (query_successor mid [] m w).0

  triangles-graph :
      (mids : List ℕ)
      → (0 < triangles s mids m w) ↔ (
          (mid : ℕ) × (far : ℕ) × (0 < tally (is mid) mids)
          × (0 < tally (is far) (query_successor mid [] m w).0)
          × (closes mid far ≡ true))
  unfolding triangles tally
  triangles-graph [] = (λ h. absurd (omega arith), λ (mid, far, h, t, c). absurd (omega arith))
  triangles-graph (x ∷ mids) =
      let (to, from) = triangles-graph mids in
      let (here, there) = closing-graph x (next x) in
      (
        λ h. elim (Bool-cases (ltb 0 (closing s x (next x) m w))) [
          | inl some_here ↦ let (far, t, c) = here (ground arith) in (x, far, ground arith, t, c)
          | inr none_here ↦
              let (mid, far, t, u, c) = to (ground arith) in (mid, far, omega arith, u, c)
        ],
        λ (mid, far, t, u, c). elim (Bool-cases (x == mid)) [
          | inl same ↦
              let at : mid ≡ x = ground arith in
              let found : 0 < closing s x (next x) m w = there (
                far,
                subst (λ k. 0 < tally (is far) (next k)) at u,
                ap (λ k. closes k far) (sym at) ∙ c,
              ) in
              omega arith
          | inr other ↦ let rest = from (mid, far, ground arith, u, c) in omega arith
        ],
      )

  -- What the array holds for a node.
  next-graph :
      (x : ℕ)
      → x ≢ 0
      → (tally (is 0) (next x) ≡ 0) × ((d : ℕ) → d ≢ 0 → tally (is d) (next x) ≡ to_nat (graph x d))
  next-graph x nz =
      let (ks, run, listed, no_zero, each) = successors-graph x [] v nz in
      let at : next x ≡ ks = ap (λ (r : List ℕ × ℕ). r.0) run in
      (rw at no_zero, λ d h. rw at (each d h))

  -- On a well-formed store and for a node that is not 0, `query_triangles` answers other than 0 exactly
  -- when the graph has a triangle through the node.
  pub query_triangles-graph :
      (0 < query_triangles s m w) ↔ ((mid : ℕ) × (far : ℕ) × Triangle graph s mid far)
  unfolding query_triangles
  query_triangles-graph =
      let (to, from) = triangles-graph (next s) in
      let (first_live, first) = next-graph s live in
      (
        λ h.
            let (mid, far, t, u, c) = to h in
            let mid_live : mid ≢ 0 =
              λ z. let bad = subst (λ k. 0 < tally (is k) (next s)) z t in omega arith in
            let (second_live, second) = next-graph mid mid_live in
            let far_live : far ≢ 0 =
              λ z. let bad = subst (λ k. 0 < tally (is k) (next mid)) z u in omega arith in
            let closed = query-graph (edge far s) v far_live live in
            (
              mid,
              far,
              record {
                live = (mid_live, far_live);
                apart = (ground arith, ground arith, ground arith);
                out = ground (arith, first mid mid_live);
                on = ground (arith, second far far_live);
                back = ground (arith, closed);
              },
            ),
        λ (mid, far, t).
            let (second_live, second) = next-graph mid t.live.0 in
            let closed = query-graph (edge far s) v t.live.1 live in
            from (
              mid,
              far,
              ground (arith, first mid t.live.0, t.out),
              ground (arith, second far t.live.1, t.on),
              ground (arith, closed, t.back, t.apart),
            ),
      )
