-- ===== src/Surface/Counted.antt =====
-- src/tbm_surface_internal.c: the planes that the back end describes, and how many buffer objects
-- they need.
use libtbm.Base.{
  subst, ℕ, zero, suc, ◌+◌, ◌<◌, ◌≤◌, ◌≡◌, refl, ap, Bool-cases, inl, inr, List, [], ◌∷◌, arith,
  All, Option, none, some, Option-cases, length, not, is_positive, ◌&&◌, ◌||◌,
}
use libtbm.SurfaceQueue.State.{inc32, slt32}
use libtbm.Surface.State.{Plane, Platform}
use libtbm.Surface.Create.{query_planes, count_bos}

-- The back end numbers the buffer objects of planes below four.
abbrev pub SmallIndex : Platform → Type 0
SmallIndex e =
    (width height format i : ℕ) (p : Plane)
    → e.plane_data width height format i ≡ some p
    → p.bo_idx < 4

abbrev Small : Plane → Type 0
Small p = p.bo_idx < 4

abbrev Described : ℕ → Option (List Plane) → Type 0
Described n none = Unit
Described n (some l) = (length l ≡ n) × All Small l

query_planes-Described :
    (e : Platform) (width height format i n : ℕ)
    → SmallIndex e
    → Described n (query_planes e width height format i n)
unfolding query_planes
query_planes-Described e width height format i zero small = (refl, tt)
query_planes-Described e width height format i (suc n) small =
    let rest = query_planes e width height format (i + 1) n in
    let h = query_planes-Described e width height format (i + 1) n small in
    elim (Bool-cases (
      not (is_positive width && (is_positive height && is_positive format))
      || not e.has_plane_data)) [
        | inl v ↦ rw (query_planes, v) tt
        | inr v ↦ elim (Option-cases (e.plane_data width height format i)) [
          | inl o ↦ rw (query_planes, v, o) tt
          | inr (p, o) ↦ elim (Option-cases rest) [
            | inl k ↦ rw (query_planes, v, o, k) tt
            | inr (l, k) ↦
                let g = subst (Described n) k h in
                rw (query_planes, v, o, k) (ap suc g.0, (small width height format i p o, g.1))
          ]
        ]
      ]

pub query_planes_lem :
    (e : Platform) (width height format n : ℕ) {l : List Plane}
    → SmallIndex e
    → query_planes e width height format 0 n ≡ some l
    → (length l ≡ n) × All Small l
query_planes_lem e width height format n small q =
    subst (Described n) q (query_planes-Described e width height format 0 n small)

count_bos_le :
    (n : ℕ) (l : List Plane) (t : ℕ)
    → count_bos n l ≡ t
    → n ≤ 4
    → All Small l
    → (n ≤ t) × (t ≤ 4) × All (λ p. p.bo_idx < t) l
unfolding count_bos
count_bos_le n [] t q k h = (omega arith, omega arith, tt)
count_bos_le n (p ∷ l) t q k h = elim (Bool-cases (slt32 n (inc32 p.bo_idx))) [
  | inl y ↦
      let r = count_bos_le (inc32 p.bo_idx) l t (ground (arith, q)) (omega arith) h.1 in
      (ground (arith, r.0), r.1, (ground (arith, r.0), r.2))
  | inr y ↦
      let r = count_bos_le n l t (ground (arith, q)) k h.1 in (r.0, r.1, (ground (arith, r.0), r.2))
]

pub count_bos_lem :
    (l : List Plane)
    → All Small l
    → (1 ≤ count_bos 1 l) × (count_bos 1 l ≤ 4) × All (λ p. p.bo_idx < count_bos 1 l) l
count_bos_lem l h = count_bos_le 1 l (count_bos 1 l) refl (omega arith) h
