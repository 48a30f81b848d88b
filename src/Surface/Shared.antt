-- ===== src/Surface/Shared.antt =====
-- src/tbm_surface_internal.c: `tbm_surface_internal_create_with_bos` shares the caller's buffer objects.
use libtbm.Base.{
  if_false, ltb, ◌≤◌, ℕ, suc, ◌+◌, ◌<◌, ◌^◌, ◌≡◌, ◌≢◌, refl, sym, ◌∙◌, ap, subst, true, false,
  Bool-cases, inl, inr, List, [], ◌∷◌, ◌++◌, ◌==◌, ◌||◌, arith, All, All-mono, Option, some, length,
  not, if◌then◌else◌,
}
use mathlib.Core.List.{append-nil, append_assoc}
use libtbm.SurfaceQueue.State.{inc32}
use libtbm.Bo.State.{Manager, Backend, bo_is_valid, set_bo}
use libtbm.Bo.Alloc.{set_surface}
use libtbm.Bo.Life.{ref}
use libtbm.Surface.State.{Surfaces, Platform, surf_is_valid}
use libtbm.Surface.Create.{Info, plane_max, take_bos, create_with_bos}
use libtbm.Surface.Created.{open_owned}

-- How often `a` stands in the list.
abbrev pub times : ℕ → List ℕ → ℕ
times a [] = 0
times a (x ∷ l) = (if x == a then 1 else 0) + times a l

-- These buffer objects are there, and have room for `k` references more.
abbrev pub Sharable : Manager → ℕ → List ℕ → Type 0
Sharable m k l =
    All (λ b. (bo_is_valid m b ≡ true) × (0 < (m.bos b).ref_cnt) × ((m.bos b).ref_cnt + k < 2 ^ 31))
      l

abbrev bumped : ℕ → Manager → Manager
bumped b m = set_bo b (record (m.bos b) { ref_cnt = inc32 (m.bos b).ref_cnt }) m

ref-valid : (b : ℕ) (m : Manager) → bo_is_valid m b ≡ true → ref b m ≡ (b, bumped b m)
unfolding ref
ref-valid b m v = if_false (not (bo_is_valid m b)) _ _ (ap not v)

set_surface_same :
    (b s : ℕ) (m : Manager)
    → let r = (set_surface b s m).1 in
      (r.bo_list ≡ m.bo_list)
      × (r.live ≡ m.live)
      × ((a : ℕ) → (r.bos a).ref_cnt ≡ (m.bos a).ref_cnt)
unfolding set_surface
set_surface_same b s m = elim (Bool-cases (bo_is_valid m b)) [
  | inl v ↦ rw v (refl, refl, λ a. ground arith)
  | inr v ↦ rw v (refl, refl, λ a. refl)
]

bo_is_valid-same :
    (m r : Manager) (b : ℕ)
    → r.bo_list ≡ m.bo_list
    → r.live ≡ m.live
    → bo_is_valid r b ≡ bo_is_valid m b
unfolding bo_is_valid
bo_is_valid-same m r b l v = rw (l, v) refl

valid-some : (m : Manager) (b : ℕ) → bo_is_valid m b ≡ true → (b == 0) ≡ false
unfolding bo_is_valid
valid-some m b v = ground (arith, v)

-- What a run of the loop over `l` makes of the manager.
pub record Taken (m r : Manager) (l : List ℕ) : Type 0 where
  pub list : r.bo_list ≡ m.bo_list
  pub live : r.live ≡ m.live
  pub refs : (a : ℕ) → (r.bos a).ref_cnt ≡ (m.bos a).ref_cnt + times a l

Taken-one :
    (b s : ℕ) (m : Manager)
    → (m.bos b).ref_cnt + 1 < 2 ^ 32
    → Taken m (set_surface b s (bumped b m)).1 (b ∷ [])
Taken-one b s m room =
    let (l, v, c) = set_surface_same b s (bumped b m) in
    record { list = l; live = v; refs = λ a. c a ∙ ground arith }

Sharable-next :
    {m r : Manager} {b : ℕ} (k : ℕ) (l : List ℕ)
    → Taken m r (b ∷ [])
    → Sharable m (suc k) l
    → Sharable r k l
Sharable-next {m} {r} {b} k l t h =
    All-mono _ _ l
      (λ a x. (
        bo_is_valid-same m r a t.list t.live ∙ x.0,
        ground (arith, x.1, t.refs a),
        ground (arith, x.2, t.refs a),
      ))
      h

take_bos_lem :
    (e : Backend) (s : ℕ) (l got : List ℕ) (m : Manager)
    → Sharable m (length l) l
    → (r : Manager) × (take_bos e s l got m ≡ (some (got ++ l), r)) × Taken m r l
unfolding take_bos
take_bos_lem e s [] got m h = (
  m,
  ap (λ x. (some x, m)) (sym (append-nil got)),
  record { list = refl; live = refl; refs = λ a. omega arith },
)
take_bos_lem e s (b ∷ l) got m h =
    let z = valid-some m b h.0.0 in
    let one = Taken-one b s m (omega (arith, h.0.2)) in
    let m1 = (set_surface b s (bumped b m)).1 in
    let (r, o, t) = take_bos_lem e s l (got ++ b ∷ []) m1 (Sharable-next (length l) l one h.1) in
    rw (take_bos, z, ref-valid b m h.0.0)
      (
        r,
        o ∙ ap (λ x. (some x, r)) (append_assoc got (b ∷ []) l),
        record {
          list = t.list ∙ one.list;
          live = t.live ∙ one.live;
          refs = λ a. omega (arith, t.refs a, one.refs a);
        },
      )

-- Where the buffer manager is set up for surfaces, there is memory, there are at most four planes,
-- the number of buffer objects is 1 or the number of planes, and all of them are valid, have a
-- positive ref_cnt, and room for as many references more as there are buffer objects,
-- tbm_surface_internal_create_with_bos returns a valid surface at the head of the list, with one
-- reference and these buffer objects, of which there are at most four. The list of buffer objects is
-- as before, and each has as many references more as it was given times.
pub create_with_bos_shares :
    (e : Platform) (info : Info) (bos : List ℕ) (w : Surfaces)
    → w.owned ≡ true
    → e.calloc_surface w ≢ 0
    → info.num_planes ≤ plane_max
    → (length bos == 1) || (info.num_planes == length bos) ≡ true
    → Sharable w.mgr (length bos) bos
    → let s = e.calloc_surface w in
      (r : Surfaces) × (create_with_bos e info bos w ≡ some (s, r))
      × (surf_is_valid r s ≡ true)
      × (r.surf_list ≡ s ∷ w.surf_list)
      × ((r.surfs s).bos ≡ bos)
      × (length (r.surfs s).bos ≤ plane_max)
      × ((r.surfs s).refcnt ≡ 1)
      × Taken w.mgr r.mgr bos
unfolding create_with_bos surf_is_valid
create_with_bos_shares e info bos w owned memory four fits sharable =
    let s = e.calloc_surface w in
    let z : (s == 0) ≡ false = ground (arith, memory) in
    let (r, o, t) = take_bos_lem e.back s bos [] w.mgr sharable in
    let few : ltb plane_max info.num_planes ≡ false = ground (arith, four) in
    rw (fits, open_owned e w owned, z, few, o)
      (
        _,
        refl,
        ground (arith, owned, z),
        refl,
        ground arith,
        ground (arith, four, fits),
        ground arith,
        subst (λ x. Taken w.mgr x bos) (sym (ap (λ (x : Option (List ℕ) × Manager). x.1) o)) t,
      )
