-- ===== src/Dump/Lone.antt =====
-- src/tbm_surface_internal.c: `tbm_surface_internal_dump_start` where there is no surface.
use libtbm.Dump.Only.{
  Each, Each-bind, Only, make_dump-no_bufmgr, surface_unref-Only, create_with_flags-Only,
}
use libtbm.Surface.Format.{format_argb8888}
use libtbm.Base.{
  ◌^◌, ◌%◌, ◌*◌, ℕ, true, false, ◌&&◌, ◌≡◌, ◌≢◌, ◌⊎◌, inl, inr, refl, ◌∙◌, List, Option, none, some,
  ◌==◌, if◌then◌else◌, Bool-cases, Option-cases, is_positive, arith,
}
use libtbm.Surface.State.{Surfaces, Platform, surf_is_valid}
use libtbm.Surface.Create.{create_with_flags}
use libtbm.Surface.Life.{surface_unref, surface_destroy}
use libtbm.Surface.Access.{get_info, surface_unmap}
use libtbm.Surface.Api.{SurfaceError, api_create, api_map, api_unmap, api_destroy}
use libtbm.Dump.State.{Dump, Media}
use libtbm.Dump.Begin.{stride_of, measure, dump_start}

get_info-Only :
    (e : Platform) (s opt map : ℕ) (w : Surfaces) → Only s w → Only s (get_info e s opt map w).1
unfolding get_info
get_info-Only e s opt map w h = elim (Bool-cases (surf_is_valid w s)) [
  | inl v ↦ rw v (record { owned = h.owned; listed = h.listed; one = h.one })
  | inr v ↦ rw v h
]

surface_unmap-Only : (e : Platform) (s : ℕ) (w : Surfaces) → Only s w → Only s (surface_unmap e s w)
unfolding surface_unmap
surface_unmap-Only e s w h = elim (Bool-cases (surf_is_valid w s)) [
  | inl v ↦ rw v (record { owned = h.owned; listed = h.listed; one = h.one })
  | inr v ↦ rw v h
]

api_destroy-Only :
    (e : Platform) (s : ℕ) (w : Surfaces)
    → s ≢ 0
    → Only s w
    → Each (λ r. r.1.owned ≡ false) (api_destroy e s w)
unfolding api_destroy surface_destroy
api_destroy-Only e s w z h =
    let nz : (s == 0) ≡ false = ground (arith, z) in
    rw nz (
      Each-bind (λ r. r.owned ≡ false) (λ r. r.1.owned ≡ false) (surface_unref e s w) _
        (surface_unref-Only e s w z h) (λ r k. k))

measure-Only :
    (f : Media) (e : Platform) (path : List ℕ) (h count s : ℕ) (d : Dump) (w : Surfaces)
    → is_positive count ≡ true
    → s ≢ 0
    → Only s w
    → d.dump_info ≡ none
    → Each (λ r. r.dump_info ≡ none) (measure f e path h count s d w)
unfolding measure api_map api_unmap
measure-Only f e path h count s d w p z only i =
    let nz : (s == 0) ≡ false = ground (arith, z) in
    let w1 = (get_info e s 1 1 w).1 in
    let o1 = get_info-Only e s 1 1 w only in
    let o2 = surface_unmap-Only e s w1 o1 in
    let size = stride_of (w.surfs s).planes 0 * h % 2 ^ 32 in
    let gone = λ (r : SurfaceError × Surfaces). r.1.owned ≡ false in
    let idle = λ (r : Dump). r.dump_info ≡ none in
    elim (Option-cases (get_info e s 1 1 w).0) [
      | inl n ↦
          simp (measure, nz, n)
            (Each-bind gone idle (api_destroy e s w1) _ (api_destroy-Only e s w1 z o1) (λ r k. i))
      | inr (ptrs, n) ↦
          simp (measure, nz, n)
            (Each-bind gone idle (api_destroy e s (surface_unmap e s w1)) _
              (api_destroy-Only e s (surface_unmap e s w1) z o2)
              (λ r k. make_dump-no_bufmgr f e path size count d r.1 k p ∙ i))
    ]

begun :
    (f : Media) (e : Platform) (path : List ℕ) (h count s : ℕ) (d given_up : Dump) (w : Surfaces)
    → is_positive count ≡ true
    → (s ≡ 0) ⊎ Only s w
    → d.dump_info ≡ none
    → given_up.dump_info ≡ none
    → Each
        (λ r. r.dump_info ≡ none)
        (if s == 0 then some given_up else measure f e path h count s d w)
begun f e path h count s d given_up w p k i g = elim (Bool-cases (s == 0)) [
  | inl z ↦ rw z g
  | inr z ↦ elim k [
    | inl null ↦ absurd (ground (arith, z, null))
    | inr only ↦ rw z (measure-Only f e path h count s d w p (ground (arith, z)) only i)
  ]
]

dump_start-Each :
    (f : Media) (e : Platform) (path : List ℕ) (w h count : ℕ) (d : Dump)
    → d.dump_info ≡ none
    → d.surfaces.owned ≡ false
    → Each (λ r. r.dump_info ≡ none) (dump_start f e (some path) w h count d)
unfolding dump_start api_create
dump_start-Each f e path w h count d i o =
    let idle = λ (r : Dump). r.dump_info ≡ none in
    elim (Bool-cases (is_positive w && (is_positive h && is_positive count))) [
      | inr bad ↦ simp bad i
      | inl good ↦
          let pw : is_positive w ≡ true = ground (arith, good) in
          let ph : is_positive h ≡ true = ground (arith, good) in
          let pc : is_positive count ≡ true = ground (arith, good) in
          let ended = λ (r : ℕ × Surfaces). (r.0 ≡ 0) ⊎ Only r.0 r.1 in
          let made = create_with_flags-Only e w h format_argb8888 0 d.surfaces o in
          elim (Bool-cases f.calloc_info) [
            | inr m ↦ simp (good, i, m) refl
            | inl m ↦
                simp (pw, ph, pc, i, m)
                  (Each-bind ended idle (create_with_flags e w h format_argb8888 0 d.surfaces) _
                    made
                    (λ r k.
                      begun f e path h count r.0 d
                        (record { dump_info = none; surfaces = r.1; files = d.files }) r.1 pc k i
                        refl))
          ]
    ]

-- Where no dump runs and the library holds no buffer manager for surfaces, as before the first
-- surface is made, tbm_surface_internal_dump_start never starts a dump: the result, where it does
-- not write through NULL or past the end of the buffer objects of a surface, has none.
pub dump_start-lone :
    (f : Media) (e : Platform) (path : Option (List ℕ)) (w h count : ℕ) (d : Dump)
    → d.dump_info ≡ none
    → d.surfaces.owned ≡ false
    → Each (λ r. r.dump_info ≡ none) (dump_start f e path w h count d)
unfolding dump_start
dump_start-lone f e none w h count d i o = i
dump_start-lone f e (some path) w h count d i o = dump_start-Each f e path w h count d i o
