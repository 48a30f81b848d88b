-- ===== src/Dump/Window.antt =====
-- src/tbm_surface_internal.c: any sequence of `tbm_surface_internal_dump_shm_buffer`.
use libtbm.SurfaceQueue.State.{slt32}
use libtbm.Base.{
  zero, suc, suc, ℕ, Bool, not, ◌&&◌, ◌||◌, ◌+◌, ◌*◌, ◌%◌, ◌^◌, ◌≡◌, ◌≤◌, ◌<◌, refl, sym, ap, ◌∙◌,
  List, [], ◌∷◌, ◌++◌, Option, none, some, map, drop, length, length-append, Bool-cases, inl, inr,
  arith, is_positive, ◌==◌, if◌then◌else◌, ◌>>=◌, All, subst, false,
}
use libtbm.Surface.State.{Platform}
use libtbm.Surface.Access.{device_cpu}
use libtbm.Bo.Lock.{map_bo}
use libtbm.Bo.State.{is_negative}
use libtbm.Dump.State.{Dump, DumpInfo, DumpBuf, Span}
use libtbm.Dump.Store.{dump_shm_buffer, dump_shm, next_place, nth_buf, put_buf, stored}
use libtbm.Dump.Ring.{
  append_assoc, append_nil, rotated, rotated-put_buf, drop-append, drop-drop, length-put_buf,
}

-- The arguments of one call, where the type is not NULL.
pub record Shot : Type 0 where
  pub ptr : ℕ
  pub w : ℕ
  pub h : ℕ
  pub stride : ℕ
  pub kind : List ℕ

-- What a buffer shows: what was copied into it, the stride and the height.
abbrev pub shown : DumpBuf → List Span × ℕ × ℕ
shown b = (b.contents, b.shm_stride, b.shm_h)

-- What the buffers show, the oldest first: from the one after `link` on.
abbrev pub window_of : Option DumpInfo → List (List Span × ℕ × ℕ)
window_of none = []
window_of (some g) = map shown (rotated g.link g.surface_list)

abbrev pub window : Dump → List (List Span × ℕ × ℕ)
window d = window_of d.dump_info

abbrev pub shot_shows : Shot → List Span × ℕ × ℕ
shot_shows x = (record { at = 0; from = x.ptr; len = x.stride * x.h % 2 ^ 32 } ∷ [], x.stride, x.h)

-- The arguments are good.
abbrev pub is_good : Shot → Bool
is_good x = not ((x.ptr == 0) || not (is_positive x.w && (is_positive x.h && is_positive x.stride)))

-- The shot fits the next buffer, and that can be mapped.
abbrev pub is_taken_by : Platform → Shot → DumpBuf → Dump → Bool
is_taken_by e x b d =
    not (slt32 b.size (x.stride * x.h % 2 ^ 32))
    && not ((map_bo e.back b.bo device_cpu 2 d.surfaces.mgr).0 == 0)

-- The shot, where it is dumped.
unfoldable pub taken : Platform → Shot → Dump → List (List Span × ℕ × ℕ)
taken e x d = elim (d.dump_info) [
  | none ↦ []
  | some g ↦ elim (nth_buf (next_place g) g.surface_list) [
    | none ↦ []
    | some b ↦ if is_good x && is_taken_by e x b d then shot_shows x ∷ [] else []
  ]
]

abbrev pub dump_shot : Platform → Shot → Dump → Option Dump
dump_shot e x d = dump_shm_buffer e x.ptr x.w x.h x.stride (some x.kind) d

-- The calls in order, with the shots that were dumped; `none` where one of them does not return.
unfoldable pub dump_shots : Platform → List Shot → Dump → Option (List (List Span × ℕ × ℕ) × Dump)
dump_shots e [] d = some ([], d)
dump_shots e (x ∷ l) d = do
  d1 ← dump_shot e x d
  r ← dump_shots e l d1
  some (taken e x d ++ r.0, r.1)

-- The size of the shot is within an `int`.
abbrev pub IsSized : Shot → Type 0
IsSized x = x.stride * x.h < 2 ^ 31

-- A dump that runs: `link` is the head or a node.
pub record Running (d : Dump) : Type 0 where
  pub info : DumpInfo
  pub running : d.dump_info ≡ some info
  pub within : info.link ≤ length info.surface_list
  pub some_buffer : 0 < length info.surface_list

nth_buf-some : (k : ℕ) (l : List DumpBuf) → k < length l → (b : DumpBuf) × (nth_buf k l ≡ some b)
nth_buf-some k [] h = absurd (omega (arith, h))
nth_buf-some zero (x ∷ l) h = (x, refl)
nth_buf-some (suc k) (x ∷ l) h = nth_buf-some k l (omega (arith, h))

next_place-below :
    (g : DumpInfo)
    → g.link ≤ length g.surface_list
    → 0 < length g.surface_list
    → next_place g < length g.surface_list
unfolding next_place
next_place-below g h p = ground (arith, h, p)

rotated-next :
    (g : DumpInfo) (b : DumpBuf)
    → g.link ≤ length g.surface_list
    → 0 < length g.surface_list
    → rotated (next_place g + 1) (put_buf (next_place g) b g.surface_list)
      ≡ drop 1 (rotated g.link g.surface_list ++ b ∷ [])
unfolding next_place
rotated-next g b h p = rotated-put_buf g.link g.surface_list b h p

-- What one call does to a dump that runs.
data Dumped (g : DumpInfo) (x : Shot) : Option DumpInfo → List (List Span × ℕ × ℕ) → Type 0 where
  skipped : Dumped g x (some g) []
  dumped :
      (b : DumpBuf)
      → shown b ≡ shot_shows x
      → Dumped g x (some (stored (next_place g) b g)) (shot_shows x ∷ [])

size_pos : (n : ℕ) → n < 2 ^ 31 → is_negative (n % 2 ^ 32) ≡ false
size_pos n h = let e : n % 2 ^ 32 ≡ n = omega (arith, h) in rw e (ground (arith, h))

dump_shot-Dumped :
    (e : Platform) (x : Shot) (d : Dump) (g : DumpInfo) (b : DumpBuf)
    → d.dump_info ≡ some g
    → nth_buf (next_place g) g.surface_list ≡ some b
    → IsSized x
    → (d1 : Dump) × (dump_shot e x d ≡ some d1) × Dumped g x d1.dump_info (taken e x d)
unfolding dump_shm_buffer dump_shm taken
dump_shot-Dumped e x d g b r n sized =
    let pos : is_negative (x.stride * x.h % 2 ^ 32) ≡ false = size_pos (x.stride * x.h) sized in
    let d0 : Dumped g x d.dump_info [] = subst (λ o. Dumped g x o []) (sym r) skipped in
    elim (Bool-cases
      ((x.ptr == 0) || not (is_positive x.w && (is_positive x.h && is_positive x.stride)))) [
        | inl bad ↦ simp (bad, taken, r, n) (d, refl, d0)
        | inr good ↦ elim (Bool-cases (slt32 b.size (x.stride * x.h % 2 ^ 32))) [
          | inl large ↦ simp (good, taken, r, n, large) (d, refl, d0)
          | inr fits ↦ elim (Bool-cases ((map_bo e.back b.bo device_cpu 2 d.surfaces.mgr).0 == 0)) [
            | inl fails ↦ simp (good, taken, r, n, fits, fails) (_, refl, skipped)
            | inr maps ↦ simp (good, taken, r, n, fits, maps, pos) (_, refl, dumped _ refl)
          ]
        ]
      ]

map-drop : (n : ℕ) (l : List DumpBuf) → map shown (drop n l) ≡ drop n (map shown l)
map-drop zero l = refl
map-drop (suc n) [] = refl
map-drop (suc n) (x ∷ l) = map-drop n l

map-append : (a b : List DumpBuf) → map shown (a ++ b) ≡ map shown a ++ map shown b
map-append [] b = refl
map-append (x ∷ a) b = ap (λ l. shown x ∷ l) (map-append a b)

-- What a step makes of the dump and of the window.
record Moved (g : DumpInfo) (o : Option DumpInfo) (got : List (List Span × ℕ × ℕ)) : Type 0 where
  info : DumpInfo
  now : o ≡ some info
  within : info.link ≤ length info.surface_list
  same_length : length info.surface_list ≡ length g.surface_list
  moves : window_of o ≡ drop (length got) (window_of (some g) ++ got)

Moved-Dumped :
    (g : DumpInfo) (x : Shot) (o : Option DumpInfo) (got : List (List Span × ℕ × ℕ))
    → g.link ≤ length g.surface_list
    → 0 < length g.surface_list
    → Dumped g x o got
    → Moved g o got
Moved-Dumped g x _ _ h p skipped = record {
  info = g;
  now = refl;
  within = h;
  same_length = refl;
  moves = sym (append_nil (window_of (some g)));
}
Moved-Dumped g x _ _ h p (dumped b s) =
    let k = next_place g in
    let l = g.surface_list in
    let same = length-put_buf k b l in
    record {
      info = stored k b g;
      now = refl;
      within = omega (arith, same, next_place-below g h p);
      same_length = same;
      moves =
          ap (map shown) (rotated-next g b h p)
          ∙ (map-drop 1 (rotated g.link l ++ b ∷ [])
              ∙ ap (drop 1) (
                  map-append (rotated g.link l) (b ∷ [])
                  ∙ ap (λ y. map shown (rotated g.link l) ++ y ∷ []) s));
    }

drop-more {ℓ} :
    {A : Type ℓ} (w a b : List A)
    → drop (length b) (drop (length a) (w ++ a) ++ b) ≡ drop (length (a ++ b)) (w ++ (a ++ b))
drop-more w a b =
    let fits : length a ≤ length (w ++ a) = omega (arith, length-append w a) in
    ap (drop (length b)) (sym (drop-append (length a) (w ++ a) b fits))
    ∙ (drop-drop (length a) (length b) ((w ++ a) ++ b)
        ∙ (ap (λ n. drop n ((w ++ a) ++ b)) (sym (length-append a b))
            ∙ ap (drop (length (a ++ b))) (append_assoc w a b)))

-- In a dump that runs, whose link is the head of the list or a node of it and which has a buffer,
-- any sequence of calls of tbm_surface_internal_dump_shm_buffer returns, where the stride times the
-- height of each is below 2^31. The buffers, read from the one after link on and around, then show
-- what they showed before and then the buffers dumped, less as many of the oldest as were dumped: the
-- stride, the height and the bytes copied of each call with good arguments that fits the next buffer,
-- where that can be mapped.
pub dump_shots-window :
    (e : Platform) (l : List Shot) (d : Dump) (g : DumpInfo)
    → d.dump_info ≡ some g
    → g.link ≤ length g.surface_list
    → 0 < length g.surface_list
    → All IsSized l
    → (shows : List (List Span × ℕ × ℕ)) × (d' : Dump) × (dump_shots e l d ≡ some (shows, d'))
      × (window d' ≡ drop (length shows) (window d ++ shows))
unfolding dump_shots
dump_shots-window e [] d g r h p sized = ([], d, refl, sym (append_nil (window d)))
dump_shots-window e (x ∷ l) d g r h p sized =
    let (b, n) = nth_buf-some (next_place g) g.surface_list (next_place-below g h p) in
    let got = taken e x d in
    let (d1, o, step) = dump_shot-Dumped e x d g b r n sized.0 in
    let m = Moved-Dumped g x d1.dump_info got h p step in
    let (rest, d2, o2, i) =
      dump_shots-window e l d1 m.info m.now m.within (omega (arith, m.same_length, p)) sized.1 in
    let first = m.moves ∙ ap (λ o. drop (length got) (window_of o ++ got)) (sym r) in
    (
      got ++ rest,
      d2,
      rw (dump_shots, o, o2) refl,
      i ∙ (ap (λ v. drop (length rest) (v ++ rest)) first ∙ drop-more (window d) got rest),
    )
