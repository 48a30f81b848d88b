-- ===== src/SurfaceQueue/Contract/Handles.antt =====
-- Handles: creating a queue, and destroying one.
use libtbm.SurfaceQueue.Nodes.{queue_init}
use libtbm.SurfaceQueue.Impl.{impl_init}
use libtbm.SurfaceQueue.Callbacks.{get_format, get_height, get_width, get_size}
use libtbm.SurfaceQueue.Contract.Clear.{queue_of-IsQueue, nothing}
use libtbm.SurfaceQueue.Invariant.{update_ne, update_self, IsQueue}
use libtbm.SurfaceQueue.State.{default_impl, put, Queue, Env, World, is_valid}
use libtbm.SurfaceQueue.Manage.{tear_down, queue_of, create_with, create, destroy}
use libtbm.Base.{
  not-mem-erase, ap, sym, subst, ◌∙◌, not, ◌==◌, ◌||◌, ◌↔◌, ◌&&◌, false, erase, is_positive, true,
  has, ◌≢◌, Distinct, List, [], ◌∷◌, some, ℕ, ◌≡◌, refl, arith,
}

mem-erase_ne : (h k : ℕ) (l : List ℕ) → h ≢ k → has k (erase h l) ≡ has k l
mem-erase_ne h k [] n = refl
mem-erase_ne h k (x ∷ l) n = ground (arith, mem-erase_ne h k l)

-- The globals once `left` are the queues that are left.
abbrev leaving : World → List ℕ → World
leaving w left = record w { handles = left; bufmgr = elim left [ [] ↦ false | _ ∷ _ ↦ w.bufmgr ] }

is_valid-left :
    (w : World) (left : List ℕ) (k : ℕ)
    → is_valid (leaving w left) k ≡ (not (k == 0) && (w.bufmgr && has k left))
unfolding is_valid
is_valid-left w [] k = ground arith
is_valid-left w (x ∷ l) k = refl

bufmgr-left :
    (w : World) (left : List ℕ) → w.bufmgr ≡ true → ((leaving w left).bufmgr ≡ false) ↔ (left ≡ [])
bufmgr-left w [] b = (λ e. refl, λ e. refl)
bufmgr-left w (x ∷ l) b = (λ e. cc, λ e. cc)

-- With distinct handles, destroying a valid one makes it invalid, keeps the validity and the queue
-- of every other handle, and gives the buffer manager up exactly when no handle is left.
pub destroy_lem :
    (w : World) (h : ℕ)
    → Distinct w.handles
    → is_valid w h ≡ true
    → let w' = destroy w h in
      (is_valid w' h ≡ false)
      × ((k : ℕ) → h ≢ k → (is_valid w' k ≡ is_valid w k) × (w'.queues k ≡ w.queues k))
      × ((w'.bufmgr ≡ false) ↔ (w'.handles ≡ []))
unfolding destroy is_valid
destroy_lem w h d valid =
    let out = not-mem-erase h w.handles d in
    let r = put w h (tear_down (w.queues h)) in
    rw (valid, destroy)
      (
        is_valid-left r (erase h w.handles) h ∙ ground arith,
        λ k n. (
          is_valid-left r (erase h w.handles) k ∙ ground (arith, mem-erase_ne h k w.handles n),
          update_ne w.queues h k _ n,
        ),
        bufmgr-left r (erase h w.handles) (ground arith),
      )

created_valid :
    (w : World) (h : ℕ) (l : List ℕ)
    → (h == 0) ≡ false
    → is_valid (record w { bufmgr = true; handles = h ∷ l }) h ≡ true
unfolding is_valid
created_valid w h l nz = ground arith

queue_of-sizes :
    (queue_size width height format flags : ℕ)
    → let q = queue_of queue_size width height format flags default_impl in
      (q.queue_size ≡ queue_size) × (q.width ≡ width) × (q.height ≡ height) × (q.format ≡ format)
unfolding queue_of impl_init queue_init
queue_of-sizes queue_size width height format flags = (refl, refl, refl, refl)

-- With positive parameters, memory and a buffer manager, create returns a valid handle of a queue
-- in order without surfaces, and the four getters report the size, width, height and format given.
pub create_lem :
    (e : Env) (w : World) (queue_size width height format flags : ℕ)
    → is_positive queue_size && (is_positive width && (is_positive height && is_positive format))
      ≡ true
    → e.calloc_queue w ≢ 0
    → e.calloc_data w ≡ true
    → w.bufmgr || e.bufmgr_init w ≡ true
    → (h : ℕ) × (w' : World) × (create e w queue_size width height format flags ≡ some (h, w'))
      × (is_valid w' h ≡ true)
      × IsQueue (w'.queues h) nothing
      × (get_size w' h ≡ queue_size)
      × (get_width w' h ≡ width)
      × (get_height w' h ≡ height)
      × (get_format w' h ≡ format)
unfolding create create_with get_size get_width get_height get_format
create_lem e w queue_size width height format flags pos got data_got mgr =
    let h = e.calloc_queue w in
    let q = queue_of queue_size width height format flags default_impl in
    let w' : World = record (put w h q) { bufmgr = true; handles = h ∷ w.handles } in
    let nz : (h == 0) ≡ false = ground arith in
    let valid : is_valid w' h ≡ true = created_valid (put w h q) h w.handles nz in
    let self : w'.queues h ≡ q = update_self w.queues h q in
    let sizes = queue_of-sizes queue_size width height format flags in
    (
      h,
      w',
      rw (pos, nz, data_got, mgr),
      valid,
      subst (λ x. IsQueue x nothing) (sym self)
          (queue_of-IsQueue queue_size width height format flags default_impl),
      rw (valid, get_size) (ap (λ (x : Queue). x.queue_size) self ∙ sizes.0),
      rw (valid, get_width) (ap (λ (x : Queue). x.width) self ∙ sizes.1),
      rw (valid, get_height) (ap (λ (x : Queue). x.height) self ∙ sizes.2),
      rw (valid, get_format) (ap (λ (x : Queue). x.format) self ∙ sizes.3),
    )
