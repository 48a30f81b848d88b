-- ===== src/SurfaceQueue/Invariant/Defs.antt =====
-- The invariant of a surface queue, and the changes to a queue that it does not notice.
use libtbm.Base.{
  ℕ, ◌≤◌, ◌<◌, ◌^◌, ◌≡◌, ◌≢◌, refl, sym, ◌∙◌, List, [], ◌∷◌, ◌∈◌, arith, All, All-mono, All_of_mem,
  Distinct, length,
}
use libtbm.Links.{Links}
use libtbm.Links.Ring.{Ring, Ring-frame, Same}
use libtbm.SurfaceQueue.State.{
  Queue, Node, NodeType, Notify, Trace, Call, Impl, default_impl, sequence_impl, free_head,
  dirty_head, dequeue_head,
}
use libtbm.SurfaceQueue.Nodes.{set_type, set_priv}
use libtbm.SurfaceQueue.Notify.{notify_emit, trace_emit}

-- The abstract state: the nodes on the list of each head, in order, and for each address the head
-- of the list that it is on, 0 for a node that is on none.
pub record View : Type 0 where
  pub at : ℕ → List ℕ
  pub place : ℕ → ℕ

-- The list with head `h` consists of `xs`, all of them attached nodes.
pub record Holds (m : Links) (attached : List ℕ) (place : ℕ → ℕ) (h : ℕ) (xs : List ℕ)
    : Type 0 where
  pub ring : Ring m h xs
  pub head : place h ≡ h
  pub placed : All (λ n. place n ≡ h) xs
  pub known : All (λ n. n ∈ attached) xs

-- The heads that an implementation uses.
abbrev pub heads : Impl → List ℕ
heads default_impl = free_head ∷ dirty_head ∷ []
heads sequence_impl = free_head ∷ dirty_head ∷ dequeue_head ∷ []

pub record IsQueue (q : Queue) (v : View) : Type 0 where
  pub rings : (h : ℕ) → h ∈ heads q.impl → Holds q.links q.list v.place h (v.at h)
  pub nodes : All (λ n. (3 < n) × (n < q.next_node)) q.list
  pub fresh : 3 < q.next_node
  pub beyond : (a : ℕ) → q.next_node ≤ a → v.place a ≡ 0
  pub distinct : Distinct q.list
  pub attached : q.num_attached ≡ length q.list
  pub few : length q.list < 2 ^ 31
  pub surfaces : All (λ n. (q.nodes n).surface ≢ 0) q.list
  pub unique :
      (a b : ℕ) → a ∈ q.list → b ∈ q.list → (q.nodes a).surface ≡ (q.nodes b).surface → a ≡ b

-- A node that is on no list: the user has its surface.
pub record IsOut (q : Queue) (v : View) (n surface : ℕ) : Type 0 where
  pub known : n ∈ q.list
  pub out : v.place n ≡ 0
  pub names : (q.nodes n).surface ≡ surface

pub head_pos : (i : Impl) (h : ℕ) → h ∈ heads i → (0 < h) × (h < 4)
head_pos default_impl h m = ground arith
head_pos sequence_impl h m = ground arith

pub free_mem : (i : Impl) → free_head ∈ heads i
free_mem default_impl = refl
free_mem sequence_impl = refl

pub dirty_mem : (i : Impl) → dirty_head ∈ heads i
dirty_mem default_impl = refl
dirty_mem sequence_impl = refl

-- A list is kept by what leaves alone the addresses that are placed on it.
pub Holds-frame :
    {m : Links} {l : List ℕ} {p : ℕ → ℕ} {h : ℕ} {xs : List ℕ} (m' : Links) (l' : List ℕ)
    (p' : ℕ → ℕ)
    → Holds m l p h xs
    → ((a : ℕ) → p a ≡ h → Same m m' a × (p' a ≡ h))
    → ((a : ℕ) → a ∈ l → a ∈ l')
    → Holds m' l' p' h xs
Holds-frame {p} {h} {xs} m' l' p' i f g = record {
  ring =
      Ring-frame m' i.ring
        (λ a e. (f a (All_of_mem (λ n. p n ≡ h) a (h ∷ xs) (i.head, i.placed) e)).0);
  head = (f h i.head).1;
  placed = All-mono _ _ xs (λ a e. (f a e).1) i.placed;
  known = All-mono _ _ xs g i.known;
}

-- Neither the calls made nor what a node holds beside its surface matters.
pub IsQueue-relabel :
    {q : Queue} {v : View} (nodes : ℕ → Node) (calls : List Call)
    → ((a : ℕ) → (nodes a).surface ≡ (q.nodes a).surface)
    → IsQueue q v
    → IsQueue (record q { nodes = nodes; calls = calls }) v
IsQueue-relabel {q} nodes calls same i = record {
  rings = i.rings;
  nodes = i.nodes;
  fresh = i.fresh;
  beyond = i.beyond;
  distinct = i.distinct;
  attached = i.attached;
  few = i.few;
  surfaces = All-mono _ _ q.list (λ a e z. e (sym (same a) ∙ z)) i.surfaces;
  unique = λ a b ma mb e. i.unique a b ma mb (sym (same a) ∙ (e ∙ same b));
}

pub IsQueue-calls :
    {q : Queue} {v : View} (c : List Call) → IsQueue q v → IsQueue (record q { calls = c }) v
IsQueue-calls {q} c i = IsQueue-relabel q.nodes c (λ a. refl) i

pub IsQueue-set_type :
    {q : Queue} {v : View} (n : ℕ) (t : NodeType) → IsQueue q v → IsQueue (set_type n t q) v
IsQueue-set_type {q} n t i = IsQueue-relabel _ q.calls (λ a. ground arith) i

pub IsQueue-set_priv : {q : Queue} {v : View} (n x : ℕ) → IsQueue q v → IsQueue (set_priv n x q) v
IsQueue-set_priv {q} n x i = IsQueue-relabel _ q.calls (λ a. ground arith) i

pub notify_emit-IsQueue :
    {q : Queue} {v : View} (l : List Notify) → IsQueue q v → IsQueue (notify_emit l q) v
unfolding notify_emit
notify_emit-IsQueue [] i = i
notify_emit-IsQueue (n ∷ l) i = notify_emit-IsQueue l (IsQueue-calls _ i)

pub trace_emit-IsQueue :
    {q : Queue} {v : View} (l : List Notify) (s : ℕ) (t : Trace)
    → IsQueue q v
    → IsQueue (trace_emit l s t q) v
unfolding trace_emit
trace_emit-IsQueue [] s t i = i
trace_emit-IsQueue (n ∷ l) s t i = trace_emit-IsQueue l s t (IsQueue-calls _ i)
