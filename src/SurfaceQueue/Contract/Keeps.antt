-- ===== src/SurfaceQueue/Contract/Keeps.antt =====
-- What an operation on a surface queue leaves as it was.
use libtbm.Base.{ℕ, arith, ◌≡◌, refl, ◌∙◌, List, [], ◌∷◌}
use libtbm.SurfaceQueue.State.{Queue, NodeType, Notify, Trace, Call}
use libtbm.SurfaceQueue.Nodes.{push_back, node_pop, set_type}
use libtbm.SurfaceQueue.Notify.{notify_emit, trace_emit}

-- The nodes attached, their surfaces, and the parameters of the queue.
pub record Keeps (q q' : Queue) : Type 0 where
  pub impl : q'.impl ≡ q.impl
  pub list : q'.list ≡ q.list
  pub names : (a : ℕ) → (q'.nodes a).surface ≡ (q.nodes a).surface
  pub queue_size : q'.queue_size ≡ q.queue_size
  pub num_attached : q'.num_attached ≡ q.num_attached

pub Keeps-refl : (q : Queue) → Keeps q q
Keeps-refl q = record {
  impl = refl;
  list = refl;
  names = λ a. refl;
  queue_size = refl;
  num_attached = refl;
}

pub Keeps-trans : {q r s : Queue} → Keeps q r → Keeps r s → Keeps q s
Keeps-trans k l = record {
  impl = l.impl ∙ k.impl;
  list = l.list ∙ k.list;
  names = λ a. l.names a ∙ k.names a;
  queue_size = l.queue_size ∙ k.queue_size;
  num_attached = l.num_attached ∙ k.num_attached;
}

pub Keeps-calls : (q : Queue) (c : List Call) → Keeps q (record q { calls = c })
Keeps-calls q c = record {
  impl = refl;
  list = refl;
  names = λ a. refl;
  queue_size = refl;
  num_attached = refl;
}

pub Keeps-notify_emit : (l : List Notify) {q r : Queue} → Keeps q r → Keeps q (notify_emit l r)
unfolding notify_emit
Keeps-notify_emit [] k = k
Keeps-notify_emit (n ∷ l) {r} k = Keeps-notify_emit l (Keeps-trans k (Keeps-calls r _))

pub Keeps-trace_emit :
    (l : List Notify) (s : ℕ) (t : Trace) {q r : Queue} → Keeps q r → Keeps q (trace_emit l s t r)
unfolding trace_emit
Keeps-trace_emit [] s t k = k
Keeps-trace_emit (n ∷ l) s t {r} k = Keeps-trace_emit l s t (Keeps-trans k (Keeps-calls r _))

pub push_back-Keeps : (h n : ℕ) (q : Queue) → Keeps q (push_back h n q)
unfolding push_back
push_back-Keeps h n q = record {
  impl = refl;
  list = refl;
  names = λ a. refl;
  queue_size = refl;
  num_attached = refl;
}

pub node_pop-Keeps : (h n : ℕ) (q : Queue) → Keeps q (node_pop h n q)
unfolding node_pop
node_pop-Keeps h n q = record {
  impl = refl;
  list = refl;
  names = λ a. refl;
  queue_size = refl;
  num_attached = refl;
}

-- A new type for one node, and more calls.
pub Keeps-relabel :
    {q r : Queue} (n : ℕ) (t : NodeType) (c : List Call)
    → Keeps q r
    → Keeps q (record (set_type n t r) { calls = c })
Keeps-relabel {q} {r} n t c k = Keeps-trans k (record {
  impl = refl;
  list = refl;
  names = λ a. ground arith;
  queue_size = refl;
  num_attached = refl;
})

-- Callbacks do not touch the links.
pub notify_emit-links : (l : List Notify) (q : Queue) → (notify_emit l q).links ≡ q.links
unfolding notify_emit
notify_emit-links [] q = refl
notify_emit-links (n ∷ l) q = notify_emit-links l _

pub trace_emit-links :
    (l : List Notify) (s : ℕ) (t : Trace) (q : Queue) → (trace_emit l s t q).links ≡ q.links
unfolding trace_emit
trace_emit-links [] s t q = refl
trace_emit-links (n ∷ l) s t q = trace_emit-links l s t _
