-- ===== src/Links/Steps.antt =====
-- list.h: any sequence of operations on one list.
use libtbm.Base.{◌∈◌, ℕ, ◌≢◌, List, [], ◌∷◌, ◌++◌, ◌∉◌, arith, Distinct, has-append}
use libtbm.Links.{
  Links, list_inithead, list_add, list_addtail, list_del, list_delinit, list_replace,
}
use libtbm.Links.Ring.{
  Same, next-mem_append, prev-mem_append, mem-ne, Ring, Seg, Seg-frame, Ring-frame,
  list_inithead-Ring, list_add-Ring, list_addtail-Ring, list_del-Ring,
}

-- The memory and the nodes of the list `h`, after `list_inithead` and operations with nodes that are
-- not in the list yet, to add, or are in it, to take off.
pub data Built (h : ℕ) : Links → List ℕ → Type 0 where
  fresh : (m : Links) → Built h (list_inithead h m) []
  added :
      (m : Links) (xs : List ℕ) (x : ℕ)
      → x ∉ (h ∷ xs)
      → Built h m xs
      → Built h (list_add x h m) (x ∷ xs)
  added_last :
      (m : Links) (xs : List ℕ) (x : ℕ)
      → x ∉ (h ∷ xs)
      → Built h m xs
      → Built h (list_addtail x h m) (xs ++ x ∷ [])
  removed :
      (m : Links) (ys : List ℕ) (x : ℕ) (zs : List ℕ)
      → Built h m (ys ++ x ∷ zs)
      → Built h (list_del x m) (ys ++ zs)
  removed_clean :
      (m : Links) (ys : List ℕ) (x : ℕ) (zs : List ℕ)
      → Built h m (ys ++ x ∷ zs)
      → Built h (list_delinit x m) (ys ++ zs)
  replaced :
      (m : Links) (ys : List ℕ) (x : ℕ) (zs : List ℕ) (y : ℕ)
      → y ∉ (h ∷ (ys ++ x ∷ zs))
      → Built h m (ys ++ x ∷ zs)
      → Built h (list_replace x y m) (ys ++ y ∷ zs)

absent_mid :
    (p : ℕ) (ys : List ℕ) (x : ℕ) (zs : List ℕ)
    → Distinct (p ∷ (ys ++ x ∷ zs))
    → x ∉ (p ∷ (ys ++ zs))
absent_mid p [] x zs d = ground arith
absent_mid p (y ∷ ys) x zs d =
    let e = has-append p ys (x ∷ zs) in
    let f = has-append y ys (x ∷ zs) in let r = absent_mid y ys x zs d.1 in ground arith

list_delinit-Ring :
    {m : Links} {h : ℕ} (ys : List ℕ) (x : ℕ) (zs : List ℕ)
    → Ring m h (ys ++ x ∷ zs)
    → Ring (list_delinit x m) h (ys ++ zs)
unfolding list_delinit list_del
list_delinit-Ring {m} {h} ys x zs r =
    let n = absent_mid h ys x zs r.distinct in
    Ring-frame (list_delinit x m) (list_del-Ring ys x zs r)
      (λ a i. let e = mem-ne x a (h ∷ (ys ++ zs)) i n in ground arith)

list_replace-Seg :
    (m : Links) (p : ℕ) (ys : List ℕ) (x : ℕ) (zs : List ℕ) (h y : ℕ)
    → Seg m p (ys ++ x ∷ zs) h
    → Distinct (p ∷ (ys ++ x ∷ zs))
    → h ∉ (ys ++ x ∷ zs)
    → y ∉ (p ∷ (ys ++ x ∷ zs))
    → y ≢ h
    → Seg (list_replace x y m) p (ys ++ y ∷ zs) h
unfolding list_replace
list_replace-Seg m p [] x [] h y s d k n g = ground arith
list_replace-Seg m p [] x (z ∷ zs) h y s d k n g =
    let other : (a : ℕ) → a ∈ zs → Same m (list_replace x y m) a = λ a i.
      let e = mem-ne x a (z ∷ zs) (ground arith) d.1.0 in
      let f = mem-ne y a (z ∷ zs) (ground arith) (ground arith) in ground arith in
    (
      ground arith,
      ground arith,
      (ground arith, ground arith, Seg-frame m _ z zs h (ground arith) (ground arith) other s.2.2),
    )
list_replace-Seg m p (c ∷ ys) x zs h y s d k n g =
    let l = prev-mem_append m c ys x zs h s.2 in
    let t = next-mem_append m c ys x zs h s.2 in
    let e = has-append p ys (x ∷ zs) in
    let f = has-append c ys (x ∷ zs) in
    (
      ground arith,
      ground arith,
      list_replace-Seg m c ys x zs h y s.2 d.1 (ground arith) (ground arith) g,
    )

Distinct-replaced :
    (ys : List ℕ) (x : ℕ) (zs : List ℕ) (y : ℕ)
    → Distinct (ys ++ x ∷ zs)
    → y ∉ (ys ++ x ∷ zs)
    → Distinct (ys ++ y ∷ zs)
Distinct-replaced [] x zs y d n = (ground arith, d.1)
Distinct-replaced (c ∷ ys) x zs y d n = (
  ground (arith, has-append c ys (x ∷ zs), has-append c ys (y ∷ zs)),
  Distinct-replaced ys x zs y d.1 (ground arith),
)

list_replace-Ring :
    {m : Links} {h : ℕ} (ys : List ℕ) (x : ℕ) (zs : List ℕ) (y : ℕ)
    → y ∉ (h ∷ (ys ++ x ∷ zs))
    → Ring m h (ys ++ x ∷ zs)
    → Ring (list_replace x y m) h (ys ++ y ∷ zs)
list_replace-Ring {m} {h} ys x zs y n r = record {
  seg = list_replace-Seg m h ys x zs h y r.seg r.distinct r.distinct.0 n (ground arith);
  distinct = Distinct-replaced (h ∷ ys) x zs y r.distinct n;
}

-- After list_inithead and any sequence of list_add, list_addtail and list_replace with a node that
-- is not in the list, and of list_del and list_delinit of a node in it, the memory links the nodes
-- into a ring with the head, forwards and backwards, in the order that the operations say, and all
-- are different.
pub Built-Ring : (h : ℕ) (m : Links) (xs : List ℕ) → Built h m xs → Ring m h xs
Built-Ring h _ _ (fresh m) = list_inithead-Ring h m
Built-Ring h _ _ (added m xs x n b) = list_add-Ring x (Built-Ring h m xs b) n
Built-Ring h _ _ (added_last m xs x n b) = list_addtail-Ring x (Built-Ring h m xs b) n
Built-Ring h _ _ (removed m ys x zs b) = list_del-Ring ys x zs (Built-Ring h m _ b)
Built-Ring h _ _ (removed_clean m ys x zs b) = list_delinit-Ring ys x zs (Built-Ring h m _ b)
Built-Ring h _ _ (replaced m ys x zs y n b) = list_replace-Ring ys x zs y n (Built-Ring h m _ b)
