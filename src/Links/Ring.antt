-- ===== src/Links/Ring.antt =====
-- What a well-formed list of list.h is, and what each operation does to it.
use libtbm.Base.{
  ℕ, ◌≡◌, ◌≢◌, refl, List, [], ◌∷◌, ◌++◌, arith, true, false, ◌∈◌, ◌∉◌, Distinct,
  Distinct-append_one, ◌∙◌, has-append,
}
use libtbm.Links.{Links, list_inithead, list_add, list_addtail, list_del, list_is_empty}

-- From `p` the `next` pointers lead through `xs` to `q`, and the `prev` pointers lead back.
abbrev pub Seg : Links → ℕ → List ℕ → ℕ → Type 0
Seg m p [] q = (m.next p ≡ q) × (m.prev q ≡ p)
Seg m p (x ∷ xs) q = (m.next p ≡ x) × (m.prev x ≡ p) × Seg m x xs q

-- The list with head `h` holds the nodes `xs`, in this order.
pub record Ring (m : Links) (h : ℕ) (xs : List ℕ) : Type 0 where
  pub seg : Seg m h xs h
  pub distinct : Distinct (h ∷ xs)

-- `m'` and `m` agree at `a`.
abbrev pub Same : Links → Links → ℕ → Type 0
Same m m' a = (m'.next a ≡ m.next a) × (m'.prev a ≡ m.prev a)

pub Seg-frame :
    (m m' : Links) (p : ℕ) (xs : List ℕ) (q : ℕ)
    → m'.next p ≡ m.next p
    → m'.prev q ≡ m.prev q
    → ((a : ℕ) → a ∈ xs → Same m m' a)
    → Seg m p xs q
    → Seg m' p xs q
Seg-frame m m' p [] q hp hq f s = (hp ∙ s.0, hq ∙ s.1)
Seg-frame m m' p (x ∷ xs) q hp hq f s =
    let fx = f x (ground arith) in
    (hp ∙ s.0, fx.1 ∙ s.1, Seg-frame m m' x xs q fx.0 hq (λ a i. f a (ground arith)) s.2)

-- A list is not touched by what leaves its head and nodes alone.
pub Ring-frame :
    {m : Links} {h : ℕ} {xs : List ℕ} (m' : Links)
    → Ring m h xs
    → ((a : ℕ) → a ∈ (h ∷ xs) → Same m m' a)
    → Ring m' h xs
Ring-frame {m} {h} {xs} m' r f =
    let fh = f h (ground arith) in
    record {
      seg = Seg-frame m m' h xs h fh.0 fh.1 (λ a i. f a (ground arith)) r.seg;
      distinct = r.distinct;
    }

pub mem-ne : (a b : ℕ) (xs : List ℕ) → b ∈ xs → a ∉ xs → a ≢ b
mem-ne a b [] m n = cc
mem-ne a b (x ∷ xs) m n = ground (arith, mem-ne a b xs)

not-mem_mid : (ys : List ℕ) (x : ℕ) (zs : List ℕ) → Distinct (ys ++ x ∷ zs) → x ∉ ys
not-mem_mid [] x zs d = refl
not-mem_mid (y ∷ ys) x zs d = ground (arith, has-append y ys (x ∷ zs), not-mem_mid ys x zs d.1)

pub list_inithead-Ring : (h : ℕ) (m : Links) → Ring (list_inithead h m) h []
unfolding list_inithead
list_inithead-Ring h m = ground arith

-- On a well-formed list that does not contain the item, list_add gives the well-formed list with
-- the item at the front.
pub list_add-Ring :
    {m : Links} {h : ℕ} {xs : List ℕ} (item : ℕ)
    → Ring m h xs
    → item ∉ (h ∷ xs)
    → Ring (list_add item h m) h (item ∷ xs)
unfolding list_add
list_add-Ring {xs = []} item r n =
    let s = r.seg in record { seg = ground arith; distinct = ground arith }
list_add-Ring {m} {h} {xs = x ∷ xs} item r n =
    let s = r.seg in
    let d = r.distinct in
    record {
      seg = (
        ground arith,
        ground arith,
        (
          ground arith,
          ground arith,
          Seg-frame m _ x xs h (ground arith) (ground arith) (λ a i. ground arith) s.2,
        ),
      );
      distinct = ground arith;
    }

-- The node before the end.
prev-mem : (m : Links) (p : ℕ) (xs : List ℕ) (q : ℕ) → Seg m p xs q → m.prev q ∈ (p ∷ xs)
prev-mem m p [] q s = ground arith
prev-mem m p (x ∷ xs) q s = ground (arith, prev-mem m x xs q s.2)

pub prev-mem_append :
    (m : Links) (p : ℕ) (ys : List ℕ) (x : ℕ) (zs : List ℕ) (q : ℕ)
    → Seg m p (ys ++ x ∷ zs) q
    → m.prev x ∈ (p ∷ ys)
prev-mem_append m p [] x zs q s = ground arith
prev-mem_append m p (y ∷ ys) x zs q s = ground (arith, prev-mem_append m y ys x zs q s.2)

pub next-mem_append :
    (m : Links) (p : ℕ) (ys : List ℕ) (x : ℕ) (zs : List ℕ) (q : ℕ)
    → Seg m p (ys ++ x ∷ zs) q
    → m.next x ∈ (q ∷ zs)
next-mem_append m p [] x [] q s = ground arith
next-mem_append m p [] x (z ∷ zs) q s = ground arith
next-mem_append m p (y ∷ ys) x zs q s = next-mem_append m y ys x zs q s.2

list_addtail-Seg :
    (m : Links) (p : ℕ) (xs : List ℕ) (h item : ℕ)
    → Seg m p xs h
    → Distinct (p ∷ xs)
    → h ∉ xs
    → item ∉ (h ∷ p ∷ xs)
    → Seg (list_addtail item h m) p (xs ++ item ∷ []) h
unfolding list_addtail
list_addtail-Seg m p [] h item s d k n = ground arith
list_addtail-Seg m p (x ∷ xs) h item s d k n =
    let l = prev-mem m x xs h s.2 in
    (
      ground arith,
      ground arith,
      list_addtail-Seg m x xs h item s.2 d.1 (ground arith) (ground arith),
    )

-- On a well-formed list that does not contain the item, list_addtail gives the well-formed list
-- with the item at the end.
pub list_addtail-Ring :
    {m : Links} {h : ℕ} {xs : List ℕ} (item : ℕ)
    → Ring m h xs
    → item ∉ (h ∷ xs)
    → Ring (list_addtail item h m) h (xs ++ item ∷ [])
list_addtail-Ring {m} {h} {xs} item r n = record {
  seg = list_addtail-Seg m h xs h item r.seg r.distinct r.distinct.0 (ground arith);
  distinct = Distinct-append_one (h ∷ xs) item r.distinct n;
}

list_del-Seg :
    (m : Links) (p : ℕ) (ys : List ℕ) (x : ℕ) (zs : List ℕ) (h : ℕ)
    → Seg m p (ys ++ x ∷ zs) h
    → Distinct (p ∷ (ys ++ x ∷ zs))
    → h ∉ (ys ++ x ∷ zs)
    → Seg (list_del x m) p (ys ++ zs) h
unfolding list_del
list_del-Seg m p [] x [] h s d k = ground arith
list_del-Seg m p [] x (z ∷ zs) h s d k = (
  ground arith,
  ground arith,
  Seg-frame m _ z zs h (ground arith) (ground arith) (λ a i. ground arith) s.2.2,
)
list_del-Seg m p (y ∷ ys) x zs h s d k =
    let l = prev-mem_append m y ys x zs h s.2 in
    let n = next-mem_append m y ys x zs h s.2 in
    let e = has-append p ys (x ∷ zs) in
    let f = has-append y ys (x ∷ zs) in
    (ground arith, ground arith, list_del-Seg m y ys x zs h s.2 d.1 (ground arith))

Distinct-append_mid :
    (ys : List ℕ) (x : ℕ) (zs : List ℕ) → Distinct (ys ++ x ∷ zs) → Distinct (ys ++ zs)
Distinct-append_mid [] x zs d = d.1
Distinct-append_mid (y ∷ ys) x zs d =
    (ground (arith, has-append y ys (x ∷ zs), has-append y ys zs), Distinct-append_mid ys x zs d.1)

-- On a well-formed list, list_del of a node at any position gives the well-formed list without it.
pub list_del-Ring :
    {m : Links} {h : ℕ} (ys : List ℕ) (x : ℕ) (zs : List ℕ)
    → Ring m h (ys ++ x ∷ zs)
    → Ring (list_del x m) h (ys ++ zs)
list_del-Ring {m} {h} ys x zs r = record {
  seg = list_del-Seg m h ys x zs h r.seg r.distinct r.distinct.0;
  distinct = Distinct-append_mid (h ∷ ys) x zs r.distinct;
}

-- What the operations leave alone.
pub list_add-Same :
    {m : Links} {h : ℕ} {xs : List ℕ} (item : ℕ)
    → Ring m h xs
    → (a : ℕ) → a ∉ (item ∷ h ∷ xs)
    → Same m (list_add item h m) a
unfolding list_add
list_add-Same {m} {h} {xs = []} item r a n = let s = r.seg in ground arith
list_add-Same {m} {h} {xs = x ∷ xs} item r a n = let s = r.seg in ground arith

pub list_addtail-Same :
    {m : Links} {h : ℕ} {xs : List ℕ} (item : ℕ)
    → Ring m h xs
    → (a : ℕ) → a ∉ (item ∷ h ∷ xs)
    → Same m (list_addtail item h m) a
unfolding list_addtail
list_addtail-Same {m} {h} {xs} item r a n =
    let l = prev-mem m h xs h r.seg in ground (arith, mem-ne a (m.prev h) (h ∷ xs))

pub list_del-Same :
    {m : Links} {h : ℕ} (ys : List ℕ) (x : ℕ) (zs : List ℕ)
    → Ring m h (ys ++ x ∷ zs)
    → (a : ℕ) → a ∉ (h ∷ (ys ++ x ∷ zs))
    → Same m (list_del x m) a
unfolding list_del
list_del-Same {m} {h} ys x zs r a n =
    let l = prev-mem_append m h ys x zs h r.seg in
    let k = next-mem_append m h ys x zs h r.seg in
    let d = r.distinct in
    ground (
      arith,
      has-append a ys (x ∷ zs),
      has-append x ys (x ∷ zs),
      has-append h ys (x ∷ zs),
      mem-ne a (m.prev x) (h ∷ ys),
      mem-ne a (m.next x) (h ∷ zs),
      not-mem_mid ys x zs d.1,
      mem-ne x (m.prev x) (h ∷ ys),
    )

pub list_is_empty-nil : {m : Links} {h : ℕ} → Ring m h [] → list_is_empty h m ≡ true
unfolding list_is_empty
list_is_empty-nil r = let s = r.seg in ground arith

pub list_is_empty-cons :
    {m : Links} {h x : ℕ} {xs : List ℕ} → Ring m h (x ∷ xs) → list_is_empty h m ≡ false
unfolding list_is_empty
list_is_empty-cons r = let s = r.seg in let d = r.distinct in ground arith
