-- ===== src/Timer/Wheel.antt =====
-- Reading and writing the lists of the wheel, and how often a node stands in one.
use crynet.Prelude.{
  ℕ, suc, ◌+◌, ◌≡◌, refl, Bool, true, false, ◌&&◌, List, [], ◌∷◌, ◌++◌, arith, ◌==◌, if◌then◌else◌,
  Bool-cases, ◌∙◌, inl, inr,
}
use crynet.Timer.{
  Node, Timer, Loc, near_at, level_at, list_at, with_list, link, add_node, add_all, place,
}

abbrev pub same_loc : Loc → Loc → Bool
same_loc (near_at i) (near_at j) = i == j
same_loc (near_at i) (level_at k j) = false
same_loc (level_at k j) (near_at i) = false
same_loc (level_at k i) (level_at l j) = k == l && i == j

abbrev pub same_node : Node → Node → Bool
same_node n m = n.expire == m.expire && (n.handle == m.handle && n.session == m.session)

pub same_node_refl : (n : Node) → same_node n n ≡ true
same_node_refl n = ground arith

pub same_node_expire : (n m : Node) → same_node n m ≡ true → n.expire ≡ m.expire
same_node_expire n m e = ground arith

abbrev pub count : Node → List Node → ℕ
count n [] = 0
count n (m ∷ ms) = if same_node n m then suc (count n ms) else count n ms

pub count-append : (n : Node) (l k : List Node) → count n (l ++ k) ≡ count n l + count n k
count-append n [] k = omega arith
count-append n (m ∷ l) k = elim (Bool-cases (same_node n m)) [
  | inl e ↦ rw (e, count-append n l k) (omega arith)
  | inr e ↦ rw (e, count-append n l k) (omega arith)
]

pub same_loc_refl : (k : Loc) → same_loc k k ≡ true
same_loc_refl (near_at i) = ground arith
same_loc_refl (level_at i j) = ground arith

pub same_loc_eq : (k l : Loc) → same_loc k l ≡ true → k ≡ l
same_loc_eq (near_at i) (near_at j) e = ground arith
same_loc_eq (near_at i) (level_at k j) e = cc
same_loc_eq (level_at k j) (near_at i) e = cc
same_loc_eq (level_at k i) (level_at l j) e = ground arith

pub list_at-with_list :
    (T : Timer) (k l : Loc) (ns : List Node)
    → list_at (with_list T k ns) l ≡ (if same_loc k l then ns else list_at T l)
unfolding list_at with_list
list_at-with_list T (near_at i) (near_at j) ns = refl
list_at-with_list T (near_at i) (level_at k j) ns = refl
list_at-with_list T (level_at k j) (near_at i) ns = refl
list_at-with_list T (level_at k i) (level_at l j) ns = ground arith

-- How often a node stands in the list `k`.
abbrev pub at : Timer → Loc → Node → ℕ
at T k m = count m (list_at T k)

abbrev pub bit : Bool → ℕ
bit true = 1
bit false = 0

pub at-add_node :
    (T : Timer) (n : Node) (k : Loc) (m : Node)
    → at (add_node T n) k m
      ≡ at T k m + (if same_loc (place T.time n.expire) k then bit (same_node m n) else 0)
unfolding add_node link
at-add_node T n k m =
    let p = place T.time n.expire in
    elim (Bool-cases (same_loc p k)) [
      | inl e ↦
          let here : p ≡ k = same_loc_eq p k e in
          rw
            (
              e,
              list_at-with_list T p k (list_at T p ++ n ∷ []),
              e,
              count-append m (list_at T p) (n ∷ []),
              here,
            )
            (ground arith)
      | inr e ↦ rw (e, list_at-with_list T p k (list_at T p ++ n ∷ []), e) (omega arith)
    ]

pub time-add_node : (T : Timer) (n : Node) → (add_node T n).time ≡ T.time
unfolding add_node link with_list
time-add_node T n =
    elim (place T.time n.expire) as (λ p. (with_list T p (list_at T p ++ n ∷ [])).time ≡ T.time) [
      | near_at j ↦ refl
      | level_at i j ↦ refl
    ]

pub time-add_all : (ns : List Node) (T : Timer) → (add_all ns T).time ≡ T.time
unfolding add_all
time-add_all [] T = refl
time-add_all (n ∷ ns) T = time-add_all ns (add_node T n) ∙ time-add_node T n

-- Nodes that are added again stand where `place` puts them.
pub at-add_all :
    (ns : List Node) (T : Timer) (k : Loc) (m : Node)
    → at (add_all ns T) k m
      ≡ at T k m + (if same_loc (place T.time m.expire) k then count m ns else 0)
unfolding add_all list_at
at-add_all [] T k m = ground arith
at-add_all (n ∷ ns) T k m = elim (Bool-cases (same_node m n)) [
  | inl e ↦
      let same : m.expire ≡ n.expire = same_node_expire m n e in
      rw (at-add_all ns (add_node T n) k m, time-add_node T n, at-add_node T n k m, e, same)
        (ground arith)
  | inr e ↦
      rw (at-add_all ns (add_node T n) k m, time-add_node T n, at-add_node T n k m, e)
        (ground arith)
]

pub time-with_list : (T : Timer) (k : Loc) (ns : List Node) → (with_list T k ns).time ≡ T.time
unfolding with_list
time-with_list T (near_at j) ns = refl
time-with_list T (level_at i j) ns = refl

-- A list that is cleared holds no node, and the others are as they were.
pub at-clear :
    (T : Timer) (l k : Loc) (m : Node)
    → at (with_list T l []) k m ≡ (if same_loc l k then 0 else at T k m)
at-clear T l k m = elim (Bool-cases (same_loc l k)) [
  | inl e ↦ rw (list_at-with_list T l k [], e)
  | inr e ↦ rw (list_at-with_list T l k [], e)
]

pub same_loc_symm : (k l : Loc) → same_loc k l ≡ same_loc l k
same_loc_symm (near_at i) (near_at j) = ground arith
same_loc_symm (near_at i) (level_at k j) = refl
same_loc_symm (level_at k j) (near_at i) = refl
same_loc_symm (level_at k i) (level_at l j) = ground arith
