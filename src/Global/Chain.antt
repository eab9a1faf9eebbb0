-- ===== src/Global/Chain.antt =====
-- The global queue is a first-in first-out list of message queues, each at most once.
use crynet.Prelude.{
  ℕ, suc, ◌+◌, ◌≤◌, ◌≡◌, refl, List, [], ◌∷◌, ◌++◌, Option, none, some, arith, ◌==◌, if◌then◌else◌,
  sym, false,
}
use crynet.Global.{GlobalQueue, assign, init, push, pop, is_tail}

-- How often a queue stands in a list.
abbrev pub count : ℕ → List ℕ → ℕ
count a [] = 0
count a (b ∷ l) = if a == b then suc (count a l) else count a l

abbrev pub head? : List ℕ → Option ℕ
head? [] = none
head? (a ∷ l) = some a

abbrev pub last? : List ℕ → Option ℕ
last? [] = none
last? (a ∷ []) = some a
last? (a ∷ b ∷ l) = last? (b ∷ l)

-- Each queue of the list is linked to the one behind it, and the last to none.
abbrev pub Linked : (ℕ → Option ℕ) → List ℕ → Type 0
Linked next [] = Unit
Linked next (a ∷ l) = (next a ≡ head? l) × Linked next l

-- The global queue holds the message queues `l`, the next one first.
pub record IsChain (g : GlobalQueue) (l : List ℕ) : Type 0 where
  pub front : g.head ≡ head? l
  pub back : g.tail ≡ last? l
  pub linked : Linked g.next l
  pub once : (a : ℕ) → count a l ≤ 1
  pub others : (a : ℕ) → count a l ≡ 0 → g.next a ≡ none

pub count-append : (a : ℕ) (l k : List ℕ) → count a (l ++ k) ≡ count a l + count a k
count-append a [] k = omega arith
count-append a (b ∷ l) k = ground (arith, count-append a l k)

pub count-snoc_self : (a : ℕ) (l : List ℕ) → count a (l ++ a ∷ []) ≡ suc (count a l)
count-snoc_self a l = rw (count-append a l (a ∷ [])) (ground arith)

pub count-snoc_ne : (a b : ℕ) (l : List ℕ) → (a == b) ≡ false → count b (l ++ a ∷ []) ≡ count b l
count-snoc_ne a b l ne = rw (count-append b l (a ∷ [])) (ground arith)

last?-append : (l : List ℕ) (b : ℕ) → last? (l ++ b ∷ []) ≡ some b
last?-append [] b = refl
last?-append (a ∷ []) b = refl
last?-append (a ∷ c ∷ l) b = last?-append (c ∷ l) b

-- A write at a queue outside a list leaves the list's links.
Linked-assign :
    (next : ℕ → Option ℕ) (a : ℕ) (p : Option ℕ) (l : List ℕ)
    → count a l ≡ 0
    → Linked next l
    → Linked (assign next a p) l
Linked-assign next a p [] h k = tt
Linked-assign next a p (b ∷ l) h k =
    (ground (arith, k.0), Linked-assign next a p l (ground arith) k.1)

last?-count : (l : List ℕ) (t : ℕ) → last? l ≡ some t → 1 ≤ count t l
last?-count [] t e = cc
last?-count (a ∷ []) t e = ground arith
last?-count (a ∷ c ∷ l) t e = ground (arith, last?-count (c ∷ l) t e)

last?-cons : (a : ℕ) (l : List ℕ) → (t : ℕ) × (last? (a ∷ l) ≡ some t)
last?-cons a [] = (a, refl)
last?-cons a (c ∷ l) = last?-cons c l

-- Linking the last queue of a list to `b` appends `b`.
Linked-append :
    (next : ℕ → Option ℕ) (a b : ℕ) (l : List ℕ)
    → ((c : ℕ) → count c (a ∷ l) ≤ 1)
    → count b (a ∷ l) ≡ 0
    → next b ≡ none
    → Linked next (a ∷ l)
    → (t : ℕ) → last? (a ∷ l) ≡ some t
    → Linked (assign next t (some b)) ((a ∷ l) ++ b ∷ [])
Linked-append next a b [] once new e k t last = (ground arith, (ground arith, tt))
Linked-append next a b (c ∷ l) once new e k t last =
    let later = last?-count (c ∷ l) t last in
    let apart : (t == a) ≡ false = ground (arith, once t) in
    (
      rw apart k.0,
      Linked-append next c b l (λ d. ground (arith, once d)) (ground (arith, new)) e k.1 t last,
    )

once_snoc : (l : List ℕ) (a c : ℕ) → count a l ≡ 0 → count c l ≤ 1 → count c (l ++ a ∷ []) ≤ 1
once_snoc l a c new h = rw (count-append c l (a ∷ [])) (ground arith)

others_snoc :
    (next : ℕ → Option ℕ) (l : List ℕ) (a t c : ℕ)
    → 1 ≤ count t l
    → (count c l ≡ 0 → next c ≡ none)
    → count c (l ++ a ∷ []) ≡ 0
    → assign next t (some a) c ≡ none
others_snoc next l a t c h k n =
    let zero : count c l ≡ 0 = omega (arith, count-append c l (a ∷ [])) in
    let apart : (t == c) ≡ false = ground (arith, zero) in rw apart (k zero)

-- Pushing a queue that is not in the list appends it; no assertion fails.
pub push-IsChain :
    {g : GlobalQueue} {l : List ℕ} (a : ℕ)
    → IsChain g l
    → count a l ≡ 0
    → (g' : GlobalQueue) × (push a g ≡ some g') × IsChain g' (l ++ a ∷ [])
unfolding push
push-IsChain {g} {l = []} a h new = (
  record g { head = some a; tail = some a },
  ground (arith, h.others a new, h.back),
  record {
    front = refl;
    back = refl;
    linked = (h.others a new, tt);
    once = λ b. ground arith;
    others = λ b n. h.others b refl;
  },
)
push-IsChain {g} {l = b ∷ l} a h new =
    let (t, last) = last?-cons b l in
    (
      record g { next = assign g.next t (some a); tail = some a },
      ground (arith, h.others a new, h.back, last),
      record {
        front = h.front;
        back = sym (last?-append (b ∷ l) a);
        linked = Linked-append g.next b a l h.once new (h.others a new) h.linked t last;
        once = λ c. once_snoc (b ∷ l) a c new (h.once c);
        others = λ c. others_snoc g.next (b ∷ l) a t c (last?-count (b ∷ l) t last) (h.others c);
      },
    )

-- An empty global queue gives none.
pub pop-IsChain_empty : {g : GlobalQueue} → IsChain g [] → pop g ≡ some (none, g)
unfolding pop
pop-IsChain_empty h = rw h.front

-- Popping takes the first queue, and unlinks it; no assertion fails.
pub pop-IsChain :
    {g : GlobalQueue} {a : ℕ} {l : List ℕ}
    → IsChain g (a ∷ l)
    → (g' : GlobalQueue) × (pop g ≡ some (some a, g')) × IsChain g' l
unfolding pop is_tail
pop-IsChain {g} {a} {l = []} h = (
  record g { head = none; tail = none; next = assign g.next a none },
  ground (arith, h.front, h.linked.0, h.back),
  record {
    front = refl;
    back = refl;
    linked = tt;
    once = λ b. omega arith;
    others = λ b n. ground (arith, h.others b);
  },
)
pop-IsChain {g} {a} {l = b ∷ l} h = (
  record g { head = some b; next = assign g.next a none },
  ground (arith, h.front, h.linked.0),
  record {
    front = refl;
    back = h.back;
    linked = Linked-assign g.next a none (b ∷ l) (ground (arith, h.once a)) h.linked.1;
    once = λ c. ground (arith, h.once c);
    others = λ c n. ground (arith, h.others c);
  },
)

pub init-IsChain : IsChain init []
unfolding init
init-IsChain = record {
  front = refl;
  back = refl;
  linked = tt;
  once = λ a. omega arith;
  others = λ a n. refl;
}

-- Clearing the link of a queue outside the list changes nothing.
pub clear-IsChain :
    {g : GlobalQueue} {l : List ℕ} (a : ℕ)
    → IsChain g l
    → count a l ≡ 0
    → IsChain (record { head = g.head; tail = g.tail; next = assign g.next a none }) l
clear-IsChain {g} {l} a h out = record {
  front = h.front;
  back = h.back;
  linked = Linked-assign g.next a none l out h.linked;
  once = h.once;
  others = λ b n. ground (arith, h.others b n);
}
