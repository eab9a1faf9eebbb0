-- ===== src/SocketServer/Loop.antt =====
-- What one round of writes does to a list of buffers, read as the texts that still have to be written.
use crynet.Prelude.{
  ℕ, suc, ◌+◌, ◌≤◌, ◌<◌, ◌≡◌, refl, sym, ap, ◌∙◌, List, [], ◌∷◌, ◌++◌, Bool, true, false, ◌⊎◌, inl,
  inr, ◌==◌, ==-eq, length, take, drop, flatten, arith, Bool-cases, take-append-drop, length-append,
  length-drop, length-take,
}
use crynet.SocketServer.{
  WriteBuffer, Answer, wrote, interrupted, again, failed, min_of, Sending, advance, send_loop,
  list_uncomplete,
}
use mathlib.Core.List.{append-nil, cons-ne-nil, append_assoc}
use mathlib.Core.Path.{subst}

-- The bytes of the buffers.
abbrev pub texts_of : List WriteBuffer → List (List ℕ)
texts_of [] = []
texts_of (b ∷ bs) = b.bytes ∷ texts_of bs

abbrev pub total : List WriteBuffer → ℕ
total [] = 0
total (b ∷ bs) = length b.bytes + total bs

-- Buffers of which nothing was written, and which are not user objects.
abbrev pub AllFresh : List WriteBuffer → Type 0
AllFresh [] = Unit {0}
AllFresh (b ∷ bs) = (b.ptr ≡ b.buffer) × AllFresh bs

pub fresh_complete : (bs : List WriteBuffer) → AllFresh bs → list_uncomplete bs ≡ false
unfolding list_uncomplete
fresh_complete [] f = refl
fresh_complete (b ∷ bs) (e, f) = rw (==-eq b.ptr b.buffer e) refl

-- What is left of a list: whole buffers, or one of which a part was written now.
pub record Whole (list left : List WriteBuffer) (front front' : List (List ℕ)) : Type 0 where
  pub sent : ℕ
  pub same : left ≡ drop sent list
  pub unbegun : front ≡ [] → front' ≡ []

pub record Partly (list left : List WriteBuffer) (front front' : List (List ℕ)) : Type 0 where
  pub sent : ℕ
  pub head : WriteBuffer
  pub tail : List WriteBuffer
  pub count : ℕ
  pub at : drop sent list ≡ head ∷ tail
  pub some_bytes : 0 < count
  pub same : left ≡ advance count head ∷ tail
  pub begun : front ≡ [] → front' ≡ drop count head.bytes ∷ []

-- The texts `q` wait behind what is left to write of `front`: some of them are begun, and what was
-- written is what was left and these, less what is left now.
pub record Sends (list : List WriteBuffer) (front q : List (List ℕ)) (r : Sending) : Type 0 where
  pub begun : List (List ℕ)
  pub waiting : List (List ℕ)
  pub front' : List (List ℕ)
  pub split : q ≡ begun ++ waiting
  pub left : texts_of r.list ≡ front' ++ waiting
  pub bytes : flatten front ++ flatten begun ≡ r.bytes ++ flatten front'
  pub total_left : total r.list + length r.bytes ≡ total list
  pub shape : Whole list r.list front front' ⊎ Partly list r.list front front'

abbrev pub head_of : List (List ℕ) → List ℕ
head_of [] = []
head_of (t ∷ ts) = t

-- Nothing is written.
unsent :
    (list : List WriteBuffer) (front q : List (List ℕ)) (broken : Bool) (rest : List Answer)
    → texts_of list ≡ front ++ q
    → Sends list front q (record { broken = broken; list = list; bytes = []; rest = rest })
unsent list front q broken rest e = record {
  begun = [];
  waiting = q;
  front' = front;
  split = refl;
  left = e;
  bytes = append-nil (flatten front);
  total_left = omega arith;
  shape = inl (record { sent = 0; same = refl; unbegun = λ h. h });
}

-- The head is written whole, and then what `s` says of the others.
shift_shape :
    (b : WriteBuffer) (list left : List WriteBuffer) (f front front' : List (List ℕ))
    → (f ≡ [] → front ≡ [])
    → Whole list left front front' ⊎ Partly list left front front'
    → Whole (b ∷ list) left f front' ⊎ Partly (b ∷ list) left f front'
shift_shape b list left f front front' h (inl w) =
    inl (record { sent = suc w.sent; same = w.same; unbegun = λ e. w.unbegun (h e) })
shift_shape b list left f front front' h (inr p) = inr (record {
  sent = suc p.sent;
  head = p.head;
  tail = p.tail;
  count = p.count;
  at = p.at;
  some_bytes = p.some_bytes;
  same = p.same;
  begun = λ e. p.begun (h e);
})

whole_sent :
    (b : WriteBuffer) (bs : List WriteBuffer) (front q : List (List ℕ)) (done : Sending)
    → texts_of (b ∷ bs) ≡ front ++ q
    → ((front q : List (List ℕ)) → texts_of bs ≡ front ++ q → Sends bs front q done)
    → Sends (b ∷ bs) front q (record done { bytes = b.bytes ++ done.bytes })
whole_sent b bs [] [] done e ih = absurd (cons-ne-nil _ _ e)
whole_sent b bs [] (t ∷ q) done e ih =
    let s = ih [] q (ap (drop 1) e) in
    let same : t ≡ b.bytes = sym (ap head_of e) in
    record {
      begun = t ∷ s.begun;
      waiting = s.waiting;
      front' = s.front';
      split = ap (λ l. t ∷ l) s.split;
      left = s.left;
      bytes =
          ap (λ l. t ++ l) s.bytes
          ∙ ap (λ l. l ++ (done.bytes ++ flatten s.front')) same
          ∙ sym (append_assoc b.bytes done.bytes (flatten s.front'));
      total_left = omega (arith, s.total_left, length-append b.bytes done.bytes);
      shape = shift_shape b bs done.list [] [] s.front' (λ h. h) s.shape;
    }
whole_sent b bs (f ∷ front) q done e ih =
    let s = ih front q (ap (drop 1) e) in
    let same : f ≡ b.bytes = sym (ap head_of e) in
    record {
      begun = s.begun;
      waiting = s.waiting;
      front' = s.front';
      split = s.split;
      left = s.left;
      bytes =
          append_assoc f (flatten front) (flatten s.begun)
          ∙ ap (λ l. f ++ l) s.bytes
          ∙ ap (λ l. l ++ (done.bytes ++ flatten s.front')) same
          ∙ sym (append_assoc b.bytes done.bytes (flatten s.front'));
      total_left = omega (arith, s.total_left, length-append b.bytes done.bytes);
      shape =
          shift_shape b bs done.list (f ∷ front) front s.front' (λ h. absurd (cons-ne-nil _ _ h))
            s.shape;
    }

-- A part of the head is written.
part_sent :
    (b : WriteBuffer) (bs : List WriteBuffer) (front q : List (List ℕ)) (n : ℕ) (rest : List Answer)
    → 0 < n
    → n ≤ length b.bytes
    → texts_of (b ∷ bs) ≡ front ++ q
    → Sends
        (b ∷ bs)
        front
        q
        (record { broken = false; list = advance n b ∷ bs; bytes = take n b.bytes; rest = rest })
part_sent b bs [] [] n rest pos le e = absurd (cons-ne-nil _ _ e)
part_sent b bs [] (t ∷ q) n rest pos le e =
    let same : t ≡ b.bytes = sym (ap head_of e) in
    record {
      begun = t ∷ [];
      waiting = q;
      front' = drop n b.bytes ∷ [];
      split = refl;
      left = ap (λ l. drop n b.bytes ∷ l) (ap (drop 1) e);
      bytes =
          append-nil t
          ∙ same
          ∙ sym (take-append-drop n b.bytes)
          ∙ ap (λ l. take n b.bytes ++ l) (sym (append-nil (drop n b.bytes)));
      total_left = omega (arith, length-drop n b.bytes, length-take n b.bytes le);
      shape = inr (record {
        sent = 0;
        head = b;
        tail = bs;
        count = n;
        at = refl;
        some_bytes = pos;
        same = refl;
        begun = λ h. refl;
      });
    }
part_sent b bs (f ∷ front) q n rest pos le e =
    let same : f ≡ b.bytes = sym (ap head_of e) in
    record {
      begun = [];
      waiting = q;
      front' = drop n b.bytes ∷ front;
      split = refl;
      left = ap (λ l. drop n b.bytes ∷ l) (ap (drop 1) e);
      bytes =
          append-nil (f ++ flatten front)
          ∙ ap (λ l. l ++ flatten front) (same ∙ sym (take-append-drop n b.bytes))
          ∙ append_assoc (take n b.bytes) (drop n b.bytes) (flatten front);
      total_left = omega (arith, length-drop n b.bytes, length-take n b.bytes le);
      shape = inr (record {
        sent = 0;
        head = b;
        tail = bs;
        count = n;
        at = refl;
        some_bytes = pos;
        same = refl;
        begun = λ h. absurd (cons-ne-nil _ _ h);
      });
    }

pub send_loop-Sends :
    (answers : List Answer) (list : List WriteBuffer) (front q : List (List ℕ))
    → texts_of list ≡ front ++ q
    → Sends list front q (send_loop answers list)
unfolding send_loop
send_loop-Sends [] [] front q e = unsent [] front q false [] e
send_loop-Sends (a ∷ answers) [] front q e = unsent [] front q false (a ∷ answers) e
send_loop-Sends [] (b ∷ bs) front q e = unsent (b ∷ bs) front q false [] e
send_loop-Sends (interrupted ∷ answers) (b ∷ bs) front q e =
    send_loop-Sends answers (b ∷ bs) front q e
send_loop-Sends (again ∷ answers) (b ∷ bs) front q e = unsent (b ∷ bs) front q false answers e
send_loop-Sends (failed ∷ answers) (b ∷ bs) front q e = unsent (b ∷ bs) front q true answers e
send_loop-Sends (wrote n ∷ answers) (b ∷ bs) front q e =
    let sz = min_of n (length b.bytes) in
    elim (Bool-cases (sz == length b.bytes)) [
      | inl t ↦
          rw (send_loop, t)
            (whole_sent b bs front q (send_loop answers bs) e (send_loop-Sends answers bs))
      | inr f ↦ elim (Bool-cases (sz == 0)) [
        | inr some_sent ↦
            rw (send_loop, f) (part_sent b bs front q sz answers (ground arith) (ground arith) e)
        | inl none_sent ↦
            let nothing : sz ≡ 0 = ground arith in
            rw (send_loop, f)
              (subst
                (λ (m : ℕ). Sends (b ∷ bs) front q (record {
                  broken = false;
                  list = advance m b ∷ bs;
                  bytes = take m b.bytes;
                  rest = answers;
                }))
                (sym nothing)
                (subst
                  (λ (p : ℕ). Sends (b ∷ bs) front q (record {
                    broken = false;
                    list = record b { ptr = p } ∷ bs;
                    bytes = [];
                    rest = answers;
                  }))
                  (omega arith) (unsent (b ∷ bs) front q false answers e)))
      ]
    ]
