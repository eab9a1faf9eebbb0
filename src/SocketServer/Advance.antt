-- ===== src/SocketServer/Advance.antt =====
-- A round of writes begins texts in the order in which they wait.
use crynet.Prelude.{ℕ, ◌≡◌, sym, ap, ◌∙◌, List, [], ◌++◌, Bool, false, none, flatten}
use crynet.SocketServer.{WriteBuffer, Sending}
use crynet.SocketServer.Loop.{texts_of, Sends}
use crynet.SocketServer.Threads.{Request, Text}
use crynet.SocketServer.Order.{
  texts, keep, keep-append, texts-append, flatten-append, texts-split, texts-nil, Live,
}
use mathlib.Core.List.{append_assoc, append-nil}
use crynet.SocketServer.Cases.{append_nils}

-- The high list is written.
module _ {low : List WriteBuffer} {closing : Bool} {pipe : List Request} {wire : List ℕ}
    {asked : List Text} where
  pub Live-high :
      (high : List WriteBuffer) (r : Sending) (v : Live none high low closing pipe wire asked)
      → Sends high v.front (texts v.first) r
      → Live none r.list low closing pipe (wire ++ r.bytes) asked
  Live-high high r v s =
      let (b, w, same, now, later) = texts-split v.first s.begun s.waiting s.split in
      record {
        begun = v.begun ++ b;
        first = w;
        second = v.second;
        late = v.late;
        front = s.front';
        written =
            append_assoc wire r.bytes (flatten s.front')
            ∙ ap (λ l. wire ++ l) (sym s.bytes)
            ∙ sym (append_assoc wire (flatten v.front) (flatten s.begun))
            ∙ ap (λ l. l ++ flatten s.begun) v.written
            ∙ ap (λ l. flatten (texts v.begun) ++ flatten l) (sym now)
            ∙ sym (flatten-append (texts v.begun) (texts b))
            ∙ ap flatten (sym (texts-append v.begun b));
        high_texts = s.left ∙ ap (λ l. s.front' ++ l) (sym later);
        low_texts = v.low_texts;
        low_only = v.low_only;
        coming = v.coming;
        order = λ p.
            v.order p
            ∙ ap (keep p) (
                ap (λ l. v.begun ++ (l ++ (v.second ++ v.late))) same
                ∙ ap (λ l. v.begun ++ l) (append_assoc b w (v.second ++ v.late))
                ∙ sym (append_assoc v.begun b (w ++ (v.second ++ v.late))));
      }

  -- The low list is written, and its head may go to the empty high list.
  pub Live-low :
      (r : Sending) (v : Live none [] low closing pipe wire asked)
      (s : Sends low [] (texts v.second) r)
      → (high' low' : List WriteBuffer) → texts_of high' ≡ s.front'
      → texts_of low' ≡ s.waiting
      → Live none high' low' closing pipe (wire ++ r.bytes) asked
  Live-low r v s high' low' head_left tail_left =
      let (b, w, same, now, later) = texts-split v.second s.begun s.waiting s.split in
      let (no_front, no_texts) = append_nils v.front (texts v.first) v.high_texts in
      let no_first = texts-nil v.first no_texts in
      let before : wire ≡ flatten (texts v.begun) =
        sym (append-nil wire) ∙ ap (λ l. wire ++ flatten l) (sym no_front) ∙ v.written in
      record {
        begun = v.begun ++ b;
        first = [];
        second = w;
        late = v.late;
        front = s.front';
        written =
            append_assoc wire r.bytes (flatten s.front')
            ∙ ap (λ l. wire ++ l) (sym s.bytes)
            ∙ ap (λ l. l ++ flatten s.begun) before
            ∙ ap (λ l. flatten (texts v.begun) ++ flatten l) (sym now)
            ∙ sym (flatten-append (texts v.begun) (texts b))
            ∙ ap flatten (sym (texts-append v.begun b));
        high_texts = head_left ∙ sym (append-nil s.front');
        low_texts = tail_left ∙ sym later;
        low_only =
            (append_nils (keep false b) (keep false w)
              (sym v.low_only ∙ ap (keep false) same ∙ keep-append false b w)).1;
        coming = v.coming;
        order = λ p.
            v.order p
            ∙ ap (keep p) (
                ap (λ l. v.begun ++ (l ++ (v.second ++ v.late))) no_first
                ∙ ap (λ l. v.begun ++ (l ++ v.late)) same
                ∙ ap (λ l. v.begun ++ l) (append_assoc b w v.late)
                ∙ sym (append_assoc v.begun b (w ++ v.late)));
      }
