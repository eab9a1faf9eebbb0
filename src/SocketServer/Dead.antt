-- ===== src/SocketServer/Dead.antt =====
-- A socket that cannot be written to any more.
use crynet.Prelude.{
  ℕ, ◌+◌, ◌-◌, ◌≡◌, refl, sym, ◌∙◌, List, [], ◌∷◌, ◌++◌, Bool, true, false, inr, length, arith,
  if_both,
}
use crynet.SocketServer.{
  is_invalid, WriteBuffer, Socket, failed, send_loop, count_written, list_uncomplete, is_nil,
  send_buffer_empty,
}
use crynet.SocketServer.Loop.{total, AllFresh, fresh_complete}
use crynet.SocketServer.Threads.{Request, Text}
use crynet.SocketServer.Buffers.{send_low, send_lists}
use crynet.SocketServer.Order.{Over, Inv, is_dead, pending, AllPlain}
use mathlib.Core.List.{append-nil}
use mathlib.Core.Path.{subst}
use crynet.SocketServer.Cases.{not_both}
use crynet.SocketServer.Writes.{Keeps, sent_all-Keeps, broken_write-Keeps}

-- A socket whose writing end is shut down writes nothing, and no assertion fails there either.
module _ (poll_fails : Bool) (s : Socket) (pipe : List Request) (wire : List ℕ) (asked : List Text)
    (valid : is_invalid s.type ≡ false) (dead : is_dead s.type ≡ true)
    (count : s.sending ≡ length (pending pipe)) (plain : AllPlain pipe)
    (over : Over wire asked) where
  unwritten : Over (wire ++ []) asked
  unwritten = subst (λ w. Over w asked) (sym (append-nil wire)) over

  module _ (high low : List WriteBuffer) (fresh : AllFresh low) where
    dead_Inv :
        (size : ℕ)
        → size ≡ total high + total low
        → Inv (record s { high = high; low = low; wb_size = size }) pipe (wire ++ []) asked
    dead_Inv size e = (count, plain, λ _. (e, fresh), inr (dead, unwritten))

  pub broken_lists :
      (high low : List WriteBuffer)
      → s.wb_size ≡ total high + total low
      → AllFresh low
      → Keeps pipe wire asked
          (send_lists poll_fails (failed ∷ []) (record s { high = high; low = low }))
  unfolding send_lists send_low send_loop count_written is_nil list_uncomplete send_buffer_empty
  broken_lists [] [] size fresh =
      sent_all-Keeps poll_fails wire [] _ valid refl
        (dead_Inv [] [] fresh (s.wb_size - 0 - 0) (omega arith))
  broken_lists [] (b ∷ bs) size fresh =
      if_both (Keeps pipe wire asked) (list_uncomplete (b ∷ bs))
        (λ e. absurd (not_both (sym (fresh_complete (b ∷ bs) fresh) ∙ e)))
        (λ _.
          broken_write-Keeps wire [] _ valid
            (dead_Inv [] (b ∷ bs) fresh (s.wb_size - 0 - 0) (omega arith)))
  broken_lists (h ∷ hs) low size fresh =
      if_both (Keeps pipe wire asked) (list_uncomplete low)
        (λ e. absurd (not_both (sym (fresh_complete low fresh) ∙ e)))
        (λ _.
          broken_write-Keeps wire [] _ valid
            (dead_Inv (h ∷ hs) low fresh (s.wb_size - 0) (omega arith)))
