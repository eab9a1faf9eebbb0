-- ===== src/SocketServer/Commands.antt =====
-- The other requests that the socket thread takes from the pipe keep what holds of the socket.
use crynet.Prelude.{
  ℕ, ◌≡◌, refl, sym, ap, ◌∙◌, List, ◌∷◌, Bool, true, false, ◌||◌, ◌&&◌, inl, inr, if◌then◌else◌,
  length, if_both,
}
use crynet.SocketServer.{
  SocketType, is_invalid, is_halfclose_read, is_halfclose_write, Socket, Outcome, ignore,
  socket_err, enable_write, enable_read,
}
use crynet.SocketServer.Threads.{Request, Text, trigger_write, pause_socket}
use crynet.SocketServer.Buffers.{nomore_sending_data, close_read, close_socket}
use crynet.SocketServer.Order.{Inv, force_close-Inv, pending}
use crynet.SocketServer.Cases.{not_both, not_second}
use crynet.SocketServer.Polls.{retype-Inv}
use crynet.SocketServer.Append.{repipe}

module _ (poll_fails : Bool) (rs : List Request) (wire : List ℕ) (asked : List Text)
    (s : Socket) where
  -- A request that sends nothing leaves what is to come.
  pub other_Inv :
      (r : Request)
      → pending (r ∷ rs) ≡ pending rs
      → Inv s (r ∷ rs) wire asked
      → Inv s rs wire asked
  other_Inv r same (sending, plain, counts, inl (live, v)) = (
    sending ∙ ap length same,
    plain.1,
    counts,
    inl (live, repipe v s.closing rs (λ e. v.coming e ∙ same)),
  )
  other_Inv r same (sending, plain, counts, inr over) =
      (sending ∙ ap length same, plain.1, counts, inr over)

  closing_Inv : Inv s rs wire asked → Inv (record s { closing = true }) rs wire asked
  closing_Inv (sending, plain, counts, inl (live, v)) =
      (sending, plain, counts, inl (live, repipe v true rs (λ e. absurd (not_both (sym e)))))
  closing_Inv (sending, plain, counts, inr over) = (sending, plain, counts, inr over)

  pub trigger_write-Inv : Inv s rs wire asked → Inv (trigger_write poll_fails s).1 rs wire asked
  unfolding trigger_write enable_write
  trigger_write-Inv inv =
      let P : Outcome × Socket → Type 0 = λ r. Inv r.1 rs wire asked in
      if_both P (is_invalid s.type) {x = (ignore, s)} (λ _. inv)
        (λ _.
          if_both P (poll_fails && (if s.writing then false else true))
            {x = (socket_err, enable_write true s)} {y = (ignore, enable_write true s)} (λ _. inv)
            (λ _. inv))

  pub pause_socket-Inv : Inv s rs wire asked → Inv (pause_socket poll_fails s).1 rs wire asked
  unfolding pause_socket enable_read
  pause_socket-Inv inv =
      if_both (λ (r : Outcome × Socket). Inv r.1 rs wire asked) (is_invalid s.type)
        {x = (ignore, s)}
        {y = (if poll_fails && s.reading then socket_err else ignore, enable_read false s)}
        (λ _. inv) (λ _. inv)

  pub close_socket-Inv :
      (shutdown : Bool) → Inv s rs wire asked → Inv (close_socket shutdown s).1 rs wire asked
  unfolding close_socket close_read enable_read nomore_sending_data
  close_socket-Inv shutdown inv =
      let P : Outcome × Socket → Type 0 = λ r. Inv r.1 rs wire asked in
      if_both P (is_invalid s.type) (λ _. inv)
        (λ valid.
          if_both P (shutdown || nomore_sending_data s) (λ _. force_close-Inv s inv)
            (λ more.
              if_both P (is_halfclose_read s.type) (λ _. closing_Inv inv)
                (λ _.
                  retype-Inv rs wire asked SocketType.halfclose_read (record s { closing = true })
                    refl
                    (not_second _ (is_halfclose_write s.type)
                      (not_second shutdown (nomore_sending_data s) more))
                    valid (closing_Inv inv))))
