-- ===== src/Gate/Ctrl.antt =====
-- The commands of the gate (`_ctrl` in skynet/service-src/service_gate.c), and what clients write.
use Prim.Native.Nat.{bit_or}
use crynet.Prelude.{
  ℕ, suc, ◌-◌, ◌*◌, ◌^◌, List, [], ◌∷◌, ◌++◌, Option, some, none, Bool, true, false, ◌&&◌, leb,
  ◌==◌, if◌then◌else◌, length, take, drop, get_or,
}
use crynet.Gate.{Gate, Action, close, start, write, with_conn}
use crynet.Gate.Ids

-- The length of the first word.
pub word_length : List ℕ → ℕ
word_length [] = 0
word_length (c ∷ cs) = if c == b' ' then 0 else suc (word_length cs)

-- `memcmp` of the first word with a literal, which ends with 0. A word that is longer than the
-- literal differs from it there.
pub same_bytes : List ℕ → List ℕ → Bool
same_bytes [] word = true
same_bytes (x ∷ xs) [] = false
same_bytes (x ∷ xs) (y ∷ ys) = x == y && same_bytes xs ys

pub is_command : List ℕ → List ℕ → Bool
unfolding word_length same_bytes
is_command msg word = same_bytes (take (word_length msg) msg) (word ++ 0 ∷ [])

pub skip_spaces : List ℕ → List ℕ
skip_spaces [] = []
skip_spaces (c ∷ cs) = if c == b' ' then skip_spaces cs else c ∷ cs

-- `_parm`
pub parm : List ℕ → List ℕ
unfolding word_length skip_spaces
parm msg = skip_spaces (drop (word_length msg) msg)

-- `_forward_agent`
pub forward_agent : Gate → ℕ → ℕ → ℕ → Gate
forward_agent g fd agentaddr clientaddr = elim (Ids.lookup g.hash fd) [
  | none ↦ g
  | some i ↦ with_conn g i (record (g.conn i) { agent = agentaddr; client = clientaddr })
]

-- The ids of the words, which `strtol` reads, the three numbers of a `forward` command, which
-- `strsep`, `strtol` and `strtoul` read, and `skynet_queryname`.
module _ (strtol : List ℕ → ℕ) (forward_args : List ℕ → Option (ℕ × ℕ × ℕ))
    (queryname : List ℕ → ℕ) where
  -- A connection that a command names.
  if_known : Gate → List ℕ → (ℕ → Action) → List Action × Gate
  if_known g text act =
      let uid = strtol text in
      elim (Ids.lookup g.hash uid) [ none ↦ ([], g) | some i ↦ (act uid ∷ [], g) ]

  -- `_ctrl`
  pub ctrl : Gate → List ℕ → List Action × Gate
  unfolding if_known
  ctrl g [] = ([], g)
  ctrl g (c ∷ cs) =
      let msg = c ∷ cs in
      let forwarded : List Action × Gate = elim (forward_args (parm msg)) [
        | none ↦ ([], g)
        | some (id, agent, client) ↦ ([], forward_agent g id agent client)
      ] in
      let closed : List Action × Gate = elim (g.listen_id) [
        | none ↦ ([], g)
        | some id ↦ (close id ∷ [], record g { listen_id = none })
      ] in
      if is_command msg (b'k' ∷ b'i' ∷ b'c' ∷ b'k' ∷ [])
      then if_known g (parm msg) close
      else if is_command msg (b'f' ∷ b'o' ∷ b'r' ∷ b'w' ∷ b'a' ∷ b'r' ∷ b'd' ∷ [])
      then forwarded
      else if is_command msg (b'b' ∷ b'r' ∷ b'o' ∷ b'k' ∷ b'e' ∷ b'r' ∷ [])
      then ([], record g { broker = queryname (parm msg) })
      else if is_command msg (b's' ∷ b't' ∷ b'a' ∷ b'r' ∷ b't' ∷ [])
      then if_known g (parm msg) start
      else if is_command msg (b'c' ∷ b'l' ∷ b'o' ∷ b's' ∷ b'e' ∷ [])
      then closed
      else ([], g)

-- The case PTYPE_CLIENT of `_cb`: the last four bytes are the id of the socket, lowest first. The
-- result says whether the message is kept.
pub on_client : Gate → List ℕ → Bool × List Action
on_client g msg =
    let n = length msg - 4 in
    let idbuf = drop n msg in
    let b = λ (i : ℕ). get_or idbuf i 0 in
    let uid = bit_or (bit_or (bit_or (b 0) (b 1 * 2 ^ 8)) (b 2 * 2 ^ 16)) (b 3 * 2 ^ 24) in
    let known : Bool × List Action = elim (Ids.lookup g.hash uid) [
      | none ↦ (false, [])
      | some i ↦ (true, write uid (take n msg) ∷ [])
    ] in
    if leb (length msg) 4 then (false, []) else known
