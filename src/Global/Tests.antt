-- ===== src/Global/Tests.antt =====
-- The theorems on the global queue, at a queue of two.
use crynet.Prelude.{◌≡◌, refl, [], ◌∷◌, some}
use crynet.Global.{GlobalQueue, init, push, pop}
use crynet.Global.Chain.{IsChain, init-IsChain, push-IsChain, pop-IsChain}

one_pushed : (g : GlobalQueue) × (push 7 init ≡ some g) × IsChain g (7 ∷ [])
one_pushed = push-IsChain 7 init-IsChain refl

push-IsChain_example : (g : GlobalQueue) × (push 3 one_pushed.0 ≡ some g) × IsChain g (7 ∷ 3 ∷ [])
push-IsChain_example = push-IsChain 3 one_pushed.2 refl

two_pushed : (g : GlobalQueue) × (push 3 one_pushed.0 ≡ some g) × IsChain g (7 ∷ 3 ∷ [])
two_pushed = push-IsChain 3 one_pushed.2 refl

pop-IsChain_example : (g : GlobalQueue) × (pop two_pushed.0 ≡ some (some 7, g)) × IsChain g (3 ∷ [])
pop-IsChain_example = pop-IsChain two_pushed.2
