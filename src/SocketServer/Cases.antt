-- ===== src/SocketServer/Cases.antt =====
-- Lemmas on tests, on empty lists, and on what a type says of its socket.
use crynet.Prelude.{◌≡◌, refl, sym, ◌∙◌, List, [], ◌∷◌, ◌++◌, Bool, true, false, ◌||◌, ◌&&◌}
use crynet.SocketServer.{
  is_connected, SocketType, is_invalid, WriteBuffer, is_nil, is_halfclose_write,
}
use crynet.SocketServer.Loop.{total}
use crynet.SocketServer.Order.{is_live, is_dead}
use mathlib.Core.List.{cons-ne-nil}

pub not_both : false ≡ true → ⊥
not_both e = cc

pub both : (a b : Bool) → (a && b) ≡ true → (a ≡ true) × (b ≡ true)
both true b e = (refl, e)
both false b e = cc

pub not_second : (a b : Bool) → (a || b) ≡ false → b ≡ false
not_second true b e = absurd (not_both (sym e))
not_second false b e = e

pub nil_total : (bs : List WriteBuffer) → is_nil bs ≡ true → total bs ≡ 0
unfolding is_nil
nil_total [] e = refl
nil_total (b ∷ bs) e = cc

pub nil_list : (bs : List WriteBuffer) → is_nil bs ≡ true → bs ≡ []
unfolding is_nil
nil_list [] e = refl
nil_list (b ∷ bs) e = cc

pub append_nils : {A : Type 0} (xs ys : List A) → [] ≡ xs ++ ys → (xs ≡ []) × (ys ≡ [])
append_nils [] ys e = (refl, sym e)
append_nils (x ∷ xs) ys e = absurd (cons-ne-nil _ _ (sym e))

pub is_live_valid : (type : SocketType) → is_live type ≡ true → is_invalid type ≡ false
unfolding is_invalid
is_live_valid SocketType.invalid e = sym e
is_live_valid SocketType.reserve e = refl
is_live_valid SocketType.plisten e = refl
is_live_valid SocketType.listen e = refl
is_live_valid SocketType.connecting e = refl
is_live_valid SocketType.connected e = refl
is_live_valid SocketType.halfclose_read e = refl
is_live_valid SocketType.halfclose_write e = refl
is_live_valid SocketType.paccept e = refl
is_live_valid SocketType.bind e = refl

pub first_of : (a b : Bool) → (a || b) ≡ true → b ≡ false → a ≡ true
first_of true b e f = refl
first_of false b e f = sym f ∙ e

pub is_connected_live :
    (type : SocketType)
    → is_connected type ≡ true
    → (is_live type ≡ true) × (is_halfclose_write type ≡ false) × (is_dead type ≡ false)
unfolding is_connected is_halfclose_write
is_connected_live SocketType.connected e = (refl, refl, refl)
is_connected_live SocketType.invalid e = absurd (not_both e)
is_connected_live SocketType.reserve e = absurd (not_both e)
is_connected_live SocketType.plisten e = absurd (not_both e)
is_connected_live SocketType.listen e = absurd (not_both e)
is_connected_live SocketType.connecting e = absurd (not_both e)
is_connected_live SocketType.halfclose_read e = absurd (not_both e)
is_connected_live SocketType.halfclose_write e = absurd (not_both e)
is_connected_live SocketType.paccept e = absurd (not_both e)
is_connected_live SocketType.bind e = absurd (not_both e)

pub is_live_open : (type : SocketType) → is_live type ≡ true → is_halfclose_write type ≡ false
unfolding is_halfclose_write
is_live_open SocketType.invalid e = refl
is_live_open SocketType.reserve e = refl
is_live_open SocketType.plisten e = refl
is_live_open SocketType.listen e = refl
is_live_open SocketType.connecting e = refl
is_live_open SocketType.connected e = refl
is_live_open SocketType.halfclose_read e = refl
is_live_open SocketType.halfclose_write e = sym e
is_live_open SocketType.paccept e = refl
is_live_open SocketType.bind e = refl

pub is_dead_shut :
    (type : SocketType)
    → is_invalid type ≡ false
    → is_dead type ≡ true
    → is_halfclose_write type ≡ true
unfolding is_invalid is_halfclose_write
is_dead_shut SocketType.invalid v e = sym v
is_dead_shut SocketType.reserve v e = e
is_dead_shut SocketType.plisten v e = e
is_dead_shut SocketType.listen v e = e
is_dead_shut SocketType.connecting v e = e
is_dead_shut SocketType.connected v e = e
is_dead_shut SocketType.halfclose_read v e = e
is_dead_shut SocketType.halfclose_write v e = refl
is_dead_shut SocketType.paccept v e = e
is_dead_shut SocketType.bind v e = e
