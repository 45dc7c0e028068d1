-- ===== src/Consistency/Facts.antt =====
-- What a handler of internal/service knows from a call that it made, and still knows later.
use lottery.Base.{
  ℕ, ◌≡◌, refl, ap, ◌∙◌, ◌≢◌, ◌⊎◌, inl, inr, Bool, true, false, ◌&&◌, arith, [], ◌∷◌, Text, Option,
  none, some, lookup, Bool-cases, if◌then◌else◌,
}
use lottery.Order.{OrderStatus, OrderIdentity, redis_mode, Order, is_empty, same_identity}
use lottery.Redis.{Admission, matches}
use lottery.Redis.Progress.{Later, Later-refl, Later-trans}
use lottery.Redis.Settled.{Settled, may_become_final, IsFinal}
use lottery.Ledger.{first, has_id, of_user, find_order, find_order_identity, legacy_only}
use lottery.Ledger.Rows.{first-by_id}
use lottery.Program.{World}
use lottery.Consistency.{LaterOrder, LaterOrder-refl, LaterOrder-trans, Sound, Before}

-- The user's admission was seen in this state.
pub record Seen (uid : ℕ) (a : Admission) (w : World) : Type 0 where
  pub now : Admission
  pub found : lookup uid w.redis.admissions ≡ some now
  pub later : Later a now

pub Seen-Before : (uid : ℕ) (a : Admission) (w v : World) → Before w v → Seen uid a w → Seen uid a v
Seen-Before uid a w v le s =
    let (b, found, later) = le.0 uid s.now s.found in
    record { now = b; found = found; later = Later-trans s.later later }

pub Seen-here :
    (uid : ℕ) (a : Admission) (w : World) → lookup uid w.redis.admissions ≡ some a → Seen uid a w
Seen-here uid a w e = record { now = a; found = e; later = Later-refl a }

-- An order that was read: the user's, of that identity if of the Redis path, and in the table.
pub record Known (uid : ℕ) (id : OrderIdentity) (o : Order) (w : World) : Type 0 where
  pub user : o.user_id ≡ uid
  pub same : o.inventory_mode ≡ redis_mode → o.identity ≡ id
  pub row : Order
  pub found : first (has_id o.id) w.ledger.orders ≡ some row
  pub later : LaterOrder o row

pub Known-Before :
    (uid : ℕ) (id : OrderIdentity) (o : Order) (w v : World)
    → Before w v
    → Known uid id o w
    → Known uid id o v
Known-Before uid id o w v le k =
    let (row, found, later) = le.1 o.id k.row k.found in
    record {
      user = k.user;
      same = k.same;
      row = row;
      found = found;
      later = LaterOrder-trans o k.row row k.later later;
    }

same_identity-eq : (a b : OrderIdentity) → same_identity a b ≡ true → a ≡ b
same_identity-eq a b h = ground arith

pub matches-eq :
    (a : Admission) (gift_id : ℕ) (id : OrderIdentity)
    → matches (some a) gift_id id ≡ true
    → (a.gift_id ≡ gift_id) × (a.identity ≡ id)
unfolding matches
matches-eq a gift_id id h = ground arith

-- A seen admission of this gift and order that was paid, or cancelled, still is.
pub Seen-Settled :
    (uid gift_id : ℕ) (id : OrderIdentity) (state : OrderStatus) (a : Admission) (w : World)
    → IsFinal state
    → a.state ≡ state
    → matches (some a) gift_id id ≡ true
    → Seen uid a w
    → Settled uid gift_id id state w.redis
Seen-Settled uid gift_id id state a w f e h s =
    let (gift, same) = matches-eq a gift_id id h in
    record {
      admission = s.now;
      found = s.found;
      gift = s.later.gift ∙ gift;
      same = s.later.identity ∙ same;
      reached = may_become_final a.state s.now.state (rw e f) s.later.state ∙ e;
    }

legacy_eq :
    (x : Option Order) {o : Order}
    → legacy_only x ≡ some o
    → (x ≡ some o) × (is_empty o.order_id ≡ true)
unfolding legacy_only
legacy_eq none e = absurd (cc)
legacy_eq (some x) e = elim (Bool-cases (is_empty x.order_id)) [
  | inl t ↦ ground arith
  | inr t ↦ ground arith
]

-- A Redis order has a number, so that it is no legacy order.
numbered_order :
    (stock : ℕ → ℕ) (w : World) (o : Order)
    → Sound stock w.redis w.ledger
    → first (has_id o.id) w.ledger.orders ≡ some o
    → o.inventory_mode ≡ redis_mode
    → is_empty o.order_id ≢ true
numbered_order stock w o s e mode h =
    let b = s.backed o.id o e mode in
    s.numbered o.user_id b.admission b.found
      (ap (λ (i : OrderIdentity). i.order_id) b.same ∙ no_text o.order_id h)
  where
    no_text : (t : Text) → is_empty t ≡ true → t ≡ []
    no_text [] e = refl
    no_text (c ∷ t) e = absurd (cc)

Known-at :
    (uid : ℕ) (id : OrderIdentity) (w : World) {o : Order}
    → first (has_id o.id) w.ledger.orders ≡ some o
    → o.user_id ≡ uid
    → (o.inventory_mode ≡ redis_mode → o.identity ≡ id)
    → Known uid id o w
Known-at uid id w {o} found user same = record {
  user = user;
  same = same;
  row = o;
  found = found;
  later = LaterOrder-refl o;
}

of_user-eq : (activity uid : ℕ) (o : Order) → of_user activity uid o ≡ true → o.user_id ≡ uid
of_user-eq activity uid o h = ground arith

selected_eq :
    (activity uid : ℕ) (id : OrderIdentity) (o : Order)
    → (same_identity o.identity id && of_user activity uid o) ≡ true
    → (o.identity ≡ id) × (o.user_id ≡ uid)
selected_eq activity uid id o h = ground arith

either :
    (b : Bool) (x y : Option Order) {o : Order}
    → (if b then x else y) ≡ some o
    → (x ≡ some o) ⊎ (y ≡ some o)
either true x y e = inl e
either false x y e = inr e

pub find_order_identity-Known :
    (stock : ℕ → ℕ) (activity uid : ℕ) (id : OrderIdentity) (w : World) {o : Order}
    → Sound stock w.redis w.ledger
    → find_order_identity activity uid id w.ledger ≡ some o
    → Known uid id o w
unfolding find_order_identity find_order
find_order_identity-Known stock activity uid id w {o} s e = elim (either _ _ _ e) [
  | inl x ↦
      let (y, legacy) = legacy_eq (find_order activity uid w.ledger) x in
      let (found, holds, _) =
        first-by_id 0 w.ledger.next_id (of_user activity uid) w.ledger.orders s.ids y in
      Known-at uid id w found (of_user-eq activity uid o holds)
        (λ mode. absurd (numbered_order stock w o s found mode legacy))
  | inr x ↦
      let (found, holds, _) =
        first-by_id 0 w.ledger.next_id (λ o. same_identity o.identity id && of_user activity uid o)
          w.ledger.orders s.ids x in
      let (same, user) = selected_eq activity uid id o holds in
      Known-at uid id w found user (λ _. same)
]
