-- ===== src/Ledger/Rows.antt =====
-- The rows of the table `orders` under the statements of order.go.
use lottery.Base.{
  ℕ, suc, ◌≤◌, ◌<◌, ◌≡◌, refl, inl, inr, Bool, true, List, [], ◌∷◌, ◌++◌, arith, Option, none, some,
  Bool-cases, ◌==◌, if◌then◌else◌,
}
use lottery.Order.{Order}
use lottery.Ledger.{first, update_where, has_id}

-- The ids rise from `lo` and stay below `hi`.
abbrev pub Ids : ℕ → ℕ → List Order → Type 0
Ids lo hi [] = lo ≤ hi
Ids lo hi (o ∷ os) = (lo ≤ o.id) × Ids (suc o.id) hi os

pub Ids-append :
    (lo hi : ℕ) (os : List Order) (row : Order)
    → Ids lo hi os
    → row.id ≡ hi
    → Ids lo (suc hi) (os ++ row ∷ [])
Ids-append lo hi [] row h e = omega arith
Ids-append lo hi (o ∷ os) row h e = (h.0, Ids-append (suc o.id) hi os row h.1 e)

pub Ids-update_where :
    (lo hi : ℕ) (p : Order → Bool) (f : Order → Order) (os : List Order)
    → ((o : Order) → (f o).id ≡ o.id)
    → Ids lo hi os
    → Ids lo hi (update_where p f os)
unfolding update_where
Ids-update_where lo hi p f [] keep h = h
Ids-update_where lo hi p f (o ∷ os) keep h = elim (Bool-cases (p o)) [
  | inl e ↦ rw (e, keep o) (h.0, Ids-update_where (suc o.id) hi p f os keep h.1)
  | inr e ↦ rw e (h.0, Ids-update_where (suc o.id) hi p f os keep h.1)
]

Ids-le : (lo hi : ℕ) (os : List Order) → Ids lo hi os → lo ≤ hi
Ids-le lo hi [] h = h
Ids-le lo hi (o ∷ os) h = omega (arith, Ids-le (suc o.id) hi os h.1)

pub first_id :
    (lo hi i : ℕ) (os : List Order) {o : Order}
    → Ids lo hi os
    → first (has_id i) os ≡ some o
    → (lo ≤ i) × (i < hi) × (o.id ≡ i)
unfolding first
first_id lo hi i [] h e = absurd (cc)
first_id lo hi i (x ∷ os) {o} h e =
    ground (arith, first_id (suc x.id) hi i os {o = o} h.1, Ids-le (suc x.id) hi os h.1)

-- A row that is found at all is what its id finds.
pub first-by_id :
    (lo hi : ℕ) (p : Order → Bool) (os : List Order) {o : Order}
    → Ids lo hi os
    → first p os ≡ some o
    → (first (has_id o.id) os ≡ some o) × (p o ≡ true) × (lo ≤ o.id)
unfolding first
first-by_id lo hi p [] h e = absurd (cc)
first-by_id lo hi p (x ∷ os) {o} h e = elim (Bool-cases (p x)) [
  | inl t ↦ ground arith
  | inr t ↦
      let (found, holds, above) = first-by_id (suc x.id) hi p os {o = o} h.1 (ground arith) in
      ground arith
]

pub first-id : (i : ℕ) (os : List Order) {o : Order} → first (has_id i) os ≡ some o → o.id ≡ i
unfolding first
first-id i [] e = absurd (cc)
first-id i (x ∷ os) {o} e = ground (arith, first-id i os {o = o})

-- A new row under the next id hides no other.
pub first-append :
    (lo hi i : ℕ) (os : List Order) (row : Order)
    → Ids lo hi os
    → row.id ≡ hi
    → first (has_id i) (os ++ row ∷ []) ≡ (if hi == i then some row else first (has_id i) os)
unfolding first
first-append lo hi i [] row h e = ground arith
first-append lo hi i (x ∷ os) row h e =
    ground (arith, first-append (suc x.id) hi i os row h.1 e, Ids-le (suc x.id) hi os h.1)

abbrev pub update_found : (Order → Bool) → (Order → Order) → Option Order → Option Order
update_found p f none = none
update_found p f (some o) = some (if p o then f o else o)

pub first-update_where :
    (i : ℕ) (p : Order → Bool) (f : Order → Order) (os : List Order)
    → ((o : Order) → (f o).id ≡ o.id)
    → first (has_id i) (update_where p f os) ≡ update_found p f (first (has_id i) os)
unfolding first update_where
first-update_where i p f [] keep = refl
first-update_where i p f (x ∷ os) keep = ground (arith, keep x, first-update_where i p f os keep)
