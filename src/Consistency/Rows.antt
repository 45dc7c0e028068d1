-- ===== src/Consistency/Rows.antt =====
-- The statements on `orders` and the scripts on admissions, one by one: each keeps the two stores
-- consistent, under what its caller knows.
use lottery.Base.{
  ℕ, suc, ◌≡◌, refl, sym, ap, subst, ◌∙◌, ◌⊎◌, inl, inr, Bool, true, false, [], ◌∷◌, ◌++◌, arith,
  Option, none, some, Bool-cases, ◌==◌, if◌then◌else◌,
}
use lottery.Order.{OrderStatus, paid, cancelled, redis_mode, Order}
use lottery.Redis.{Redis}
use lottery.Redis.Progress.{may_become, Grows, Numbered}
use lottery.Redis.Units.{units}
use lottery.Ledger.{Ledger, first, update_where, has_id}
use lottery.Ledger.Rows.{
  Ids-append, Ids-update_where, first-append, first-update_where, first-id, first_id, update_found,
}
use lottery.Consistency.{LaterOrder, LaterOrder-refl, Extends, Backed, Sound}

-- What an update may do to the rows that it selects.
pub record Moves (p : Order → Bool) (f : Order → Order) (r : Redis) (l : Ledger) : Type 0 where
  pub id : (o : Order) → (f o).id ≡ o.id
  pub later : (o : Order) → first (has_id o.id) l.orders ≡ some o → p o ≡ true → LaterOrder o (f o)
  pub stays_backed :
      (o : Order)
      → first (has_id o.id) l.orders ≡ some o
      → p o ≡ true
      → (f o).inventory_mode ≡ redis_mode
      → Backed o r
      → Backed (f o) r

unfoldable pub updated : (Order → Bool) → (Order → Order) → Ledger → Ledger
updated p f l = record l { orders = update_where p f l.orders }

update_found-some :
    (p : Order → Bool) (f : Order → Order) (x : Option Order) {o : Order}
    → update_found p f x ≡ some o
    → (o' : Order) × (x ≡ some o') × (o ≡ (if p o' then f o' else o'))
update_found-some p f none e = absurd (cc)
update_found-some p f (some x) e = (x, refl, cc)

at_own_id :
    (i : ℕ) (l : Ledger) (o : Order)
    → first (has_id i) l.orders ≡ some o
    → first (has_id o.id) l.orders ≡ some o
at_own_id i l o e = subst (λ k. first (has_id k) l.orders ≡ some o) (sym (first-id i l.orders e)) e

pub updated-Extends :
    (p : Order → Bool) (f : Order → Order) (r : Redis) (l : Ledger)
    → Moves p f r l
    → Extends l (updated p f l)
unfolding updated
updated-Extends p f r l m i o e = elim (Bool-cases (p o)) [
  | inl t ↦
      (f o, first-update_where i p f l.orders m.id ∙ rw e (rw t), m.later o (at_own_id i l o e) t)
  | inr t ↦ (o, first-update_where i p f l.orders m.id ∙ rw e (rw t), LaterOrder-refl o)
]

Backed-after :
    (p : Order → Bool) (f : Order → Order) (r : Redis) (l : Ledger) (o o' : Order)
    → Moves p f r l
    → (o ≡ (if p o' then f o' else o'))
    → first (has_id o'.id) l.orders ≡ some o'
    → (o'.inventory_mode ≡ redis_mode → Backed o' r)
    → o.inventory_mode ≡ redis_mode
    → Backed o r
Backed-after p f r l o o' m e found b mode = elim (Bool-cases (p o')) [
  | inl t ↦
      let now : o ≡ f o' = rw t at e in
      let mode' : (f o').inventory_mode ≡ redis_mode =
        ap (λ (x : Order). x.inventory_mode) (sym now) ∙ mode in
      subst (λ x. Backed x r) (sym now)
        (m.stays_backed o' found t mode' (b (sym (m.later o' found t).mode ∙ mode')))
  | inr t ↦
      let now : o ≡ o' = rw t at e in
      subst (λ x. Backed x r) (sym now) (b (ap (λ (x : Order). x.inventory_mode) (sym now) ∙ mode))
]

pub updated-Sound :
    (stock : ℕ → ℕ) (p : Order → Bool) (f : Order → Order) (r : Redis) (l : Ledger)
    → Moves p f r l
    → Sound stock r l
    → Sound stock r (updated p f l)
unfolding updated
updated-Sound stock p f r l m s = record {
  ids = Ids-update_where 0 l.next_id p f l.orders m.id s.ids;
  backed = λ i o e mode.
      let (o', found, shape) =
        update_found-some p f (first (has_id i) l.orders)
          (sym (first-update_where i p f l.orders m.id) ∙ e) in
      Backed-after p f r l o o' m shape (at_own_id i l o' found) (λ h. s.backed i o' found h) mode;
  numbered = s.numbered;
  kept = s.kept;
}

unfoldable pub appended : Order → Ledger → Ledger
appended row l = record l { orders = l.orders ++ row ∷ []; next_id = suc l.next_id }

pub appended-Extends :
    (stock : ℕ → ℕ) (row : Order) (r : Redis) (l : Ledger)
    → row.id ≡ l.next_id
    → Sound stock r l
    → Extends l (appended row l)
unfolding appended
appended-Extends stock row r l e s i o h =
    (o, first-append 0 l.next_id i l.orders row s.ids e ∙ old, LaterOrder-refl o)
  where
    fresh : (l.next_id == i) ≡ false
    fresh = let (_, below, _) = first_id 0 l.next_id i l.orders {o = o} s.ids h in ground arith

    old : (if l.next_id == i then some row else first (has_id i) l.orders) ≡ some o
    old = rw fresh h

appended-Backed :
    (row : Order) (r : Redis) (x : Option Order) (o : Order) (b : Bool)
    → (if b then some row else x) ≡ some o
    → (row.inventory_mode ≡ redis_mode → Backed row r)
    → (x ≡ some o → o.inventory_mode ≡ redis_mode → Backed o r)
    → o.inventory_mode ≡ redis_mode
    → Backed o r
appended-Backed row r x o true e new old mode =
    let same : row ≡ o = cc in
    subst (λ y. Backed y r) same (new (ap (λ (y : Order). y.inventory_mode) same ∙ mode))
appended-Backed row r x o false e new old mode = old e mode

pub appended-Sound :
    (stock : ℕ → ℕ) (row : Order) (r : Redis) (l : Ledger)
    → row.id ≡ l.next_id
    → (row.inventory_mode ≡ redis_mode → Backed row r)
    → Sound stock r l
    → Sound stock r (appended row l)
unfolding appended
appended-Sound stock row r l e b s = record {
  ids = Ids-append 0 l.next_id l.orders row s.ids e;
  backed = λ i o h mode.
      appended-Backed row r (first (has_id i) l.orders) o (l.next_id == i)
        (sym (first-append 0 l.next_id i l.orders row s.ids e) ∙ h) b (s.backed i o) mode;
  numbered = s.numbered;
  kept = s.kept;
}

-- A final state of an admission stays.
final_stays :
    (s t u : OrderStatus) → (s ≡ paid) ⊎ (s ≡ cancelled) → t ≡ s → may_become t u ≡ true → u ≡ s
unfolding may_become
final_stays s t u f e h = ground arith

pub Backed-Grows : (o : Order) (r r' : Redis) → Grows r r' → Backed o r → Backed o r'
Backed-Grows o r r' g b =
    let (a, found, later) = g o.user_id b.admission b.found in
    record {
      admission = a;
      found = found;
      gift = later.gift ∙ b.gift;
      same = later.identity ∙ b.same;
      pays = λ h. final_stays paid b.admission.state a.state (inl refl) (b.pays h) later.state;
      cancels =
          λ h. final_stays cancelled b.admission.state a.state (inr refl) (b.cancels h) later.state;
    }

pub grown-Sound :
    (stock : ℕ → ℕ) (r r' : Redis) (l : Ledger)
    → Grows r r'
    → ((g : ℕ) → units g r' ≡ units g r)
    → Numbered r'
    → Sound stock r l
    → Sound stock r' l
grown-Sound stock r r' l grows units_kept numbered s = record {
  ids = s.ids;
  backed = λ i o h mode. Backed-Grows o r r' grows (s.backed i o h mode);
  numbered = numbered;
  kept = λ g. units_kept g ∙ s.kept g;
}
