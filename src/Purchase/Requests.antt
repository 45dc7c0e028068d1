-- ===== src/Purchase/Requests.antt =====
-- internal/service/purchase_experiment.go: the request of an experiment, the ids of its purchases
-- and the delays of the publisher.
use lottery.Base.{
  refl, sym, ◌∙◌, fold_case, all_digits, all_digits-decimal, ℕ, zero, suc, ap, ◌+◌, ◌-◌, ◌*◌, ◌^◌,
  ◌≤◌, ◌<◌, ◌≡◌, ◌≢◌, Bool, true, false, ◌&&◌, ◌||◌, not, Text, [], ◌∷◌, ◌++◌, arith, ltb, leb,
  ◌==◌, if◌then◌else◌, length, length-append, decimal, value_from, value_from-decimal,
  length-decimal,
}

pub data PurchaseStrategy : Type 0 where
  sync_invalidate outbox_mq_invalidate other_strategy : PurchaseStrategy

pub record PurchaseExperimentRequest : Type 0 where
  pub request_id : Text
  pub strategy : PurchaseStrategy
  pub purchase_count : ℕ
  pub query_count : ℕ

abbrev pub max_purchase_batch : ℕ
max_purchase_batch = 150

abbrev pub max_query_batch : ℕ
max_query_batch = 20

abbrev is_alphanumeric : ℕ → Bool
is_alphanumeric c = leb b'A' c && leb c b'Z' || leb b'a' c && leb c b'z' || leb b'0' c && leb c b'9'

abbrev is_id_char : ℕ → Bool
is_id_char c = is_alphanumeric c || c == b'.' || c == b'_' || c == b':' || c == b'-'

unfoldable pub all_id_chars : Text → Bool
all_id_chars [] = true
all_id_chars (c ∷ cs) = is_id_char c && all_id_chars cs

-- ^[A-Za-z0-9][A-Za-z0-9._:-]{7,95}$
unfoldable pub matches_request_id : Text → Bool
unfolding all_id_chars
matches_request_id [] = false
matches_request_id (c ∷ cs) =
    is_alphanumeric c && all_id_chars cs && leb 7 (length cs) && leb (length cs) 95

pub data RequestFault : Type 0 where
  no_fault invalid_strategy invalid_request_id : RequestFault
  invalid_purchase_count invalid_query_count : RequestFault

abbrev is_known : PurchaseStrategy → Bool
is_known other_strategy = false
is_known _ = true

-- validatePurchaseExperimentRequest: the first test that fails.
unfoldable pub validate_purchase_experiment_request : PurchaseExperimentRequest → RequestFault
unfolding matches_request_id
validate_purchase_experiment_request r =
    if not (is_known r.strategy)
    then invalid_strategy
    else if not (matches_request_id r.request_id)
    then invalid_request_id
    else if ltb r.purchase_count 1 || ltb max_purchase_batch r.purchase_count
    then invalid_purchase_count
    else if ltb max_query_batch r.query_count
    then invalid_query_count
    else no_fault

-- %02d
unfoldable pub two_digits : ℕ → Text
two_digits n = if ltb n 10 then b'0' ∷ decimal n else decimal n

unfoldable pub purchase_child_request_id : Text → ℕ → ℕ → Text
unfolding two_digits
purchase_child_request_id batch_id index total =
    if total == 1 then batch_id else batch_id ++ b'-' ∷ b'p' ∷ two_digits (index + 1)

-- "purchase-cache-"
abbrev purchase_cache : Text
purchase_cache =
    b'p' ∷ b'u' ∷ b'r' ∷ b'c' ∷ b'h' ∷ b'a' ∷ b's' ∷ b'e' ∷ b'-' ∷ b'c' ∷ b'a' ∷ b'c' ∷ b'h' ∷ b'e'
    ∷ b'-' ∷ []

-- The id of the event that executePurchase gives a purchase.
unfoldable pub purchase_event_id : Text → Text
purchase_event_id child_request_id = purchase_cache ++ child_request_id

abbrev pub millisecond : ℕ
millisecond = 1_000_000

abbrev clamp_retry : ℕ → ℕ
clamp_retry retry = if ltb retry 1 then 1 else if ltb 6 retry then 6 else retry

-- In nanoseconds.
unfoldable pub purchase_outbox_retry_delay : ℕ → ℕ
purchase_outbox_retry_delay retry = 2 ^ (clamp_retry retry - 1) * 250 * millisecond

value_from-two_digits : (n : ℕ) → value_from 0 (two_digits n) ≡ n
unfolding two_digits value_from
value_from-two_digits n = ground (arith, value_from-decimal n)

append-cancel : (a b c : Text) → a ++ b ≡ a ++ c → b ≡ c
append-cancel [] b c h = h
append-cancel (x ∷ a) b c h = append-cancel a b c (cc)

-- What MySQL takes for one key.
abbrev pub SameKey : Text → Text → Type 0
SameKey a b = fold_case a ≡ fold_case b

fold_case-append : (a b : Text) → fold_case (a ++ b) ≡ fold_case a ++ fold_case b
unfolding fold_case
fold_case-append [] b = refl
fold_case-append (c ∷ a) b =
    ap (λ (t : Text). (if leb b'A' c && leb c b'Z' then c + 32 else c) ∷ t) (fold_case-append a b)

fold_case-digits : (t : Text) → all_digits t ≡ true → fold_case t ≡ t
unfolding fold_case all_digits
fold_case-digits [] h = refl
fold_case-digits (c ∷ t) h = ground (arith, fold_case-digits t)

two_digits-all_digits : (n : ℕ) → all_digits (two_digits n) ≡ true
unfolding two_digits all_digits
two_digits-all_digits n = ground (arith, all_digits-decimal n)

child_id_tail :
    (batch_id : Text) (i j total : ℕ)
    → total ≢ 1
    → fold_case (purchase_child_request_id batch_id i total)
      ≡ fold_case (purchase_child_request_id batch_id j total)
    → two_digits (i + 1) ≡ two_digits (j + 1)
unfolding purchase_child_request_id fold_case
child_id_tail batch_id i j total many h =
    let tail = λ (k : ℕ). b'-' ∷ b'p' ∷ two_digits (k + 1) in
    let e : fold_case (tail i) ≡ fold_case (tail j) = append-cancel (fold_case batch_id) _ _ (
      sym (fold_case-append batch_id (tail i))
      ∙ ground arith
      ∙ fold_case-append batch_id (tail j)) in
    let left = fold_case-digits (two_digits (i + 1)) (two_digits-all_digits (i + 1)) in
    let right = fold_case-digits (two_digits (j + 1)) (two_digits-all_digits (j + 1)) in cc

-- In a batch the ids of the events are equal to MySQL only if those of the requests are.
pub purchase_event_id-injective :
    (a b : Text) → SameKey (purchase_event_id a) (purchase_event_id b) → SameKey a b
unfolding purchase_event_id
purchase_event_id-injective a b h =
    append-cancel (fold_case purchase_cache) _ _
      (sym (fold_case-append purchase_cache a) ∙ h ∙ fold_case-append purchase_cache b)

-- In a batch of several purchases, no two have one request id, however many they are, not even if
-- letters of either case are one.
pub purchase_child_request_id-injective :
    (batch_id : Text) (i j total : ℕ)
    → total ≢ 1
    → SameKey
        (purchase_child_request_id batch_id i total)
        (purchase_child_request_id batch_id j total)
    → i ≡ j
purchase_child_request_id-injective batch_id i j total many h =
    let e = ap (value_from 0) (child_id_tail batch_id i j total many h) in
    omega (arith, value_from-two_digits (i + 1), value_from-two_digits (j + 1))

length-request_id : (s : Text) → matches_request_id s ≡ true → length s ≤ 96
unfolding matches_request_id
length-request_id [] h = omega arith
length-request_id (c ∷ cs) h = ground arith

-- The ids of every purchase of a request that passes the validation fit the columns of the tables:
-- 96 characters for the batch, 128 for the request, 160 for the event.
pub ids-fit :
    (r : PurchaseExperimentRequest) (i : ℕ)
    → validate_purchase_experiment_request r ≡ no_fault
    → i < r.purchase_count
    → let child = purchase_child_request_id r.request_id i r.purchase_count in
      (length r.request_id ≤ 96) × (length child ≤ 128) × (length (purchase_event_id child) ≤ 160)
unfolding validate_purchase_experiment_request purchase_child_request_id two_digits
    purchase_event_id
ids-fit r i valid h = ground (
  arith,
  length-request_id r.request_id,
  length-append r.request_id (b'-' ∷ b'p' ∷ two_digits (i + 1)),
  length-decimal (i + 1),
)

clamp_retry_high : (n : ℕ) → 6 ≤ n → clamp_retry n ≡ 6
clamp_retry_high n h = ground arith

-- The delay before a publication is tried again is between 250 ms and 8 s, never falls as the
-- tries go on, and doubles up to the sixth.
pub purchase_outbox_retry_delay_bounds :
    (retry : ℕ)
    → (250 * millisecond ≤ purchase_outbox_retry_delay retry)
      × (purchase_outbox_retry_delay retry ≤ 8000 * millisecond)
      × (purchase_outbox_retry_delay retry ≤ purchase_outbox_retry_delay (suc retry))
      × (1 ≤ retry
          → retry < 6
          → purchase_outbox_retry_delay (suc retry) ≡ 2 * purchase_outbox_retry_delay retry)
unfolding purchase_outbox_retry_delay
purchase_outbox_retry_delay_bounds zero = omega arith
purchase_outbox_retry_delay_bounds (suc zero) = omega arith
purchase_outbox_retry_delay_bounds (suc (suc zero)) = omega arith
purchase_outbox_retry_delay_bounds (suc (suc (suc zero))) = omega arith
purchase_outbox_retry_delay_bounds (suc (suc (suc (suc zero)))) = omega arith
purchase_outbox_retry_delay_bounds (suc (suc (suc (suc (suc zero))))) = omega arith
purchase_outbox_retry_delay_bounds (suc (suc (suc (suc (suc (suc n)))))) =
    rw
      (
        clamp_retry_high (suc (suc (suc (suc (suc (suc n)))))) (omega arith),
        clamp_retry_high (suc (suc (suc (suc (suc (suc (suc n))))))) (omega arith),
      )
      (omega arith)
