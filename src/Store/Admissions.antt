-- ===== src/Store/Admissions.antt =====
-- internal/database/order_identity.go and admission.go: the identities, the run and the admissions,
-- as programs over the calls of Program.antt.
use lottery.Base.{
  ℕ, zero, suc, ◌+◌, ◌-◌, ◌/◌, ◌%◌, Bool, ◌&&◌, ◌||◌, not, Text, [], ◌∷◌, Option, none, some, ◌==◌,
  ltb, if◌then◌else◌,
}
use lottery.Order.{OrderStatus, other_status, OrderIdentity, is_empty, is_valid}
use lottery.Redis.{Admission, Acquire}
use lottery.Program.{
  Prog, ret, ◌>>=◌, ask, sense, pass, Result, ok, err, failed, get_run, set_run_if_absent, acquire,
  read_admission, mark, claim, release, entropy,
}

unfoldable pub hex_digit : ℕ → ℕ
hex_digit d = if ltb d 10 then b'0' + d else b'a' + d - 10

-- The lowest digits of a number, the highest first.
unfoldable pub hex_from : ℕ → ℕ → Text → Text
unfolding hex_digit
hex_from zero n done = done
hex_from (suc k) n done = hex_from k (n / 16) (hex_digit (n % 16) ∷ done)

-- hex.EncodeToString of the 16 bytes of a 128-bit number.
unfoldable pub hex : ℕ → Text
unfolding hex_from
hex n = hex_from 32 n []

unfoldable pub id_of : Option ℕ → Result Text
unfolding hex
id_of none = err failed
id_of (some n) = ok (hex n)

unfoldable pub new_identity_id : Prog (Result Text)
unfolding id_of
new_identity_id = do bytes ← sense entropy; ret (id_of bytes)

unfoldable pub run_of : Option Text → Result Text
run_of none = err failed
run_of (some run) = ok run

-- The first run: SETNX of a fresh id, and then what is there.
unfoldable pub start_run : Prog (Result Text)
unfolding new_identity_id run_of
start_run = do
  candidate ← new_identity_id
  pass candidate λ run. do
    set ← ask (set_run_if_absent run)
    pass set λ _. do current ← ask get_run; pass current (λ found. ret (run_of found))

unfoldable pub current_or_start : Option Text → Prog (Result Text)
unfolding start_run
current_or_start (some run) = ret (ok run)
current_or_start none = start_run

unfoldable pub current_seckill_run : Prog (Result Text)
unfolding current_or_start
current_seckill_run = do current ← ask get_run; pass current current_or_start

unfoldable pub try_acquire_lottery_admission : ℕ → ℕ → ℕ → OrderIdentity → Prog (Result Acquire)
unfolding is_valid
try_acquire_lottery_admission uid gift_id ttl id =
    if not (is_empty id.order_id && is_empty id.run_id) && not (is_valid id)
    then ret (err failed)
    else ask (acquire uid gift_id ttl id)

-- parseAdmission refuses a state that is not one of the four, and an identity that is not whole.
unfoldable pub parsed_as : OrderStatus → Admission → Result (Option Admission)
parsed_as other_status a = err failed
parsed_as _ a = ok (some a)

unfoldable pub parsed : Option Admission → Result (Option Admission)
unfolding parsed_as is_valid
parsed none = ok none
parsed (some a) =
    if not (is_empty a.identity.order_id && is_empty a.identity.run_id) && not (is_valid a.identity)
    then err failed
    else parsed_as a.state a

unfoldable pub get_lottery_admission : ℕ → Prog (Result (Option Admission))
unfolding parsed
get_lottery_admission uid = do raw ← ask (read_admission uid); pass raw (λ a. ret (parsed a))

unfoldable pub mark_lottery_admission_pending_payment : ℕ → ℕ → OrderIdentity → Prog (Result Bool)
mark_lottery_admission_pending_payment uid gift_id id = do
  n ← ask (mark uid gift_id id)
  pass n (λ n. ret (ok (n == 1)))

unfoldable pub claim_lottery_admission : ℕ → ℕ → OrderIdentity → Prog (Result Bool)
claim_lottery_admission uid gift_id id = do
  n ← ask (claim uid gift_id id)
  pass n (λ n. ret (ok (n == 1 || n == 2)))

unfoldable pub release_lottery_admission : ℕ → ℕ → OrderIdentity → Prog (Result Bool)
release_lottery_admission uid gift_id id = do
  n ← ask (release uid gift_id id)
  pass n (λ n. ret (ok (n == 1)))
