-- ===== src/Examples/Identities.antt =====
-- A business identifier and a run of internal/database/order_identity.go.
use lottery.Base.{◌≡◌, refl, true, some, inl, decimal}
use lottery.Order.{is_valid, paid}
use lottery.Redis.Format.{
  LotteryAdmission, status_text, print_admission, parse_admission, lua_fields,
}
use lottery.Redis.Format.RoundTrip.{parse_admission-print}
use lottery.Examples.Admissions.{ticket, run_one}
use lottery.Store.Admissions.{hex}
use lottery.Store.Identities.{hex-is_valid}

hex-is_valid_example : is_valid (record { order_id = hex 987654321; run_id = hex 255 }) ≡ true
hex-is_valid_example = hex-is_valid 987654321 255

abbrev admission : LotteryAdmission
admission = record { gift_id = 37; state = paid; identity = ticket }

parse_admission-print_example :
    (parse_admission (print_admission admission) ≡ some admission)
    × (lua_fields (print_admission admission) ≡ record {
      gift_id = decimal 37;
      state = status_text paid;
      order_id = ticket.order_id;
      run_id = run_one;
    })
parse_admission-print_example =
    parse_admission-print admission (λ e. cc e) (inl (unfold is_valid in refl))
