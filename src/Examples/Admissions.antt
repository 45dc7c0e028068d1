-- ===== src/Examples/Admissions.antt =====
-- Runs of the scripts of internal/database/admission.go on one small shop.
use lottery.Base.{ℕ, ◌≡◌, refl, arith, List, [], ◌∷◌, Text, none, some, lookup, Text-discrete}
use native.Mathlib.Decide.{ℕ_discrete}
use lottery.Order.{pending_payment, OrderIdentity}
use lottery.Redis.{
  Redis, Script, acquires, marks, claims, releases, run_script, claim_admission_script,
  release_admission_script,
}
use lottery.Redis.Effects.{run_scripts, run_script-Effect, Effect, Admits}
use lottery.Redis.Units.{units, run_scripts-units}
use lottery.Redis.Progress.{Grows, run_scripts-Grows}
use lottery.Redis.Settled.{claim-excludes-release, release-excludes-claim}

-- A text of 32 characters.
abbrev eight : ℕ → Text → Text
eight c rest = c ∷ c ∷ c ∷ c ∷ c ∷ c ∷ c ∷ c ∷ rest

abbrev pub run_one : Text
run_one = eight b'1' (eight b'1' (eight b'1' (eight b'1' [])))

abbrev pub ticket : OrderIdentity
ticket = record {
  order_id = eight b'a' (eight b'a' (eight b'a' (eight b'a' [])));
  run_id = run_one;
}

-- Two units of gift 7 left; user 5 awaits payment for one.
abbrev pub shop : Redis
shop = record {
  stock = (7, 2) ∷ [];
  admissions =
      (5, record { gift_id = 7; state = pending_payment; identity = ticket; ttl_ms = some 4200000 })
      ∷ [];
  run = some run_one;
  gift_ids = 7 ∷ [];
  all_stock = none;
}

abbrev race : List Script
race =
    acquires 6 7 4200 ticket
    ∷ marks 6 7 ticket
    ∷ claims 5 7 ticket
    ∷ releases 6 7 ticket
    ∷ releases 5 7 ticket
    ∷ []

claimed : (claim_admission_script 5 7 ticket shop).1 ≡ 1
unfolding claim_admission_script lookup Text-discrete ℕ_discrete
claimed = refl

released : (release_admission_script 5 7 ticket shop).1 ≡ 1
unfolding release_admission_script lookup Text-discrete ℕ_discrete
released = refl

run_scripts-units_example : units 7 (run_scripts race shop) ≡ units 7 shop
run_scripts-units_example = run_scripts-units 7 race shop

run_scripts-Grows_example : Grows shop (run_scripts race shop)
run_scripts-Grows_example = run_scripts-Grows race shop

run_script-Effect_example :
    Effect (Admits (releases 5 7 ticket)) shop (run_script (releases 5 7 ticket) shop)
run_script-Effect_example = run_script-Effect (releases 5 7 ticket) shop

claim-excludes-release_example :
    (release_admission_script 5 7 ticket
      (run_scripts race (claim_admission_script 5 7 ticket shop).0)).1
    ≡ 0
claim-excludes-release_example =
    claim-excludes-release 5 7 7 ticket ticket shop race (λ e. omega (arith, e, claimed))

release-excludes-claim_example :
    let later = run_scripts race (release_admission_script 5 7 ticket shop).0 in
    ((claim_admission_script 5 7 ticket later).1 ≡ 0)
    × ((release_admission_script 5 7 ticket later).0 ≡ later)
release-excludes-claim_example =
    release-excludes-claim 5 7 7 ticket ticket shop race (λ e. omega (arith, e, released))
