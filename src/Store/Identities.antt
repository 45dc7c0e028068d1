-- ===== src/Store/Identities.antt =====
-- The identifiers that NewIdentityID of internal/database/order_identity.go makes.
use lottery.Base.{
  ℕ, zero, suc, ◌+◌, ◌%◌, ◌/◌, ◌<◌, ◌≡◌, refl, true, false, ◌||◌, ◌==◌, Text, [], ◌∷◌, length,
  arith,
}
use lottery.Order.{is_valid, has_separator}
use lottery.Store.Admissions.{hex_digit, hex_from, hex}

length-hex_from : (k n : ℕ) (done : Text) → length (hex_from k n done) ≡ k + length done
unfolding hex_from
length-hex_from zero n done = omega arith
length-hex_from (suc k) n done =
    omega (arith, length-hex_from k (n / 16) (hex_digit (n % 16) ∷ done))

digit_no_separator :
    (d : ℕ)
    → d < 16
    → (hex_digit d == b'|' || hex_digit d == 32 || hex_digit d == 9 || hex_digit d == 10) ≡ false
unfolding hex_digit
digit_no_separator d h = ground arith

has_separator-hex_from :
    (k n : ℕ) (done : Text) → has_separator done ≡ false → has_separator (hex_from k n done) ≡ false
unfolding hex_from
has_separator-hex_from zero n done h = h
has_separator-hex_from (suc k) n done h =
    has_separator-hex_from k (n / 16) (hex_digit (n % 16) ∷ done)
      (unfold has_separator in rw (digit_no_separator (n % 16) (omega arith)) h)

-- Any two identifiers made from 128 random bits, whatever the bits, form an identity that
-- TryAcquireLotteryAdmission and parseAdmission accept: 32 characters each, no separator.
pub hex-is_valid : (n m : ℕ) → is_valid (record { order_id = hex n; run_id = hex m }) ≡ true
unfolding is_valid hex
hex-is_valid n m = ground (
  arith,
  length-hex_from 32 n [],
  length-hex_from 32 m [],
  has_separator-hex_from 32 n [] (unfold has_separator in refl),
  has_separator-hex_from 32 m [] (unfold has_separator in refl),
)
