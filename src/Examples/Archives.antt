-- ===== src/Examples/Archives.antt =====
-- A reader that finds a copy made before the last unit was bought.
use lottery.Base.{ℕ, Text, Option, none, some, List, [], ◌∷◌}
use lottery.Program.{fine, lost, unanswered}
use lottery.Archive.{Detail, found_detail, no_detail, not_found, Tables, MaterialDetailDto}
use lottery.Archive.Reads.{Fates}
use lottery.Archive.Same.{all_answered}
use lottery.Examples.Codec.{catalog}

abbrev archives_of : ℕ → Tables
archives_of stock = record {
  rarities = record { id = 4; code = []; label = []; rank = 4 } ∷ [];
  sources = record { id = 4; code = []; name = []; region = [] } ∷ [];
  materials = catalog 4 5200 stock 4 4 ∷ [];
  components = [];
  trades = record { material_id = 4; unit_price = 5200; quantity = 2; traded_at = 990 } ∷ [];
  reviews = record { material_id = 4; score = 5 } ∷ [];
}

-- A unit was bought after the copy was made.
abbrev history : List Tables
history = archives_of 12 ∷ archives_of 13 ∷ []

-- A stand-in for AVG, exact for the single rows here.
abbrev average : List ℕ → ℕ
average [] = 0
average (n ∷ ns) = n

abbrev old_text : Text
old_text = 4 ∷ 5200 ∷ 13 ∷ 4 ∷ 4 ∷ 4 ∷ 4 ∷ 4 ∷ 2 ∷ 1 ∷ 5200 ∷ 5200 ∷ 2 ∷ 5 ∷ 1 ∷ []

abbrev as_found : Option MaterialDetailDto → Detail
as_found none = no_detail not_found
as_found (some d) = found_detail d

abbrev fates : Fates
fates = record {
  first_get = fine;
  first_del = fine;
  second_get = lost;
  second_del = fine;
  queries = all_answered;
  set = unanswered;
  now = 1000;
  while_waiting = λ copies. copies;
  while_reading = λ copies. [];
}
