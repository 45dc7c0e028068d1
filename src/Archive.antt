-- ===== src/Archive.antt =====
-- internal/database/material_read.go: the tables of the read model and GetMaterialDetail, which puts
-- the answer together from four queries. AVG with its rounding to hundredths is MySQL's and an
-- argument, `average`; times are natural numbers of hours.
pub mod Copies
pub mod Reads
pub mod Negative
pub mod Same
use lottery.Base.{
  ℕ, suc, ◌+◌, Bool, true, false, ◌&&◌, ◌||◌, Text, List, [], ◌∷◌, map, Option, none, some, ◌==◌,
  leb, ltb, if◌then◌else◌, length, find_row, select_rows, sum_rows,
}

pub record MaterialRarity : Type 0 where
  pub id : ℕ
  pub code : Text
  pub label : Text
  pub rank : ℕ

pub record MaterialSource : Type 0 where
  pub id : ℕ
  pub code : Text
  pub name : Text
  pub region : Text

pub record MaterialCatalog : Type 0 where
  pub id : ℕ
  pub code : Text
  pub name : Text
  pub is_primary : Bool
  pub title : Text
  pub sigil : Text
  pub accent : Text
  pub summary : Text
  pub oath : Text
  pub price : ℕ
  pub stock : ℕ
  pub rarity_id : ℕ
  pub source_id : ℕ
  pub attribute : Text
  pub usage : Text
  pub risk : Text

pub record MaterialComponent : Type 0 where
  pub id : ℕ
  pub material_id : ℕ
  pub component_material_id : ℕ
  pub quantity : ℕ
  pub unit : Text
  pub sort_order : ℕ

pub record MaterialTrade : Type 0 where
  pub material_id : ℕ
  pub unit_price : ℕ
  pub quantity : ℕ
  pub traded_at : ℕ

pub record MaterialReview : Type 0 where
  pub material_id : ℕ
  pub score : ℕ

pub record Tables : Type 0 where
  pub rarities : List MaterialRarity
  pub sources : List MaterialSource
  pub materials : List MaterialCatalog
  pub components : List MaterialComponent
  pub trades : List MaterialTrade
  pub reviews : List MaterialReview

pub record MaterialComponentDto : Type 0 where
  pub name : Text
  pub quantity : ℕ
  pub unit : Text

-- Prices and scores that are averages are in hundredths.
pub record MaterialTradeStatsDto : Type 0 where
  pub volume24h : ℕ
  pub transactions24h : ℕ
  pub average_price7d : ℕ
  pub max_price7d : ℕ
  pub volume7d : ℕ

pub record MaterialRatingDto : Type 0 where
  pub score : ℕ
  pub count : ℕ

-- The first query's row stands for its fields, with its rarity and its source.
pub record MaterialDetailDto : Type 0 where
  pub base : MaterialCatalog
  pub rarity : MaterialRarity
  pub source : MaterialSource
  pub components : List MaterialComponentDto
  pub trade_stats : MaterialTradeStatsDto
  pub rating : MaterialRatingDto

pub data DetailError : Type 0 where
  not_found read_failed : DetailError

pub data Detail : Type 0 where
  found_detail : MaterialDetailDto → Detail
  no_detail : DetailError → Detail

pub record BaseRow : Type 0 where
  pub material : MaterialCatalog
  pub rarity : MaterialRarity
  pub source : MaterialSource

unfoldable pub joined : Option MaterialCatalog → Tables → Option BaseRow
unfolding find_row
joined none t = none
joined (some m) t = elim (find_row (λ (r : MaterialRarity). r.id == m.rarity_id) t.rarities) [
  | none ↦ none
  | some r ↦ elim (find_row (λ (s : MaterialSource). s.id == m.source_id) t.sources) [
    | none ↦ none
    | some s ↦ some (record { material = m; rarity = r; source = s })
  ]
]

-- The first query; an id of 0 in the row read is a missing row.
unfoldable pub material_base : ℕ → Tables → Option BaseRow
unfolding joined
material_base id t =
    if id == 0
    then none
    else joined (find_row (λ (m : MaterialCatalog). m.id == id && m.is_primary) t.materials) t

abbrev before : MaterialComponent → MaterialComponent → Bool
before a b = ltb a.sort_order b.sort_order || a.sort_order == b.sort_order && leb a.id b.id

unfoldable pub insert_sorted : MaterialComponent → List MaterialComponent → List MaterialComponent
insert_sorted c [] = c ∷ []
insert_sorted c (d ∷ ds) =
    let rest = insert_sorted c ds in if before c d then c ∷ d ∷ ds else d ∷ rest

unfoldable pub sorted : List MaterialComponent → List MaterialComponent
unfolding insert_sorted
sorted [] = []
sorted (c ∷ cs) = insert_sorted c (sorted cs)

unfoldable pub named_components : Tables → List MaterialComponent → List MaterialComponentDto
unfolding find_row
named_components t [] = []
named_components t (c ∷ cs) =
    elim (find_row (λ (m : MaterialCatalog). m.id == c.component_material_id) t.materials) [
      | none ↦ named_components t cs
      | some m ↦
          record { name = m.name; quantity = c.quantity; unit = c.unit } ∷ named_components t cs
    ]

-- The second query.
unfoldable pub material_components : ℕ → Tables → List MaterialComponentDto
unfolding named_components sorted select_rows
material_components id t =
    named_components t (sorted (select_rows (λ c. c.material_id == id) t.components))

abbrev pub within : ℕ → ℕ → MaterialTrade → Bool
within now hours trade = leb now (trade.traded_at + hours)

unfoldable pub largest : List ℕ → ℕ
largest [] = 0
largest (n ∷ ns) = let rest = largest ns in if leb rest n then n else rest

abbrev pub or_no_average : (List ℕ → ℕ) → List ℕ → ℕ
or_no_average average [] = 0
or_no_average average (n ∷ ns) = average (n ∷ ns)

-- The third query.
unfoldable pub trade_stats_of : (List ℕ → ℕ) → ℕ → ℕ → Tables → MaterialTradeStatsDto
unfolding select_rows sum_rows largest
trade_stats_of average now id t =
    let trades = select_rows (λ (x : MaterialTrade). x.material_id == id) t.trades in
    let day = select_rows (within now 24) trades in
    let week = select_rows (within now 168) trades in
    record {
      volume24h = sum_rows (λ x. x.quantity) day;
      transactions24h = length day;
      average_price7d = or_no_average average (map (λ x. x.unit_price) week);
      max_price7d = largest (map (λ x. x.unit_price) week);
      volume7d = sum_rows (λ x. x.quantity) week;
    }

-- The fourth query.
unfoldable pub rating_of : (List ℕ → ℕ) → ℕ → Tables → MaterialRatingDto
unfolding select_rows
rating_of average id t =
    let reviews = select_rows (λ (x : MaterialReview). x.material_id == id) t.reviews in
    record { score = or_no_average average (map (λ x. x.score) reviews); count = length reviews }

-- Whether each of the four queries is answered.
pub record Queries : Type 0 where
  pub base : Bool
  pub components : Bool
  pub trades : Bool
  pub reviews : Bool

-- What follows the first query.
unfoldable pub detail_of_base :
    Queries → (List ℕ → ℕ) → ℕ → ℕ → Tables → Option BaseRow → Detail × ℕ
unfolding material_components trade_stats_of rating_of
detail_of_base q average now id t none = (no_detail not_found, 1)
detail_of_base q average now id t (some b) =
    if q.components
    then if q.trades
      then if q.reviews
        then (
          found_detail (record {
            base = b.material;
            rarity = b.rarity;
            source = b.source;
            components = material_components id t;
            trade_stats = trade_stats_of average now id t;
            rating = rating_of average id t;
          }),
          4,
        )
        else (no_detail read_failed, 4)
      else (no_detail read_failed, 3)
    else (no_detail read_failed, 2)

-- GetMaterialDetail, with the number of queries that it made.
unfoldable pub get_material_detail : Queries → (List ℕ → ℕ) → ℕ → ℕ → Tables → Detail × ℕ
unfolding detail_of_base material_base
get_material_detail q average now id t =
    if q.base
    then detail_of_base q average now id t (material_base id t)
    else (no_detail read_failed, 1)
