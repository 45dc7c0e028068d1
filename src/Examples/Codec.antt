-- ===== src/Examples/Codec.antt =====
-- A stand-in for encoding/json on the DTOs of primary materials without texts and components: it
-- writes their numbers, one after another.
use lottery.Base.{
  ℕ, ◌≡◌, refl, sym, ap, ◌∙◌, Bool, true, false, ◌&&◌, is_empty, if◌then◌else◌, Text, Option, none,
  some, List, [], ◌∷◌,
}
use lottery.Archive.{
  MaterialCatalog, MaterialRarity, MaterialSource, MaterialComponentDto, MaterialDetailDto,
}
use lottery.Archive.Copies.{Json, IsFaithful}

abbrev pub catalog : ℕ → ℕ → ℕ → ℕ → ℕ → MaterialCatalog
catalog id price stock rarity_id source_id = record {
  id = id;
  code = [];
  name = [];
  is_primary = true;
  title = [];
  sigil = [];
  accent = [];
  summary = [];
  oath = [];
  price = price;
  stock = stock;
  rarity_id = rarity_id;
  source_id = source_id;
  attribute = [];
  usage = [];
  risk = [];
}

abbrev wordless_catalog : MaterialCatalog → Bool
wordless_catalog m =
    is_empty m.code
    && is_empty m.name
    && m.is_primary
    && is_empty m.title
    && is_empty m.sigil
    && is_empty m.accent
    && is_empty m.summary
    && is_empty m.oath
    && is_empty m.attribute
    && is_empty m.usage
    && is_empty m.risk

abbrev wordless_joins : MaterialRarity → MaterialSource → Bool
wordless_joins r s =
    is_empty r.code && is_empty r.label && is_empty s.code && is_empty s.name && is_empty s.region

abbrev no_parts : List MaterialComponentDto → Bool
no_parts [] = true
no_parts (c ∷ cs) = false

abbrev wordless : MaterialDetailDto → Bool
wordless d = wordless_catalog d.base && wordless_joins d.rarity d.source && no_parts d.components

abbrev numbers_of : MaterialDetailDto → Text
numbers_of d =
    d.base.id ∷ d.base.price ∷ d.base.stock ∷ d.base.rarity_id ∷ d.base.source_id ∷ d.rarity.id
    ∷ d.rarity.rank ∷ d.source.id ∷ d.trade_stats.volume24h ∷ d.trade_stats.transactions24h
    ∷ d.trade_stats.average_price7d ∷ d.trade_stats.max_price7d ∷ d.trade_stats.volume7d
    ∷ d.rating.score ∷ d.rating.count ∷ []

abbrev pub read_numbers : Text → Option MaterialDetailDto
read_numbers
      (id ∷ price ∷ stock ∷ rarity_id ∷ source_id ∷ rarity ∷ rank ∷ source ∷ day ∷ trades ∷ mean
        ∷ most ∷ week ∷ score ∷ count ∷ []) =
    some (record {
      base = catalog id price stock rarity_id source_id;
      rarity = record { id = rarity; code = []; label = []; rank = rank };
      source = record { id = source; code = []; name = []; region = [] };
      components = [];
      trade_stats = record {
        volume24h = day;
        transactions24h = trades;
        average_price7d = mean;
        max_price7d = most;
        volume7d = week;
      };
      rating = record { score = score; count = count };
    })
read_numbers _ = none

abbrev pub numbered : Json
numbered = record {
  marshal = λ d. if wordless d then some (numbers_of d) else none;
  unmarshal = read_numbers;
}

empty_text : (t : Text) → is_empty t ≡ true → t ≡ []
empty_text [] e = refl
empty_text (c ∷ cs) e = absurd (cc (e))

both : (a b : Bool) → (a && b) ≡ true → (a ≡ true) × (b ≡ true)
both true b e = (refl, e)
both false b e = absurd (cc (e))

numbered_catalog :
    (m : MaterialCatalog)
    → wordless_catalog m ≡ true
    → m ≡ catalog m.id m.price m.stock m.rarity_id m.source_id
numbered_catalog m e =
    let (f10, e11) = both _ _ e in
    let (f9, e10) = both _ _ f10 in
    let (f8, e9) = both _ _ f9 in
    let (f7, e8) = both _ _ f8 in
    let (f6, e7) = both _ _ f7 in
    let (f5, e6) = both _ _ f6 in
    let (f4, e5) = both _ _ f5 in
    let (f3, e4) = both _ _ f4 in
    let (f2, e3) = both _ _ f3 in
    let (e1, e2) = both _ _ f2 in
    λ i. record m {
      code = empty_text m.code e1 i;
      name = empty_text m.name e2 i;
      is_primary = e3 i;
      title = empty_text m.title e4 i;
      sigil = empty_text m.sigil e5 i;
      accent = empty_text m.accent e6 i;
      summary = empty_text m.summary e7 i;
      oath = empty_text m.oath e8 i;
      attribute = empty_text m.attribute e9 i;
      usage = empty_text m.usage e10 i;
      risk = empty_text m.risk e11 i;
    }

numbered_joins :
    (d : MaterialDetailDto)
    → wordless_joins d.rarity d.source ≡ true
    → (d.rarity ≡ record { id = d.rarity.id; code = []; label = []; rank = d.rarity.rank })
      × (d.source ≡ record { id = d.source.id; code = []; name = []; region = [] })
numbered_joins d e =
    let (f4, e5) = both _ _ e in
    let (f3, e4) = both _ _ f4 in
    let (f2, e3) = both _ _ f3 in
    let (e1, e2) = both _ _ f2 in
    (
      (λ i. record d.rarity {
        code = empty_text d.rarity.code e1 i;
        label = empty_text d.rarity.label e2 i;
      }),
      (λ i. record d.source {
        code = empty_text d.source.code e3 i;
        name = empty_text d.source.name e4 i;
        region = empty_text d.source.region e5 i;
      }),
    )

no_parts_lem : (cs : List MaterialComponentDto) → no_parts cs ≡ true → cs ≡ []
no_parts_lem [] e = refl
no_parts_lem (c ∷ cs) e = absurd (cc (e))

read_numbers-numbers_of :
    (d : MaterialDetailDto) → wordless d ≡ true → read_numbers (numbers_of d) ≡ some d
read_numbers-numbers_of d e =
    let (e12, e3) = both _ _ e in
    let (e1, e2) = both _ _ e12 in
    let (rarity, source) = numbered_joins d e2 in
    sym (λ i. some (record d {
      base = numbered_catalog d.base e1 i;
      rarity = rarity i;
      source = source i;
      components = no_parts_lem d.components e3 i;
    }))

pub chosen : (w : Bool) (t u : Text) → (if w then some t else none) ≡ some u → (w ≡ true) × (t ≡ u)
chosen true t u e = (refl, cc (e))
chosen false t u e = absurd (cc (e))

pub numbered-IsFaithful : IsFaithful numbered
numbered-IsFaithful d text e =
    let (w, same) = chosen (wordless d) (numbers_of d) text e in
    sym (ap read_numbers same) ∙ read_numbers-numbers_of d w
