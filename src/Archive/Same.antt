-- ===== src/Archive/Same.antt =====
-- The cached read and the direct read of a material: what a reader of internal/service/archive.go
-- gets, and what it leaves in Redis, while the tables change.
use lottery.Base.{ℕ, ◌≡◌, ◌⊎◌, true, Text, List, [], ◌∷◌, some, lookup}
use lottery.Archive.{Tables, MaterialDetailDto, found_detail, Queries, get_material_detail}
use lottery.Archive.Copies.{Json, IsFaithful, Copies, Fetched, hit, miss, get_failed}
use lottery.Archive.Reads.{read_mysql, Read}

abbrev pub all_answered : Queries
all_answered = record { base = true; components = true; trades = true; reviews = true }

-- One of the states that the tables have been in.
abbrev pub WasState : Tables → List Tables → Type 0
WasState t [] = ⊥
WasState t (u ∷ history) = (t ≡ u) ⊎ WasState t history

-- A DTO that GetMaterialDetail puts together from one of these states.
abbrev pub IsDetailOf : (List ℕ → ℕ) → List Tables → ℕ → MaterialDetailDto → Type 0
IsDetailOf average history id d =
    (t : Tables) × WasState t history
    × (at : ℕ) × ((get_material_detail all_answered average at id t).0 ≡ found_detail d)

-- Every copy that can be decoded is such a DTO.
abbrev pub Genuine : Json → (List ℕ → ℕ) → List Tables → Copies → Type 0
Genuine json average history copies =
    (id : ℕ) (text : Text) (d : MaterialDetailDto)
    → lookup id copies ≡ some text
    → json.unmarshal text ≡ some d
    → IsDetailOf average history id d

-- The answer of a direct read of one of these states, and genuine copies.
abbrev pub AsDirect : Json → (List ℕ → ℕ) → List Tables → ℕ → Read → Type 0
AsDirect json average history id r =
    ((t : Tables) × WasState t history
      × (at : ℕ) × (r.answer ≡ (read_mysql all_answered average at id t).0))
    × Genuine json average history r.copies

module _ (json : Json) (average : List ℕ → ℕ) (history : List Tables)
    (faithful : IsFaithful json) where
  -- What a GET of the copy may answer.
  abbrev Fetches : ℕ → Copies × Fetched → Type 0
  Fetches id (copies, hit d) = Genuine json average history copies × IsDetailOf average history id d
  Fetches id (copies, miss) = Genuine json average history copies
  Fetches id (copies, get_failed) = Genuine json average history copies
