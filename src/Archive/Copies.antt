-- ===== src/Archive/Copies.antt =====
-- The copies in Redis of internal/database/material_read.go: under the key of a material the JSON text
-- of its DTO. Package encoding/json is a parameter, as the two functions that the source calls.
use lottery.Base.{
  ℕ, ◌≡◌, Bool, true, false, Text, Option, none, some, Map, lookup, insert, delete_rows, ◌==◌,
}
use lottery.Program.{Fault, fine, lost, unanswered}
use lottery.Archive.{MaterialDetailDto}

-- json.Marshal and json.Unmarshal for a DTO; `none` is their error.
pub record Json : Type 0 where
  pub marshal : MaterialDetailDto → Option Text
  pub unmarshal : Text → Option MaterialDetailDto

-- What was encoded is decoded to the same.
abbrev pub IsFaithful : Json → Type 0
IsFaithful json =
    (d : MaterialDetailDto) (text : Text)
    → json.marshal d ≡ some text
    → json.unmarshal text ≡ some d

abbrev pub Copies : Type 0
Copies = Map Text

pub data Fetched : Type 0 where
  hit : MaterialDetailDto → Fetched
  miss get_failed : Fetched

abbrev pub drop_copy : ℕ → Copies → Copies
drop_copy id copies = delete_rows (λ (e : ℕ × Text). e.0 == id) copies

-- A DEL, whose failure is ignored.
unfoldable pub dropped : Fault → ℕ → Copies → Copies
unfolding delete_rows
dropped lost id copies = copies
dropped fine id copies = drop_copy id copies
dropped unanswered id copies = drop_copy id copies

unfoldable pub unmarshalled : Option MaterialDetailDto → Fault → ℕ → Copies → Copies × Fetched
unfolding dropped
unmarshalled none del id copies = (dropped del id copies, get_failed)
unmarshalled (some d) del id copies = (copies, hit d)

unfoldable pub decoded : Json → Fault → ℕ → Copies → Option Text → Copies × Fetched
unfolding unmarshalled
decoded json del id copies none = (copies, miss)
decoded json del id copies (some text) = unmarshalled (json.unmarshal text) del id copies

-- GetMaterialDetailCache: the fates of its GET and of the DEL of what cannot be decoded.
unfoldable pub get_material_detail_cache : Json → Fault → Fault → ℕ → Copies → Copies × Fetched
unfolding decoded lookup
get_material_detail_cache json fine del id copies = decoded json del id copies (lookup id copies)
get_material_detail_cache json lost del id copies = (copies, get_failed)
get_material_detail_cache json unanswered del id copies = (copies, get_failed)

unfoldable pub set_text : Fault → ℕ → Option Text → Copies → Copies × Bool
unfolding insert
set_text _ id none copies = (copies, false)
set_text fine id (some text) copies = (insert id text copies, true)
set_text lost id (some text) copies = (copies, false)
set_text unanswered id (some text) copies = (insert id text copies, false)

-- SetMaterialDetailCache, under the id of the DTO.
unfoldable pub set_material_detail_cache : Json → Fault → MaterialDetailDto → Copies → Copies × Bool
unfolding set_text
set_material_detail_cache json f d copies = set_text f d.base.id (json.marshal d) copies
