-- ===== src/Archive/Negative.antt =====
-- The negative copies of internal/database/material_read.go, which say that a material is known to be
-- missing, and ResetChapter of internal/service/archive.go.
use lottery.Base.{
  ℕ, ◌≡◌, refl, lookup-insert_self, text_eq_refl, Bool, true, false, Text, [], ◌∷◌, Option, none,
  some, Map, lookup, insert, delete_rows, ◌==◌, ◌=text◌, if◌then◌else◌,
}
use lottery.Program.{Fault, fine, lost, unanswered}
use lottery.Archive.Copies.{Copies}

-- The markers under the negative keys, beside the copies of the DTOs.
pub record ArchiveKeys : Type 0 where
  pub copies : Copies
  pub negatives : Map Text

-- not-found
abbrev pub negative_value : Text
negative_value = b'n' ∷ b'o' ∷ b't' ∷ b'-' ∷ b'f' ∷ b'o' ∷ b'u' ∷ b'n' ∷ b'd' ∷ []

pub data Negative : Type 0 where
  known_missing not_known negative_failed : Negative

unfoldable pub key_under : Fault → (ArchiveKeys → ArchiveKeys) → ArchiveKeys → ArchiveKeys × Bool
key_under fine f keys = (f keys, true)
key_under lost f keys = (keys, false)
key_under unanswered f keys = (f keys, false)

-- DeleteMaterialDetailNegativeCache
unfoldable pub delete_material_detail_negative_cache : Fault → ℕ → ArchiveKeys → ArchiveKeys × Bool
unfolding key_under delete_rows
delete_material_detail_negative_cache f id =
    key_under f
      (λ keys. record keys { negatives = delete_rows (λ (e : ℕ × Text). e.0 == id) keys.negatives })

-- SetMaterialDetailNegativeCache
unfoldable pub set_material_detail_negative_cache : Fault → ℕ → ArchiveKeys → ArchiveKeys × Bool
unfolding key_under insert
set_material_detail_negative_cache f id =
    key_under f (λ keys. record keys { negatives = insert id negative_value keys.negatives })

unfoldable pub negative_of : Fault → ℕ → ArchiveKeys → Option Text → ArchiveKeys × Negative
unfolding delete_material_detail_negative_cache
negative_of del id keys none = (keys, not_known)
negative_of del id keys (some value) =
    if value =text negative_value
    then (keys, known_missing)
    else ((delete_material_detail_negative_cache del id keys).0, negative_failed)

-- GetMaterialDetailNegativeCache: the fates of its GET and of the DEL of any other marker.
unfoldable pub get_material_detail_negative_cache :
    Fault → Fault → ℕ → ArchiveKeys → ArchiveKeys × Negative
unfolding negative_of lookup
get_material_detail_negative_cache fine del id keys =
    negative_of del id keys (lookup id keys.negatives)
get_material_detail_negative_cache lost del id keys = (keys, negative_failed)
get_material_detail_negative_cache unanswered del id keys = (keys, negative_failed)

-- ResetChapter, with the DELs of one scan taken as one; `false` is the error. The metrics are left out.
unfoldable pub reset_chapter : Fault → ArchiveKeys → ArchiveKeys × Bool
unfolding key_under
reset_chapter f = key_under f (λ keys. record { copies = []; negatives = [] })

-- A marker that was written is read as such.
get_material_detail_negative_cache-set :
    (del : Fault) (id : ℕ) (keys : ArchiveKeys)
    → (get_material_detail_negative_cache fine del id
        (set_material_detail_negative_cache fine id keys).0).1
      ≡ known_missing
unfolding get_material_detail_negative_cache set_material_detail_negative_cache negative_of
    key_under
get_material_detail_negative_cache-set del id keys =
    rw (lookup-insert_self id negative_value keys.negatives, text_eq_refl negative_value) refl
