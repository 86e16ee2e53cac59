-- ===== src/Links/Entity.antt =====
-- app/domain/entities/temp_link.py.
use dwtgbot.Base.{ℕ, ◌+◌, Bool, ◌&&◌, Option, Text, ltb}

-- The fields behind `id` and `token`, which are also the columns of `TempLinkModel`.
pub record LinkColumns : Type 0 where
  pub token : Text
  pub job_id : ℕ
  pub file_path : Text
  pub expires_at : ℕ
  pub max_downloads : ℕ
  pub downloads_count : ℕ
  pub is_active : Bool
  pub created_at : ℕ
  pub updated_at : ℕ

pub record TempLink : Type 0 where
  pub id : Option ℕ
  pub columns : LinkColumns
  pub open columns use *

abbrev pub is_usable : ℕ → LinkColumns → Bool
is_usable moment c =
    c.is_active && (ltb moment c.expires_at && ltb c.downloads_count c.max_downloads)

abbrev pub can_resume : ℕ → LinkColumns → Bool
can_resume moment c = c.is_active && (ltb moment c.expires_at && ltb 0 c.downloads_count)

unfoldable pub register_use : ℕ → TempLink → TempLink
register_use now link = record link {
  columns = record (link.columns) { downloads_count = link.downloads_count + 1; updated_at = now };
}
