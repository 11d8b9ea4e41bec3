-- ===== src/Indexer/Entities.antt =====
-- `handleRegistration` and `handleToggle` of backend/src/modules/indexer/indexer.service.ts, without
-- the notifications.
pub mod Laws
use vehicle_lifecycle_manage.Base.{ℕ, Option, none, some, Bool, ◌==◌}
use vehicle_lifecycle_manage.Base.Text.{Text, text_eq}
use vehicle_lifecycle_manage.Store.Rows.{B2bEntity}
use vehicle_lifecycle_manage.Store.Table.{find?, update_first}
use vehicle_lifecycle_manage.Store.World.{World}
use vehicle_lifecycle_manage.Challan.Rows.{is_id}

abbrev pub has_key : ℕ → B2bEntity → Bool
has_key id e = e.id == id

abbrev pub has_code : Text → B2bEntity → Bool
has_code code e = text_eq e.code code

abbrev pub has_number : ℕ → B2bEntity → Bool
has_number n e = is_id n e.on_chain_id

-- `b2BEntity.update` by the key of a row that was found, or the early return
unfoldable pub update_entity : Option B2bEntity → (B2bEntity → B2bEntity) → World → World
update_entity none f w = w
update_entity (some e) f w = record w { entities = update_first (has_key e.id) f w.entities }

unfoldable pub handle_registration : ℕ → Text → World → World
unfolding update_entity
handle_registration on_chain_id code w =
    update_entity (find? (has_code code) w.entities)
      (λ e. record e { on_chain_id = some on_chain_id }) w

unfoldable pub handle_toggle : ℕ → Bool → World → World
unfolding update_entity
handle_toggle on_chain_id active w =
    update_entity (find? (has_number on_chain_id) w.entities) (λ e. record e { is_active = active })
      w
