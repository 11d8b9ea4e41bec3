-- ===== src/Indexer/Entities/Laws.antt =====
-- What the registration and the toggle of an entity mean for its transactions.
use vehicle_lifecycle_manage.Base.{ℕ, ◌≡◌, ◌≢◌, refl, none, some, true, false, arith, ==_refl}
use vehicle_lifecycle_manage.Base.Text.{Text}
use vehicle_lifecycle_manage.Store.Rows.{B2bEntity}
use vehicle_lifecycle_manage.Store.Table.{find?, find?-update_self, find?-update_other}
use vehicle_lifecycle_manage.Store.World.{World}
use vehicle_lifecycle_manage.Chain.Manager.Laws.{MayAct}
use vehicle_lifecycle_manage.Indexer.Entities.{
  has_key, has_code, has_number, update_entity, handle_registration, handle_toggle,
}

-- The row that was found is changed, and no other.
update_entity-rows :
    (e : B2bEntity) (f : B2bEntity → B2bEntity) (w : World)
    → find? (has_key e.id) w.entities ≡ some e
    → ((d : B2bEntity) → (f d).id ≡ d.id)
    → let v = update_entity (some e) f w in
      (find? (has_key e.id) v.entities ≡ some (f e))
      × ((id : ℕ) → id ≢ e.id → find? (has_key id) v.entities ≡ find? (has_key id) w.entities)
unfolding update_entity
update_entity-rows e f w found same = (
  find?-update_self (has_key e.id) f w.entities e found (ground (arith, same e, ==_refl e.id)),
  λ id other.
      find?-update_other (has_key e.id) (has_key id) f w.entities (λ d h. ground arith)
        (λ d h. ground (arith, same d)),
)

-- The event of a registration makes the entity with its code able to act, if the entity is active
-- and has a key and no other row has its primary key before it; every other entity stays as it is.
pub registration_enables :
    (n : ℕ) (code : Text) (w : World) (e : B2bEntity)
    → find? (has_code code) w.entities ≡ some e
    → find? (has_key e.id) w.entities ≡ some e
    → e.is_active ≡ true
    → e.signing_key ≢ none
    → let v = handle_registration n code w in
      MayAct v e.id
      × ((id : ℕ) → id ≢ e.id → find? (has_key id) v.entities ≡ find? (has_key id) w.entities)
unfolding handle_registration
registration_enables n code w e by_code found active key =
    rw (by_code, handle_registration)
      (let rows =
          update_entity-rows e (λ e. record e { on_chain_id = some n }) w found (λ d. refl) in
        (
          record {
            entity = record e { on_chain_id = some n };
            found = rows.0;
            active = active;
            registered = λ h. cc;
            has_key = key;
          },
          rows.1,
        ))

-- The event of a toggle to inactive stops the first entity with the number of the event, whatever
-- its type: it can no longer act. Every other entity stays as it is, also one of the type that the
-- contract has toggled.
pub toggle_stops_first :
    (n : ℕ) (w : World) (e : B2bEntity)
    → find? (has_number n) w.entities ≡ some e
    → find? (has_key e.id) w.entities ≡ some e
    → let v = handle_toggle n false w in
      ¬ MayAct v e.id
      × ((id : ℕ) → id ≢ e.id → find? (has_key id) v.entities ≡ find? (has_key id) w.entities)
unfolding handle_toggle
toggle_stops_first n w e by_number found =
    rw (by_number, handle_toggle)
      (let rows = update_entity-rows e (λ e. record e { is_active = false }) w found (λ d. refl) in
        (λ may. ground (arith, rows.0, may.found, may.active), rows.1))
