-- ===== src/Challan/Rows.antt =====
-- The writes to the tables `challans` and `blockchain_transactions` that the repositories of the
-- police and the payment module make.
use vehicle_lifecycle_manage.Base.{
  ℕ, Option, none, some, Bool, false, ◌==◌, ◌&&◌, not, if◌then◌else◌, is_some,
}
use vehicle_lifecycle_manage.Base.Lists.{any}
use vehicle_lifecycle_manage.Base.Text.{Text, text_eq}
use vehicle_lifecycle_manage.Domain.Failure.{ok, err}
use vehicle_lifecycle_manage.Store.Rows.{Challan}
use vehicle_lifecycle_manage.Store.Table.{find?, update_first}
use vehicle_lifecycle_manage.Store.World.{Action, record_not_found, unique_violation}

-- `x === y` where `x` may be null
abbrev pub is_id : ℕ → Option ℕ → Bool
is_id n none = false
is_id n (some m) = m == n

abbrev pub is_text : Text → Option Text → Bool
is_text s none = false
is_text s (some t) = text_eq t s

-- The conditions of the finds.
abbrev pub with_id : ℕ → Challan → Bool
with_id n c = c.id == n

abbrev pub with_chain_id : ℕ → Challan → Bool
with_chain_id n c = is_id n c.challan_id

abbrev pub with_order : Text → Challan → Bool
with_order o c = is_text o c.payment_order_id

-- The columns that a write must keep unique.
abbrev pub takes_chain_id : ℕ → ℕ → Challan → Bool
takes_chain_id id n c = not (c.id == id) && is_id n c.challan_id

abbrev pub takes_order : ℕ → Text → Challan → Bool
takes_order id o c = not (c.id == id) && is_text o c.payment_order_id

-- `challan.update` by a unique column, of columns that are not unique
unfoldable pub update_challan : (Challan → Bool) → (Challan → Challan) → Action (Unit {0})
update_challan p f w =
    if is_some (find? p w.challans)
    then (ok tt, record w { challans = update_first p f w.challans })
    else (err record_not_found, w)

-- The same where the update must not break a unique column.
unfoldable pub update_challan_unique :
    (Challan → Bool) → (Challan → Bool) → (Challan → Challan) → Action (Unit {0})
unfolding update_challan
update_challan_unique p taken f w =
    if is_some (find? p w.challans) && any taken w.challans
    then (err unique_violation, w)
    else update_challan p f w
