-- ===== src/Indexer/Cursor.antt =====
-- `cursorTracker`, the table `indexer_states` and `advanceCursor`.
use vehicle_lifecycle_manage.Base.{
  ℕ, ◌≤◌, ◌≡◌, ◌≢◌, Option, none, some, arith, ltb, same, same_refl, same→eq, if◌then◌else◌,
  Bool-cases, inl, inr,
}

-- The contracts whose logs are followed.
pub data ContractName : Type 0 where
  digital_vehicle_passport ownership_token challan_contract : ContractName
  insurance_token puc_token loan_contract gnosis_safe : ContractName

unfoldable pub ContractName-discrete : Discrete ContractName
ContractName-discrete = hlevel

-- `S` is what the event handlers change: the rest of the database.
pub record Progress {ℓ} (S : Type ℓ) : Type ℓ where
  -- the `Map` of the service object
  pub tracker : ContractName → Option ℕ
  -- `last_block` of the contract's row, where it has one
  pub last_block : ContractName → Option ℕ
  pub store : S

abbrev pub block_or_zero : Option ℕ → ℕ
block_or_zero none = 0
block_or_zero (some n) = n

unfoldable pub put : {V : Type 0} → ContractName → V → (ContractName → V) → ContractName → V
unfolding ContractName-discrete
put k v f j = if same ContractName-discrete k j then v else f j

pub put_self : {V : Type 0} (k : ContractName) (v : V) (f : ContractName → V) → put k v f k ≡ v
unfolding put
put_self k v f = rw (same_refl ContractName-discrete k)

pub put_ne :
    {V : Type 0} (k j : ContractName) (v : V) (f : ContractName → V) → k ≢ j → put k v f j ≡ f j
unfolding put
put_ne k j v f h = elim (Bool-cases (same ContractName-discrete k j)) [
  | inl e ↦ absurd (h (same→eq ContractName-discrete k j e))
  | inr e ↦ rw e
]

unfoldable pub advance_cursor {ℓ} : {S : Type ℓ} → ContractName → ℕ → Progress S → Progress S
advance_cursor name block p =
    if ltb (block_or_zero (p.tracker name)) block
    then record p {
      tracker = put name (some block) p.tracker;
      last_block = put name (some block) p.last_block;
    }
    else p

-- The cursor of a contract never moves back, and the cursor of another contract does not move.
pub advance_cursor_moves {ℓ} :
    {S : Type ℓ} (name other : ContractName) (block : ℕ) (p : Progress S)
    → let q = advance_cursor name block p in
      (block_or_zero (p.tracker other) ≤ block_or_zero (q.tracker other))
      × (block ≤ block_or_zero (q.tracker name))
      × (other ≢ name
          → (q.tracker other ≡ p.tracker other) × (q.last_block other ≡ p.last_block other))
unfolding advance_cursor
advance_cursor_moves name other block p = elim (ContractName-discrete name other) [
  | yes e ↦ ground (arith, put_self name (some block) p.tracker)
  | no ne ↦ ground (
    arith,
    put_self name (some block) p.tracker,
    put_ne name other (some block) p.tracker ne,
    put_ne name other (some block) p.last_block ne,
  )
]
