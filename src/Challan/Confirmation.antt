-- ===== src/Challan/Confirmation.antt =====
-- From the request of the police to the event of the contract.
use vehicle_lifecycle_manage.Base.{
  ℕ, suc, ◌≡◌, refl, sym, subst, ap, ◌∙◌, Option, some, List, [], ◌∷◌, ◌++◌, Bool, false, arith,
  ==_refl,
}
use vehicle_lifecycle_manage.Base.Lists.{All, any}
use vehicle_lifecycle_manage.Domain.{TxSource, challan_issue}
use vehicle_lifecycle_manage.Domain.Failure.{Result, ok, err}
use vehicle_lifecycle_manage.Store.Rows.{
  B2bEntity, VehicleOwnership, Challan, BlockchainTransaction,
}
use vehicle_lifecycle_manage.Store.Table.{
  find?, update_first, find?-append_new, update_first-append_new, any-append_new,
}
use vehicle_lifecycle_manage.Store.World.{World, Action, modify, caught, ◌>>◌}
use vehicle_lifecycle_manage.Chain.Manager.{Node}
use vehicle_lifecycle_manage.Chain.Tracking.{is_tracked}
use vehicle_lifecycle_manage.Indexer.Finalize.{with_hash, mined_at, finalize_tx}
use vehicle_lifecycle_manage.Challan.Rows.{
  is_id, with_id, with_chain_id, takes_chain_id, update_challan, update_challan_unique,
}
use vehicle_lifecycle_manage.Challan.Sound.{IsRow, IsSound}
use vehicle_lifecycle_manage.Challan.Police.{issued_challan, pending_challan_tx, issue_challan}
use vehicle_lifecycle_manage.Challan.Police.Issue.{issued, Issues, issue_challan-Issues}
use vehicle_lifecycle_manage.Challan.Events.{issued_with, record_issued, handle_challan_issued}
use vehicle_lifecycle_manage.Challan.Reconcile.Agreement.{record_issued-known}

-- The next key is no challan's yet.
next_is_free : (n : ℕ) (cs : List Challan) → All (IsRow n) cs → any (with_id n) cs ≡ false
next_is_free n [] a = refl
next_is_free n (c ∷ cs) (r, a) = ground (arith, next_is_free n cs a, r.old)

untaken :
    (id n : ℕ) (cs : List Challan)
    → any (with_chain_id n) cs ≡ false
    → any (takes_chain_id id n) cs ≡ false
untaken id n [] h = refl
untaken id n (c ∷ cs) h = ground (arith, untaken id n cs)

update_challan_unique-free :
    (p taken : Challan → Bool) (f : Challan → Challan) (w : World) (c : Challan)
    → find? p w.challans ≡ some c
    → any taken w.challans ≡ false
    → update_challan_unique p taken f w
      ≡ (ok tt, record w { challans = update_first p f w.challans })
unfolding update_challan_unique update_challan
update_challan_unique-free p taken f w c found free = ground arith

finalize_tx-found :
    (hash block : ℕ) (w : World) (t : BlockchainTransaction)
    → find? (with_hash hash) w.transactions ≡ some t
    → finalize_tx hash challan_issue block w
      ≡ record w { transactions = update_first (with_hash hash) (mined_at block) w.transactions }
unfolding finalize_tx
finalize_tx-found hash block w t found = ground arith

-- A write that succeeds is followed by the mark of the transaction.
caught_finalize-ok :
    (m : Action (Unit {0})) (hash block : ℕ) (w v : World)
    → m w ≡ (ok tt, v)
    → caught (m >> modify (finalize_tx hash challan_issue block)) w
      ≡ finalize_tx hash challan_issue block v
caught_finalize-ok m hash block w v e =
    ap
      (λ (x : Result (Unit {0}) × World).
        (elim x.0 as (λ _. Result (Unit {0}) × World) [
          | ok a ↦ (ok tt, finalize_tx hash challan_issue block x.1)
          | err g ↦ (err g, x.1)
        ]).1)
      e

-- The handler of the event, with what it reads.
handle_challan_issued-reads :
    (n own_tid police_id amount hash block : ℕ) (v : World) (t : Option BlockchainTransaction)
    (e : Option B2bEntity) (o : Option VehicleOwnership)
    → find? (with_hash hash) v.transactions ≡ t
    → find? (λ (e : B2bEntity). is_id police_id e.on_chain_id) v.entities ≡ e
    → find? (λ (o : VehicleOwnership). is_id own_tid o.own_tid) v.ownerships ≡ o
    → handle_challan_issued n own_tid police_id amount hash block v
      ≡ caught
          (record_issued n own_tid amount t e o >> modify (finalize_tx hash challan_issue block))
          v
unfolding handle_challan_issued
handle_challan_issued-reads n own_tid police_id amount hash block v t e o tracked entity ownership =
    ap
      (λ t.
        caught
          (record_issued n own_tid amount t
              (find? (λ (e : B2bEntity). is_id police_id e.on_chain_id) v.entities)
              (find? (λ (o : VehicleOwnership). is_id own_tid o.own_tid) v.ownerships)
            >> modify (finalize_tx hash challan_issue block))
          v)
      tracked
    ∙ (ap
          (λ e.
            caught
              (record_issued n own_tid amount t e
                  (find? (λ (o : VehicleOwnership). is_id own_tid o.own_tid) v.ownerships)
                >> modify (finalize_tx hash challan_issue block))
              v)
          entity
        ∙ ap
            (λ o.
              caught
                (record_issued n own_tid amount t e o
                  >> modify (finalize_tx hash challan_issue block))
                v)
            ownership)

module _ (own_tid amount police_entity member : ℕ) (w : World) (o : VehicleOwnership)
    (e : B2bEntity) (hash n police_id block : ℕ) where
  abbrev pub new_challan : Challan
  new_challan = issued_challan o own_tid police_entity amount member w.now w.next_id

  abbrev pub new_row : BlockchainTransaction
  new_row =
      pending_challan_tx challan_issue w.next_id police_entity (some member) TxSource.member hash
        (suc w.next_id)

  abbrev issued_world : World
  issued_world = issued own_tid amount police_entity member o hash w

  abbrev confirmed : World
  confirmed = record issued_world {
    challans = w.challans ++ issued_with n own_tid new_challan ∷ [];
    transactions = w.transactions ++ mined_at block new_row ∷ [];
  }

  event_confirms :
      IsSound w
      → find? (λ (o : VehicleOwnership). is_id own_tid o.own_tid) w.ownerships ≡ some o
      → find? (λ (e : B2bEntity). is_id police_id e.on_chain_id) w.entities ≡ some e
      → is_tracked hash w ≡ false
      → any (with_chain_id n) w.challans ≡ false
      → handle_challan_issued n own_tid police_id amount hash block issued_world ≡ confirmed
  event_confirms sound ownership entity fresh unused =
      handle_challan_issued-reads n own_tid police_id amount hash block issued_world (some new_row)
        (some e) (some o) tracked entity ownership
      ∙ (caught_finalize-ok (record_issued n own_tid amount (some new_row) (some e) (some o)) hash
            block issued_world written
            (record_issued-known issued_world new_challan new_row e o n own_tid amount found refl
              ∙ (update_challan_unique-free (with_id w.next_id) (takes_chain_id w.next_id n)
                    (issued_with n own_tid) issued_world new_challan found
                    (any-append_new (takes_chain_id w.next_id n) w.challans new_challan
                      (untaken w.next_id n w.challans unused) (ground (arith, ==_refl w.next_id)))
                  ∙ ap (λ cs. (ok tt, record issued_world { challans = cs }))
                      (update_first-append_new (with_id w.next_id) (issued_with n own_tid)
                        w.challans new_challan (next_is_free w.next_id w.challans sound.rows)
                        (==_refl w.next_id))))
          ∙ (finalize_tx-found hash block written new_row tracked
              ∙ ap (λ ts. record written { transactions = ts })
                  (update_first-append_new (with_hash hash) (mined_at block) w.transactions new_row
                    fresh (==_refl hash))))
    where
      written : World
      written = record issued_world {
        challans = w.challans ++ issued_with n own_tid new_challan ∷ [];
      }

      tracked : find? (with_hash hash) issued_world.transactions ≡ some new_row
      tracked = find?-append_new (with_hash hash) w.transactions new_row fresh (==_refl hash)

      found : find? (with_id w.next_id) issued_world.challans ≡ some new_challan
      found =
          find?-append_new (with_id w.next_id) w.challans new_challan
            (next_is_free w.next_id w.challans sound.rows) (==_refl w.next_id)

  of_issue :
      (x : Result (ℕ × ℕ) × World) (id : ℕ) (w' : World)
      → x ≡ (ok (id, hash), w')
      → IsSound w
      → find? (λ (o : VehicleOwnership). is_id own_tid o.own_tid) w.ownerships ≡ some o
      → find? (λ (e : B2bEntity). is_id police_id e.on_chain_id) w.entities ≡ some e
      → any (with_chain_id n) w.challans ≡ false
      → Issues own_tid amount police_entity member w x
      → handle_challan_issued n own_tid police_id amount hash block w' ≡ confirmed
  of_issue x id w' succeeds sound ownership entity unused outcome =
      let (p, found, may, fresh, key, done) =
        subst (Issues own_tid amount police_entity member w) succeeds outcome in
      subst (λ v. handle_challan_issued n own_tid police_id amount hash block v ≡ confirmed)
        (sym (
          done ∙ ap (λ q. issued own_tid amount police_entity member q hash w) (the_owner p found)))
        (event_confirms sound ownership entity fresh unused)
    where
      the_owner :
          (p : VehicleOwnership)
          → find? (λ (o : VehicleOwnership). is_id own_tid o.own_tid) w.ownerships ≡ some p
          → p ≡ o
      the_owner p found = ground arith

  -- A police station that has issued a challan on a vehicle sees it confirmed by the event of the
  -- contract, if the table of challans is well formed, the station that the event names is on
  -- record, and no challan has the on-chain id yet: after the event, the challans are those from
  -- before the request and one more, which is the one requested, pending, with the ids of the event;
  -- and the transactions are those from before and the row of the request, marked as mined.
  pub event_after_issue :
      (node : Node) (id : ℕ) (w' : World)
      → IsSound w
      → find? (λ (o : VehicleOwnership). is_id own_tid o.own_tid) w.ownerships ≡ some o
      → find? (λ (e : B2bEntity). is_id police_id e.on_chain_id) w.entities ≡ some e
      → any (with_chain_id n) w.challans ≡ false
      → issue_challan node own_tid amount police_entity member w ≡ (ok (id, hash), w')
      → let v = handle_challan_issued n own_tid police_id amount hash block w' in
        (v.challans ≡ w.challans ++ issued_with n own_tid new_challan ∷ [])
        × (v.transactions ≡ w.transactions ++ mined_at block new_row ∷ [])
  event_after_issue node id w' sound ownership entity unused succeeds =
      let e =
        of_issue _ id w' succeeds sound ownership entity unused
          (issue_challan-Issues own_tid amount police_entity member node w) in
      (ap (λ (v : World). v.challans) e, ap (λ (v : World). v.transactions) e)
