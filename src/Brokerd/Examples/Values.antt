-- ===== src/Brokerd/Examples/Values.antt =====
-- The theorems on single functions, at the small deployment.
use broker_core.Base.{
  none, List, ℕ, ◌⊎◌, ◌-◌, ◌/◌, ◌<◌, ◌≡◌, String, refl, [], ◌∷◌, ◌++◌, map, eq_iff, arith, true,
  str_eq,
}
use broker_core.Base.Int.{pos}
use broker_core.Effects.{ok, err, unknown_storage_request}
use broker_core.Brokerd.Codec.{IsFaithful, stringify_addr}
use broker_core.Brokerd.Store.Convert.{batch_from_db, batch_to_db}
use broker_core.Brokerd.Store.Deals.{add_winners}
use broker_core.Brokerd.Handlers.Events.{proposals_from}
use broker_core.Brokerd.Epoch.{
  InEpoch, IsEarly, time_to_fil_epoch, before_genesis, time_to_fil_epoch_cases,
}
use broker_core.Brokerd.RoundTrip.{tag_rows, batch_from_db-batch_to_db}
use broker_core.Brokerd.Winners.{accepted, bidders, add_winners_lem, proposals_from-providers}
use broker_core.Brokerd.Winners
use broker_core.Brokerd.Reported.{create_batch_reports_none}
use broker_core.Brokerd.Store.Create.{create_batch}
use broker_core.Brokerd.Examples.{env, world, db, won, plain, batch}

identity_only : (a : String) → str_eq a "f0100" ≡ true → stringify_addr plain a ≡ a
unfolding stringify_addr
identity_only a h = rw ((eq_iff a "f0100").0 h) refl

plain-IsFaithful : IsFaithful plain
plain-IsFaithful = record {
  cid_trip = λ x e. refl;
  cid_filled = λ x e. ground (arith, e);
  url_trip = λ u e. ground (arith, e);
  no_url = refl;
  maddr_trip = λ a. refl;
  addr_trip = λ a h. rw (identity_only a h) refl;
}

batch_from_db-batch_to_db_example :
    batch_from_db plain (batch_to_db plain batch) (tag_rows "b9" (("key", "value") ∷ [])) ≡ ok batch
batch_from_db-batch_to_db_example = batch_from_db-batch_to_db plain plain-IsFaithful batch (record {
  whole = refl;
  no_error = refl;
  payload = refl;
  fetchable = refl;
  reachable = (refl, refl);
  identities = (refl, tt);
})

time_to_fil_epoch_cases_example :
    (((e : ℕ) × (time_to_fil_epoch (pos 1598306495) ≡ ok e) × (0 < e) × InEpoch e (pos 1598306495))
      ⊎ ((time_to_fil_epoch (pos 1598306495) ≡ err before_genesis) × IsEarly (pos 1598306495)))
    × ((d e : ℕ) → InEpoch d (pos 1598306495) → InEpoch e (pos 1598306495) → d ≡ e)
time_to_fil_epoch_cases_example = time_to_fil_epoch_cases (pos 1598306495)

add_winners_lem_example : add_winners won ("f02" ∷ []) won.winning_bids (world db) ≡ (
  ok (bidders (accepted ("f02" ∷ []) won.winning_bids)),
  record (world db) {
    db = record db {
      deals = db.deals ++ map (Winners.deal_row won) (accepted ("f02" ∷ []) won.winning_bids);
    };
  },
)
add_winners_lem_example = add_winners_lem won ("f02" ∷ []) won.winning_bids (world db) refl

proposals_from-providers_example :
    map (λ p. p.storage_provider_id) (proposals_from env won 1 ("f02" ∷ "f01" ∷ []))
    ≡ "f02" ∷ "f01" ∷ []
unfolding broker_core.Base.contains
proposals_from-providers_example =
    proposals_from-providers env won 1 ("f02" ∷ "f01" ∷ []) (λ m s. refl) (refl, (refl, tt))

one_unknown :
    (create_batch env batch ("r1" ∷ "missing" ∷ []) none none (world db)).0
    ≡ err (unknown_storage_request [])
unfolding create_batch broker_core.Effects.◌>>=◌ broker_core.Effects.require
    broker_core.Brokerd.Store.Create.initial_request_status broker_core.Effects.with_tx
    broker_core.Brokerd.Store.Create.insert_batch broker_core.Effects.insert
    broker_core.Brokerd.Schema.Statements.create_batch broker_core.Base.Rows.exists_row batch_to_db
    broker_core.Brokerd.Store.Create.assign_requests broker_core.Effects.exec_returning
    broker_core.Brokerd.Schema.Statements.updated_ids broker_core.Base.Rows.select
    broker_core.Base.contains broker_core.Brokerd.Store.Read.slice_diff
one_unknown = refl

create_batch_reports_none_example : ◌≡◌ {A = List String} [] []
create_batch_reports_none_example =
    create_batch_reports_none env batch ("r1" ∷ "missing" ∷ []) none none (world db) [] one_unknown
