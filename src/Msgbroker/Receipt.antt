-- ===== src/Msgbroker/Receipt.antt =====
-- The handlers that RegisterHandlers of msgbroker/msgbroker.go registers, each up to the call of its
-- listener: the result is what the listener is called with. `op` is the message's operation id.
use broker_core.Base.{
  String, Bool, true, false, List, [], ◌∷◌, not, nat_eq, ◌||◌, Option, none, some, if◌then◌else◌,
}
use broker_core.Base.Int.{ℤ, is_neg}
use broker_core.Effects.{message, Result, ok, err, panicked}
use broker_core.Brokerd.Types.{
  Ident, Cid, Address, DataPreparationResult, FinalizedDeal, RemoteWallet, is_defined,
}
use broker_core.Brokerd.Codec.{Codec}
use broker_core.Brokerd.Env.{
  ReadyToBatchData, Proposal, AuctionDeals, PbWallet, PbReadyToCreateDeals, filled,
}
use broker_core.Auctioneerd.Types.{is_zero}
use broker_core.Packerd.Store.{Message as NewBatchCreated}
use broker_core.Piecerd.Store.{Message as NewBatchPrepared}

-- Which bytes cid.Cast takes, and which texts url.ParseRequestURI and uuid.Parse.
pub record Parsers : Type 0 where
  pub is_cid : Cid → Bool
  pub is_url : String → Bool
  pub is_uuid : String → Bool

-- if !b { return errors.New(e) }, and what follows
abbrev pub checked : {A : Type 0} → Bool → String → Result A → Result A
checked b e r = if b then r else err (message e)

abbrev pub is_nil : {A : Type 0} → List A → Bool
is_nil [] = true
is_nil (x ∷ xs) = false

-- The loop over the ids of the storage requests.
unfoldable pub ids_from_pb : List String → Result (List String)
ids_from_pb [] = ok []
ids_from_pb (i ∷ is) =
    let rest = ids_from_pb is in
    checked (filled i) "storage request id can't be empty"
      (elim rest [ ok js ↦ ok (i ∷ js) | err e ↦ err e | panicked ↦ panicked ])

-- NewBatchCreatedTopic
unfoldable pub on_new_batch_created : Parsers → NewBatchCreated → Result NewBatchCreated
on_new_batch_created p r =
    let accepted : List String → Result NewBatchCreated = λ ids.
      checked (filled r.origin) "origin is empty" (
        checked (not (is_nil r.manifest)) "manifest is empty" (
          checked (filled r.car_url) "car url is empty" (
            checked (not (nat_eq r.batch_size 0)) "batch size must be positive" (
              checked (p.is_url r.car_url) "parsing car url"
                (ok (record r { storage_request_ids = ids })))))) in
    checked (filled r.batch_id) "batch id is empty" (
      checked (p.is_cid r.batch_cid) "decoding batch cid" (
        checked (is_defined r.batch_cid) "data cid is undefined" (
          checked (not (is_nil r.storage_request_ids)) "storage requests list is empty"
            (elim (ids_from_pb r.storage_request_ids) [
              | ok ids ↦ accepted ids
              | err e ↦ err e
              | panicked ↦ panicked
            ]))))

-- NewBatchPreparedTopic
unfoldable pub on_new_batch_prepared :
    Parsers → NewBatchPrepared → Result (Ident × DataPreparationResult)
on_new_batch_prepared p r = checked (filled r.batch_id) "batch id is empty" (
    checked (p.is_cid r.piece_cid) "decoding piece cid" (
      checked (not (nat_eq r.piece_size 0)) "piece size is zero"
        (ok (r.batch_id, record { piece_size = r.piece_size; piece_cid = r.piece_cid }))))

-- The loop over the data cids of a ready-to-batch message.
unfoldable pub batch_data_from_pb : Parsers → List ReadyToBatchData → Result (List ReadyToBatchData)
batch_data_from_pb p [] = ok []
batch_data_from_pb p (x ∷ xs) =
    let rest = batch_data_from_pb p xs in
    checked (filled x.storage_request_id) "storage request id is empty" (
      checked (p.is_cid x.data_cid) "decoding data cid" (
        checked (is_defined x.data_cid) "data cid is undefined" (
          checked (filled x.origin) "origin is empty"
            (elim rest [ ok ys ↦ ok (x ∷ ys) | err e ↦ err e | panicked ↦ panicked ]))))

-- ReadyToBatchTopic
unfoldable pub on_ready_to_batch :
    Parsers → Ident → List ReadyToBatchData → Result (List ReadyToBatchData)
on_ready_to_batch p op xs =
    checked (filled op) "operation-id is empty"
      (checked (not (is_nil xs)) "data cids list can't be empty" (batch_data_from_pb p xs))

-- The loop over the proposals of a ready-to-create-deals message.
unfoldable pub proposals_from_pb : List Proposal → Result (List Proposal)
proposals_from_pb [] = ok []
proposals_from_pb (t ∷ ts) =
    let rest = proposals_from_pb ts in
    checked (filled t.storage_provider_id) "storage-provider-id is empty" (
      checked (not (is_neg t.price_per_gib_per_epoch)) "price per gib per epoch is negative" (
        checked (not (nat_eq t.start_epoch 0)) "start epoch should be positive" (
          checked (filled t.auction_id) "auction-id is empty" (
            checked (filled t.bid_id) "bid-id is empty"
              (elim rest [ ok us ↦ ok (t ∷ us) | err e ↦ err e | panicked ↦ panicked ])))))

unfoldable pub multiaddrs_from_pb : Codec → List String → Result (List String)
multiaddrs_from_pb c [] = ok []
multiaddrs_from_pb c (s ∷ ss) =
    let rest = multiaddrs_from_pb c ss in
    elim (c.parse_maddr s) [
      | none ↦ err (message "parsing multiaddr")
      | some a ↦ elim rest [ ok others ↦ ok (a ∷ others) | err e ↦ err e | panicked ↦ panicked ]
    ]

-- The remote wallet of a ready-to-create-deals message, with the address, if that is not empty.
unfoldable pub wallet_with :
    Codec → PbWallet → String → Option Address → Result (Option RemoteWallet)
wallet_with c r peer none = err (message "decoding wallet addr")
wallet_with c r peer (some a) =
    checked (not (c.is_empty_addr a)) "remote wallet wallet addr is empty"
      (elim (multiaddrs_from_pb c r.multiaddrs) [
        | ok addrs ↦ ok (
            some (record {
              peer_id = peer;
              wallet_addr = a;
              auth_token = r.auth_token;
              multiaddrs = addrs;
            }))
        | err e ↦ err e
        | panicked ↦ panicked
      ])

unfoldable pub wallet_from_pb : Codec → Option PbWallet → Result (Option RemoteWallet)
wallet_from_pb c none = ok none
wallet_from_pb c (some r) = elim (c.decode_peer r.peer_id) [
  | none ↦ err (message "decoding peer-id")
  | some peer ↦ checked (c.is_valid_peer peer) "peer id is invalid" (
      checked (filled r.auth_token) "remote wallet auth token is empty"
        (wallet_with c r peer (c.parse_addr r.wallet_addr)))
]

-- ReadyToCreateDealsTopic
unfoldable pub on_ready_to_create_deals :
    Parsers → Codec → PbReadyToCreateDeals → Result AuctionDeals
on_ready_to_create_deals p c r =
    let with_wallet : List Proposal → Result AuctionDeals = λ ts.
      elim (wallet_from_pb c r.remote_wallet) [
        | ok wallet ↦ ok (record {
          id = r.id;
          batch_id = r.batch_id;
          payload_cid = r.payload_cid;
          piece_cid = r.piece_cid;
          piece_size = r.piece_size;
          duration = r.duration;
          proposals = ts;
          remote_wallet = wallet;
          car_url = r.car_url;
        })
        | err e ↦ err e
        | panicked ↦ panicked
      ] in
    checked (filled r.id) "id is empty" (
      checked (filled r.batch_id) "batch id is empty" (
        checked (p.is_cid r.payload_cid) "parsing payload cid" (
          checked (is_defined r.payload_cid) "payloadcid is undefined" (
            checked (p.is_cid r.piece_cid) "parsing piece cid" (
              checked (is_defined r.piece_cid) "piececid is undefined" (
                checked (not (nat_eq r.duration 0)) "duration is zero" (
                  checked (not (is_nil r.proposals)) "list of proposals is empty" (
                    checked (filled r.car_url) "car url can't be empty"
                      (elim (proposals_from_pb r.proposals) [
                        | ok ts ↦ with_wallet ts
                        | err e ↦ err e
                        | panicked ↦ panicked
                      ])))))))))

abbrev pub is_positive : ℤ → Bool
is_positive z = not (is_neg z || is_zero z)

-- FinalizedDealTopic
unfoldable pub on_finalized_deal : Ident → FinalizedDeal → Result FinalizedDeal
on_finalized_deal op r = checked (filled op) "operation id is empty" (
    checked (filled r.batch_id) "batch id is empty" (
      checked (filled r.error_cause || is_positive r.deal_id) "deal id should be positive" (
        checked (filled r.error_cause || not (nat_eq r.deal_expiration 0))
          "deal expiration should be positive"
          (checked (filled r.storage_provider_id) "storage-provider-id is empty" (
            checked (filled r.auction_id) "auction-id is empty"
              (checked (filled r.bid_id) "bid-id is empty" (ok r)))))))
