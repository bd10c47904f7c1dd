-- ===== src/Msgbroker/Examples.antt =====
-- The theorems on what receivers accept, tried on messages.
use broker_core.Base.{if◌then◌else◌, ◌≡◌, refl, none, some, List, [], ◌∷◌, All, true, not, str_eq}
use broker_core.Base.Int.{pos}
use broker_core.Effects.{World, ok}
use broker_core.Brokerd.Types.{Sources, is_defined}
use broker_core.Brokerd.Codec.{Codec}
use broker_core.Brokerd.Schema.{empty_db}
use broker_core.Brokerd.Schema as BrokerdSchema
use broker_core.Brokerd.Env.{
  Message as BrokerdMessage, AuctionDeals, ReadyToBatchData, publish_ready_to_batch,
  publish_ready_to_create_deals,
}
use broker_core.Packerd.Schema as PackerdSchema
use broker_core.Packerd.Store as PackerdStore
use broker_core.Packerd.Packer
use broker_core.Packerd.Packer.{Packer}
use broker_core.Piecerd.Schema as PiecerdSchema
use broker_core.Piecerd.Store as PiecerdStore
use broker_core.Piecerd.Piecer.{Env}
use broker_core.Piecerd.Calls.{Step, take_all}
use broker_core.Msgbroker.Receipt.{Parsers}
use broker_core.Msgbroker.Accepted.{CastsDefined, CreatedAccepted, PreparedAccepted}
use broker_core.Msgbroker.Batching.{
  ReadsWallets, Accepted, publish_ready_to_batch-Accepted, publish_ready_to_create_deals-Accepted,
}
use broker_core.Msgbroker.Prepared.{take_all-PreparedAccepted}
use broker_core.Msgbroker.Sources.{
  ReadsSources, sources_from_pb, sources_to_pb, sources_from_pb-sources_to_pb,
}
use broker_core.Msgbroker.Created.{pack-CreatedAccepted}

abbrev parsers : Parsers
parsers = record {
  is_cid = λ c. is_defined c;
  is_url = λ u. not (str_eq u "");
  is_uuid = λ u. true;
}

casts : CastsDefined parsers
casts c d = d

abbrev world : {D M : Type 0} → D → World D M
world d = record { db = d; snapshot = none; sent = []; drawn = 0; now = 1000; faults = [] }

abbrev env : Env
env = record {
  retry_delay = 10;
  pad_to_size = 128;
  is_cid = λ c. true;
  comm_p = λ c. some ("raw", 64);
  pad = λ r n m. some "padded";
  commitment_cid = λ r. some "piece";
}

abbrev steps : List Step
steps = Step.ready_to_prepare "batch" "data" ∷ Step.wait 5 ∷ Step.prepare_next ∷ []

abbrev piecerd : World PiecerdSchema.Db PiecerdStore.Message
piecerd = world (record { batches = [] })

take_all-PreparedAccepted_example :
    All (PreparedAccepted parsers casts) (take_all env steps piecerd).sent
take_all-PreparedAccepted_example = take_all-PreparedAccepted parsers casts env steps piecerd tt

abbrev packer : Packer
packer = record {
  store = record {
    batch_max_size = 1000;
    batch_min_size = 100;
    batch_min_waiting = 60;
    batch_wait_scaling_factor = 2;
    id = λ n. "batch";
    size_of = λ c. some 70;
    cid_string = λ c. c;
  };
  retry_delay = 10;
  aggregate = λ srs. some (record { root = "root"; manifest = 1 ∷ []; car_url = "http://car" });
  is_url = λ u. not (str_eq u "");
}

abbrev packerd : World PackerdSchema.Db PackerdStore.Message
packerd = world (record {
  batches =
      record {
        batch_id = "b";
        status = PackerdSchema.Status.ready;
        total_size = 70;
        origin = "o";
        ready_at = 5;
        created_at = 5;
        updated_at = 5;
      }
      ∷ [];
  requests =
      record {
        operation_id = "op";
        storage_request_id = "r";
        data_cid = "c";
        batch_id = "b";
        size = 70;
      }
      ∷ [];
})

pack-CreatedAccepted_example :
    All (CreatedAccepted parsers casts) (Packer.pack packer packerd).1.sent
pack-CreatedAccepted_example = pack-CreatedAccepted parsers casts packer (λ u. refl) packerd tt

abbrev codec : Codec
codec = record {
  cid_string = λ x. x;
  parse_cid = some;
  addr_string = λ a. a;
  parse_addr = some;
  is_id_addr = λ a. str_eq a "f0100";
  is_empty_addr = λ a. str_eq a "";
  mainnet_prefix = "f";
  url_string = λ u. u;
  parse_url = λ u. if str_eq u "" then none else some u;
  is_plain_url = λ u. not (str_eq u "");
  maddr_string = λ a. a;
  parse_maddr = some;
  peer_string = λ p. p;
  decode_peer = some;
  is_valid_peer = λ p. true;
  join = λ s. "";
  split = λ s. s ∷ [];
  contains_text = str_eq;
}

codec-ReadsWallets : ReadsWallets codec
codec-ReadsWallets = record { peer = λ x v. refl; addr = λ a e. refl; maddr = λ a. refl }

codec-ReadsSources : ReadsSources codec some
codec-ReadsSources = record { cid = λ x d. refl; url = λ u p. refl; maddr = λ a. refl }

abbrev brokerd : World BrokerdSchema.Db BrokerdMessage
brokerd = world empty_db

abbrev requests : List ReadyToBatchData
requests = record { storage_request_id = "r"; data_cid = "c"; origin = "o" } ∷ []

publish_ready_to_batch-Accepted_example :
    All (Accepted parsers casts codec "op" refl) (publish_ready_to_batch requests brokerd).1.sent
publish_ready_to_batch-Accepted_example =
    publish_ready_to_batch-Accepted parsers casts codec "op" refl requests brokerd tt

abbrev deals : AuctionDeals
deals = record {
  id = "a";
  batch_id = "b";
  payload_cid = "payload";
  piece_cid = "piece";
  piece_size = 128;
  duration = 1000;
  proposals =
      record {
        storage_provider_id = "f01";
        price_per_gib_per_epoch = pos 1;
        start_epoch = 7;
        verified = true;
        fast_retrieval = true;
        auction_id = "a";
        bid_id = "bid";
      }
      ∷ [];
  remote_wallet = some (record {
    peer_id = "peer";
    wallet_addr = "f0100";
    auth_token = "token";
    multiaddrs = "/ip4/1.2.3.4" ∷ [];
  });
  car_url = "http://car";
}

publish_ready_to_create_deals-Accepted_example :
    All
      (Accepted parsers casts codec "op" refl)
      (publish_ready_to_create_deals codec deals brokerd).1.sent
publish_ready_to_create_deals-Accepted_example =
    publish_ready_to_create_deals-Accepted parsers casts codec codec-ReadsWallets "op" refl deals
      brokerd tt

abbrev sources : Sources
sources = record {
  car_url = some "http://car";
  car_ipfs = some (record { cid = "c"; multiaddrs = "/ip4/1.2.3.4" ∷ [] });
}

sources_from_pb-sources_to_pb_example :
    sources_from_pb codec some (sources_to_pb codec sources) ≡ ok sources
sources_from_pb-sources_to_pb_example =
    sources_from_pb-sources_to_pb codec some codec-ReadsSources sources refl refl
