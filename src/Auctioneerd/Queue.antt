-- ===== src/Auctioneerd/Queue.antt =====
-- The queue of auctions, cmd/auctioneerd/auctioneer/queue/queue.go, and what the auctioneer gives it: the
-- new auctions and the finalizer. A send on the channel of jobs is a message `job`; whether the channel
-- has room is an argument, since it depends on how far the worker is.
use broker_core.Base.{
  ℕ, ◌*◌, ◌^◌, String, Bool, true, false, Option, none, some, List, [], ◌∷◌, ◌++◌, ◌||◌, not,
  nat_eq, str_eq, if◌then◌else◌,
}
use broker_core.Base.Int.{ℤ}
use broker_core.Effects.{
  message, ok, pure, gets, done, require, exec, insert, query, logged, succeeds, with_tx, ◌>>=◌,
  ◌>>◌,
}
use broker_core.Brokerd.Types.{AuctionStatus, Sources, CarIpfs, is_defined}
use broker_core.Auctioneerd.Types.{Auction, is_zero}
use broker_core.Auctioneerd.Events.{Message}
use broker_core.Auctioneerd.Schema
use broker_core.Auctioneerd.Schema.{Db, AuctionRow}
use broker_core.Auctioneerd.Winners.{Action}
use broker_core.Auctioneerd.Bids.{Command}

-- stuckSeconds, in nanoseconds
abbrev pub stuck : ℕ
stuck = 3600 * 10 ^ 9

abbrev pub is_empty {ℓ} : {A : Type ℓ} → List A → Bool
is_empty [] = true
is_empty (x ∷ xs) = false

abbrev pub is_none : {A : Type 0} → Option A → Bool
is_none none = true
is_none (some a) = false

abbrev pub same_status : AuctionStatus → AuctionStatus → Bool
same_status AuctionStatus.unspecified AuctionStatus.unspecified = true
same_status AuctionStatus.queued AuctionStatus.queued = true
same_status AuctionStatus.started AuctionStatus.started = true
same_status AuctionStatus.finalized AuctionStatus.finalized = true
same_status _ _ = false

-- validate; `valid_sources` is Sources.Validate without an error.
unfoldable pub validate : (Sources → Bool) → Auction → Command
validate valid_sources a = do
  require (not (str_eq a.id "")) (message "auction id is empty")
  require (not (str_eq a.batch_id "")) (message "batch id is empty")
  require (is_defined a.payload_cid) (message "payload cid is empty")
  require (not (nat_eq a.deal_size 0)) (message "deal size must be greater than zero")
  require (not (nat_eq a.deal_duration 0)) (message "deal duration must be greater than zero")
  require (not (nat_eq a.deal_replication 0)) (message "deal replication must be greater than zero")
  require (valid_sources a.sources) (message "invalid sources")
  require (same_status a.status AuctionStatus.unspecified)
      (message "invalid initial auction status")
  require (is_empty a.bids) (message "initial bids must be empty")
  require (is_empty a.winning_bids) (message "initial winning bids must be empty")
  require (is_none a.started_at) (message "initial started at must be zero")
  require (is_none a.updated_at) (message "initial updated at must be zero")
  require (not (is_zero a.duration)) (message "duration must be greater than zero")
  require (str_eq a.error_cause "") (message "initial error cause must be empty")

abbrev pub url_of : Option String → String
url_of none = ""
url_of (some u) = u

abbrev pub cid_of : Option CarIpfs → String
cid_of none = ""
cid_of (some c) = c.cid

abbrev pub addrs_of : Option CarIpfs → List String
addrs_of none = []
addrs_of (some c) = c.multiaddrs

-- The parameters of the statement CreateAuction; cids, URLs and multiaddresses are texts here.
abbrev pub row_of : Auction → ℕ → AuctionRow
row_of a now = record {
  id = a.id;
  batch_id = a.batch_id;
  deal_size = a.deal_size;
  deal_duration = a.deal_duration;
  deal_replication = a.deal_replication;
  deal_verified = a.deal_verified;
  fil_epoch_deadline = a.fil_epoch_deadline;
  excluded_storage_providers = a.excluded_storage_providers;
  providers = a.providers;
  payload_cid = a.payload_cid;
  car_url = url_of a.sources.car_url;
  car_ipfs_cid = cid_of a.sources.car_ipfs;
  car_ipfs_addrs = addrs_of a.sources.car_ipfs;
  status = AuctionStatus.queued;
  error_cause = "";
  duration = a.duration;
  started_at = now;
  updated_at = now;
  client_address = a.client_address;
}

-- saveAndTransitionStatus, as the statement and as what becomes of the auction.
unfoldable pub save_and_transition_status : Auction → AuctionStatus → Command
save_and_transition_status a s = do
  now ← gets (λ w. w.now)
  if same_status a.status s
      then done
      else exec (Schema.update_auction_status_and_error a.id s a.error_cause now)

abbrev pub with_status : Auction → AuctionStatus → Auction
with_status a s = record a { status = s }

-- q.jobCh <- a
unfoldable pub send_job : Auction → Command
send_job a w = (ok tt, record w { sent = w.sent ++ Message.job a ∷ [] })

-- enqueue; `room` tells whether the channel takes the job.
unfoldable pub enqueue : Bool → Auction → Command
enqueue room a = do
  saved ← succeeds (save_and_transition_status a AuctionStatus.started)
  let started : Auction = with_status a AuctionStatus.started
  let queue_again : Command = logged (save_and_transition_status started AuctionStatus.queued)
  if saved then (if room then send_job started else queue_again) else done

-- Queue.CreateAuction
unfoldable pub create_in_queue : (Sources → Bool) → Bool → Auction → Command
create_in_queue valid_sources room a = do
  validate valid_sources a
  now ← gets (λ w. w.now)
  with_tx do insert (Schema.create_auction (row_of a now)); enqueue room a

-- Auctioneer.CreateAuction, with the configured duration.
unfoldable pub create_auction : (Sources → Bool) → ℤ → Bool → Auction → Command
create_auction valid_sources duration room a =
    create_in_queue valid_sources room
      (record a { status = AuctionStatus.unspecified; duration = duration })

-- The parsers of stored texts: each text that parses stands for its value.
pub record Codec : Type 0 where
  pub is_cid : String → Bool
  pub is_url : String → Bool
  pub is_multiaddr : String → Bool
  pub is_peer_id : String → Bool
  pub is_uuid : String → Bool
  pub valid_sources : Sources → Bool

unfoldable pub check_addrs : Codec → List String → Command
check_addrs k [] = done
check_addrs k (s ∷ ss) = do
  require (k.is_multiaddr s) (message "parsing car ipfs multiaddr")
  check_addrs k ss

abbrev pub url_from : String → Option String
url_from u = if str_eq u "" then none else some u

abbrev pub ipfs_from : String → List String → Option CarIpfs
ipfs_from c addrs = if str_eq c "" then none else some (record { cid = c; multiaddrs = addrs })

-- auctionFromDb
unfoldable pub auction_from_db : Codec → AuctionRow → Action Auction
auction_from_db k a = do
  require (k.is_cid a.payload_cid) (message "parsing payload cid")
  require (str_eq a.car_url "" || k.is_url a.car_url) (message "parsing car url")
  require (str_eq a.car_ipfs_cid "" || k.is_cid a.car_ipfs_cid) (message "parsing car ipfs cid")
  if str_eq a.car_ipfs_cid "" then done else check_addrs k a.car_ipfs_addrs
  let sources : Sources = record {
    car_url = url_from a.car_url;
    car_ipfs = ipfs_from a.car_ipfs_cid a.car_ipfs_addrs;
  }
  require (k.valid_sources sources) (message "validating sources")
  pure (record {
    id = a.id;
    batch_id = a.batch_id;
    payload_cid = a.payload_cid;
    deal_size = a.deal_size;
    deal_duration = a.deal_duration;
    deal_replication = a.deal_replication;
    deal_verified = a.deal_verified;
    fil_epoch_deadline = a.fil_epoch_deadline;
    excluded_storage_providers = a.excluded_storage_providers;
    providers = a.providers;
    sources = sources;
    client_address = a.client_address;
    status = a.status;
    bids = [];
    winning_bids = [];
    started_at = some a.started_at;
    updated_at = some a.updated_at;
    duration = a.duration;
    error_cause = a.error_cause;
  })

unfoldable pub enqueue_next : Codec → Bool → Option AuctionRow → Command
enqueue_next k room none = done
enqueue_next k room (some row) = do a ← auction_from_db k row; enqueue room a

-- processNext
unfoldable pub process_next : Codec → Bool → Command
process_next k room = do
  now ← gets (λ w. w.now)
  logged (
      with_tx do
        next ← query (λ d. ok (Schema.get_next_ready_to_execute stuck now d))
        enqueue_next k room next)
