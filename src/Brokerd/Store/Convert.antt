-- ===== src/Brokerd/Store/Convert.antt =====
-- Rows to values and back (batchFromDB and the conversions inside the store's operations).
use broker_core.Base.{
  ℕ, ◌*◌, ◌/◌, ◌^◌, String, Option, none, some, List, [], ◌∷◌, map, str_eq, if◌then◌else◌,
}
use broker_core.Effects.{message, Result, ok, err, panicked}
use broker_core.Brokerd.Types.{
  Ident, Cid, Address, Batch, CarIpfs, StorageRequest, RemoteWallet, undef, is_defined,
}
use broker_core.Brokerd.Codec.{Codec, stringify_addrs}
use broker_core.Brokerd.Schema.{BatchRow, RequestRow, TagRow, WalletRow}

infixl 10 ◌>>=◌
abbrev ◌>>=◌ {ℓ κ} : {A : Type ℓ} {B : Type κ} → Result A → (A → Result B) → Result B
ok a >>= f = f a
err e >>= f = err e
panicked >>= f = panicked

-- An error of a parser.
abbrev or_error {ℓ} : {A : Type ℓ} → Option A → String → Result A
or_error none s = err (message s)
or_error (some a) s = ok a

-- time.Second, in nanoseconds
abbrev pub second : ℕ
second = 10 ^ 9

-- A cid column, where the empty text stands for an undefined cid.
unfoldable pub cid_from_db : Codec → String → String → Result Cid
cid_from_db c column what =
    if str_eq column "" then ok undef else or_error (c.parse_cid column) what

-- An undefined piece cid is stored as the empty text.
unfoldable pub cid_to_db : Codec → Cid → String
cid_to_db c x = if is_defined x then c.cid_string x else ""

unfoldable pub parse_all : (String → Result String) → List String → Result (List String)
parse_all p [] = ok []
parse_all p (x ∷ xs) = do y ← p x; ys ← parse_all p xs; ok (y ∷ ys)

unfoldable pub parse_maddr : Codec → String → Result String
parse_maddr c s = or_error (c.parse_maddr s) "parsing multiaddr"

-- A provider, which must be an identity address.
unfoldable pub parse_provider : Codec → String → Result Address
parse_provider c s = do
  a ← or_error (c.parse_addr s) "parsing provider"
  if c.is_id_addr a then ok a else err (message "should be an identity address")

-- An IPFS source is dropped where its cid does not parse.
unfoldable pub ipfs_with : Codec → String → Option Cid → Result (Option CarIpfs)
unfolding parse_all parse_maddr
ipfs_with c addrs none = ok none
ipfs_with c addrs (some x) = do
  ms ← parse_all (parse_maddr c) (c.split addrs)
  ok (some (record { cid = x; multiaddrs = ms }))

unfoldable pub ipfs_from_db : Codec → String → String → Result (Option CarIpfs)
unfolding ipfs_with
ipfs_from_db c column addrs =
    if str_eq column "" then ok none else ipfs_with c addrs (c.parse_cid column)

unfoldable pub tags_from_db : List TagRow → List (String × String)
tags_from_db = map (λ t. (t.key, t.value))

-- batchFromDB
unfoldable pub batch_from_db : Codec → BatchRow → List TagRow → Result Batch
batch_from_db c r tags = do
  payload_cid ← cid_from_db c r.payload_cid "parsing payload CID"
  piece_cid ← cid_from_db c r.piece_cid "parsing piece CID"
  car_ipfs ← ipfs_from_db c r.car_ipfs_cid r.car_ipfs_addrs
  providers ← parse_all (parse_provider c) r.providers
  ok (record {
    id = r.id;
    status = r.status;
    rep_factor = r.rep_factor;
    deal_duration = r.deal_duration;
    sources = record { car_url = c.parse_url r.car_url; car_ipfs = car_ipfs };
    disallow_rebatching = r.disallow_rebatching;
    fil_epoch_deadline = r.fil_epoch_deadline;
    proposal_start_offset = second * r.proposal_start_offset_seconds;
    error_cause = r.error_cause;
    origin = r.origin;
    tags = tags_from_db tags;
    providers = providers;
    payload_cid = payload_cid;
    payload_size = r.payload_size;
    piece_cid = piece_cid;
    piece_size = r.piece_size;
  })

unfoldable pub url_to_db : Codec → Option String → String
url_to_db c none = ""
url_to_db c (some u) = c.url_string u

unfoldable pub ipfs_cid_to_db : Codec → Option CarIpfs → String
ipfs_cid_to_db c none = ""
ipfs_cid_to_db c (some s) = c.cid_string s.cid

-- strings.Join of no addresses where there is no IPFS source.
unfoldable pub ipfs_addrs_to_db : Codec → Option CarIpfs → String
ipfs_addrs_to_db c none = c.join []
ipfs_addrs_to_db c (some s) = c.join (map c.maddr_string s.multiaddrs)

-- The parameters of CreateBatch's first statement.
unfoldable pub batch_to_db : Codec → Batch → BatchRow
batch_to_db c ba = record {
  id = ba.id;
  status = ba.status;
  rep_factor = ba.rep_factor;
  deal_duration = ba.deal_duration;
  payload_cid = c.cid_string ba.payload_cid;
  piece_cid = cid_to_db c ba.piece_cid;
  piece_size = ba.piece_size;
  car_url = url_to_db c ba.sources.car_url;
  car_ipfs_cid = ipfs_cid_to_db c ba.sources.car_ipfs;
  car_ipfs_addrs = ipfs_addrs_to_db c ba.sources.car_ipfs;
  disallow_rebatching = ba.disallow_rebatching;
  fil_epoch_deadline = ba.fil_epoch_deadline;
  error_cause = "";
  origin = ba.origin;
  providers = stringify_addrs c ba.providers;
  payload_size = ba.payload_size;
  proposal_start_offset_seconds = ba.proposal_start_offset / second;
}

batch_id_from_db : Option Ident → Ident
batch_id_from_db none = ""
batch_id_from_db (some i) = i

-- The end of GetStorageRequest.
unfoldable pub request_from_db : Codec → RequestRow → Result StorageRequest
unfolding batch_id_from_db
request_from_db c r = do
  x ← or_error (c.parse_cid r.data_cid) "parsing data CID"
  ok (record {
    id = r.id;
    data_cid = x;
    status = r.status;
    origin = r.origin;
    batch_id = batch_id_from_db r.batch_id;
  })

-- The end of GetRemoteWalletConfig; a batch may have no remote wallet.
unfoldable pub wallet_from_db : Codec → Option WalletRow → Result (Option RemoteWallet)
unfolding parse_all parse_maddr
wallet_from_db c none = ok none
wallet_from_db c (some r) = do
  peer_id ← or_error (c.decode_peer r.peer_id) "decoding peer-id"
  addr ← or_error (c.parse_addr r.wallet_addr) "decoding wallet address"
  ms ←
      (if c.is_empty_addr addr
        then err (message "invalid wallet address (empty)")
        else parse_all (parse_maddr c) r.multiaddrs)
  ok (
      some (record {
        peer_id = peer_id;
        wallet_addr = addr;
        auth_token = r.auth_token;
        multiaddrs = ms;
      }))

unfoldable pub wallet_to_db : Codec → Ident → RemoteWallet → WalletRow
wallet_to_db c id rw = record {
  batch_id = id;
  peer_id = c.peer_string rw.peer_id;
  auth_token = rw.auth_token;
  wallet_addr = c.addr_string rw.wallet_addr;
  multiaddrs = map c.maddr_string rw.multiaddrs;
}
