-- ===== src/Msgbroker/Sources.antt =====
-- The sources of a batch's data in a message: sourcesToPb and sourcesFromPb of msgbroker/msgbroker.go, the
-- receiver of ready-to-auction, which uses them, and those of the accepted deal proposals.
use broker_core.Base.{◌≡◌, refl, String, true, Option, none, some, List, [], ◌∷◌, map, not, nat_eq}
use broker_core.Effects.{message, Result, ok, err, panicked}
use broker_core.Brokerd.Types.{Ident, Cid, Sources, CarIpfs, is_defined}
use broker_core.Brokerd.Codec.{Codec}
use broker_core.Brokerd.Env.{ReadyToAuction, filled}
use broker_core.Msgbroker.Receipt.{Parsers, checked, multiaddrs_from_pb}

-- pb.Sources, with pb.Sources_CARIPFS
pub record PbSources : Type 0 where
  pub car_url : Option String
  pub car_ipfs : Option (String × List String)

abbrev pub url_to_pb : Codec → Option String → Option String
url_to_pb c none = none
url_to_pb c (some u) = some (c.url_string u)

abbrev pub ipfs_to_pb : Codec → Option CarIpfs → Option (String × List String)
ipfs_to_pb c none = none
ipfs_to_pb c (some i) = some (c.cid_string i.cid, map c.maddr_string i.multiaddrs)

-- sourcesToPb
unfoldable pub sources_to_pb : Codec → Sources → PbSources
sources_to_pb c s = record { car_url = url_to_pb c s.car_url; car_ipfs = ipfs_to_pb c s.car_ipfs }

-- `parse` is url.Parse, which takes more texts than url.ParseRequestURI.
unfoldable pub url_from_pb : (String → Option String) → Option String → Result (Option String)
url_from_pb parse none = ok none
url_from_pb parse (some u) = elim (parse u) [
  | none ↦ err (message "parsing url")
  | some v ↦ ok (some v)
]

unfoldable pub ipfs_from_pb : Codec → Option (String × List String) → Result (Option CarIpfs)
ipfs_from_pb c none = ok none
ipfs_from_pb c (some (i, ss)) = elim (c.parse_cid i) [
  | none ↦ err (message "parsing cid")
  | some d ↦ elim (multiaddrs_from_pb c ss) [
    | ok addrs ↦ ok (some (record { cid = d; multiaddrs = addrs }))
    | err e ↦ err e
    | panicked ↦ panicked
  ]
]

-- sourcesFromPb
unfoldable pub sources_from_pb : Codec → (String → Option String) → PbSources → Result Sources
sources_from_pb c parse s = elim (url_from_pb parse s.car_url) [
  | ok u ↦ elim (ipfs_from_pb c s.car_ipfs) [
    | ok i ↦ ok (record { car_url = u; car_ipfs = i })
    | err e ↦ err e
    | panicked ↦ panicked
  ]
  | err e ↦ err e
  | panicked ↦ panicked
]

-- ReadyToAuctionTopic, with the sources as sent.
unfoldable pub on_ready_to_auction :
    Parsers → Codec → (String → Option String) → PbSources → ReadyToAuction → Result ReadyToAuction
on_ready_to_auction p c parse pb r = checked (filled r.id) "auction-id is empty" (
    checked (filled r.batch_id) "batch id is empty" (
      checked (p.is_cid r.payload_cid) "payload cid invalid" (
        checked (is_defined r.payload_cid) "payload cid is undefined" (
          checked (not (nat_eq r.deal_size 0)) "deal size must be greater than zero" (
            checked (not (nat_eq r.deal_replication 0)) "deal replication must be greater than zero"
              (elim (sources_from_pb c parse pb) [
                | ok s ↦ ok (record r { sources = s })
                | err e ↦ err e
                | panicked ↦ panicked
              ]))))))

-- The messages DealProposalAccepted and BoostDealProposalAccepted; `proposal` is a cid or a deal uid.
pub record ProposalAccepted : Type 0 where
  pub batch_id : Ident
  pub storage_provider_id : String
  pub proposal : String
  pub auction_id : Ident
  pub bid_id : Ident

-- DealProposalAcceptedTopic
unfoldable pub on_deal_proposal_accepted :
    Parsers → ProposalAccepted → Result (Ident × Ident × String)
on_deal_proposal_accepted p r = checked (filled r.batch_id) "batch id is empty" (
    checked (filled r.storage_provider_id) "storage-provider-id is empty" (
      checked (p.is_cid r.proposal) "invalid proposal cid" (
        checked (is_defined r.proposal) "invalid proposal cid" (
          checked (filled r.auction_id) "auction id is required" (
            checked (filled r.bid_id) "bid id is required"
              (ok (r.auction_id, r.bid_id, r.proposal)))))))

-- BoostDealProposalAcceptedTopic
unfoldable pub on_boost_deal_proposal_accepted :
    Parsers → ProposalAccepted → Result (Ident × Ident × String)
on_boost_deal_proposal_accepted p r = checked (filled r.batch_id) "batch id is empty" (
    checked (filled r.storage_provider_id) "storage-provider-id is empty" (
      checked (p.is_uuid r.proposal) "dealuid parsing" (
        checked (filled r.auction_id) "auction id is required" (
          checked (filled r.bid_id) "bid id is required"
            (ok (r.auction_id, r.bid_id, r.proposal))))))

-- What is documented of the texts: a defined cid, a plain URL and a multiaddress are read back from theirs.
pub record ReadsSources (c : Codec) (parse : String → Option String) : Type 0 where
  pub cid : (x : Cid) → is_defined x ≡ true → c.parse_cid (c.cid_string x) ≡ some x
  pub url : (u : String) → c.is_plain_url u ≡ true → parse (c.url_string u) ≡ some u
  pub maddr : (a : String) → c.parse_maddr (c.maddr_string a) ≡ some a

-- A URL that is there is plain, and a cid that is there is defined.
abbrev pub IsPlainIfAny : Codec → Option String → Type 0
IsPlainIfAny c none = Unit
IsPlainIfAny c (some u) = c.is_plain_url u ≡ true

abbrev pub IsDefinedIfAny : Option CarIpfs → Type 0
IsDefinedIfAny none = Unit
IsDefinedIfAny (some i) = is_defined i.cid ≡ true

module _ (c : Codec) (parse : String → Option String) (f : ReadsSources c parse) where
  multiaddrs_from_pb-map :
      (addrs : List String) → multiaddrs_from_pb c (map c.maddr_string addrs) ≡ ok addrs
  unfolding multiaddrs_from_pb
  multiaddrs_from_pb-map [] = refl
  multiaddrs_from_pb-map (a ∷ addrs) = rw (f.maddr a, multiaddrs_from_pb-map addrs) refl

  ipfs_from_pb-ipfs_to_pb :
      (o : Option CarIpfs) → IsDefinedIfAny o → ipfs_from_pb c (ipfs_to_pb c o) ≡ ok o
  unfolding ipfs_from_pb
  ipfs_from_pb-ipfs_to_pb none h = refl
  ipfs_from_pb-ipfs_to_pb (some i) h = rw (f.cid i.cid h, multiaddrs_from_pb-map i.multiaddrs) refl

  url_from_pb-url_to_pb :
      (o : Option String) → IsPlainIfAny c o → url_from_pb parse (url_to_pb c o) ≡ ok o
  unfolding url_from_pb
  url_from_pb-url_to_pb none h = refl
  url_from_pb-url_to_pb (some u) h = rw (f.url u h) refl

-- The sources that a message carries come out of it as they went in, if the URL among them is plain and
-- the cid among them is defined, and the texts of plain URLs, defined cids and multiaddresses are read back.
pub sources_from_pb-sources_to_pb :
    (c : Codec) (parse : String → Option String) (f : ReadsSources c parse) (s : Sources)
    → IsPlainIfAny c s.car_url
    → IsDefinedIfAny s.car_ipfs
    → sources_from_pb c parse (sources_to_pb c s) ≡ ok s
unfolding sources_from_pb sources_to_pb
sources_from_pb-sources_to_pb c parse f s u h =
    rw
      (
        sources_from_pb,
        sources_to_pb,
        url_from_pb-url_to_pb c parse f s.car_url u,
        ipfs_from_pb-ipfs_to_pb c parse f s.car_ipfs h,
      )
      refl
