-- ===== src/Brokerd/Codec.antt =====
-- What brokerd takes from code outside the repository: the texts of cids, addresses, URLs,
-- multiaddresses and peer-ids, and Go's `strings` on comma-separated lists. A function that may return
-- an error returns an `Option`.
use Prim.Native.String.{◌++◌, slice, len}
use broker_core.Base.{String, Bool, Option, List, map, ◌≡◌, some, true, none, str_eq, false}
use broker_core.Brokerd.Types.{Cid, Address, is_defined}

pub record Codec : Type 0 where
  -- cid.Cid.String, cid.Parse
  pub cid_string : Cid → String
  pub parse_cid : String → Option Cid
  -- address.Address.String, address.NewFromString, Protocol() == address.ID, Empty
  pub addr_string : Address → String
  pub parse_addr : String → Option Address
  pub is_id_addr : Address → Bool
  pub is_empty_addr : Address → Bool
  pub mainnet_prefix : String
  -- url.URL.String, url.ParseRequestURI; whether a URL is plain: http or https, a host, a path of
  -- unreserved characters, and neither a query nor a fragment
  pub url_string : String → String
  pub parse_url : String → Option String
  pub is_plain_url : String → Bool
  -- multiaddr.Multiaddr.String, multiaddr.NewMultiaddr
  pub maddr_string : String → String
  pub parse_maddr : String → Option String
  -- peer.ID.String, peer.Decode, peer.ID.Validate
  pub peer_string : String → String
  pub decode_peer : String → Option String
  pub is_valid_peer : String → Bool
  -- strings.Join and strings.Split with the separator ","
  pub join : List String → String
  pub split : String → List String
  -- strings.Contains
  pub contains_text : String → String → Bool

-- common.StringifyAddr: the text as for the main network.
unfoldable pub stringify_addr : Codec → Address → String
stringify_addr c a =
    c.mainnet_prefix ++ slice (c.addr_string a) (len c.mainnet_prefix) (len (c.addr_string a))

-- common.StringifyAddrs
unfoldable pub stringify_addrs : Codec → List Address → List String
unfolding stringify_addr
stringify_addrs c = map (stringify_addr c)

-- What is documented of these functions: parsing gives back what was printed, of URLs the plain ones
-- (ParseRequestURI takes a fragment for a part of the path). The text of a defined cid is not empty, and
-- an empty text is no URL.
pub record IsFaithful (c : Codec) : Type 0 where
  pub cid_trip : (x : Cid) → is_defined x ≡ true → c.parse_cid (c.cid_string x) ≡ some x
  pub cid_filled : (x : Cid) → is_defined x ≡ true → str_eq (c.cid_string x) "" ≡ false
  pub url_trip : (u : String) → c.is_plain_url u ≡ true → c.parse_url (c.url_string u) ≡ some u
  pub no_url : c.parse_url "" ≡ none
  pub maddr_trip : (a : String) → c.parse_maddr (c.maddr_string a) ≡ some a
  pub addr_trip : (a : Address) → c.is_id_addr a ≡ true → c.parse_addr (stringify_addr c a) ≡ some a
