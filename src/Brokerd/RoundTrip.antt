-- ===== src/Brokerd/RoundTrip.antt =====
-- A batch that is stored is read back as it was.
use broker_core.Base.{
  ◌*◌, ◌/◌, String, ◌≡◌, refl, eq_iff, ap, true, false, Option, none, some, List, [], ◌∷◌, map, All,
  str_eq, inl, inr, Bool-cases,
}
use broker_core.Effects.{ok}
use broker_core.Brokerd.Types.{Ident, Cid, Address, Batch, CarIpfs, is_defined, undef}
use broker_core.Brokerd.Codec.{Codec, IsFaithful, stringify_addr, stringify_addrs}
use broker_core.Brokerd.Schema.{TagRow}
use broker_core.Brokerd.Store.Convert.{
  batch_from_db, batch_to_db, cid_from_db, cid_to_db, parse_all, parse_maddr, parse_provider,
  ipfs_from_db, ipfs_with, tags_from_db, second, url_to_db, ipfs_cid_to_db, ipfs_addrs_to_db,
}

-- The rows of a batch's tags.
abbrev pub tag_rows : Ident → List (String × String) → List TagRow
tag_rows id [] = []
tag_rows id ((k, v) ∷ ts) = record { batch_id = id; key = k; value = v } ∷ tag_rows id ts

-- The addresses of an IPFS source survive being joined by commas and split again: there is one, and
-- none has a comma. Its cid is defined.
abbrev pub IsReachable : Codec → Option CarIpfs → Type 0
IsReachable c none = Unit
IsReachable c (some s) =
    (c.split (c.join (map c.maddr_string s.multiaddrs)) ≡ map c.maddr_string s.multiaddrs)
    × (is_defined s.cid ≡ true)

abbrev pub IsFetchable : Codec → Option String → Type 0
IsFetchable c none = Unit
IsFetchable c (some u) = c.is_plain_url u ≡ true

-- What the columns can hold: an offset of whole seconds, no error yet, providers that are identity
-- addresses.
pub record IsStorable (c : Codec) (ba : Batch) : Type 0 where
  pub whole : second * (ba.proposal_start_offset / second) ≡ ba.proposal_start_offset
  pub no_error : ba.error_cause ≡ ""
  pub payload : is_defined ba.payload_cid ≡ true
  pub fetchable : IsFetchable c ba.sources.car_url
  pub reachable : IsReachable c ba.sources.car_ipfs
  pub identities : All (λ a. c.is_id_addr a ≡ true) ba.providers

-- An undefined cid is the empty one.
undefined : (x : Cid) → is_defined x ≡ false → x ≡ undef
undefined x e = elim (Bool-cases (str_eq x undef)) [
  | inl p ↦ (eq_iff x undef).0 p
  | inr p ↦ cc (rw p at e)
]

module _ (c : Codec) (f : IsFaithful c) where
  cid-trip : (x : Cid) (s : String) → cid_from_db c (cid_to_db c x) s ≡ ok x
  unfolding cid_from_db cid_to_db
  cid-trip x s = elim (Bool-cases (is_defined x)) [
    | inl e ↦ rw (e, f.cid_filled x e, f.cid_trip x e) refl
    | inr e ↦ rw (e, undefined x e) refl
  ]

  payload-trip :
      (x : Cid) (s : String) → is_defined x ≡ true → cid_from_db c (c.cid_string x) s ≡ ok x
  unfolding cid_from_db
  payload-trip x s e = rw (f.cid_filled x e, f.cid_trip x e) refl

  url-trip : (u : Option String) → IsFetchable c u → c.parse_url (url_to_db c u) ≡ u
  unfolding url_to_db
  url-trip none h = f.no_url
  url-trip (some u) h = f.url_trip u h

  maddrs-trip : (as' : List String) → parse_all (parse_maddr c) (map c.maddr_string as') ≡ ok as'
  unfolding parse_all parse_maddr
  maddrs-trip [] = refl
  maddrs-trip (a ∷ as') = rw (f.maddr_trip a, maddrs-trip as') refl

  providers-trip :
      (ps : List Address)
      → All (λ a. c.is_id_addr a ≡ true) ps
      → parse_all (parse_provider c) (map (stringify_addr c) ps) ≡ ok ps
  unfolding parse_all parse_provider
  providers-trip [] h = refl
  providers-trip (a ∷ ps) h = rw (f.addr_trip a h.0, h.0, providers-trip ps h.1) refl

  ipfs-trip :
      (o : Option CarIpfs)
      → IsReachable c o
      → ipfs_from_db c (ipfs_cid_to_db c o) (ipfs_addrs_to_db c o) ≡ ok o
  unfolding ipfs_from_db ipfs_with ipfs_cid_to_db ipfs_addrs_to_db
  ipfs-trip none h = refl
  ipfs-trip (some s) h =
      rw (f.cid_filled s.cid h.1, f.cid_trip s.cid h.1, h.0, maddrs-trip s.multiaddrs) refl

  tags-trip : (id : Ident) (ts : List (String × String)) → tags_from_db (tag_rows id ts) ≡ ts
  unfolding tags_from_db
  tags-trip id [] = refl
  tags-trip id ((k, v) ∷ ts) = ap (λ r. (k, v) ∷ r) (tags-trip id ts)

  -- The rows that CreateBatch inserts for a batch are read back by GetBatch as the same batch. The batch
  -- has an offset of whole seconds, no error, a payload, a plain URL if any, identity
  -- addresses as providers, and IPFS addresses, if any, that survive being joined and split.
  pub batch_from_db-batch_to_db :
      (ba : Batch)
      → IsStorable c ba
      → batch_from_db c (batch_to_db c ba) (tag_rows ba.id ba.tags) ≡ ok ba
  unfolding batch_from_db batch_to_db stringify_addrs
  batch_from_db-batch_to_db ba s =
      rw
        (
          payload-trip ba.payload_cid "parsing payload CID" s.payload,
          cid-trip ba.piece_cid "parsing piece CID",
          ipfs-trip ba.sources.car_ipfs s.reachable,
          providers-trip ba.providers s.identities,
          url-trip ba.sources.car_url s.fetchable,
          tags-trip ba.id ba.tags,
          s.whole,
          s.no_error,
        )
        refl
