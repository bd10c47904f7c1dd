-- ===== src/Msgbroker/Batching.antt =====
-- From brokerd: the receivers of ready-to-batch and ready-to-create-deals accept what brokerd publishes.
use broker_core.Base.{
  map, arith, ◌≡◌, refl, String, true, false, Option, none, some, List, [], ◌∷◌, not, nat_eq, All,
}
use broker_core.Base.Int.{is_neg}
use broker_core.Effects.{World, ok, done}
use broker_core.Effects.Gives.{
  Gives, Any, Gives-pure, Gives-bind, Gives-map, Gives-require, Gives-publish,
}
use broker_core.Brokerd.Types.{Ident, RemoteWallet, is_defined}
use broker_core.Brokerd.Codec.{Codec}
use broker_core.Brokerd.Schema.{Db}
use broker_core.Brokerd.Env.{
  ReadyToBatchData, Proposal, AuctionDeals, Message, filled, is_empty, check_ready_to_batch,
  publish_ready_to_batch, check_proposals, check_wallet, publish_ready_to_create_deals,
  wallet_to_pb, deals_to_pb,
}
use broker_core.Msgbroker.Receipt.{
  Parsers, is_nil, batch_data_from_pb, on_ready_to_batch, proposals_from_pb, wallet_from_pb,
  wallet_with, multiaddrs_from_pb, on_ready_to_create_deals,
}
use broker_core.Msgbroker.Accepted.{Outcome-sent, CastsDefined, Gives-after_check}

-- What is documented of the texts of a wallet: a valid peer id, an address that is not empty and a
-- multiaddress are read back from their texts.
pub record ReadsWallets (c : Codec) : Type 0 where
  pub peer : (x : String) → c.is_valid_peer x ≡ true → c.decode_peer (c.peer_string x) ≡ some x
  pub addr : (a : String) → c.is_empty_addr a ≡ false → c.parse_addr (c.addr_string a) ≡ some a
  pub maddr : (a : String) → c.parse_maddr (c.maddr_string a) ≡ some a

-- What the publisher does not check and the receiver does.
pub record IsComplete (a : AuctionDeals) : Type 0 where
  pub id : filled a.id ≡ true
  pub batch_id : filled a.batch_id ≡ true
  pub payload_cid : is_defined a.payload_cid ≡ true
  pub piece_cid : is_defined a.piece_cid ≡ true
  pub duration : nat_eq a.duration 0 ≡ false
  pub proposals : is_nil a.proposals ≡ false
  pub prices : All (λ t. is_neg t.price_per_gib_per_epoch ≡ false) a.proposals
  pub car_url : filled a.car_url ≡ true

module _ (p : Parsers) (casts : CastsDefined p) (c : Codec) (op : Ident)
    (o : filled op ≡ true) where
  abbrev pub Accepted : Message → Type 0
  Accepted (Message.ready_to_batch xs) = on_ready_to_batch p op xs ≡ ok xs
  Accepted (Message.ready_to_auction m) = Unit
  Accepted (Message.ready_to_create_deals m) =
      (a : AuctionDeals) × (m ≡ deals_to_pb c a)
      × (IsComplete a → on_ready_to_create_deals p c m ≡ ok a)

  check_ready_to_batch-Gives :
      (xs : List ReadyToBatchData)
      → Gives {D = Db} Accepted (λ _. batch_data_from_pb p xs ≡ ok xs) (check_ready_to_batch xs)
  unfolding check_ready_to_batch batch_data_from_pb done
  check_ready_to_batch-Gives [] = Gives-pure Accepted _ tt refl
  check_ready_to_batch-Gives (x ∷ xs) =
      Gives-bind Accepted (λ _. filled x.storage_request_id ≡ true) _ _ _
        (Gives-require Accepted _ _)
        λ _ i.
          Gives-bind Accepted (λ _. is_defined x.data_cid ≡ true) _ _ _ (Gives-require Accepted _ _)
            λ _ d.
              Gives-bind Accepted (λ _. filled x.origin ≡ true) _ _ _ (Gives-require Accepted _ _)
                λ _ f.
                  Gives-map Accepted (λ _. batch_data_from_pb p xs ≡ ok xs) _ _
                    (λ _ _ _ h. rw (i, casts x.data_cid d, d, f, h) refl)
                    (check_ready_to_batch-Gives xs)

  same_test : (xs : List ReadyToBatchData) → not (is_empty xs) ≡ true → is_nil xs ≡ false
  same_test [] h = cc
  same_test (x ∷ xs) h = refl

  pub publish_ready_to_batch-Gives :
      (xs : List ReadyToBatchData) → Gives Accepted Any (publish_ready_to_batch xs)
  unfolding publish_ready_to_batch on_ready_to_batch
  publish_ready_to_batch-Gives xs = Gives-after_check Accepted (not (is_empty xs)) _ _ λ n.
      Gives-bind Accepted (λ _. batch_data_from_pb p xs ≡ ok xs) Any _ _
        (check_ready_to_batch-Gives xs)
        λ _ h. Gives-publish Accepted (Message.ready_to_batch xs) (rw (o, same_test xs n, h) refl)

  -- The proposals are accepted, if their prices are.
  abbrev Priced : List Proposal → Type 0
  Priced ts = All (λ t. is_neg t.price_per_gib_per_epoch ≡ false) ts → proposals_from_pb ts ≡ ok ts

  check_proposals-Gives :
      (ts : List Proposal) → Gives {D = Db} Accepted (λ _. Priced ts) (check_proposals ts)
  unfolding check_proposals proposals_from_pb done
  check_proposals-Gives [] = Gives-pure Accepted _ tt (λ _. refl)
  check_proposals-Gives (t ∷ ts) =
      Gives-bind Accepted (λ _. filled t.storage_provider_id ≡ true) _ _ _
        (Gives-require Accepted _ _)
        λ _ s.
          Gives-bind Accepted (λ _. not (nat_eq t.start_epoch 0) ≡ true) _ _ _
            (Gives-require Accepted _ _)
            λ _ e.
              Gives-bind Accepted (λ _. filled t.auction_id ≡ true) _ _ _
                (Gives-require Accepted _ _)
                λ _ a.
                  Gives-bind Accepted (λ _. filled t.bid_id ≡ true) _ _ _
                    (Gives-require Accepted _ _)
                    λ _ b.
                      Gives-map Accepted (λ _. Priced ts) _ _
                        (λ _ _ _ h prices. rw (s, prices.0, e, a, b, h prices.1) refl)
                        (check_proposals-Gives ts)

module _ (p : Parsers) (casts : CastsDefined p) (c : Codec) (reads : ReadsWallets c) (op : Ident)
    (o : filled op ≡ true) where
  multiaddrs_from_pb-map : (ms : List String) → multiaddrs_from_pb c (map c.maddr_string ms) ≡ ok ms
  unfolding multiaddrs_from_pb
  multiaddrs_from_pb-map [] = refl
  multiaddrs_from_pb-map (m ∷ ms) = rw (reads.maddr m, multiaddrs_from_pb-map ms) refl

  IsRead : Option RemoteWallet → Type 0
  IsRead r = wallet_from_pb c (wallet_to_pb c r) ≡ ok r

  check_wallet-Gives :
      (r : Option RemoteWallet)
      → Gives {D = Db} (Accepted p casts c op o) (λ _. IsRead r) (check_wallet c r)
  unfolding check_wallet wallet_from_pb wallet_with wallet_to_pb done IsRead
  check_wallet-Gives none = Gives-pure (Accepted p casts c op o) _ tt refl
  check_wallet-Gives (some r) =
      Gives-bind (Accepted p casts c op o) (λ _. c.is_valid_peer r.peer_id ≡ true) _ _ _
        (Gives-require (Accepted p casts c op o) _ _)
        λ _ v.
          Gives-bind (Accepted p casts c op o) (λ _. filled r.auth_token ≡ true) _ _ _
            (Gives-require (Accepted p casts c op o) _ _)
            λ _ t.
              Gives-map (Accepted p casts c op o) (λ _. not (c.is_empty_addr r.wallet_addr) ≡ true)
                _ _
                (λ _ _ _ e.
                  let n : c.is_empty_addr r.wallet_addr ≡ false = ground (arith, e) in
                  rw
                    (
                      reads.peer r.peer_id v,
                      v,
                      t,
                      reads.addr r.wallet_addr n,
                      n,
                      multiaddrs_from_pb-map r.multiaddrs,
                    )
                    refl)
                (Gives-require (Accepted p casts c op o) _ _)

  pub publish_ready_to_create_deals-Gives :
      (a : AuctionDeals) → Gives (Accepted p casts c op o) Any (publish_ready_to_create_deals c a)
  unfolding publish_ready_to_create_deals on_ready_to_create_deals deals_to_pb IsRead
  publish_ready_to_create_deals-Gives a =
      Gives-bind (Accepted p casts c op o) (λ _. Priced p casts c op o a.proposals) Any _ _
        (check_proposals-Gives p casts c op o a.proposals)
        λ _ ts.
          Gives-bind (Accepted p casts c op o) (λ _. IsRead a.remote_wallet) Any _ _
            (check_wallet-Gives a.remote_wallet)
            λ _ r.
              Gives-publish (Accepted p casts c op o)
                (Message.ready_to_create_deals (deals_to_pb c a))
                (
                  a,
                  refl,
                  λ k.
                      rw
                        (
                          k.id,
                          k.batch_id,
                          casts a.payload_cid k.payload_cid,
                          k.payload_cid,
                          casts a.piece_cid k.piece_cid,
                          k.piece_cid,
                          k.duration,
                          k.proposals,
                          k.car_url,
                          ts k.prices,
                          r,
                        )
                        refl,
                )

-- After the publication of a ready-to-batch message by brokerd, whether or not it fails, packerd's receiver
-- accepts each such message that has been sent and calls the listener with what has been sent, if this
-- holds before it. The operation id is not empty, and the bytes of a defined cid are taken to be accepted
-- by cid.Cast. As before, each
-- ready-to-create-deals message is the encoding of deals, and the receiver decodes it to them, if they are
-- complete.
pub publish_ready_to_batch-Accepted :
    (p : Parsers) (casts : CastsDefined p) (c : Codec) (op : Ident) (o : filled op ≡ true)
    (xs : List ReadyToBatchData) (w : World Db Message)
    → All (Accepted p casts c op o) w.sent
    → All (Accepted p casts c op o) (publish_ready_to_batch xs w).1.sent
publish_ready_to_batch-Accepted p casts c op o xs w h =
    Outcome-sent (Accepted p casts c op o) (publish_ready_to_batch xs w)
      ((publish_ready_to_batch-Gives p casts c op o xs).at w h)

-- After the publication of a ready-to-create-deals message by brokerd, whether or not it fails, each such
-- message that has been sent is the encoding of deals, and dealerd's receiver decodes it to these deals, with
-- their remote wallet, if they are complete: they have their ids, cids, URL and duration and at least one
-- proposal, and no price is negative. This holds if it holds before the publication, and so does, as before,
-- that packerd's receiver accepts the ready-to-batch messages. The operation id is not empty, the bytes of a
-- defined cid are taken to be accepted by cid.Cast, and the texts of valid peer ids, of addresses that are
-- not empty and of multiaddresses to be read back.
pub publish_ready_to_create_deals-Accepted :
    (p : Parsers) (casts : CastsDefined p) (c : Codec) (reads : ReadsWallets c) (op : Ident)
    (o : filled op ≡ true) (a : AuctionDeals) (w : World Db Message)
    → All (Accepted p casts c op o) w.sent
    → All (Accepted p casts c op o) (publish_ready_to_create_deals c a w).1.sent
publish_ready_to_create_deals-Accepted p casts c reads op o a w h =
    Outcome-sent (Accepted p casts c op o) (publish_ready_to_create_deals c a w)
      ((publish_ready_to_create_deals-Gives p casts c reads op o a).at w h)
