-- ===== src/Brokerd/Winners.antt =====
-- The winners that AddDeals accepts, the deals that it stores for them, and the proposals that
-- BatchAuctioned makes from the map of winning bids.
use broker_core.Base.{
  ℕ, ◌+◌, String, ◌≡◌, refl, ap, ◌∙◌, true, List, [], ◌∷◌, ◌++◌, map, All, str_eq, inl, inr,
  Bool-cases, if◌then◌else◌, contains, eq_iff,
}
use broker_core.Base.Int.{pos}
use broker_core.Effects.{World, ok}
use broker_core.Effects.Calm.{pure-calm, >>=-ok, exec-calm}
use broker_core.Brokerd.Types.{Ident, WinningBid, ClosedAuction}
use broker_core.Brokerd.Schema.{Db, DealRow}
use broker_core.Brokerd.Schema.Statements
use broker_core.Brokerd.Env.{Env, Message}
use broker_core.Brokerd.Store.Deals.{add_winners}
use broker_core.Brokerd.Handlers.Events.{proposal_of, proposals_from}

-- The provider of each bid.
abbrev pub bidders : List (Ident × WinningBid) → List String
bidders [] = []
bidders ((i, b) ∷ bs) = b.storage_provider_id ∷ bidders bs

-- The bids whose provider is not excluded.
unfoldable pub accepted : List String → List (Ident × WinningBid) → List (Ident × WinningBid)
accepted ex [] = []
accepted ex ((i, b) ∷ bs) =
    let rest = accepted ex bs in if contains ex b.storage_provider_id then rest else (i, b) ∷ rest

-- The deal of a bid: not on chain yet, without an error.
abbrev pub deal_row : ClosedAuction → Ident × WinningBid → DealRow
deal_row au (i, b) = record {
  batch_id = au.batch_id;
  auction_id = au.id;
  bid_id = i;
  storage_provider_id = b.storage_provider_id;
  deal_id = pos 0;
  deal_expiration = 0;
  error_cause = "";
}

append_assoc :
    {A : Type 0} (xs : List A) (y : A) (zs : List A) → (xs ++ y ∷ []) ++ zs ≡ xs ++ y ∷ zs
append_assoc [] y zs = refl
append_assoc (x ∷ xs) y zs = ap (λ r. x ∷ r) (append_assoc xs y zs)

append_nil : {A : Type 0} (xs : List A) → xs ++ [] ≡ xs
append_nil [] = refl
append_nil (x ∷ xs) = ap (λ r. x ∷ r) (append_nil xs)

abbrev with_deals : World Db Message → List DealRow → World Db Message
with_deals w ds = record w { db = record w.db { deals = w.db.deals ++ ds } }

-- In a world without failures, AddDeals' loop returns the providers of the bids that are not excluded,
-- in their order, and stores exactly one deal for each of them, after the deals that were there.
pub add_winners_lem :
    (au : ClosedAuction) (ex : List String) (bs : List (Ident × WinningBid)) (w : World Db Message)
    → w.faults ≡ []
    → add_winners au ex bs w ≡ (
      ok (bidders (accepted ex bs)),
      record w { db = record w.db { deals = w.db.deals ++ map (deal_row au) (accepted ex bs) } },
    )
unfolding add_winners accepted Statements.create_deal
add_winners_lem au ex [] w e = pure-calm [] w ∙ rw (append_nil w.db.deals) refl
add_winners_lem au ex ((i, b) ∷ bs) w e = elim (Bool-cases (contains ex b.storage_provider_id)) [
  | inl p ↦ rw p (add_winners_lem au ex bs w e)
  | inr p ↦
      let w₁ : World Db Message = record w {
        db = Statements.create_deal (deal_row au (i, b)) w.db;
      } in
      rw p (
        exec-calm _ _ w e
        ∙ >>=-ok _ _ w₁ _ _ (add_winners_lem au ex bs w₁ e)
        ∙ pure-calm _ _
        ∙ rw (append_assoc w.db.deals (deal_row au (i, b)) (map (deal_row au) (accepted ex bs)))
            refl)
]

-- The first bid of a provider that has one is that provider's.
proposal_of-provider :
    (au : ClosedAuction) (bs : List (Ident × WinningBid)) (s : String)
    → contains (bidders bs) s ≡ true
    → (proposal_of au bs s).storage_provider_id ≡ s
unfolding proposal_of contains
proposal_of-provider au [] s h = cc
proposal_of-provider au ((i, b) ∷ bs) s h = elim (Bool-cases (str_eq b.storage_provider_id s)) [
  | inl e ↦ rw e ((eq_iff b.storage_provider_id s).0 e)
  | inr e ↦ rw e (proposal_of-provider au bs s (rw e at h))
]

-- The providers of the proposals are the winners that they are made for, one for one and in their
-- order, if each winner has a winning bid and every iteration of the map goes through the same bids.
pub proposals_from-providers :
    (env : Env) (au : ClosedAuction) (n : ℕ) (ws : List String)
    → ((m : ℕ) (s : String)
        → contains (bidders (env.order m au.winning_bids)) s ≡ contains (bidders au.winning_bids) s)
    → All (λ s. contains (bidders au.winning_bids) s ≡ true) ws
    → map (λ p. p.storage_provider_id) (proposals_from env au n ws) ≡ ws
unfolding proposals_from
proposals_from-providers env au n [] same h = refl
proposals_from-providers env au n (s ∷ ws) same h =
    rw
      (
        proposal_of-provider au (env.order n au.winning_bids) s (same n s ∙ h.0),
        proposals_from-providers env au (n + 1) ws same h.1,
      )
      refl
