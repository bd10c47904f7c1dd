-- ===== src/Auctioneerd/Proposals/Calls.antt =====
-- The calls about the proposals of deals, in whatever order.
use broker_core.Base.{◌≡◌, String, false, List, [], ◌∷◌, not, str_eq}
use broker_core.Effects.{Error, Result, ok, err, panicked, World}
use broker_core.Effects.Triple.{Keeping, Post, Triple-gets, Triple-exec, Triple-if}
use broker_core.Brokerd.Types.{Ident, Cid, FinalizedDeal, is_defined}
use broker_core.Auctioneerd.Events.{Message}
use broker_core.Auctioneerd.Schema.{Db}
use broker_core.Auctioneerd.Bids.{Command}
use broker_core.Auctioneerd.Queue.{Codec}
use broker_core.Auctioneerd.Proposals
use broker_core.Auctioneerd.Proposals.{Answer}
use broker_core.Auctioneerd.Proposals.Delivered.{
  J, same, Backed, KeepsBacked, and_then, checked, nothing, get_bid-Triple, deliver-Triple,
  deliver_boost-Triple,
}

module _ (answer : List Message → Answer) (text : Error → String)
    (filled : (e : Error) → str_eq (text e) "" ≡ false) (k : Codec) where
  deliver_proposal-Triple :
      (i b : Ident) (c : Cid) → KeepsBacked (Proposals.deliver_proposal k answer text i b c)
  unfolding Proposals.deliver_proposal
  deliver_proposal-Triple i b c = and_then _ _ (checked _ _) λ _.
      and_then _ _ (get_bid-Triple k i b) λ bid.
        Triple-if J (Keeping J) J (is_defined bid.proposal_cid) _ _ (λ _. nothing)
          (λ _. deliver-Triple answer text filled i b bid c)

  deliver_boost_proposal-Triple :
      (i b : Ident) (uid : String)
      → KeepsBacked (Proposals.deliver_boost_proposal k answer text i b uid)
  unfolding Proposals.deliver_boost_proposal
  deliver_boost_proposal-Triple i b uid = and_then _ _ (checked _ _) λ _.
      and_then _ _ (get_bid-Triple k i b) λ bid.
        Triple-if J (Keeping J) J (not (str_eq bid.deal_uid "")) _ _ (λ _. nothing)
          (λ _. deliver_boost-Triple answer text filled i b bid uid)

mark-Triple : (f : FinalizedDeal) → KeepsBacked (Proposals.mark_finalized_deal f)
unfolding Proposals.mark_finalized_deal
mark-Triple f = and_then _ _ (Triple-gets J (Keeping J) J _ (λ _ d s h. h)) λ now.
    Triple-if J (Keeping J) J (not (str_eq f.error_cause "")) _ _
      (λ _. Triple-exec J J same (Keeping J) _ (λ d s h. h))
      (λ _. Triple-exec J J same (Keeping J) _ (λ d s h. h))

pub data Call : Type 0 where
  deliver_proposal deliver_boost_proposal : Ident → Ident → String → Call
  mark_finalized_deal : FinalizedDeal → Call

unfoldable pub serve_call : Codec → (List Message → Answer) → (Error → String) → Call → Command
serve_call k answer text (Call.deliver_proposal i b c) =
    Proposals.deliver_proposal k answer text i b c
serve_call k answer text (Call.deliver_boost_proposal i b uid) =
    Proposals.deliver_boost_proposal k answer text i b uid
serve_call k answer text (Call.mark_finalized_deal f) = Proposals.mark_finalized_deal f

unfoldable pub serve_calls :
    Codec
    → (List Message → Answer)
    → (Error → String)
    → List Call
    → World Db Message
    → World Db Message
serve_calls k answer text [] w = w
serve_calls k answer text (c ∷ cs) w = serve_calls k answer text cs (serve_call k answer text c w).1

Post-Backed : (r : Result (Unit {0}) × World Db Message) → Post (Keeping J) J r → Backed r.1.sent
Post-Backed (ok _, w) h = h
Post-Backed (err e, w) h = h
Post-Backed (panicked, w) h = h

serve_call-Backed :
    (k : Codec) (answer : List Message → Answer) (text : Error → String)
    (filled : (e : Error) → str_eq (text e) "" ≡ false) (c : Call) (w : World Db Message)
    → Backed w.sent
    → Backed (serve_call k answer text c w).1.sent
unfolding serve_call
serve_call-Backed k answer text filled (Call.deliver_proposal i b c) w h =
    Post-Backed (Proposals.deliver_proposal k answer text i b c w)
      ((deliver_proposal-Triple answer text filled k i b c).at w h)
serve_call-Backed k answer text filled (Call.deliver_boost_proposal i b uid) w h =
    Post-Backed (Proposals.deliver_boost_proposal k answer text i b uid w)
      ((deliver_boost_proposal-Triple answer text filled k i b uid).at w h)
serve_call-Backed k answer text filled (Call.mark_finalized_deal f) w h =
    Post-Backed (Proposals.mark_finalized_deal f w) ((mark-Triple f).at w h)

-- After any deliveries of proposals and reports of finalized deals to the auctioneer, with any failures of
-- its statements and publications and any answers of the bidders, each proposal that it has reported as
-- delivered without an error has been published on the topic of the report's bidder, for the auction and the
-- bid and with the cid of the report, if this holds before them. That the bidder has got it is not said,
-- since PublishProposal gives no error when no answer comes. The text of an error is taken not to be empty.
pub serve_calls-Backed :
    (k : Codec) (answer : List Message → Answer) (text : Error → String)
    (filled : (e : Error) → str_eq (text e) "" ≡ false) (cs : List Call) (w : World Db Message)
    → Backed w.sent
    → Backed (serve_calls k answer text cs w).sent
unfolding serve_calls
serve_calls-Backed k answer text filled [] w h = h
serve_calls-Backed k answer text filled (c ∷ cs) w h =
    serve_calls-Backed k answer text filled cs (serve_call k answer text c w).1
      (serve_call-Backed k answer text filled c w h)
