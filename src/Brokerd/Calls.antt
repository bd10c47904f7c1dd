-- ===== src/Brokerd/Calls.antt =====
-- The calls that reach brokerd: what the API, the packer, the piecer, the auctioneer and the dealer ask
-- of it, in whatever order they come, with whatever failures.
pub mod Holds
pub mod Results
pub mod Once
use broker_core.Base.{ℕ, String, Option, none, List, [], ◌∷◌}
use broker_core.Effects.{Exec, World, Result, ok, ◌>>=◌, ◌>>◌, pure, done}
use broker_core.Brokerd.Types.{
  Ident, Cid, PreparedCar, BatchMetadata, RemoteWallet, DataPreparationResult, ClosedAuction,
  FinalizedDeal,
}
use broker_core.Brokerd.Schema.{Db}
use broker_core.Brokerd.Env.{Env, Message, Command}
use broker_core.Brokerd.Handlers.Requests
use broker_core.Brokerd.Handlers.Events

pub data Call : Type 0 where
  create : Cid → String → Call
  create_prepared : Cid → PreparedCar → BatchMetadata → Option RemoteWallet → Call
  create_new_batch : Ident → Cid → ℕ → List Ident → String → Option (List ℕ) → String → Call
  new_batch_prepared : Ident → DataPreparationResult → Call
  batch_auctioned : Ident → ClosedAuction → Call
  batch_finalized_deal : Ident → FinalizedDeal → Call

-- What a call does; only its error matters to the caller here.
unfoldable pub perform : Env → Call → Command
perform env (Call.create c origin) = Requests.create env c origin >> done
perform env (Call.create_prepared c pc meta wallet) =
    Requests.create_prepared env c pc meta wallet >> done
perform env (Call.create_new_batch id c size ids origin manifest url) =
    Requests.create_new_batch env id c size ids origin manifest url >> done
perform env (Call.new_batch_prepared id dpr) = Events.new_batch_prepared env id dpr
perform env (Call.batch_auctioned op au) = Events.batch_auctioned env op au
perform env (Call.batch_finalized_deal op fad) = Events.batch_finalized_deal env op fad

-- A daemon that answers one call after another, and goes on after errors and panics.
unfoldable pub serve : Env → List Call → World Db Message → World Db Message
serve env [] w = w
serve env (c ∷ cs) w = serve env cs (perform env c w).1
