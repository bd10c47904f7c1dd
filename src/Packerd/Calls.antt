-- ===== src/Packerd/Calls.antt =====
-- What packerd does, in whatever order: the messages that ask for storage requests to be batched, and the
-- rounds of the daemon that packs the batches.
use broker_core.Base.{String, List, [], ◌∷◌}
use broker_core.Effects.{World, done, ◌>>◌}
use broker_core.Effects.Stays.{AtRest, Stays, Stays-bind, Stays-done}
use broker_core.Packerd.Schema.{Db}
use broker_core.Packerd.Packer
use broker_core.Packerd.Packer.{Packer as Config, ReadyToBatchData}
use broker_core.Packerd.Store.{Message, Command}
use broker_core.Packerd.Tally.{IsTallied}
use broker_core.Packerd.Kept.{ready_to_batch-Stays, pack-Stays}

pub data Step : Type 0 where
  ready_to_batch : String → List ReadyToBatchData → Step
  pack : Step

unfoldable pub take : Config → Step → Command
take p (Step.ready_to_batch op xs) = Packer.ready_to_batch p.store op xs
take p Step.pack = Packer.pack p >> done

unfoldable pub take_all : Config → List Step → World Db Message → World Db Message
take_all p [] w = w
take_all p (s ∷ ss) w = take_all p ss (take p s w).1

take-Stays : (p : Config) (s : Step) → Stays IsTallied (take p s)
unfolding take
take-Stays p (Step.ready_to_batch op xs) = ready_to_batch-Stays p.store op xs
take-Stays p Step.pack = Stays-bind _ _ (pack-Stays p) (λ _. Stays-done)

-- After any steps of packerd, with any failures, the total size of every batch is the sum of the sizes
-- of its storage requests, and every request is in a batch that exists, if this holds before them and no
-- transaction is open.
pub take_all-IsTallied :
    (p : Config) (ss : List Step) (w : World Db Message)
    → AtRest IsTallied w
    → AtRest IsTallied (take_all p ss w)
unfolding take_all
take_all-IsTallied p [] w h = h
take_all-IsTallied p (s ∷ ss) w h = take_all-IsTallied p ss (take p s w).1 ((take-Stays p s).at w h)
