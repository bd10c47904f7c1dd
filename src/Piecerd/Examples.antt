-- ===== src/Piecerd/Examples.antt =====
-- The theorem on piecerd's steps, tried on a batch that is prepared at the first try.
use broker_core.Base.{none, some, List, [], ◌∷◌, false, true}
use broker_core.Effects.{World}
use broker_core.Piecerd.Schema.{Db}
use broker_core.Piecerd.Store.{Message}
use broker_core.Piecerd.Piecer.{Env}
use broker_core.Piecerd.Told.{Told}
use broker_core.Piecerd.Calls.{Step, take_all, take_all-Told}

abbrev env : Env
env = record {
  retry_delay = 10;
  pad_to_size = 128;
  is_cid = λ c. true;
  comm_p = λ c. some ("raw", 64);
  pad = λ r n m. some "padded";
  commitment_cid = λ r. some "piece";
}

abbrev world : World Db Message
world = record {
  db = record { batches = [] };
  snapshot = none;
  sent = [];
  drawn = 0;
  now = 1000;
  faults = false ∷ false ∷ true ∷ [];
}

abbrev steps : List Step
steps =
    Step.ready_to_prepare "batch" "data"
    ∷ Step.wait 5
    ∷ Step.prepare_next
    ∷ Step.wait 50
    ∷ Step.prepare_next
    ∷ []

take_all-Told_example : Told env (take_all env steps world).db (take_all env steps world).sent
take_all-Told_example = take_all-Told env steps world (record { told = tt; sizes = tt })
