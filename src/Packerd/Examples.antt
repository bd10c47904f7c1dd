-- ===== src/Packerd/Examples.antt =====
-- The theorem on packerd's steps, tried on an empty store and two requests.
use broker_core.Base.{◌≡◌, none, some, List, [], ◌∷◌, refl, true}
use broker_core.Effects.{World, ok}
use broker_core.Effects.Stays.{AtRest}
use broker_core.Packerd.Schema.{Db, Status, BatchRow, RequestRow}
use broker_core.Packerd.Packer.{Packer}
use broker_core.Packerd.Store.{Env, Message}
use broker_core.Packerd.Tally.{IsTallied, sum_of}
use broker_core.Packerd.Lease.{total_of, get_next_ready_batch-total}
use broker_core.Packerd.Store
use broker_core.Packerd.Schema
use broker_core.Packerd.Calls.{Step, take_all, take_all-IsTallied}

abbrev env : Env
env = record {
  batch_max_size = 1000;
  batch_min_size = 100;
  batch_min_waiting = 60;
  batch_wait_scaling_factor = 2;
  id = λ n. "batch";
  size_of = λ c. some 70;
  cid_string = λ c. c;
}

abbrev world : World Db Message
world = record {
  db = record { batches = []; requests = [] };
  snapshot = none;
  sent = [];
  drawn = 0;
  now = 1000;
  faults = [];
}

abbrev packer : Packer
packer = record {
  store = env;
  retry_delay = 10;
  aggregate = λ srs. some (record { root = "root"; manifest = 1 ∷ []; car_url = "http://car" });
  is_url = λ u. true;
}

abbrev steps : List Step
steps =
    Step.ready_to_batch "op1" (
      record { storage_request_id = "r1"; data_cid = "c1"; origin = "o" }
      ∷ record { storage_request_id = "r2"; data_cid = "c2"; origin = "o" }
      ∷ [])
    ∷ Step.pack
    ∷ Step.pack
    ∷ []

take_all-IsTallied_example : AtRest IsTallied (take_all packer steps world)
take_all-IsTallied_example =
    take_all-IsTallied packer steps world
      (record { closed = refl; holds = record { sums = tt; known = tt } })

abbrev ready_row : BatchRow
ready_row = record {
  batch_id = "b1";
  status = Status.ready;
  total_size = 70;
  origin = "o";
  ready_at = 5;
  created_at = 5;
  updated_at = 5;
}

abbrev request_row : RequestRow
request_row = record {
  operation_id = "op1";
  storage_request_id = "r1";
  data_cid = "c1";
  batch_id = "b1";
  size = 70;
}

abbrev filled : World Db Message
filled = record world { db = record { batches = ready_row ∷ []; requests = request_row ∷ [] } }

returned : (Store.get_next_ready_batch filled).0 ≡ ok (some (ready_row, request_row ∷ []))
unfolding Store.get_next_ready_batch broker_core.Effects.◌>>=◌ broker_core.Effects.with_tx
    broker_core.Effects.exec_returning broker_core.Effects.query Schema.get_next_ready_batch
    Schema.least Schema.get_storage_requests_from_batch broker_core.Base.Rows.select
    broker_core.Base.Rows.update_rows Store.with_requests
returned = refl

tallied : IsTallied filled.db
unfolding sum_of broker_core.Base.Rows.exists_row
tallied = record { sums = (refl, tt); known = (refl, tt) }

get_next_ready_batch-total_example : 70 ≡ total_of (request_row ∷ [])
get_next_ready_batch-total_example =
    get_next_ready_batch-total filled ready_row (request_row ∷ []) tallied returned
