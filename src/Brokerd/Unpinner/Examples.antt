-- ===== src/Brokerd/Unpinner/Examples.antt =====
-- The theorem on the unpin daemon, tried on a job that fails once.
use broker_core.Base.{String, refl, none, List, [], ◌∷◌, false, true}
use broker_core.Effects.{World}
use broker_core.Brokerd.Schema.{Db, UnpinJobRow, UnpinType, empty_db}
use broker_core.Brokerd.Unpinner.{Env}
use broker_core.Brokerd.Unpinner.Jobs.{Kept}
use broker_core.Brokerd.Unpinner.Steps.{unpin_all, unpin_all-Kept}

abbrev env : Env
env = record { retry_delay = 10; is_cid = λ c. true; skips = λ c. false }

abbrev job : UnpinJobRow
job = record {
  id = "job";
  executing = false;
  cid = "cid";
  kind = UnpinType.batch;
  ready_at = 5;
  updated_at = 5;
}

abbrev world : World Db String
world = record {
  db = record empty_db { unpin_jobs = job ∷ [] };
  snapshot = none;
  sent = [];
  drawn = 0;
  now = 100;
  faults = false ∷ true ∷ [];
}

job-Kept : Kept env (λ i. "cid") (job ∷ []) world.db world.sent
unfolding broker_core.Base.Rows.exists_row
job-Kept = record { jobs = (refl, tt); cids = (refl, tt) }

unpin_all-Kept_example :
    Kept env
      (λ i. "cid")
      (job ∷ [])
      (unpin_all env (1 ∷ 20 ∷ []) world).db
      (unpin_all env (1 ∷ 20 ∷ []) world).sent
unpin_all-Kept_example = unpin_all-Kept env (λ i. "cid") (job ∷ []) (1 ∷ 20 ∷ []) world job-Kept
