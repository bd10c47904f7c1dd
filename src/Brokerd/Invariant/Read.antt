-- ===== src/Brokerd/Invariant/Read.antt =====
-- The store's queries keep every invariant, and the batch that they return is the row's.
use broker_core.Base.{String, ◌≡◌, ◌∙◌, List, arith}
use broker_core.Effects.{ok, query}
use broker_core.Effects.Keeps.{
  Keeps, Keeps-bind, Keeps-ok_query, Keeps-lift, Keeps-attempt, Keeps-gets, Returns, Returns-lift,
  >>=-After, query-After,
}
use broker_core.Brokerd.Types.{Ident, Batch}
use broker_core.Brokerd.Codec.{Codec}
use broker_core.Brokerd.Schema.{BatchRow, TagRow, Db}
use broker_core.Brokerd.Schema.Statements
use broker_core.Brokerd.Env.{Env, Message}
use broker_core.Brokerd.Store.Convert.{batch_from_db}
use broker_core.Brokerd.Store.Read
use broker_core.Brokerd.Invariant.Move.{Keeps-get_batch, get_batch_total, found_id}

-- The id and the status of a batch are its row's.
pub batch_from_db-row :
    (c : Codec) (r : BatchRow) (tags : List TagRow) (ba : Batch)
    → batch_from_db c r tags ≡ ok ba
    → (ba.id ≡ r.id) × (ba.status ≡ r.status)
unfolding batch_from_db
batch_from_db-row c r tags ba e = ground arith

pub get_batch-Returns_id :
    (env : Env) (id : Ident) → Returns {M = Message} (λ ba. ba.id ≡ id) (Read.get_batch env id)
unfolding Read.get_batch
get_batch-Returns_id env id = record {
  at = λ w.
      >>=-After (λ _. Unit) (λ ba _. ba.id ≡ id) (query (Statements.get_batch id)) _ w
        (query-After (λ _. Unit) _ (Statements.get_batch id) w (get_batch_total id w.db)
          (λ r fs e.
            >>=-After (λ _. Unit) (λ ba _. ba.id ≡ id) (query _) _ _
              (query-After (λ _. Unit) _ _ _ (λ x. cc)
                (λ tags fs' e'.
                  (Returns-lift (λ ba. ba.id ≡ id) (batch_from_db env.codec r tags)
                      (λ ba q.
                        (batch_from_db-row env.codec r tags ba q).0 ∙ found_id id w.db r e)).at
                    _))));
}

module _ {I : Db → Type 0} where
  pub Keeps-read_batch : (env : Env) (id : Ident) → Keeps I (Read.get_batch env id)
  unfolding Read.get_batch
  Keeps-read_batch env id =
      Keeps-bind _ _ (Keeps-get_batch id)
        (λ row. Keeps-bind _ _ (Keeps-ok_query _) (λ tags. Keeps-lift _))

  pub Keeps-read_request : (env : Env) (id : Ident) → Keeps I (Read.get_storage_request env id)
  unfolding Read.get_storage_request
  Keeps-read_request env id =
      Keeps-bind _ _ Keeps-attempt (λ _.
        Keeps-bind _ _ (Keeps-gets _) (λ d. Keeps-bind _ _ (Keeps-lift _) (λ r. Keeps-lift _)))

  pub Keeps-read_wallet : (env : Env) (id : Ident) → Keeps I (Read.get_remote_wallet_config env id)
  unfolding Read.get_remote_wallet_config
  Keeps-read_wallet env id = Keeps-bind _ _ (Keeps-ok_query _) (λ r. Keeps-lift _)

  pub Keeps-read_deals : (id : Ident) → Keeps I (Read.get_deals id)
  unfolding Read.get_deals
  Keeps-read_deals id = Keeps-ok_query _

  pub Keeps-read_excluded :
      (env : Env) (c : String) (o : String) → Keeps I (Read.get_excluded_storage_providers env c o)
  unfolding Read.get_excluded_storage_providers
  Keeps-read_excluded env c o = Keeps-ok_query _
