-- ===== src/Upgrade/Product/Listing.antt =====
-- Listing Pods, nodes and controller revisions keeps what calls of that kind keep.
use mayastor_extensions.Prelude.{String, true, ◌≡◌, refl, Option, List, [], ◌∷◌}
use mayastor_extensions.Upgrade.Error.{Error}
use mayastor_extensions.Upgrade.Models.{ControllerRevision}
use mayastor_extensions.Upgrade.Env.{Env, Trace, Call, Reply, ObjectList, pods_listed}
use mayastor_extensions.Upgrade.Job.{M, request}
use mayastor_extensions.Upgrade.Job.Hoare.{
  Hoare-bind, Hoare-fail, Hoare-ok_or, Hoare-pure, Hoare-with_rounds,
}
use mayastor_extensions.Effect.Paging.{Hoare-paginate}
use mayastor_extensions.Upgrade.Job.Keeps.{Keeps, Keeps-request}
use mayastor_extensions.Upgrade.Kube.{
  client, hash_of, latest_controller_revision_hash, list_controller_revisions, list_nodes_metadata,
  list_pods, nodes_page, note_pods, page_of, pods_page, revisions_page,
}
use mayastor_extensions.Upgrade.Product.Kinds.{is_listing}

module _ (env : Env) (I E : Trace → Type 0) (safe : (t : Trace) → I t → E t)
    (step : (t : Trace) (c : Call) → is_listing c ≡ true → I t → I (c ∷ t)) where
  abbrev pub Stays : {A : Type 0} → M A → Type 0
  Stays m = Keeps env is_listing I E safe step m

  abbrev ask :
      {A : Type 0} (f : Env → Trace → Reply A) (log : Reply A → Call) (e : String → Error)
      → ((r : Reply A) → is_listing (log r) ≡ true)
      → Stays (request f log e)
  ask f log e k = Keeps-request env is_listing I E safe step f log e k

  pub client-Stays : Stays client
  unfolding client
  client-Stays = ask _ _ _ (λ r. refl)

  page_of-Stays :
      {A : Type 0} (f : Env → Trace → Reply (ObjectList A)) (log : Reply (ObjectList A) → Call)
      (e : String → Error)
      → ((r : Reply (ObjectList A)) → is_listing (log r) ≡ true)
      → Stays (page_of f log e)
  unfolding page_of
  page_of-Stays f log e k =
      Hoare-bind _ _ client-Stays
        λ _. Hoare-bind _ _ (ask f log e k) (λ list. Hoare-pure _ (λ t h. h))

  pub list_pods-Stays :
      (namespace : String) (labels fields : Option String)
      → Stays (list_pods namespace labels fields)
  unfolding list_pods pods_page note_pods
  list_pods-Stays namespace labels fields =
      Hoare-bind _ _
        (Hoare-with_rounds _
          λ n. Hoare-paginate n _ _ _ (λ token. page_of-Stays _ _ _ (λ r. refl)) safe)
        λ pods. record { at = λ t h. step t (pods_listed labels fields pods) refl h }

  pub list_nodes_metadata-Stays :
      (labels fields : Option String) → Stays (list_nodes_metadata labels fields)
  unfolding list_nodes_metadata nodes_page
  list_nodes_metadata-Stays labels fields =
      Hoare-with_rounds _
        λ n. Hoare-paginate n _ _ _ (λ token. page_of-Stays _ _ _ (λ r. refl)) safe

  hash_of-Stays :
      (namespace : String) (labels fields : Option String) (key : String)
      (revisions : List ControllerRevision)
      → Stays (hash_of namespace labels fields key revisions)
  unfolding hash_of
  hash_of-Stays namespace labels fields key [] = Hoare-fail _ safe
  hash_of-Stays namespace labels fields key (r ∷ rs) = Hoare-ok_or _ _ (λ t a e h. h) safe

  pub latest_controller_revision_hash-Stays :
      (namespace : String) (labels fields : Option String) (key : String)
      → Stays (latest_controller_revision_hash namespace labels fields key)
  unfolding latest_controller_revision_hash list_controller_revisions revisions_page
  latest_controller_revision_hash-Stays namespace labels fields key =
      Hoare-bind _ _
        (Hoare-with_rounds _
          λ n. Hoare-paginate n _ _ _ (λ token. page_of-Stays _ _ _ (λ r. refl)) safe)
        λ revisions. hash_of-Stays namespace labels fields key revisions
