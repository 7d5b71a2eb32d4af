-- ===== src/Upgrade/Kube.antt =====
-- k8s/upgrade/src/bin/upgrade-job/common/kube_client.rs
pub mod Listings
pub mod Newest
use mayastor_extensions.Prelude.{
  ℕ, String, Bool, true, false, not, Option, none, some, List, [], ◌∷◌, if◌then◌else◌, ltb, str_eq,
}
use mayastor_extensions.Upgrade.Error.{
  Error, k8s_client_generation, list_pods_with_label_and_field, list_nodes_with_label_and_field,
  list_ctrl_revs_with_label_and_field, controller_revision_list_empty,
  controller_revision_doesnt_have_hash_label,
}
use mayastor_extensions.Upgrade.Models.{Pod, ControllerRevision}
use mayastor_extensions.Upgrade.Env.{
  Env, Trace, Reply, Call, ListParams, ObjectList, pods_listed, list_revisions,
}
use mayastor_extensions.Upgrade.Constants.{kube_api_page_size}
use mayastor_extensions.Upgrade.Job.{
  M, done, request, pure, fail, ensure, ok_or, with_rounds, ◌>>=◌, ◌>>◌,
}
use mayastor_extensions.Effect.Paging.{paginate}

-- `Client::try_default()`, which each `..._api()` calls.
unfoldable pub client : M (Unit {0})
client = request (λ env t. env.k8s_client t) Call.k8s_client k8s_client_generation

abbrev pub params : String → Option String → Option String → Option String → ListParams
params namespace labels fields token = record {
  namespace = namespace;
  label_selector = labels;
  field_selector = fields;
  limit = kube_api_page_size;
  continue_token = token;
}

-- `unwrap_or_default()`
abbrev pub or_default : Option String → String
or_default none = ""
or_default (some s) = s

-- One page: a client, and the list request.
unfoldable pub page_of :
    {A : Type 0}
    → (Env → Trace → Reply (ObjectList A))
    → (Reply (ObjectList A) → Call)
    → (String → Error)
    → M (List A × Option String)
unfolding client
page_of ask log context = do
  client
  list ← request ask log context
  pure (list.items, list.continue_)

unfoldable pub pods_page :
    String → Option String → Option String → Option String → M (List Pod × Option String)
unfolding page_of
pods_page namespace labels fields token =
    page_of (λ env t. env.list_pods t (params namespace labels fields token))
      (Call.list_pods (params namespace labels fields token))
      (λ s. list_pods_with_label_and_field s (or_default labels) (or_default fields) namespace)

-- Not in the source: the record keeps what was listed.
unfoldable pub note_pods : Option String → Option String → List Pod → M (List Pod)
note_pods labels fields pods env t = (done pods, pods_listed labels fields pods ∷ t)

unfoldable pub list_pods : String → Option String → Option String → M (List Pod)
unfolding pods_page note_pods
list_pods namespace labels fields = do
  pods ← with_rounds λ n. paginate n (pods_page namespace labels fields) none []
  note_pods labels fields pods

unfoldable pub nodes_page :
    Option String → Option String → Option String → M (List String × Option String)
unfolding page_of
nodes_page labels fields token =
    page_of (λ env t. env.list_nodes_metadata t (params "" labels fields token))
      (Call.list_nodes_metadata (params "" labels fields token))
      (λ s. list_nodes_with_label_and_field s (or_default labels) (or_default fields))

-- The names of the nodes.
unfoldable pub list_nodes_metadata : Option String → Option String → M (List String)
unfolding nodes_page
list_nodes_metadata labels fields = with_rounds λ n. paginate n (nodes_page labels fields) none []

unfoldable pub revisions_page :
    String
    → Option String
    → Option String
    → Option String
    → M (List ControllerRevision × Option String)
unfolding page_of
revisions_page namespace labels fields token =
    page_of (λ env t. env.list_revisions t (params namespace labels fields token))
      (list_revisions (params namespace labels fields token))
      (λ s. list_ctrl_revs_with_label_and_field s (or_default labels) (or_default fields) namespace)

unfoldable pub list_controller_revisions :
    String → Option String → Option String → M (List ControllerRevision)
unfolding revisions_page
list_controller_revisions namespace labels fields =
    with_rounds λ n. paginate n (revisions_page namespace labels fields) none []

-- The first of the list that `sort_unstable_by(|a, b| b.revision.cmp(&a.revision))` leaves: one of
-- the greatest revision. The sort is unstable; here the first of equals is taken.
unfoldable pub latest : ControllerRevision → List ControllerRevision → ControllerRevision
latest best [] = best
latest best (r ∷ rs) = latest (if ltb best.revision r.revision then r else best) rs

-- `labels().get(key)`
unfoldable pub label_of : String → List (String × String) → Option String
label_of key [] = none
label_of key ((k, v) ∷ rest) = if str_eq k key then some v else label_of key rest

unfoldable pub hash_of :
    String → Option String → Option String → String → List ControllerRevision → M String
unfolding latest label_of
hash_of namespace labels fields key [] =
    fail (controller_revision_list_empty namespace (or_default labels) (or_default fields))
hash_of namespace labels fields key (r ∷ rs) =
    let top = latest r rs in
    ok_or (label_of key top.labels)
      (controller_revision_doesnt_have_hash_label top.name namespace key)

unfoldable pub latest_controller_revision_hash :
    String → Option String → Option String → String → M String
unfolding hash_of
latest_controller_revision_hash namespace labels fields key = do
  revisions ← list_controller_revisions namespace labels fields
  hash_of namespace labels fields key revisions
