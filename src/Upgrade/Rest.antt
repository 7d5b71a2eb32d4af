-- ===== src/Upgrade/Rest.antt =====
-- The storage REST client of the upgrade job (common/rest_client.rs), and its calls with the error
-- contexts that upgrade/utils.rs and upgrade/data_plane.rs give them.
use mayastor_extensions.Prelude.{ℕ, ℤ, String, Option, List}
use mayastor_extensions.Upgrade.Error.{
  rest_url_parse, rest_client_configuration, list_storage_nodes, get_storage_node,
  cordon_storage_node, storage_node_uncordon, drain_storage_node, list_storage_volumes,
}
use mayastor_extensions.Upgrade.Models.{Node, Volume}
use mayastor_extensions.Upgrade.Env.{Call}
use mayastor_extensions.Upgrade.Job.{M, lift, request, pure, ◌>>=◌}

-- `RestClientSet::new_with_url`
unfoldable pub new_with_url : String → M (Unit {0})
new_with_url endpoint = do
  url ← lift (λ env. env.parse_url endpoint) (λ s. rest_url_parse s endpoint)
  lift (λ env. env.rest_configuration url) (λ s. rest_client_configuration s url)

unfoldable pub get_nodes : M (List Node)
get_nodes = request (λ env t. env.get_nodes t) Call.get_nodes list_storage_nodes

unfoldable pub get_node : String → M Node
get_node id = request (λ env t. env.get_node t id) (Call.get_node id) (λ s. get_storage_node s id)

unfoldable pub put_node_cordon : String → String → M (Unit {0})
put_node_cordon id label =
    request (λ env t. env.put_node_cordon t id label) (Call.put_node_cordon id label)
      (λ s. cordon_storage_node s id)

unfoldable pub delete_node_cordon : String → String → M (Unit {0})
delete_node_cordon id label =
    request (λ env t. env.delete_node_cordon t id label) (Call.delete_node_cordon id label)
      (λ s. storage_node_uncordon s id)

unfoldable pub put_node_drain : String → String → M (Unit {0})
put_node_drain id label =
    request (λ env t. env.put_node_drain t id label) (Call.put_node_drain id label)
      (λ s. drain_storage_node s id)

-- One page of volumes, with the token of the next.
unfoldable pub get_volumes : ℕ → Option ℤ → M (List Volume × Option ℤ)
get_volumes max_entries token = do
  page ←
      request (λ env t. env.get_volumes t max_entries token) (Call.get_volumes max_entries token)
        list_storage_volumes
  pure (page.entries, page.next_token)
