-- ===== src/Upgrade/Product/Kinds.antt =====
-- The kinds of calls that the upgrade makes.
use mayastor_extensions.Prelude.{String, Bool, true, false, not, ◌&&◌, ◌||◌, List, [], ◌∷◌, str_eq}
use mayastor_extensions.Upgrade.Env.{
  Call, delete_node_cordon, delete_pod, get_node, get_nodes, get_pod, get_volumes, helm, k8s_client,
  list_nodes_metadata, list_pods, list_revisions, pods_listed, put_node_cordon, put_node_drain,
  sleep, yq, read_file, create_tempfile, write, list_crds,
}

-- Kubernetes is only read.
abbrev pub is_listing : Call → Bool
is_listing (k8s_client r) = true
is_listing (list_pods p r) = true
is_listing (list_nodes_metadata p r) = true
is_listing (list_revisions p r) = true
is_listing (pods_listed l f ps) = true
is_listing _ = false

-- The storage is read, the job waits, or a node or a Pod is acted on.
abbrev is_storage : Call → Bool
is_storage (get_nodes r) = true
is_storage (get_node n r) = true
is_storage (get_volumes n k r) = true
is_storage (put_node_cordon n l r) = true
is_storage (delete_node_cordon n l r) = true
is_storage (put_node_drain n l r) = true
is_storage (delete_pod s p n r) = true
is_storage (sleep n) = true
is_storage _ = false

abbrev pub is_cluster : Call → Bool
is_cluster c = is_listing c || is_storage c

abbrev ends_in : String → List String → Bool
ends_in word [] = false
ends_in word (x ∷ []) = str_eq x word
ends_in word (x ∷ y ∷ rest) = ends_in word (y ∷ rest)

-- `helm upgrade ..` that does not end in `--dry-run`.
abbrev pub is_real_upgrade : List String → Bool
is_real_upgrade [] = false
is_real_upgrade (command ∷ args) = str_eq command "upgrade" && not (ends_in "--dry-run" args)

-- What the job does on its own host, and the list of the CRDs.
abbrev is_own : Call → Bool
is_own (helm args r) = not (is_real_upgrade args)
is_own (yq args val r) = true
is_own (read_file path r) = true
is_own (create_tempfile dir r) = true
is_own (write path buf r) = true
is_own (list_crds p r) = true
is_own (get_pod n p r) = true
is_own _ = false

abbrev pub is_host : Call → Bool
is_host c = is_listing c || is_own c
