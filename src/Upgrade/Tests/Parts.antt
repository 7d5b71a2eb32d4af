-- ===== src/Upgrade/Tests/Parts.antt =====
-- Parts of the upgrade job on concrete input: listings, rebuilds, the values file, events.
use mayastor_extensions.Prelude.{
  ℕ, ◌≡◌, refl, ◌↔◌, String, true, Option, none, some, List, [], ◌∷◌, All, arith,
}
use mayastor_extensions.Upgrade.Version.{release}
use mayastor_extensions.Upgrade.Env.{Env, ObjectList, Trace, pods_listed, good}
use mayastor_extensions.Upgrade.Job.{done, pending, ◌>>=◌, for_each, pause, with_rounds}
use mayastor_extensions.Effect.Paging.{paginate}
use mayastor_extensions.Upgrade.Kube
use mayastor_extensions.Upgrade.Kube.{client, hash_of, page_of, params, pods_page}
use mayastor_extensions.Upgrade.Kube.Listings.{PodPages, last, list_pods-all, next, page_calls}
use mayastor_extensions.Upgrade.Kube.Newest.{Newest, hash_of-Newest}
use mayastor_extensions.Upgrade.Rest.{get_volumes}
use mayastor_extensions.Upgrade.Pods.{all_pods_are_ready}
use mayastor_extensions.Upgrade.Pods.Ready.{PassesAsReady, all_pods_are_ready_iff}
use mayastor_extensions.Upgrade.Models.{ControllerRevision, Pod, Volume, degraded}
use mayastor_extensions.Upgrade.Rebuild.{
  await_rebuild, found, list_unhealthy_volumes, rebuild_rounds, sweep, topology_nodes,
}
use mayastor_extensions.Upgrade.Rebuild.Verdict.{
  all_nodes, from_first, idle_part, sweep-verdict, verdict, waits, with_target,
}
use mayastor_extensions.Upgrade.Rebuild.Busy.{Elsewhere, rebuild_rounds-never}
use mayastor_extensions.Upgrade.Path.{version_of}
use mayastor_extensions.Upgrade.Helm.Yq
use mayastor_extensions.Upgrade.Helm.Yq.{
  append_to_array, append_to_object, command_output, delete_object, edit, merge_files,
  set_literal_value, yaml_key,
}
use mayastor_extensions.Upgrade.Helm.Values.{
  delete, loki_address_to_clients, safe_crd_install, set, when, write_to_tempfile,
}
use mayastor_extensions.Upgrade.Helm.Values.Generate.{
  edit_values, generate_values_yaml_file, set_before_two_dot_six, set_eventing, set_image_tags,
  set_localpv, set_log_level, set_loki_stack_images, set_promtail, set_renamed_keys, set_repo_tags,
  set_scrape_configs_and_io_timeout,
}
use mayastor_extensions.Upgrade.Helm.Values.Tags.{
  AllSet, generate_values_yaml_file-AllSet, image_tags,
}
use mayastor_extensions.Upgrade.Lab.{lab, lab_with, pod, values}

-- The Pods of agent-core, on two pages.
abbrev core_label : Option String
core_label = some "app=agent-core"

abbrev first_page : ObjectList Pod
first_page = record { items = pod "a" ∷ []; continue_ = some "more" }

abbrev second_page : ObjectList Pod
second_page = record { items = pod "b" ∷ []; continue_ = none }

abbrev page_after : Option String → ObjectList Pod
page_after none = first_page
page_after (some token) = second_page

abbrev paged : Env
paged = record lab { list_pods = λ t p. good (page_after p.continue_token) }

abbrev core_calls : Trace
core_calls =
    page_calls paged "ns" core_label none (some "more") second_page
      (page_calls paged "ns" core_label none none first_page [])

core_pages : PodPages paged "ns" core_label none 2 none [] (pod "a" ∷ pod "b" ∷ []) core_calls
core_pages = next (pod "a" ∷ []) "more" (refl, refl) (last (pod "b" ∷ []) (refl, refl))

list_pods-all_example : Kube.list_pods "ns" core_label none paged [] ≡ (
  done (pod "a" ∷ pod "b" ∷ []),
  pods_listed core_label none (pod "a" ∷ pod "b" ∷ []) ∷ core_calls,
)
list_pods-all_example = list_pods-all paged "ns" core_label none core_pages (omega arith)

abbrev revision : String → ℕ → ControllerRevision
revision hash n = record { name = hash; revision = n; labels = ("hash", hash) ∷ [] }

newest_run :
    (hash_of "ns" none none "hash" (revision "a" 2 ∷ revision "b" 9 ∷ revision "c" 4 ∷ []) lab []).0
    ≡ done "b"
unfolding hash_of ◌>>=◌
newest_run = refl

hash_of-Newest_example : Newest "hash" "b" (revision "a" 2 ∷ revision "b" 9 ∷ revision "c" 4 ∷ [])
hash_of-Newest_example =
    hash_of-Newest lab "ns" none none "hash" "b"
      (revision "a" 2 ∷ revision "b" 9 ∷ revision "c" 4 ∷ []) [] newest_run

all_pods_are_ready_iff_example :
    (all_pods_are_ready (pod "a" ∷ pod "b" ∷ []) ≡ true)
    ↔ All PassesAsReady (pod "a" ∷ pod "b" ∷ [])
all_pods_are_ready_iff_example = all_pods_are_ready_iff (pod "a" ∷ pod "b" ∷ [])

values_run :
    (generate_values_yaml_file
      (release 2 5 0)
      (release 2 7 0)
      (values "s")
      (values "t")
      "buf"
      "path"
      "dir"
      lab
      []).0
    ≡ done "/tmp/values.yaml"
unfolding generate_values_yaml_file edit_values set_image_tags set_before_two_dot_six
    set_renamed_keys set_promtail set_loki_stack_images set_localpv
    set_scrape_configs_and_io_timeout set_eventing set_repo_tags set_log_level safe_crd_install
    loki_address_to_clients when delete set write_to_tempfile delete_object append_to_object
    append_to_array set_literal_value edit merge_files Yq.new yaml_key command_output version_of
    ◌>>=◌ for_each paginate with_rounds client
values_run = refl

generate_values_yaml_file-AllSet_example :
    AllSet "/tmp/values.yaml"
      (image_tags (values "t"))
      (generate_values_yaml_file
        (release 2 5 0)
        (release 2 7 0)
        (values "s")
        (values "t")
        "buf"
        "path"
        "dir"
        lab
        []).1
generate_values_yaml_file-AllSet_example =
    generate_values_yaml_file-AllSet lab (release 2 5 0) (release 2 7 0) (values "s") (values "t")
      "buf" "path" "dir" "/tmp/values.yaml" values_run

-- A degraded volume with a target on a node, and so many rebuilds.
abbrev volume : String → Option ℕ → Volume
volume node progress = record {
  spec = record { uuid = "v"; size = 1; num_replicas = 1; target = none };
  state = record {
    status = degraded;
    target = some (record {
      node = node;
      children = (record { uri = "nvmf://r"; rebuild_progress = progress }) ∷ [];
    });
    replica_topology = [];
  };
}

-- The first volume is on another node, the second is given up on, the third has a rebuild.
abbrev listing : List Volume
listing = volume "n2" none ∷ volume "n1" none ∷ volume "n2" (some 5) ∷ []

sweep-verdict_example : sweep "n1" listing [] [] lab [] ≡ (
  done (verdict (from_first "n1" (with_target listing)) (all_nodes (with_target listing) []) []),
  waits (idle_part (from_first "n1" (with_target listing))) [],
)
sweep-verdict_example = sweep-verdict lab "n1" listing [] []

sweep_run : (sweep "n1" listing [] [] lab []).0 ≡ done (found (volume "n1" none ∷ []))
unfolding sweep await_rebuild ◌>>=◌ pause
sweep_run = refl

abbrev elsewhere : Env
elsewhere = lab_with (volume "n2" none ∷ []) [] (release 2 7 0)

elsewhere-Elsewhere :
    Elsewhere elsewhere "n1" []
      (
        volume "n2" none,
        record {
          node = "n2";
          children = (record { uri = "nvmf://r"; rebuild_progress = none }) ∷ [];
        },
      )
      []
      (volume "n2" none ∷ [])
unfolding list_unhealthy_volumes get_volumes paginate with_target ◌>>=◌ with_rounds topology_nodes
elsewhere-Elsewhere = record { listed = λ t. refl; targets = refl; off_node = refl }

rebuild_rounds-never_example : (rebuild_rounds 1000 "n1" [] elsewhere []).0 ≡ pending
rebuild_rounds-never_example =
    rebuild_rounds-never elsewhere "n1" []
      (
        volume "n2" none,
        record {
          node = "n2";
          children = (record { uri = "nvmf://r"; rebuild_progress = none }) ∷ [];
        },
      )
      [] (volume "n2" none ∷ []) elsewhere-Elsewhere 1000 []
