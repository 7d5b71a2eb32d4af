-- ===== src/Upgrade/DataPlane/Safety.antt =====
-- What the data-plane upgrade guarantees whatever the cluster answers.
use mayastor_extensions.Prelude.{String, Bool, ◌≡◌, refl, none, List, []}
use mayastor_extensions.Upgrade.Models.{Pod}
use mayastor_extensions.Upgrade.Env.{Env}
use mayastor_extensions.Upgrade.Job.{done}
use mayastor_extensions.Upgrade.Job.Hoare.{Post-always, Post-done}
use mayastor_extensions.Upgrade.DataPlane.{upgrade_data_plane}
use mayastor_extensions.Upgrade.DataPlane.Watch.{watch, Guarded, Sees}
use mayastor_extensions.Upgrade.DataPlane.Listings.{Idle}
use mayastor_extensions.Upgrade.DataPlane.Order.{upgrade_data_plane-Idle}

-- Whatever the cluster answers and however the run ends, `upgrade_data_plane` deletes an io-engine
-- Pod only when the Pod it deleted before was seen replaced by a ready one of the new revision,
-- agent-core, api-rest and etcd were all listed ready since that delete, and no other node was last
-- seen drained with the upgrade's label; and it drains a node only under the first and the last of
-- these conditions.
pub upgrade_data_plane-Guarded :
    (env : Env) (namespace rest_endpoint hash : String) (ha_is_enabled : Bool) (left_label : String)
    (pods : List Pod)
    → Guarded env hash
        (upgrade_data_plane namespace rest_endpoint hash ha_is_enabled left_label pods env []).1
upgrade_data_plane-Guarded env namespace rest_endpoint hash ha left_label pods =
    let (r, t) = upgrade_data_plane namespace rest_endpoint hash ha left_label pods env [] in
    Post-always r t (λ _ t h. h.0)
      ((upgrade_data_plane-Idle env hash namespace rest_endpoint ha left_label pods).at []
        (tt, (refl, refl)))

-- When `upgrade_data_plane` returns without an error, the last Pod it deleted was seen replaced by a
-- ready Pod of the new revision, and every node that it ever saw drained with the upgrade's label was
-- seen not so later.
pub upgrade_data_plane-Settled :
    (env : Env) (namespace rest_endpoint hash : String) (ha_is_enabled : Bool) (left_label : String)
    (pods : List Pod)
    → (upgrade_data_plane namespace rest_endpoint hash ha_is_enabled left_label pods env []).0
      ≡ done tt
    → let w =
        watch env hash
          (upgrade_data_plane namespace rest_endpoint hash ha_is_enabled left_label pods env
            []).1 in
      (w.restarting ≡ none) × (w.drained ≡ [])
upgrade_data_plane-Settled env namespace rest_endpoint hash ha left_label pods e =
    let (r, t) = upgrade_data_plane namespace rest_endpoint hash ha left_label pods env [] in
    (Post-done (λ _. Sees env hash (Idle env hash)) (Guarded env hash) r t tt e
      ((upgrade_data_plane-Idle env hash namespace rest_endpoint ha left_label pods).at []
        (tt, (refl, refl)))).1
