-- ===== src/Upgrade/Constants.antt =====
-- k8s/upgrade/src/bin/upgrade-job/common/constants.rs, and the label key of constants/src/lib.rs.
use mayastor_extensions.Prelude.{ℕ, String, str_append}
use mayastor_extensions.Upgrade.Env.{Env}
use mayastor_extensions.Upgrade.Version.{Version, release}

abbrev pub core_chart_name : Env → String
core_chart_name env = env.product_name

abbrev pub io_engine_label : String
io_engine_label = "app=io-engine"

abbrev pub agent_core_label : String
agent_core_label = "app=agent-core"

abbrev pub controller_revision_hash_label_key : String
controller_revision_hash_label_key = "controller-revision-hash"

abbrev pub drain_for_upgrade : Env → String
drain_for_upgrade env = str_append (core_chart_name env) "-upgrade"

abbrev pub cordon_ana_check : Env → String
cordon_ana_check env = str_append (core_chart_name env) "-upgrade-nvme-ana-check"

abbrev pub kube_api_page_size : ℕ
kube_api_page_size = 500

-- `PARTIAL_REBUILD_DISABLE_EXTENTS`
abbrev pub partial_rebuild_lower : Version
partial_rebuild_lower = release 2 2 0

abbrev pub partial_rebuild_upper : Version
partial_rebuild_upper = release 2 5 0

abbrev pub two_dot_o_rc_one : String
two_dot_o_rc_one = "2.0.0-rc.1"

abbrev pub two_dot_one : String
two_dot_one = "2.1.0"

abbrev pub two_dot_three : String
two_dot_three = "2.3.0"

abbrev pub two_dot_four : String
two_dot_four = "2.4.0"

abbrev pub two_dot_five : String
two_dot_five = "2.5.0"

abbrev pub two_dot_six : String
two_dot_six = "2.6.0"
