-- ===== src/CallHome/Records.antt =====
-- The event counters of call-home/src/bin/callhome/collector/report_models.rs: how the report finds
-- them among the samples of a scrape, as `generate_report` of callhome/main.rs asks for them.
pub mod Scrape
use mayastor_extensions.Prelude.{
  ℕ, ◌-◌, ◌^◌, String, Bool, true, false, ◌&&◌, Option, none, some, List, [], ◌∷◌, ltb, str_eq,
  if◌then◌else◌,
}
use mayastor_extensions.CallHome.Stats.{Sample}

pub data Resource : Type 0 where
  unknown_resource pool volume nexus : Resource

pub data Action : Type 0 where
  unknown_action created deleted rebuild_started rebuild_ended : Action

-- `Resource::from`
unfoldable pub resource_from : String → Resource
resource_from s =
    if str_eq s "pool" then pool else if str_eq s "volume" then volume else unknown_resource

-- `Action::from`
unfoldable action_from : String → Action
action_from s =
    if str_eq s "created"
    then created
    else if str_eq s "deleted"
    then deleted
    else if str_eq s "rebuild_started"
    then rebuild_started
    else if str_eq s "rebuild_ended"
    then rebuild_ended
    else unknown_action

-- Derived equality.
abbrev resource_eq : Resource → Resource → Bool
resource_eq unknown_resource unknown_resource = true
resource_eq pool pool = true
resource_eq volume volume = true
resource_eq nexus nexus = true
resource_eq _ _ = false

abbrev action_eq : Action → Action → Bool
action_eq unknown_action unknown_action = true
action_eq created created = true
action_eq deleted deleted = true
action_eq rebuild_started rebuild_started = true
action_eq rebuild_ended rebuild_ended = true
action_eq _ _ = false

-- `as u32` of a counter, which is not negative
unfoldable counter_value : ℕ → ℕ
counter_value v = if ltb v (2 ^ 32) then v else 2 ^ 32 - 1

-- `Record::try_counter`
unfoldable pub try_counter : Sample → Resource → Action → Option ℕ
unfolding resource_from action_from counter_value
try_counter s resource action =
    if resource_eq (resource_from s.metric) resource && action_eq (action_from s.action) action
    then some (counter_value s.value)
    else none

abbrev first : Option ℕ → Option ℕ → Option ℕ
first none rest = rest
first (some v) rest = some v

-- `iter().find_map(..)`
unfoldable pub find_counter : List Sample → Resource → Action → Option ℕ
unfolding try_counter
find_counter [] resource action = none
find_counter (s ∷ ss) resource action =
    let rest = find_counter ss resource action in first (try_counter s resource action) rest

pub record EventData : Type 0 where
  pub volume_created : ℕ
  pub volume_deleted : ℕ
  pub pool_created : ℕ
  pub pool_deleted : ℕ
  pub nexus_created : ℕ
  pub nexus_deleted : ℕ
  pub rebuild_started : ℕ
  pub rebuild_ended : ℕ

-- `unwrap_or_default()`
abbrev or_zero : Option ℕ → ℕ
or_zero none = 0
or_zero (some v) = v

-- What `generate_report` takes from the samples.
unfoldable pub event_data : List Sample → EventData
event_data samples = record {
  volume_created = or_zero (find_counter samples volume created);
  volume_deleted = or_zero (find_counter samples volume deleted);
  pool_created = or_zero (find_counter samples pool created);
  pool_deleted = or_zero (find_counter samples pool deleted);
  nexus_created = or_zero (find_counter samples nexus created);
  nexus_deleted = or_zero (find_counter samples nexus deleted);
  rebuild_started = or_zero (find_counter samples nexus rebuild_started);
  rebuild_ended = or_zero (find_counter samples nexus rebuild_ended);
}
