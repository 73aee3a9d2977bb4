-- ===== src/Certmanager/Runtime.antt =====
-- pkg/certmanager/certmanager.go: the issuer that a ConfigMap sets at run time.
pub mod Active
pub mod Loop
pub mod Restarts
use istio_csr.Base.{
  ℕ, ◌≡◌, Bool, true, false, not, ◌&&◌, ◌||◌, Option, none, some, List, [], ◌∷◌, ◌++◌, is_empty,
  if◌then◌else◌, join,
}
use istio_csr.Base.Text.{Str, bytes}
use istio_csr.Base.Dict.{Dict, lookup}
use istio_csr.Certmanager.{IssuerReference, Manager}
use istio_csr.Certmanager.Subscriptions.{notify_issuer_change}

abbrev pub issuer_name_key : Str
issuer_name_key = bytes "issuer-name"

abbrev pub issuer_kind_key : Str
issuer_kind_key = bytes "issuer-kind"

abbrev pub issuer_group_key : Str
issuer_group_key = bytes "issuer-group"

-- What an event of a watch carries: a ConfigMap with its data, an error, or another object.
pub data Object : Type 0 where
  config_map : Dict Str → Object
  error_object : Object
  other_object : Object

pub data EventType : Type 0 where
  added modified deleted bookmark error unknown : EventType

pub record Event : Type 0 where
  pub type : EventType
  pub object : Object

pub data ConfigError : Type 0 where
  unexpected_type : ConfigError
  missing_key : Str → ConfigError

-- `m[key]` for a map of strings: the empty string where the key is missing.
abbrev pub value_of : Option Str → Str
value_of none = []
value_of (some v) = v

-- The error for a key that is missing or empty.
abbrev pub check_key : Str → Option Str → Option ConfigError
check_key key none = some (missing_key key)
check_key key (some v) = if is_empty v then some (missing_key key) else none

unfoldable pub issuer_of : Dict Str → IssuerReference
issuer_of cm = record {
  name = value_of (lookup issuer_name_key cm);
  kind = value_of (lookup issuer_kind_key cm);
  group = value_of (lookup issuer_group_key cm);
}

unfoldable pub data_errors : Dict Str → Option (List ConfigError)
data_errors cm = join (
    check_key issuer_name_key (lookup issuer_name_key cm)
    ∷ check_key issuer_kind_key (lookup issuer_kind_key cm)
    ∷ check_key issuer_group_key (lookup issuer_group_key cm)
    ∷ [])

-- handleRuntimeConfigIssuerChange: the manager afterwards, and the error.
unfoldable pub handle_runtime_config_issuer_change :
    Manager → Event → Manager × Option (List ConfigError)
handle_runtime_config_issuer_change m event = elim event.object [
  | config_map cm ↦ elim (data_errors cm) [
    | some es ↦ (m, some es)
    | none ↦ (
      notify_issuer_change (record m { active_issuer_ref = some (issuer_of cm) })
          (some (issuer_of cm)),
      none,
    )
  ]
  | _ ↦ (m, some (unexpected_type ∷ []))
]

-- handleRuntimeConfigIssuerDeletion.
unfoldable pub handle_runtime_config_issuer_deletion : Manager → Manager
handle_runtime_config_issuer_deletion m = elim m.original_issuer_ref [
  | none ↦ record m { active_issuer_ref = none }
  | some r ↦ notify_issuer_change (record m { active_issuer_ref = some r }) none
]

-- The switch on the type of an event.
unfoldable pub handle_event : Manager → Event → Manager
handle_event m event = elim event.type [
  | deleted ↦ handle_runtime_config_issuer_deletion m
  | added ↦ (handle_runtime_config_issuer_change m event).0
  | modified ↦ (handle_runtime_config_issuer_change m event).0
  | bookmark ↦ m
  | error ↦ m
  | unknown ↦ m
]

-- What one turn of the inner loop of the watcher meets.
pub data Signal : Type 0 where
  context_done : Signal
  channel_closed : Signal
  event : Event → Signal

-- How a turn ends: the watch goes on, is to be made anew, or the watcher has stopped.
pub data Status : Type 0 where
  watching restarting stopped : Status

unfoldable pub watch_loop : Manager → List Signal → Manager × Status
watch_loop m [] = (m, watching)
watch_loop m (context_done ∷ ss) = (m, stopped)
watch_loop m (channel_closed ∷ ss) = (m, restarting)
watch_loop m (event e ∷ ss) = watch_loop (handle_event m e) ss

-- What one turn of the outer loop meets: the watch cannot be made, or it gives these signals.
pub data Attempt : Type 0 where
  watch_failed : Attempt
  watch_made : List Signal → Attempt

-- Start of the RuntimeConfigurationWatcher, over the attempts that happen. A watch that neither
-- closes nor is cancelled goes on, so nothing after it is reached.
unfoldable pub start : Manager → List Attempt → Manager × Status
start m [] = (m, restarting)
start m (watch_failed ∷ later) = start m later
start m (watch_made ss ∷ later) =
    let (m', status) = watch_loop m ss in
    let again = start m' later in
    elim status [ restarting ↦ again | watching ↦ (m', watching) | stopped ↦ (m', stopped) ]
