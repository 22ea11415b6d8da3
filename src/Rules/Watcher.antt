-- ===== src/Rules/Watcher.antt =====
-- pkg/rules/watcher.go: the controller that keeps the store of rules, and the modes of the namespaces.
pub mod System
pub mod Tracked
pub mod Drains
pub mod Lost
pub mod Past
pub mod Rebuilt
use drift_sentinel.Base.{
  ℕ, Bool, true, false, not, List, [], ◌∷◌, ◌++◌, Option, none, some, if◌then◌else◌, length, ◌≡◌,
  refl,
}
use drift_sentinel.Base.Text.{Text, Unicode, codes, text_eq}
use drift_sentinel.Base.Assoc.{find, get}
use drift_sentinel.Base.Quote.{quote}
use drift_sentinel.Base.Result.{Result, ok, err, out_of_fuel}
use drift_sentinel.Metrics.Registry.{Registry, new_registry, record_config_event, set_rules_loaded}
use drift_sentinel.Rules.Types.{
  Rule, ConfigMap, TextMap, Resolved, unset, found, unresolved, namespace_mode_annotation,
}
use drift_sentinel.Rules.Store.{Store, new_store, replace}
use drift_sentinel.Rules.Config.{is_rule_config_map, is_valid_mode, parse_config_map}

-- What the controller reads of a `corev1.ConfigMap`.
pub record CoreConfigMap : Type 0 where
  pub name : Text
  pub namespace : Text
  pub annotations : TextMap
  pub values : TextMap

-- The loops copy the maps entry by entry.
unfoldable pub copy_entries : TextMap → TextMap
copy_entries [] = []
copy_entries ((key, value) ∷ entries) = (key, value) ∷ copy_entries entries

unfoldable pub from_core_config_map : CoreConfigMap → ConfigMap
unfolding copy_entries
from_core_config_map config = record {
  name = config.name;
  namespace = config.namespace;
  annotations = copy_entries config.annotations;
  values = copy_entries config.values;
}

abbrev pub keep_rule : Result Rule → List Rule → List Rule
keep_rule (ok rule) rules = rule ∷ rules
keep_rule (err e) rules = rules
keep_rule out_of_fuel rules = rules

-- The answer of the lister of namespaces: the annotations, "not found", or another error.
pub data NamespaceAnswer : Type 0 where
  present : TextMap → NamespaceAnswer
  missing : NamespaceAnswer
  failing : Text → NamespaceAnswer

module _ ⦃u : Unicode⦄ where
  -- The loop of `rebuildRules` over the config maps.
  unfoldable pub valid_rules : List CoreConfigMap → List Rule
  unfolding from_core_config_map is_rule_config_map parse_config_map
  valid_rules [] = []
  valid_rules (config ∷ configs) =
      let rest = valid_rules configs in
      let internal = from_core_config_map config in
      if not (is_rule_config_map internal) then rest else keep_rule (parse_config_map internal) rest

  abbrev pub mode_of : Text → Text → Resolved
  mode_of namespace value =
      if text_eq value []
      then unset
      else if not (is_valid_mode value)
      then unresolved (
          codes "invalid namespace mode " ++ (quote value ++ (codes " on namespace " ++ namespace)))
      else found value

  abbrev pub resolve_answer : Text → NamespaceAnswer → Resolved
  resolve_answer namespace (present annotations) =
      mode_of namespace (get namespace_mode_annotation annotations)
  resolve_answer namespace missing = unset
  resolve_answer namespace (failing e) = unresolved e

  unfoldable pub resolve_mode : (Text → NamespaceAnswer) → Text → Resolved
  unfolding is_valid_mode find
  resolve_mode lister namespace = resolve_answer namespace (lister namespace)

-- What a handler of the informer is called with; an update has the resource versions of both objects.
pub data Event : Type 0 where
  added : Event
  updated : Text → Text → Event
  deleted : Event

abbrev pub event_name : Event → Text
event_name added = codes "add"
event_name (updated old new) = codes "update"
event_name deleted = codes "delete"

-- An update to the same version, as the resyncs of the informer make them.
unfoldable pub is_resync : Event → Bool
is_resync (updated old new) = text_eq old new
is_resync _ = false

-- What the controller and its informer share: the informer's cache of config maps and the events that
-- it has not delivered yet, and the controller's flag, store and metrics.
pub record World : Type 0 where
  pub cache : List CoreConfigMap
  pub pending : List Event
  pub ready : Bool
  pub store : Store
  pub metrics : Registry

abbrev or_new {ℓ} : {A : Type ℓ} → A → Option A → A
or_new new none = new
or_new new (some given) = given

-- `NewController`, which makes a store and metrics where none are given; the informer has not listed any
-- config map yet.
unfoldable pub new_controller : Option Store → Option Registry → World
new_controller store metrics = record {
  cache = [];
  pending = [];
  ready = false;
  store = or_new new_store store;
  metrics = or_new new_registry metrics;
}

-- The controller on a new store and new metrics.
abbrev pub new_world : World
new_world = record {
  cache = [];
  pending = [];
  ready = false;
  store = new_store;
  metrics = new_registry;
}

-- `main` gives both; without them the controller is the same.
new_controller-new_world :
    (new_controller (some new_store) (some new_registry) ≡ new_world)
    × (new_controller none none ≡ new_world)
unfolding new_controller
new_controller-new_world = (refl, refl)

-- Where a call of `rebuildRules` stands: before the list is read, before `Replace`, before
-- `SetRulesLoaded`. The lister reads the memory of the informer, and has no errors.
pub data Rebuild : Type 0 where
  listing : Rebuild
  listed : List CoreConfigMap → Rebuild
  replaced : ℕ → Rebuild

-- Where `Start` stands.
pub data Starter : Type 0 where
  syncing : Starter
  building : Rebuild → Starter
  loaded : Starter
  started : Starter
  timed_out : Starter

-- Where the goroutine stands that calls the handlers, one event after the other: between events, before
-- `triggerRebuild` reads the flag, in `rebuildRules`.
pub data Handler : Type 0 where
  resting : Handler
  noted : Handler
  rebuilding : Rebuild → Handler

abbrev pub starter_of : Option Rebuild → Starter
starter_of none = loaded
starter_of (some r) = building r

abbrev pub handler_of : Option Rebuild → Handler
handler_of none = resting
handler_of (some r) = rebuilding r

module _ ⦃u : Unicode⦄ where
  -- The next effect of `rebuildRules`; it returns after the last. The lister reads the cache.
  unfoldable pub rebuild_rules : Rebuild → World → Option Rebuild × World
  unfolding valid_rules replace set_rules_loaded
  rebuild_rules listing w = (some (listed w.cache), w)
  rebuild_rules (listed configs) w =
      let rules = valid_rules configs in
      (some (replaced (length rules)), record w { store = replace w.store rules })
  rebuild_rules (replaced count) w = (none, record w { metrics = set_rules_loaded w.metrics count })

  -- The next effect of `Start`, whose wait for the caches has ended well.
  unfoldable pub start : Starter → World → Starter × World
  unfolding rebuild_rules
  start syncing w = (building listing, w)
  start (building r) w = let (next, w') = rebuild_rules r w in (starter_of next, w')
  start loaded w = (started, record w { ready = true })
  start started w = (started, w)
  start timed_out w = (timed_out, w)

  unfoldable pub receive : List Event → World → Handler × World
  unfolding is_resync record_config_event
  receive [] w = (resting, w)
  receive (event ∷ events) w =
      let popped : World = record w { pending = events } in
      if is_resync event
      then (resting, popped)
      else (noted, record popped { metrics = record_config_event w.metrics (event_name event) })

  -- `triggerRebuild` up to the call of `rebuildRules`.
  abbrev pub trigger_rebuild : Bool → Handler
  trigger_rebuild false = resting
  trigger_rebuild true = rebuilding listing

  -- The next effect of the handlers.
  unfoldable pub handle : Handler → World → Handler × World
  unfolding receive rebuild_rules
  handle resting w = receive w.pending w
  handle noted w = (trigger_rebuild w.ready, w)
  handle (rebuilding r) w = let (next, w') = rebuild_rules r w in (handler_of next, w')
