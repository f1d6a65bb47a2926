-- ===== src/Check/Create.antt =====
-- internal/check/bundle/bundle.go: the settings of the check bundle, and its initialisation.
use circonus_agent.Prelude.{
  ℕ, ◌⊎◌, inl, inr, Bool, not, ◌&&◌, ◌||◌, Option, none, some, List, [], ◌∷◌, ◌++◌, ltb,
  if◌then◌else◌,
}
use circonus_agent.Prelude.Bytes.{Bytes, codes, is_empty, equal, has_prefix}
use circonus_agent.Check.Broker.{status_active}
use circonus_agent.Check.Select.{BrokerInfo, DialTimes, SelectError, select_broker}
use circonus_agent.Check.Bundle.{
  CheckBundle, BundleApi, BundleOptions, BundleError, is_number, fetch_check_bundle, Search,
  find_check_bundle, get_metric_filters, updated, update_tags, then_bundle, update_metric_filters,
  not_active_bundle, invalid_target, ambiguous, invalid_listen, listen_panics, no_brokers,
  create_error, select_error, found, none_counted, some_counted,
}

abbrev pub begins_with_colon : Bytes → Bool
begins_with_colon s = has_prefix s (codes ":")

abbrev pub parsed_address : Option Bytes → BundleError ⊎ Bytes
parsed_address none = inl invalid_listen
parsed_address (some a) = inr a

-- The address to listen on, of which the first byte is looked at before it is parsed.
unfoldable pub target_address : BundleOptions → BundleError ⊎ Bytes
unfolding has_prefix
target_address o =
    if is_empty o.listen
    then inl listen_panics
    else if begins_with_colon o.listen && o.in_reverse_mode
    then parsed_address (o.parse_listen (codes "localhost" ++ o.listen))
    else parsed_address (o.parse_listen o.listen)

abbrev pub url_for : BundleOptions → Bytes → Bytes
url_for o address =
    codes "http://"
    ++ ((if begins_with_colon address && not o.in_reverse_mode
          then o.check_target ++ address
          else address)
        ++ codes "/")

abbrev pub name_for : BundleOptions → Bytes
name_for o = if is_empty o.title then o.check_target ++ codes " /agent" else o.title

abbrev pub period_for : ℕ → ℕ
period_for p = if ltb p 10 || ltb 300 p then 60 else p

abbrev pub with_settings :
    BundleOptions → Bytes → List (List Bytes) → Bytes → CheckBundle → CheckBundle
with_settings o note fs address b = record b {
  target = o.check_target;
  display_name = name_for o;
  notes = some note;
  url = some (url_for o address);
  bundle_tags = o.host_tags;
  new_period = period_for o.period;
  filters = fs;
}

-- What creating and updating have in common: the settings, without the timeout.
unfoldable pub configured : BundleOptions → Bytes → CheckBundle → BundleError ⊎ CheckBundle
unfolding target_address get_metric_filters
configured o note b = then_bundle (target_address o) (λ address.
    if is_empty o.check_target
    then inl invalid_target
    else then_bundle (get_metric_filters o) (λ fs. inr (with_settings o note fs address b)))

abbrev pub full_broker : Bytes → Bytes
full_broker broker = if is_number broker then codes "/broker/" ++ broker else broker

abbrev pub selected : SelectError ⊎ BrokerInfo → BundleError ⊎ Bytes
selected (inl e) = inl (select_error e)
selected (inr b) = inr b.broker_cid

abbrev pub select_from :
    DialTimes → (ℕ → ℕ) → Bool → Bytes → Option (List BrokerInfo) → BundleError ⊎ Bytes
select_from dial random multi check_type none = inl no_brokers
select_from dial random multi check_type (some bs) =
    selected (select_broker dial random multi check_type bs)

unfoldable pub broker_for :
    BundleApi → DialTimes → (ℕ → ℕ) → Bytes → BundleOptions → BundleError ⊎ Bytes
unfolding equal select_broker
broker_for api dial random check_type o =
    if is_empty o.broker || equal (o.to_lower o.broker) (codes "select")
    then select_from dial random o.multi_agent check_type api.fetch_brokers
    else inr o.broker

abbrev pub created_bundle : Option CheckBundle → BundleError ⊎ CheckBundle
created_bundle none = inl create_error
created_bundle (some b) = inr b

-- `createCheckBundle`.
unfoldable pub create_check_bundle :
    BundleApi → DialTimes → (ℕ → ℕ) → Bytes → BundleOptions → BundleError ⊎ CheckBundle
unfolding configured broker_for is_number
create_check_bundle api dial random check_type o =
    then_bundle (configured o o.created_note api.new_bundle) (λ b.
      then_bundle (broker_for api dial random check_type o) (λ broker.
        created_bundle (api.create_bundle (record b { brokers = full_broker broker ∷ [] }))))

-- `updateCheckBundle`; the broker is changed only if one is given.
unfoldable pub update_check_bundle :
    BundleApi → BundleOptions → CheckBundle → BundleError ⊎ CheckBundle
unfolding configured is_number equal
update_check_bundle api o b = then_bundle (configured o o.updated_note b) (λ c. updated (
    api.update_bundle (
      if not (is_empty o.broker) && not (equal o.broker (codes "select"))
      then record c { brokers = full_broker o.broker ∷ [] }
      else c)))

-- The bundle that is kept, after the update that is asked for.
abbrev pub brought_up_to_date : BundleApi → BundleOptions → CheckBundle → BundleError ⊎ CheckBundle
brought_up_to_date api o b =
    if not (equal b.status status_active)
    then inl not_active_bundle
    else if o.update_all
    then update_check_bundle api o b
    else if o.update_filters
    then update_metric_filters api o b
    else update_tags api o.host_tags b

abbrev pub or_created : Bool → BundleError ⊎ CheckBundle → Search → BundleError ⊎ CheckBundle
or_created create made (found b) = inr b
or_created create made some_counted = inl ambiguous
or_created create made none_counted = if create then made else inl ambiguous

-- The id of the bundle that was saved, or else the one configured.
abbrev pub wanted_cid : Option Bytes → Bytes → Bytes
wanted_cid none cid = cid
wanted_cid (some saved) cid = saved

-- `initCheckBundle`: the bundle that the agent uses.
unfoldable pub init_check_bundle :
    BundleApi
    → DialTimes
    → (ℕ → ℕ)
    → Bytes
    → BundleOptions
    → Bytes
    → Bool
    → BundleError ⊎ CheckBundle
unfolding fetch_check_bundle find_check_bundle create_check_bundle update_check_bundle
    update_metric_filters update_tags
init_check_bundle api dial random check_type o cid create =
    then_bundle
      (if is_empty (wanted_cid o.saved_cid cid)
        then or_created create (create_check_bundle api dial random check_type o)
            (find_check_bundle api o.check_target)
        else fetch_check_bundle api (wanted_cid o.saved_cid cid))
      (brought_up_to_date api o)

-- `Refresh` of a bundle that there is.
unfoldable pub refresh_bundle : BundleApi → Bytes → BundleError ⊎ CheckBundle
unfolding fetch_check_bundle
refresh_bundle api cid = fetch_check_bundle api cid
