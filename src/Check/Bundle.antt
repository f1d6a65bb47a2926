-- ===== src/Check/Bundle.antt =====
-- internal/check/bundle/bundle.go: how the agent finds or makes its check bundle.
use circonus_agent.Prelude.{
  ℕ, ◌⊎◌, inl, inr, Bool, true, false, not, ◌&&◌, ◌||◌, Option, none, some, List, [], ◌∷◌, ◌++◌,
  ◌==◌, if◌then◌else◌, length, drop,
}
use circonus_agent.Prelude.Bytes.{Bytes, codes, is_empty, equal, has_prefix, contains}
use circonus_agent.Prelude.Strconv.{is_digit}
use circonus_agent.Check.Broker.{status_active}
use circonus_agent.Check.Select.{BrokerInfo, before_colon, SelectError}

pub record CheckBundle : Type 0 where
  pub cid : Bytes
  pub status : Bytes
  pub target : Bytes
  pub display_name : Bytes
  pub notes : Option Bytes
  pub url : Option Bytes
  pub bundle_tags : List Bytes
  pub new_period : ℕ
  pub filters : List (List Bytes)
  pub brokers : List Bytes

-- A bundle without settings, and the calls of the API for bundles, with the answer to a search for active
-- bundles of the target; `none` is an error.
pub record BundleApi : Type 0 where
  pub new_bundle : CheckBundle
  pub fetch_bundle : Bytes → Option CheckBundle
  pub search_bundles : Bytes → Option (List CheckBundle)
  pub create_bundle : CheckBundle → Option CheckBundle
  pub update_bundle : CheckBundle → Option CheckBundle
  pub fetch_brokers : Option (List BrokerInfo)

-- What the configuration and the host say: the file and the option with metric filters (`none` where there
-- is none, `some none` where it cannot be read or decoded), and the first address to listen on with its
-- parser.
pub record BundleOptions : Type 0 where
  pub saved_cid : Option Bytes
  pub check_target : Bytes
  pub title : Bytes
  pub in_reverse_mode : Bool
  pub multi_agent : Bool
  pub update_all : Bool
  pub update_filters : Bool
  pub period : ℕ
  pub broker : Bytes
  pub host_tags : List Bytes
  pub filter_file : Option (Option (List (List Bytes)))
  pub filter_option : Option (Option (List (List Bytes)))
  pub default_filters : List (List Bytes)
  pub listen : Bytes
  pub parse_listen : Bytes → Option Bytes
  pub created_note : Bytes
  pub updated_note : Bytes
  pub to_lower : Bytes → Bytes

pub data BundleError : Type 0 where
  invalid_cid fetch_error not_active_bundle invalid_target ambiguous : BundleError
  invalid_listen listen_panics invalid_filters no_brokers create_error update_error : BundleError
  select_error : SelectError → BundleError

abbrev pub all_digit_bytes : Bytes → Bool
all_digit_bytes [] = true
all_digit_bytes (c ∷ s) = is_digit c && all_digit_bytes s

-- `^[0-9]+$`
unfoldable pub is_number : Bytes → Bool
is_number s = not (is_empty s) && all_digit_bytes s

abbrev pub bundle_prefix : Bytes
bundle_prefix = codes "/check_bundle/"

unfoldable pub full_cid : Bytes → Bytes
unfolding is_number
full_cid cid = if is_number cid then bundle_prefix ++ cid else cid

-- `^/check_bundle/[0-9]+$`
unfoldable pub is_bundle_cid : Bytes → Bool
unfolding has_prefix is_number
is_bundle_cid cid = has_prefix cid bundle_prefix && is_number (drop (length bundle_prefix) cid)

abbrev pub active_bundle : Option CheckBundle → BundleError ⊎ CheckBundle
active_bundle none = inl fetch_error
active_bundle (some b) = if equal b.status status_active then inr b else inl not_active_bundle

-- `fetchCheckBundle`.
unfoldable pub fetch_check_bundle : BundleApi → Bytes → BundleError ⊎ CheckBundle
unfolding full_cid is_bundle_cid equal
fetch_check_bundle api [] = inl invalid_cid
fetch_check_bundle api (c ∷ cid) =
    if not (is_bundle_cid (full_cid (c ∷ cid)))
    then inl invalid_cid
    else active_bundle (api.fetch_bundle (full_cid (c ∷ cid)))

-- What a search comes to: a bundle, or an error that counts no bundle or some.
pub data Search : Type 0 where
  found : CheckBundle → Search
  none_counted some_counted : Search

abbrev pub noted_by_agent : Option Bytes → Bool
noted_by_agent none = false
noted_by_agent (some note) = contains note (codes "circonus-agent")

-- The bundles that the agent has made.
unfoldable pub by_agent : List CheckBundle → List CheckBundle
unfolding contains
by_agent [] = []
by_agent (b ∷ bs) = let rest = by_agent bs in if noted_by_agent b.notes then b ∷ rest else rest

abbrev pub only_match : List CheckBundle → Search
only_match [] = none_counted
only_match (b ∷ []) = found b
only_match (b ∷ c ∷ bs) = some_counted

abbrev pub refetched : BundleError ⊎ CheckBundle → Search
refetched (inl e) = none_counted
refetched (inr b) = found b

abbrev pub searched : BundleApi → Option (List CheckBundle) → Search
searched api none = some_counted
searched api (some []) = none_counted
searched api (some (b ∷ [])) = refetched (fetch_check_bundle api b.cid)
searched api (some (b ∷ c ∷ bs)) = only_match (by_agent (b ∷ c ∷ bs))

-- `findCheckBundle`.
unfoldable pub find_check_bundle : BundleApi → Bytes → Search
unfolding fetch_check_bundle by_agent
find_check_bundle api [] = some_counted
find_check_bundle api (c ∷ target) = searched api (api.search_bundles (c ∷ target))

abbrev pub read_filters : Option (List (List Bytes)) → BundleError ⊎ List (List Bytes)
read_filters none = inl invalid_filters
read_filters (some fs) = inr fs

abbrev pub filters_of_option :
    BundleOptions → Option (Option (List (List Bytes))) → BundleError ⊎ List (List Bytes)
filters_of_option o none = inr o.default_filters
filters_of_option o (some given) = read_filters given

abbrev pub filters_of_file :
    BundleOptions → Option (Option (List (List Bytes))) → BundleError ⊎ List (List Bytes)
filters_of_file o none = filters_of_option o o.filter_option
filters_of_file o (some file) = read_filters file

-- `getMetricFilters`.
unfoldable pub get_metric_filters : BundleOptions → BundleError ⊎ List (List Bytes)
get_metric_filters o = filters_of_file o o.filter_file

abbrev pub category_of : Bytes → Bytes
category_of tag = before_colon tag ++ codes ":"

-- A tag of the host put into the tags: it takes the place of the first tag of its category, or comes last.
unfoldable pub put_tag : Bytes → List Bytes → List Bytes
unfolding has_prefix before_colon
put_tag tag [] = tag ∷ []
put_tag tag (t ∷ ts) =
    let rest = put_tag tag ts in if has_prefix t (category_of tag) then tag ∷ ts else t ∷ rest

abbrev pub same_tags : List Bytes → List Bytes → Bool
same_tags [] [] = true
same_tags [] (u ∷ us) = false
same_tags (t ∷ ts) [] = false
same_tags (t ∷ ts) (u ∷ us) = equal t u && same_tags ts us

-- The loop over the host's tags, with whether any of them has changed something.
unfoldable pub put_tags : List Bytes → Bool × List Bytes → Bool × List Bytes
unfolding put_tag equal
put_tags [] s = s
put_tags (tag ∷ tags) (changed, ts) =
    put_tags tags (changed || not (same_tags (put_tag tag ts) ts), put_tag tag ts)

abbrev pub updated : Option CheckBundle → BundleError ⊎ CheckBundle
updated none = inl update_error
updated (some b) = inr b

-- `updateCheckBundleTags`. A bundle without tags is always updated, and another if its tags change.
unfoldable pub update_tags : BundleApi → List Bytes → CheckBundle → BundleError ⊎ CheckBundle
unfolding put_tags equal
update_tags api tags b =
    if length b.bundle_tags == 0
    then updated (api.update_bundle (record b { bundle_tags = tags }))
    else if not (put_tags tags (false, b.bundle_tags)).0
    then inr b
    else updated
        (api.update_bundle (record b { bundle_tags = (put_tags tags (false, b.bundle_tags)).1 }))

abbrev pub then_bundle :
    {A : Type 0} → BundleError ⊎ A → (A → BundleError ⊎ CheckBundle) → BundleError ⊎ CheckBundle
then_bundle (inl e) next = inl e
then_bundle (inr a) next = next a

-- `updateCheckBundleMetricFilters`.
unfoldable pub update_metric_filters :
    BundleApi → BundleOptions → CheckBundle → BundleError ⊎ CheckBundle
unfolding get_metric_filters update_tags
update_metric_filters api o b = then_bundle (get_metric_filters o) (λ fs.
    then_bundle (updated (api.update_bundle (record b { filters = fs })))
      (update_tags api o.host_tags))
