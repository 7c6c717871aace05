-- ===== src/Storage/Pool/Listing.antt =====
-- internal/storage/pool_sqlite.go and network_sqlite.go: the list of pools and the lookup of a network.
use rackd.Prelude.{
  Bool, true, ◌&&◌, Option, none, some, List, [], ◌∷◌, map, if◌then◌else◌, any, keep, find,
}
use rackd.Text.{Text, ◌==◌, is_empty}
use rackd.Error.{Result, err, invalid_id, network_not_found, or_error}
use rackd.Model.{Network, NetworkPool}
use rackd.Store.{Store}
use rackd.Storage.Order.{pos, text_leb, sort_by, Pagination, paginate}
use rackd.Storage.Pool.{get_pool_tags}

-- GetNetwork
unfoldable pub get_network : Text → Store → Result Network
get_network id s =
    if is_empty id
    then err invalid_id
    else or_error (find (λ n. n.id == id) s.networks) network_not_found

-- model.NetworkPoolFilter
pub record NetworkPoolFilter : Type 0 where
  pub page : Pagination
  pub network_id : Text
  pub tags : List Text

-- The filter of ListByNetwork
abbrev pub of_network : Text → NetworkPoolFilter
of_network id = record {
  page = record { limit = pos 0; offset = pos 0 };
  network_id = id;
  tags = [];
}

-- id IN (SELECT pool_id FROM pool_tags WHERE tag = ?)
abbrev is_tagged : NetworkPool → Store → Text → Bool
is_tagged p s tag = any (λ t. t.tag == tag && t.pool_id == p.id) s.pool_tags

-- Every tag of the filter is one of the pool.
abbrev has_tags : NetworkPool → Store → List Text → Bool
has_tags p s [] = true
has_tags p s (t ∷ ts) = is_tagged p s t && has_tags p s ts

unfoldable pub matches_pool : Option NetworkPoolFilter → Store → NetworkPool → Bool
matches_pool none s p = true
matches_pool (some f) s p =
    (if is_empty f.network_id then true else p.network_id == f.network_id) && has_tags p s f.tags

abbrev page_of : Option NetworkPoolFilter → Option Pagination
page_of none = none
page_of (some f) = some f.page

-- ListNetworkPools
unfoldable pub list_network_pools : Option NetworkPoolFilter → Store → List NetworkPool
unfolding matches_pool
list_network_pools filter s =
    map {A = NetworkPool} (λ p. record p { tags = get_pool_tags p.id s })
      (paginate (page_of filter)
        (sort_by (λ a b. text_leb a.name b.name) (keep (matches_pool filter s) s.network_pools)))
