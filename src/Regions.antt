-- ===== src/Regions.antt =====
-- The server list and the region of a client (pia/pia.go). The list that PIA sends is an argument,
-- decoded; a Go map from regions to servers is an association list.
pub mod Servers
pub mod Fetch
pub mod Resolve
use mathlib.Core.Option
use pia_wg_config_generator.Base.{
  Bool, true, false, not, ◌&&◌, ◌||◌, Option, none, some, List, [], ◌∷◌, ◌++◌, map, if◌then◌else◌,
}
use pia_wg_config_generator.Base.Text.{Text, codes, text_eq, trim_space, to_lower, is_empty}

pub record Server : Type 0 where
  pub cn : Text
  pub ip : Text

-- A region of PIAServerList.
pub record Region : Type 0 where
  pub id : Text
  pub name : Text
  pub country : Text
  pub auto_region : Bool
  pub dns : Text
  pub port_forward : Bool
  pub geo : Bool
  pub meta : List Server
  pub wg : List Server

pub record RegionInfo : Type 0 where
  pub id : Text
  pub name : Text
  pub country : Text
  pub auto_region : Bool
  pub port_forward : Bool

pub data ClientError : Type 0 where
  region_empty : ClientError
  unknown_region : Text → ClientError
  no_servers no_metadata_servers : Bool → ClientError

pub data Result {ℓ} (A : Type ℓ) : Type ℓ where
  ok : A → Result A
  failed : ClientError → Result A

-- The regions that the loops skip: those without port forwarding, if it is asked for.
abbrev pub is_skipped : Bool → Region → Bool
is_skipped port_forwarding r = port_forwarding && not r.port_forward

abbrev pub ServerList : Type 0
ServerList = List (Text × List Server)

-- servers[id], empty for a missing key.
unfoldable pub servers_of : Text → ServerList → List Server
servers_of id [] = []
servers_of id ((key, servers) ∷ rest) =
    let others = servers_of id rest in if text_eq key id then servers else others

-- servers[id] = append(servers[id], server)
unfoldable pub append_server : Text → Server → ServerList → ServerList
append_server id server [] = (id, server ∷ []) ∷ []
append_server id server ((key, servers) ∷ rest) =
    let others = append_server id server rest in
    if text_eq key id then (key, servers ++ (server ∷ [])) ∷ rest else (key, servers) ∷ others

unfoldable pub append_servers : Text → List Server → ServerList → ServerList
append_servers id [] list = list
append_servers id (s ∷ servers) list = append_servers id servers (append_server id s list)

-- The loop of generateWireguardServerList and generateMetadataServerList.
unfoldable pub collect : Bool → (Region → List Server) → List Region → ServerList → ServerList
collect port_forwarding servers [] list = list
collect port_forwarding servers (r ∷ regions) list =
    let taken = collect port_forwarding servers regions (append_servers r.id (servers r) list) in
    let skipped = collect port_forwarding servers regions list in
    if is_skipped port_forwarding r then skipped else taken

some_servers : ClientError → ServerList → Result ServerList
some_servers e [] = failed e
some_servers e (entry ∷ list) = ok (entry ∷ list)

-- generateWireguardServerList
unfoldable pub generate_wireguard_server_list : Bool → List Region → Result ServerList
unfolding some_servers
generate_wireguard_server_list port_forwarding regions =
    some_servers (no_servers port_forwarding) (collect port_forwarding (λ r. r.wg) regions [])

-- generateMetadataServerList
unfoldable pub generate_metadata_server_list : Bool → List Region → Result ServerList
unfolding some_servers
generate_metadata_server_list port_forwarding regions =
    some_servers (no_metadata_servers port_forwarding)
      (collect port_forwarding (λ r. r.meta) regions [])

-- The first loop of resolveRegionID, by id or name.
unfoldable pub find_by_name : Bool → Text → List Region → Option Text
find_by_name port_forwarding needle [] = none
find_by_name port_forwarding needle (r ∷ regions) =
    let rest = find_by_name port_forwarding needle regions in
    if is_skipped port_forwarding r
    then rest
    else if text_eq (to_lower r.id) needle
    then some r.id
    else if text_eq (to_lower r.name) needle
    then some r.id
    else rest

pub has_common_name : Text → List Server → Bool
has_common_name needle [] = false
has_common_name needle (s ∷ servers) =
    text_eq (to_lower s.cn) needle || has_common_name needle servers

-- The second loop, by the common name of a server.
unfoldable pub find_by_server : Bool → Text → List Region → Option Text
unfolding has_common_name
find_by_server port_forwarding needle [] = none
find_by_server port_forwarding needle (r ∷ regions) =
    let rest = find_by_server port_forwarding needle regions in
    if is_skipped port_forwarding r
    then rest
    else if has_common_name needle (r.meta ++ r.wg)
    then some r.id
    else rest

first_found : Text → Option Text → Option Text → Result Text
first_found input (some id) second = ok id
first_found input none (some id) = ok id
first_found input none none = failed (unknown_region input)

-- resolveRegionID
unfoldable pub resolve_region_id : Bool → Text → List Region → Result Text
unfolding first_found
resolve_region_id port_forwarding input regions =
    let needle = to_lower (trim_space input) in
    if is_empty (trim_space input)
    then failed region_empty
    else first_found input (find_by_name port_forwarding needle regions)
        (find_by_server port_forwarding needle regions)

-- What NewPIAClient sets of PIAClient, besides its arguments.
pub record PiaClient : Type 0 where
  pub region : Text
  pub wireguard_servers : ServerList
  pub metadata_servers : ServerList
  pub raw_server_list : List Region

abbrev and_then {ℓ κ} : {A : Type ℓ} {B : Type κ} → Result A → (A → Result B) → Result B
and_then (ok a) next = next a
and_then (failed e) next = failed e

-- NewPIAClient, once the list is there.
unfoldable pub new_pia_client : Bool → Text → List Region → Result PiaClient
new_pia_client port_forwarding region regions =
    and_then (resolve_region_id port_forwarding region regions) λ id.
      and_then (generate_metadata_server_list port_forwarding regions) λ meta.
        and_then (generate_wireguard_server_list port_forwarding regions) λ wg. ok record {
          region = id;
          wireguard_servers = wg;
          metadata_servers = meta;
          raw_server_list = regions;
        }

-- `servers[0]`; `none` is the panic of an index out of range.
abbrev pub first_server : List Server → Option Server
first_server [] = none
first_server (s ∷ servers) = some s

-- getWireguardServerForRegion and getMetadataServerForRegion
unfoldable pub get_wireguard_server_for_region : PiaClient → Option Server
get_wireguard_server_for_region p = first_server (servers_of p.region p.wireguard_servers)

unfoldable pub get_metadata_server_for_region : PiaClient → Option Server
get_metadata_server_for_region p = first_server (servers_of p.region p.metadata_servers)

-- GetAvailableRegions
unfoldable pub get_available_regions : PiaClient → List RegionInfo
get_available_regions p = map info p.raw_server_list
  where
    info : Region → RegionInfo
    info r = record {
      id = r.id;
      name = r.name;
      country = r.country;
      auto_region = r.auto_region;
      port_forward = r.port_forward;
    }
