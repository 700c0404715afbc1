-- ===== src/Tests/RegionsTests.antt =====
-- A server list with two regions.
use pia_wg_config_generator.Base.{true, false, some, List, [], ◌∷◌, ◌≡◌, refl}
use pia_wg_config_generator.Base.Text.{codes, to_lower, trim_space, text_eq, is_space}
use pia_wg_config_generator.Regions.{
  Server, Region, PiaClient, ok, collect, resolve_region_id, find_by_name, find_by_server,
  generate_metadata_server_list, generate_wireguard_server_list, append_servers, append_server,
  new_pia_client, get_wireguard_server_for_region, get_metadata_server_for_region,
}
use pia_wg_config_generator.Regions.Resolve.{
  IsOffered, resolve_region_id-IsOffered, new_pia_client_servers,
}

abbrev amsterdam : Server
amsterdam = record { cn = codes "amsterdam401"; ip = codes "1.2.3.4" }

abbrev pub netherlands : Region
netherlands = record {
  id = codes "nl_amsterdam";
  name = codes "Netherlands";
  country = codes "NL";
  auto_region = true;
  dns = [];
  port_forward = true;
  geo = false;
  meta = amsterdam ∷ [];
  wg = amsterdam ∷ [];
}

abbrev us : Region
us = record {
  id = codes "us_east";
  name = codes "US East";
  country = codes "US";
  auto_region = true;
  dns = [];
  port_forward = false;
  geo = false;
  meta = [];
  wg = record { cn = codes "newjersey"; ip = codes "5.6.7.8" } ∷ [];
}

abbrev pub regions : List Region
regions = us ∷ netherlands ∷ []

abbrev client : PiaClient
client = record {
  region = codes "nl_amsterdam";
  wireguard_servers = (codes "nl_amsterdam", amsterdam ∷ []) ∷ [];
  metadata_servers = (codes "nl_amsterdam", amsterdam ∷ []) ∷ [];
  raw_server_list = regions;
}

resolved : resolve_region_id true (codes " AMSTERDAM401") regions ≡ ok (codes "nl_amsterdam")
unfolding resolve_region_id trim_space is_space find_by_name text_eq to_lower find_by_server
resolved = refl

resolve_region_id-IsOffered_example :
    IsOffered true (to_lower (trim_space (codes " AMSTERDAM401"))) (codes "nl_amsterdam") regions
resolve_region_id-IsOffered_example =
    resolve_region_id-IsOffered true (codes " AMSTERDAM401") (codes "nl_amsterdam") regions resolved

made : new_pia_client true (codes "netherlands") regions ≡ ok client
unfolding new_pia_client resolve_region_id trim_space is_space find_by_name text_eq to_lower
    find_by_server generate_metadata_server_list generate_wireguard_server_list collect
    append_servers append_server
made = refl

new_pia_client_servers_example :
    (get_wireguard_server_for_region client ≡ some amsterdam)
    × (get_metadata_server_for_region client ≡ some amsterdam)
unfolding text_eq
new_pia_client_servers_example =
    new_pia_client_servers true (codes "netherlands") regions client made
