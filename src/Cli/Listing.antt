-- ===== src/Cli/Listing.antt =====
-- `regions` (main.go, runRegions). The server list is given by its download; writing to stdout is
-- outside the model.
pub mod Rows
use mathlib.Core.List.{Memᴰ}
use pia_wg_config_generator.Base.{
  Bool, true, false, not, ◌&&◌, ◌||◌, List, [], ◌∷◌, ◌++◌, ◌≡◌, refl, ◌⊎◌, ◌↔◌, inl, inr,
  if◌then◌else◌, Bool-cases,
}
use pia_wg_config_generator.Base.Text.{Text, to_lower, trim_space}
use pia_wg_config_generator.Api.{Answer, ok, failed}
use pia_wg_config_generator.Regions.{
  Region, RegionInfo, PiaClient, ClientError, new_pia_client, get_available_regions,
  resolve_region_id, generate_metadata_server_list, generate_wireguard_server_list,
}
use pia_wg_config_generator.Regions.Resolve.{IsOffered, resolve_region_id-IsOffered}
use pia_wg_config_generator.Cli.{
  Credentials, CliError, CliResult, done, refused, resolve_credentials, default_region, RegionRow,
  region_rows, region_line,
}

pub record RegionsFlags : Type 0 where
  pub credentials : Credentials
  pub pf_only : Bool
  pub json : Bool

-- What is printed: rows as JSON, or lines.
pub data Listing : Type 0 where
  json_rows : List RegionRow → Listing
  lines : Text → Listing
  no_listing : CliError → Listing
  no_list : Text → Listing
  no_client : ClientError → Listing

-- The lines of the rows.
unfoldable pub region_lines : List RegionRow → Text
region_lines [] = []
region_lines (row ∷ rows) = region_line row ++ region_lines rows

shown : Bool → List RegionRow → Listing
shown json rows = if json then json_rows rows else lines (region_lines rows)

listed_by : RegionsFlags → pia_wg_config_generator.Regions.Result PiaClient → Listing
unfolding shown
listed_by flags (pia_wg_config_generator.Regions.failed e) = no_client e
listed_by flags (pia_wg_config_generator.Regions.ok p) =
    shown flags.json (region_rows flags.pf_only (get_available_regions p))

listed : RegionsFlags → Answer (List Region) → Listing
unfolding listed_by
listed flags (failed e) = no_list e
listed flags (ok regions) = listed_by flags (new_pia_client flags.pf_only default_region regions)

with_account : RegionsFlags → Answer (List Region) → CliResult (Text × Text) → Listing
unfolding listed
with_account flags list (refused e) = no_listing e
with_account flags list (done account) = listed flags list

-- runRegions
unfoldable pub run_regions : RegionsFlags → Answer (List Region) → Listing
unfolding with_account
run_regions flags list = with_account flags list (resolve_credentials flags.credentials)

abbrev pub row_of : Region → RegionRow
row_of r = record { id = r.id; name = r.name; port_forwarding = r.port_forward }

-- The row of a region that supports port forwarding, if that is asked for.
abbrev pub IsRowOf : Bool → List Region → RegionRow → Type 0
IsRowOf pf_only regions row =
    (r : Region) × Memᴰ r regions × ((pf_only ≡ false) ⊎ (r.port_forward ≡ true)) × (row ≡ row_of r)

-- A listing of the rows of the regions, and of no others.
abbrev pub Lists : RegionsFlags → List Region → List RegionRow → Type 0
Lists flags regions rows = (row : RegionRow) → Memᴰ row rows ↔ IsRowOf flags.pf_only regions row

-- What a listing prints.
abbrev pub printed : RegionsFlags → List RegionRow → Listing
printed flags rows = if flags.json then json_rows rows else lines (region_lines rows)
