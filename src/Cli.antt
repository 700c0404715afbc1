-- ===== src/Cli.antt =====
-- What the commands of main.go do with their flags: the credentials, the IPv6 mode, `generate`,
-- `regions` and the commands of the hooks. The flags are given by their values.
pub mod Flags
pub mod Start
pub mod Listing
use pia_wg_config_generator.Base.{
  Bool, true, false, not, ◌&&◌, ◌||◌, Option, none, some, List, [], ◌∷◌, ◌++◌, ◌≡◌, ◌⊎◌, inl, inr,
  refl, if◌then◌else◌,
}
use pia_wg_config_generator.Base.Text.{Text, codes, text_eq, is_empty, trim_space, to_lower}
use pia_wg_config_generator.Base.Text.Replace.{replace_all}
use pia_wg_config_generator.Api.{Answer, ok, failed}
use pia_wg_config_generator.Regions.{RegionInfo}
use pia_wg_config_generator.WgConfig.Generate.{
  Ipv6Mode, ipv6_mode_on, ipv6_mode_off, ipv6_mode_kill, PiaWgClient, GenerateError, Generation,
  generated, not_generated, generate_with_metadata,
}

pub data CliError : Type 0 where
  unknown_ipv6_mode : Text → CliError
  missing_credentials : CliError
  client_error output_error : Text → CliError
  generation_error : GenerateError → CliError

pub data CliResult {ℓ} (A : Type ℓ) : Type ℓ where
  done : A → CliResult A
  refused : CliError → CliResult A

pub CliResult-cases :
    {A : Type 0} (r : CliResult A) → ((a : A) × (r ≡ done a)) ⊎ ((e : CliError) × (r ≡ refused e))
CliResult-cases (done a) = inl (a, refl)
CliResult-cases (refused e) = inr (e, refl)

-- parseIPv6Mode
unfoldable pub parse_ipv6_mode : Text → CliResult Ipv6Mode
parse_ipv6_mode s =
    let mode = to_lower (trim_space s) in
    if text_eq mode (codes "on") || is_empty mode
    then done ipv6_mode_on
    else if text_eq mode (codes "off")
    then done ipv6_mode_off
    else if text_eq mode (codes "kill")
    then done ipv6_mode_kill
    else refused (unknown_ipv6_mode s)

-- The arguments and flags of the credentials.
pub record Credentials : Type 0 where
  pub first_arg : Text
  pub second_arg : Text
  pub username : Text
  pub password : Text

abbrev or_flag : Text → Text → Text
or_flag arg flag = if is_empty (trim_space arg) then trim_space flag else trim_space arg

-- resolveCredentials
unfoldable pub resolve_credentials : Credentials → CliResult (Text × Text)
resolve_credentials c =
    let username = or_flag c.first_arg c.username in
    let password = or_flag c.second_arg c.password in
    if is_empty username || is_empty password
    then refused missing_credentials
    else done (username, password)

-- defaultRegion
abbrev pub default_region : Text
default_region = codes "amsterdam404"

abbrev pub region_or_default : Text → Text
region_or_default region =
    if is_empty (trim_space region) then default_region else trim_space region

pub record GenerateFlags : Type 0 where
  pub credentials : Credentials
  pub server : Bool
  pub port_forwarding : Bool
  pub region : Text
  pub ipv6_mode : Text
  pub outfile : Text

-- The world of `generate`: NewPIAClient by its arguments, the key pair that wgtypes would make, and
-- the errors of the file and of stdout.
pub record GenerateWorld : Type 0 where
  pub new_pia_client : Text → Text → Text → Bool → Answer PiaWgClient
  pub made : Answer (Text × Text)
  pub file_written : Text → Option Text
  pub printed : Option Text

-- Where the config went.
pub data Output : Type 0 where
  wrote_file printed_config : Text → Output

abbrev and_then {ℓ κ} : {A : Type ℓ} {B : Type κ} → CliResult A → (A → CliResult B) → CliResult B
and_then (done a) next = next a
and_then (refused e) next = refused e

opened : Answer PiaWgClient → CliResult PiaWgClient
opened (ok pia) = done pia
opened (failed e) = refused (client_error e)

config_of : Generation → CliResult Text
config_of (generated r) = done r.config
config_of (not_generated e) = refused (generation_error e)

put_out : Output → Option Text → CliResult Output
put_out o none = done o
put_out o (some e) = refused (output_error e)

-- The output of runGenerate: to the file, if one is given, or to stdout.
output : GenerateFlags → GenerateWorld → Text → CliResult Output
unfolding put_out
output flags w config =
    let outfile = trim_space flags.outfile in
    if is_empty outfile
    then put_out (printed_config config) w.printed
    else put_out (wrote_file config) (w.file_written outfile)

-- runGenerate
unfoldable pub run_generate : GenerateFlags → GenerateWorld → CliResult Output
unfolding opened config_of output
run_generate flags w = and_then (resolve_credentials flags.credentials) λ (username, password).
    and_then (parse_ipv6_mode flags.ipv6_mode) λ mode.
      and_then
        (opened (
          w.new_pia_client username password (region_or_default flags.region)
            flags.port_forwarding))
        λ pia.
          and_then
            (config_of (
              generate_with_metadata pia
                (record {
                  server_name = flags.server;
                  privatekey = [];
                  publickey = [];
                  ipv6_mode = mode;
                })
                w.made))
            λ config. output flags w config

-- A row of `regions`.
pub record RegionRow : Type 0 where
  pub id : Text
  pub name : Text
  pub port_forwarding : Bool

-- The loop of runRegions.
unfoldable pub region_rows : Bool → List RegionInfo → List RegionRow
region_rows pf_only [] = []
region_rows pf_only (r ∷ regions) =
    let rest = region_rows pf_only regions in
    if pf_only && not r.port_forward
    then rest
    else record { id = r.id; name = r.name; port_forwarding = r.port_forward } ∷ rest

-- The line of a row, as it is printed without --json.
unfoldable pub region_line : RegionRow → Text
region_line row =
    row.id
    ++ (b'\t' ∷ row.name
        ++ (codes "\tpf:"
            ++ ((if row.port_forwarding then codes "yes" else codes "no") ++ codes "\n")))

-- runHook: what it runs with a port, if the command is not blank.
unfoldable pub hook_command : Text → Text → Option Text
hook_command command port =
    if is_empty (trim_space command) then none else some (replace_all command (codes "{port}") port)

-- The replacements of expandConfigHookCommand.
abbrev pub replacements : Text → Text → Text → Text → List (Text × Text)
replacements state_dir config_path forwarded_port_path port =
    (codes "{state_dir}", state_dir)
    ∷ (codes "{config}", config_path)
    ∷ (codes "{forwarded_port}", forwarded_port_path)
    ∷ (codes "{port}", port)
    ∷ []

-- Its loop. They are a Go map, so they may come in any order.
unfoldable pub expand_config_hook_command : List (Text × Text) → Text → Text
expand_config_hook_command [] command = command
expand_config_hook_command ((old, new) ∷ rest) command =
    expand_config_hook_command rest (replace_all command old new)

resolved_version : Bool → Text → Option Text → Text
resolved_version true version (some v) =
    if is_empty v || text_eq v (codes "(devel)") then version else v
resolved_version true version none = version
resolved_version false version build_info = version

-- buildVersionString, of the three variables that the linker sets and the module version of the build
-- info, if there is one.
unfoldable pub build_version_string : Text → Text → Text → Option Text → Text
unfolding resolved_version
build_version_string version commit date build_info =
    resolved_version (text_eq version (codes "dev")) version build_info
    ++ (codes " (commit " ++ (commit ++ (codes ", built " ++ (date ++ codes ")"))))
