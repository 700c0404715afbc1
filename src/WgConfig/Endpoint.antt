-- ===== src/WgConfig/Endpoint.antt =====
-- ParseEndpointFromConfig of pia/health.go.
pub mod Scan
use mathlib.Core.Option
use pia_wg_config_generator.Base.{Option, none, some, List, [], ◌∷◌, if◌then◌else◌}
use pia_wg_config_generator.Base.Text.{
  Text, codes, trim_space, to_lower, has_prefix, split_byte, after_byte,
}

-- The value of a line that is an endpoint line.
unfoldable pub endpoint_value : Text → Option Text
endpoint_value line =
    let trimmed = trim_space line in
    if has_prefix (to_lower trimmed) (codes "endpoint")
    then Option.map trim_space (after_byte b'=' trimmed)
    else none

first_value : Option Text → Text → Text
first_value none rest = rest
first_value (some v) rest = v

unfoldable pub scan_lines : List Text → Text
unfolding first_value
scan_lines [] = []
scan_lines (line ∷ lines) = first_value (endpoint_value line) (scan_lines lines)

-- The endpoint in the text of a config, empty if there is none.
unfoldable pub parse_endpoint : Text → Text
unfolding scan_lines
parse_endpoint config = scan_lines (split_byte b'\n' config)

-- ParseEndpointFromConfig of what is read of the file; `none` is an error.
unfoldable pub parse_endpoint_from_config : Option Text → Option Text
parse_endpoint_from_config = Option.map parse_endpoint
