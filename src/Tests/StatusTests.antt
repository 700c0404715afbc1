-- ===== src/Tests/StatusTests.antt =====
-- status.json of a tunnel that is down, written and read.
use pia_wg_config_generator.Base.{◌≡◌}
use pia_wg_config_generator.Status.Json.{marshal_json, unmarshal_json}
use pia_wg_config_generator.Status.Json.Reading.{unmarshal_json-marshal_json}
use pia_wg_config_generator.Tests.HealthcheckTests.{down}

unmarshal_json-marshal_json_example : unmarshal_json (marshal_json down) ≡ down
unmarshal_json-marshal_json_example = unmarshal_json-marshal_json down
