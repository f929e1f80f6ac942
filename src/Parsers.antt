-- ===== src/Parsers.antt =====
-- internal/source: from the payloads of webhooks and scripts to events. encoding/json is a
-- parameter of each parser, from the body to the decoded payload, and so are the clock and
-- strings.ToLower.
pub mod Result
pub mod Sonarr
pub mod Radarr
pub mod Overseerr
pub mod Download
pub mod Requests
pub mod Switch
pub mod Arr
pub mod Downloads
pub mod Ids
