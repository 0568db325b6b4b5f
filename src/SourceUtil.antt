-- ===== src/SourceUtil.antt =====
-- internal/sourceutil/source.go: the canonical source types and what hangs on them.
pub mod Laws
use dmz_collector.Base.{String, Bool, true, false, List, [], ◌∷◌, Map, ◌==◌, member}
use dmz_collector.Text.{to_lower, trim_space, switch}

abbrev pub aliases : List (List String × String)
aliases =
    ("" ∷ "unknown" ∷ [], "unknown")
    ∷ ("opnsense" ∷ "firewall" ∷ [], "firewall")
    ∷ ("gds-agent" ∷ "gds_agent" ∷ [], "gds_agent")
    ∷ ("fuxa" ∷ "fuxa-ui" ∷ "scada" ∷ [], "scada")
    ∷ ("plc" ∷ [], "plc")
    ∷ ("opcua" ∷ [], "opcua")
    ∷ ("opcua_gateway" ∷ "opcua_dmz_gateway" ∷ "opcua-dmz-gateway" ∷ [], "opcua_dmz_gateway")
    ∷ ("ews" ∷ [], "ews")
    ∷ ("ids" ∷ [], "ids")
    ∷ ("influxdb" ∷ [], "influxdb")
    ∷ ("dmz_collector" ∷ "dmz-collector" ∷ [], "dmz_collector")
    ∷ ("vault_agent" ∷ "vault-agent" ∷ [], "vault_agent")
    ∷ ("gds" ∷ [], "gds")
    ∷ ("postgres_gds" ∷ "postgres-gds" ∷ [], "postgres_gds")
    ∷ ("jumphost" ∷ "jump_host" ∷ "jump-host" ∷ [], "jumphost")
    ∷ ("ot_collector" ∷ [], "collector")
    ∷ ("collector" ∷ [], "collector")
    ∷ ("vault" ∷ [], "vault")
    ∷ ("manual_test" ∷ [], "manual_test")
    ∷ []

unfoldable pub normalize_source_type : String → String
unfolding to_lower trim_space switch
normalize_source_type raw = switch (to_lower (trim_space raw)) aliases "unknown"

abbrev pub internal_types : List String
internal_types =
    "influxdb" ∷ "opcua_dmz_gateway" ∷ "collector" ∷ "vault" ∷ "dmz_collector" ∷ "vault_agent"
    ∷ "gds" ∷ "postgres_gds" ∷ "jumphost" ∷ []

abbrev pub groups : List (List String × String)
groups =
    ("firewall" ∷ [], "Firewall")
    ∷ ("plc" ∷ [], "PLCs")
    ∷ ("scada" ∷ [], "SCADA / FUXA")
    ∷ ("opcua" ∷ [], "OPC UA")
    ∷ ("gds_agent" ∷ [], "GDS / PKI")
    ∷ ("ews" ∷ [], "Engineering Workstation")
    ∷ ("ids" ∷ [], "IDS / Future Monitoring")
    ∷ (internal_types, "DMZ Services")
    ∷ []

unfoldable pub group_for_source_type : String → String
unfolding switch
group_for_source_type source_type =
    switch (normalize_source_type source_type) groups "Unknown / Other"

abbrev pub unknown_sourcetype : String
unknown_sourcetype = "labshock:ot:unknown"

abbrev pub sourcetypes : List (List String × String)
sourcetypes =
    ("firewall" ∷ [], "labshock:net:firewall")
    ∷ ("plc" ∷ [], "labshock:ot:plc")
    ∷ ("opcua" ∷ [], "labshock:ot:opcua")
    ∷ ("scada" ∷ [], "labshock:ot:scada")
    ∷ ("gds_agent" ∷ [], "labshock:ot:gds")
    ∷ ("ews" ∷ [], "labshock:ot:ews")
    ∷ ("ids" ∷ [], "labshock:ot:ids")
    ∷ ("dmz_collector" ∷ [], "labshock:dmz:dmz_collector")
    ∷ ("vault" ∷ [], "labshock:dmz:vault")
    ∷ ("vault_agent" ∷ [], "labshock:dmz:vault_agent")
    ∷ ("influxdb" ∷ [], "labshock:dmz:influxdb")
    ∷ ("opcua_dmz_gateway" ∷ [], "labshock:dmz:opcua_gateway")
    ∷ ("gds" ∷ [], "labshock:dmz:gds")
    ∷ ("postgres_gds" ∷ [], "labshock:dmz:postgres_gds")
    ∷ ("jumphost" ∷ [], "labshock:dmz:jumphost")
    ∷ []

unfoldable pub splunk_sourcetype_for : String → String
unfolding switch
splunk_sourcetype_for source_type =
    switch (normalize_source_type source_type) sourcetypes unknown_sourcetype

unfoldable pub is_internal_dmz_source_type : String → Bool
unfolding switch
is_internal_dmz_source_type source_type =
    switch (normalize_source_type source_type) ((internal_types, true) ∷ []) false

unfoldable pub is_direct_siem_source_type : String → Bool
is_direct_siem_source_type source_type = normalize_source_type source_type == "ids"

abbrev placeholder_names : List String
placeholder_names = "firewall future" ∷ "ids future" ∷ "future ids" ∷ []

unfoldable pub is_placeholder_source_name : String → Bool
unfolding member
is_placeholder_source_name name = member (to_lower (trim_space name)) placeholder_names

unfoldable pub is_support_only_source_name : String → Bool
unfolding switch
is_support_only_source_name name =
    switch (to_lower (trim_space name)) (("firewall future" ∷ "ids future" ∷ [], true) ∷ []) false
