-- ===== src/Plugin/EnvVars.antt =====
-- envvars.go: the names of the environment variables that the plug-in reads.
use gocsi.Base.{Text, text}

abbrev pub endpoint : Text
endpoint = text "CSI_ENDPOINT"

abbrev pub endpoint_perms : Text
endpoint_perms = text "X_CSI_ENDPOINT_PERMS"

abbrev pub endpoint_user : Text
endpoint_user = text "X_CSI_ENDPOINT_USER"

abbrev pub endpoint_group : Text
endpoint_group = text "X_CSI_ENDPOINT_GROUP"

abbrev pub debug : Text
debug = text "X_CSI_DEBUG"

abbrev pub log_level : Text
log_level = text "X_CSI_LOG_LEVEL"

abbrev pub supported_versions : Text
supported_versions = text "X_CSI_SUPPORTED_VERSIONS"

abbrev pub plugin_info : Text
plugin_info = text "X_CSI_PLUGIN_INFO"

abbrev pub node_svc_only : Text
node_svc_only = text "X_CSI_NODESVC_ONLY"

abbrev pub ctrl_svc_only : Text
ctrl_svc_only = text "X_CSI_CTRLSVC_ONLY"

abbrev pub req_logging : Text
req_logging = text "X_CSI_REQ_LOGGING"

abbrev pub rep_logging : Text
rep_logging = text "X_CSI_REP_LOGGING"

abbrev pub spec_validation : Text
spec_validation = text "X_CSI_SPEC_VALIDATION"

abbrev pub spec_req_validation : Text
spec_req_validation = text "X_CSI_SPEC_REQ_VALIDATION"

abbrev pub spec_rep_validation : Text
spec_rep_validation = text "X_CSI_SPEC_REP_VALIDATION"

abbrev pub require_node_id : Text
require_node_id = text "X_CSI_REQUIRE_NODE_ID"

abbrev pub require_pub_vol_info : Text
require_pub_vol_info = text "X_CSI_REQUIRE_PUB_VOL_INFO"

abbrev pub require_vol_attribs : Text
require_vol_attribs = text "X_CSI_REQUIRE_VOL_ATTRIBS"

abbrev pub creds : Text
creds = text "X_CSI_REQUIRE_CREDS"

abbrev pub creds_create_vol : Text
creds_create_vol = text "X_CSI_REQUIRE_CREDS_CREATE_VOL"

abbrev pub creds_delete_vol : Text
creds_delete_vol = text "X_CSI_REQUIRE_CREDS_DELETE_VOL"

abbrev pub creds_ctrlr_pub_vol : Text
creds_ctrlr_pub_vol = text "X_CSI_REQUIRE_CREDS_CTRLR_PUB_VOL"

abbrev pub creds_ctrlr_unpub_vol : Text
creds_ctrlr_unpub_vol = text "X_CSI_REQUIRE_CREDS_CTRLR_UNPUB_VOL"

abbrev pub creds_node_pub_vol : Text
creds_node_pub_vol = text "X_CSI_REQUIRE_CREDS_NODE_PUB_VOL"

abbrev pub creds_node_unpub_vol : Text
creds_node_unpub_vol = text "X_CSI_REQUIRE_CREDS_NODE_UNPUB_VOL"

abbrev pub serial_vol_access : Text
serial_vol_access = text "X_CSI_SERIAL_VOL_ACCESS"

abbrev pub serial_vol_access_timeout : Text
serial_vol_access_timeout = text "X_CSI_SERIAL_VOL_ACCESS_TIMEOUT"

abbrev pub serial_vol_access_etcd_endpoints : Text
serial_vol_access_etcd_endpoints = text "X_CSI_SERIAL_VOL_ACCESS_ETCD_ENDPOINTS"
