-- ===== src/SerialVolume/Etcd/EnvVars.antt =====
-- middleware/serialvolume/etcd/etcd_envvars.go: the names of the provider's environment variables.
use gocsi.Base.{Text, text}

abbrev pub domain : Text
domain = text "X_CSI_SERIAL_VOL_ACCESS_ETCD_DOMAIN"

abbrev pub endpoints : Text
endpoints = text "X_CSI_SERIAL_VOL_ACCESS_ETCD_ENDPOINTS"

abbrev pub ttl : Text
ttl = text "X_CSI_SERIAL_VOL_ACCESS_ETCD_TTL"

abbrev pub auto_sync_interval : Text
auto_sync_interval = text "X_CSI_SERIAL_VOL_ACCESS_ETCD_AUTO_SYNC_INTERVAL"

abbrev pub dial_timeout : Text
dial_timeout = text "X_CSI_SERIAL_VOL_ACCESS_ETCD_DIAL_TIMEOUT"

abbrev pub dial_keep_alive_time : Text
dial_keep_alive_time = text "X_CSI_SERIAL_VOL_ACCESS_ETCD_DIAL_KEEP_ALIVE_TIME"

abbrev pub dial_keep_alive_timeout : Text
dial_keep_alive_timeout = text "X_CSI_SERIAL_VOL_ACCESS_ETCD_DIAL_KEEP_ALIVE_TIMEOUT"

abbrev pub max_call_send_msg_sz : Text
max_call_send_msg_sz = text "X_CSI_SERIAL_VOL_ACCESS_ETCD_MAX_CALL_SEND_MSG_SZ"

abbrev pub max_call_recv_msg_sz : Text
max_call_recv_msg_sz = text "X_CSI_SERIAL_VOL_ACCESS_ETCD_MAX_CALL_RECV_MSG_SZ"

abbrev pub username : Text
username = text "X_CSI_SERIAL_VOL_ACCESS_ETCD_USERNAME"

abbrev pub password : Text
password = text "X_CSI_SERIAL_VOL_ACCESS_ETCD_PASSWORD"

abbrev pub reject_old_cluster : Text
reject_old_cluster = text "X_CSI_SERIAL_VOL_ACCESS_ETCD_REJECT_OLD_CLUSTER"

abbrev pub tls : Text
tls = text "X_CSI_SERIAL_VOL_ACCESS_ETCD_TLS"

abbrev pub tls_insecure : Text
tls_insecure = text "X_CSI_SERIAL_VOL_ACCESS_ETCD_TLS_INSECURE"
