-- ===== src/Tests/Etcd.antt =====
-- The etcd provider on a concrete environment, where no duration is set.
use gocsi.Base.{
  ◌≡◌, ◌↔◌, refl, pos, if◌then◌else◌, ◌==◌, false, Option, split, atoi, none, some, [], ◌∷◌, Text,
  text,
}
use gocsi.Context.{parse_bool}
use gocsi.Status.{plain, got}
use gocsi.SerialVolume.{id, named}
use gocsi.SerialVolume.Etcd.EnvVars
use gocsi.SerialVolume.Etcd.{Config, init_config}
use gocsi.SerialVolume.Etcd.Settings.{IsConfig, init_config-got_iff}
use gocsi.SerialVolume.Etcd.Client.{domain_of, lock_path}
use gocsi.SerialVolume.Etcd.Paths.{IsPlain, lock_path-eq_iff}

abbrev env : Text → Option Text
env k =
    if k == EnvVars.endpoints
    then some (text "a:1,b:2")
    else if k == EnvVars.tls
    then some (text "true")
    else if k == EnvVars.max_call_send_msg_sz
    then some (text "12")
    else none

abbrev config : Config
config = record {
  endpoints = text "a:1" ∷ text "b:2" ∷ [];
  auto_sync_interval = pos 0;
  dial_keep_alive_time = pos 0;
  dial_keep_alive_timeout = pos 0;
  dial_timeout = pos 0;
  max_call_recv_msg_size = pos 0;
  max_call_send_msg_size = pos 12;
  username = [];
  password = [];
  reject_old_cluster = false;
  tls = some false;
}

config_holds : IsConfig (λ v. none) env config
unfolding text ◌==◌ split atoi parse_bool
config_holds = record {
  endpoints = refl;
  auto_sync_interval = refl;
  dial_keep_alive_time = refl;
  dial_keep_alive_timeout = refl;
  dial_timeout = refl;
  max_call_recv_msg_size = refl;
  max_call_send_msg_size = refl;
  username = refl;
  password = refl;
  reject_old_cluster = refl;
  tls = (refl, refl);
}

init_config-got_iff_example :
    (init_config (λ v. none) plain env ≡ got config) ↔ IsConfig (λ v. none) env config
init_config-got_iff_example = init_config-got_iff (λ v. none) plain env config

IsPlain-v1 : IsPlain (id (text "v1"))
unfolding text ◌==◌
IsPlain-v1 = ((refl, (refl, tt)), refl, refl, refl)

IsPlain-named_v1 : IsPlain (named (text "v1"))
unfolding text ◌==◌
IsPlain-named_v1 = ((refl, (refl, tt)), refl, refl, refl)

lock_path-eq_iff_example :
    (lock_path (domain_of (text "a//b/")) (id (text "v1"))
      ≡ lock_path (domain_of (text "a//b/")) (named (text "v1")))
    ↔ (id (text "v1") ≡ named (text "v1"))
lock_path-eq_iff_example =
    lock_path-eq_iff (text "a//b/") (id (text "v1")) (named (text "v1")) IsPlain-v1 IsPlain-named_v1
