-- ===== src/Tests/Client.antt =====
-- The command line client at concrete inputs.
use gocsi.Base.{
  ℕ, ◌+◌, ◌≡◌, refl, true, false, none, some, List, [], ◌∷◌, ◌++◌, Text, text, IsFree, lookup,
  ascii_fold, ◌==◌,
}
use gocsi.Csi.{Request, Response}
use gocsi.Context.{Context}
use gocsi.Status.{pass}
use gocsi.Utils.Chain.{Invoker}
use gocsi.Utils.Parsing.{new_mount_capability}
use gocsi.Csc.VarTypes.{mode_values, set_capability}
use gocsi.Csc.VarTypes.RoundTrip.{mount_value, set_capability-mount_value}
use gocsi.Csc.Interceptors.{Flags, logging_interceptors, client_interceptors}
use gocsi.Csc.Interceptors.Client.{Call, Run, Runtime, call_with}
use gocsi.Csc.Interceptors.Laws.{client_interceptors-logging_interceptors}

writer : lookup (text "SINGLE_NODE_WRITER") mode_values ≡ some 1
unfolding lookup ◌==◌ text
writer = refl

writer_IsFree : IsFree b',' (text "SINGLE_NODE_WRITER")
unfolding text
writer_IsFree = (
  refl,
  (
    refl,
    (
      refl,
      (
        refl,
        (
          refl,
          (
            refl,
            (
              refl,
              (
                refl,
                (refl, (refl, (refl, (refl, (refl, (refl, (refl, (refl, (refl, (refl, tt)))))))))),
              ),
            ),
          ),
        ),
      ),
    ),
  ),
)

xfs_IsFree : IsFree b',' (text "xfs")
unfolding text
xfs_IsFree = (refl, (refl, (refl, tt)))

ro_IsFree : IsFree b',' (text "ro")
unfolding text
ro_IsFree = (refl, (refl, tt))

mount_not_block : ascii_fold.equal_fold (text "mount") (text "block") ≡ false
unfolding text ascii_fold ◌==◌
mount_not_block = refl

abbrev no_text : Text → Text
no_text t = []

set_capability-mount_value_example :
    set_capability ascii_fold no_text
      (mount_value (text "SINGLE_NODE_WRITER") (text "xfs") (text "ro" ∷ text "ro" ∷ []))
      []
    ≡ (none, new_mount_capability 1 (text "xfs") (text "ro" ∷ text "ro" ∷ []) ∷ [])
set_capability-mount_value_example =
    set_capability-mount_value ascii_fold no_text (text "SINGLE_NODE_WRITER") 1 (text "xfs")
      (text "ro") (text "ro" ∷ []) [] mount_not_block writer writer_IsFree xfs_IsFree ro_IsFree
      (ro_IsFree, tt)

-- The state of a client: the counter of the IDs, the lines of the log, the reply and the calls.
pub record State : Type 0 where
  pub ids : ℕ
  pub log : List Text
  pub rep : Response
  pub calls : ℕ

abbrev runtime : Runtime State
runtime = record {
  with_details = λ st r. some st;
  sprint = λ f. [];
  error_text = λ e. [];
  id = record { load = λ s. s.ids; store = λ n s. record s { ids = n }; load-store = λ n s. refl };
  rep = record { load = λ s. s.rep; store = λ r s. record s { rep = r }; load-store = λ r s. refl };
  writer = λ line s. record s { log = s.log ++ line ∷ [] };
}

-- Every flag is set.
abbrev flags : Flags
flags = record {
  with_req_logging = true;
  with_rep_logging = true;
  with_spec_validator = true;
  with_requires_creds = true;
  with_requires_node_id = true;
  with_requires_pub_vol_info = true;
  with_requires_volume_attributes = true;
}

abbrev ctx : Context (Unit {0})
ctx = record { environ = none; lookup_env = none; setenv = none; incoming = none; outgoing = none }

-- The method and the request of a call.
abbrev call : Call
call = ([], Request.get_plugin_info none)

abbrev connection : Invoker (Context (Unit {0})) Call (Run State)
connection c l s = (pass, record s { calls = s.calls + 1 })

client_interceptors-logging_interceptors_example :
    call_with runtime (client_interceptors flags) ctx call connection
    ≡ call_with runtime (logging_interceptors flags) ctx call connection
client_interceptors-logging_interceptors_example =
    client_interceptors-logging_interceptors runtime flags ctx call connection
