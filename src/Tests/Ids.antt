-- ===== src/Tests/Ids.antt =====
-- Request IDs and logging on concrete inputs.
use gocsi.Base.{
  ℕ, ◌+◌, ◌≡◌, refl, arith, true, none, some, [], ◌∷◌, ◌++◌, Text, text, ◌==◌, lookup, itoa,
}
use gocsi.Csi.{Request, Response}
use gocsi.Csi.Reflect.{Field, string_field, map_field, other_field, request_fields}
use gocsi.Context.{Context, request_id_key, get_request_id}
use gocsi.Status.{Error, Outcome, replies, delete_volume}
use gocsi.Utils.Methods.{method_name}
use gocsi.RequestId.{prepare_server, prepare_client}
use gocsi.RequestId.Laws.{values, seen, counter_after, prepare_server-seen, prepare_server_repeats}
use gocsi.Logging.{request_line, handle}
use gocsi.Logging.Laws.{
  Logged, log_opts, unlogged, outcome_if, lines_if, response_lines, request_line-forget_credentials,
  handle_logs,
}

abbrev ctx : Context ℕ
ctx = record { environ = none; lookup_env = none; setenv = none; incoming = none; outgoing = none }

-- A request that comes with the ID 7.
abbrev seventh : Context ℕ
seventh = record ctx { incoming = some ((request_id_key, itoa 7 ∷ []) ∷ []) }

prepare_server-seen_example :
    ((s : Text) × (values (prepare_server seventh 3).0.incoming ≡ some (s ∷ [])))
    × (get_request_id (prepare_server seventh 3).0 ≡ seen (values seventh.incoming) 3)
    × ((prepare_server seventh 3).1 ≡ counter_after (seen (values seventh.incoming) 3) 3)
prepare_server-seen_example = prepare_server-seen seventh 3 (omega arith)

seventh_value : values seventh.incoming ≡ some (itoa 7 ∷ [])
unfolding lookup ◌==◌ text
seventh_value = refl

no_value : values ctx.incoming ≡ none
unfolding lookup
no_value = refl

abbrev server : Context ℕ
server = record ctx { incoming = (prepare_client ctx 4).0.outgoing }

prepare_server_repeats_example :
    (get_request_id (prepare_server ctx 7).0 ≡ some 8)
    × (get_request_id (prepare_server ctx (prepare_server seventh (prepare_server ctx 7).1).1).0
        ≡ some 8)
prepare_server_repeats_example =
    prepare_server_repeats ctx seventh ctx 7 (omega arith) no_value seventh_value no_value

abbrev sprint : Field → Text
sprint (string_field name v) = v
sprint (map_field name v) = text "map"
sprint (other_field name v) = text "<nil>"

abbrev with_secret : Text → Request
with_secret t = Request.delete_volume (record {
  version = none;
  volume_id = text "1";
  user_credentials = some ((text "password", t) ∷ []);
})

request_line-forget_credentials_example :
    request_line sprint (method_name delete_volume) (some 5) (with_secret (text "a"))
    ≡ request_line sprint (method_name delete_volume) (some 5) (with_secret (text "b"))
request_line-forget_credentials_example =
    request_line-forget_credentials sprint (method_name delete_volume) (some 5)
      (with_secret (text "a")) (with_secret (text "b")) refl

delete_line :
    request_line sprint (text "m") (some 5) (with_secret (text "a"))
    ≡ text "m: REQ 0005: VolumeId=1"
unfolding request_line request_fields itoa text ◌==◌
delete_line = refl

abbrev no_text : Error → Text
no_text e = []

abbrev deleted : ℕ → Outcome × ℕ
deleted n = (replies Response.delete_volume, n + 1)

abbrev logged : Logged ℕ
logged = record { log = []; inner = 0 }

handle_logs_example :
    handle sprint no_text
      (log_opts true true)
      (text "m")
      (some 5)
      (some (with_secret []))
      (unlogged deleted)
      logged
    ≡ (
      outcome_if sprint no_text (text "m") (some 5) true (replies Response.delete_volume),
      record {
        log =
            []
            ++ (lines_if true (request_line sprint (text "m") (some 5) (with_secret []) ∷ [])
                ++ lines_if true (
                    response_lines sprint no_text
                      (text "m")
                      (some 5)
                      (replies Response.delete_volume)));
        inner = 1;
      },
    )
handle_logs_example =
    handle_logs sprint no_text (text "m") (some 5) true true (with_secret []) deleted logged
