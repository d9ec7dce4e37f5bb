-- ===== src/Tests/Commands.antt =====
-- The commands of the client on the mock service, at concrete inputs.
use gocsi.Base.{
  ◌≡◌, refl, ◌==◌, true, false, none, some, List, [], ◌∷◌, Text, text, ascii_fold, itoa,
}
use gocsi.Status.{plain, Error, got, status_error, not_found}
use gocsi.Utils.Endpoint.{Files}
use gocsi.Utils.Parsing.{Tools, end_of_file, parse_map}
use gocsi.Mock.Service.{new}
use gocsi.Mock.View.{at}
use gocsi.Csc.Commands.{Printer, Root, CreateFlags, wrote, line}
use gocsi.Csc.Commands.Volumes.{create_volumes, delete_volumes}
use gocsi.Csc.Commands.Mock.{mock_rpcs}
use gocsi.Csc.Commands.Mock.Repeat.{create_volumes_twice}
use gocsi.Csc.Commands.Mock.Delete.{id_lines, without, delete_volumes-without}
use gocsi.Csc.Root.{Host, Setup, Prepared, started, default_format, pre_run, exit_of}
use gocsi.Csc.Root.Template.{executes_template, pre_run-tpl}
use gocsi.Tests.Volumes.{new-WellFormed}

abbrev printer : Printer
printer = record {
  quote = λ t. t;
  entries_of = λ m. [];
  capability_text = itoa;
  volume = λ v. wrote (line (text "volume"));
  volumes = λ rep. wrote [];
  versions = λ vs. wrote [];
  plugin_info = λ rep. wrote [];
}

abbrev root : Root
root = record { version = record { major = 0; minor = 1; patch = 0 }; user_creds = none }

abbrev create_flags : CreateFlags
create_flags = record { req_bytes = 5; lim_bytes = 0; caps = []; params = none }

abbrev broken : Error
broken = plain (text "transport is closing")

abbrev names : List Text
names = text "data" ∷ text "log" ∷ text "Data" ∷ []

create_volumes_twice_example :
    create_volumes
      (mock_rpcs broken ascii_fold)
      printer
      root
      create_flags
      names
      (create_volumes (mock_rpcs broken ascii_fold) printer root create_flags names new).1
    ≡ create_volumes (mock_rpcs broken ascii_fold) printer root create_flags names new
create_volumes_twice_example =
    create_volumes_twice ascii_fold broken printer root create_flags names new

abbrev ids : List Text
ids = text "2" ∷ text "9" ∷ []

delete_volumes-without_example :
    ((delete_volumes (mock_rpcs broken ascii_fold) printer root ids new).0 ≡ (id_lines ids, none))
    × ((w : Text)
        → at (delete_volumes (mock_rpcs broken ascii_fold) printer root ids new).1.vols w
          ≡ without ids (at new.vols) w)
delete_volumes-without_example =
    delete_volumes-without ascii_fold broken printer root ids new new-WellFormed

not_found_exit : (exit_of (some (status_error not_found (text "2")))).0 ≡ 5
unfolding exit_of
not_found_exit = refl

abbrev no_files : Files (Unit {0})
no_files = record {
  stat = λ t s. (false, s);
  create = λ t s. (none, s);
  close = λ t s. (none, s);
  remove_all = λ t s. (none, s);
  error_text = λ e. [];
}

abbrev no_tools : Tools
no_tools = record { trim_space = λ t. t; read_csv = λ t. end_of_file }

-- The template is its format.
abbrev host : Host Text (Unit {0}) (Unit {0}) (Unit {0})
host = record {
  parse_template = got;
  net_dial = λ proto addr timeout s. (got tt, s);
  dial = λ endpoint insecure dialer installed s. (got tt, s);
}

abbrev listing : Setup
listing = record {
  debug = false;
  name = text "list-volumes";
  paging = true;
  format = [];
  endpoint = text "csi.sock";
  insecure = true;
  flags = record {
    with_req_logging = false;
    with_rep_logging = false;
    with_spec_validator = false;
    with_requires_creds = false;
    with_requires_node_id = false;
    with_requires_pub_vol_info = false;
    with_requires_volume_attributes = false;
  };
}

abbrev prepared : Prepared Text (Unit {0})
prepared = record {
  tpl = some (default_format (text "list-volumes") true);
  user_creds = none;
  client = tt;
}

listing_executes : executes_template (text "list-volumes") ≡ true
unfolding text ◌==◌
listing_executes = refl

listing_starts : pre_run host no_tools no_files listing [] tt ≡ (started prepared, tt)
unfolding pre_run parse_map default_format text ◌==◌
listing_starts = refl

pre_run-tpl_example : (t : Text) × (prepared.tpl ≡ some t)
pre_run-tpl_example =
    pre_run-tpl host no_tools no_files listing [] tt prepared tt listing_executes listing_starts
