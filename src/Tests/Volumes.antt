-- ===== src/Tests/Volumes.antt =====
-- mock/service on concrete requests, with the fold of the ASCII letters.
use gocsi.Base.{suc, ◌≡◌, refl, arith, none, some, List, [], ◌∷◌, text, length, map, ascii_fold}
use mathlib.Core.List.{flatten, Permᴰ}
use gocsi.Csi.{Request, CreateVolumeRequest, DeleteVolumeRequest, ListVolumesRequest}
use gocsi.Utils.Paging.{Entry, Paging, page_volumes, Sent}
use gocsi.Mock.Identity.{WellFormed}
use gocsi.Mock.Service.{Service, new, new_volume}
use gocsi.Mock.Listing.Pages.{mock_client, entry, page_volumes-mock}
use gocsi.Mock.Server.{serve_all}
use gocsi.Mock.Server.Invariant.{serve_all-WellFormed}

abbrev create_data : CreateVolumeRequest
create_data = record {
  version = none;
  name = text "data";
  capacity_range = some (record { required_bytes = 5; limit_bytes = 0 });
  volume_capabilities = [];
  parameters = none;
  user_credentials = none;
}

abbrev delete_2 : DeleteVolumeRequest
delete_2 = record { version = none; volume_id = text "2"; user_credentials = none }

abbrev requests : List Request
requests = Request.create_volume create_data ∷ Request.delete_volume delete_2 ∷ []

abbrev served : Service
served = serve_all ascii_fold requests new

serve_all-WellFormed_example : WellFormed served
serve_all-WellFormed_example = serve_all-WellFormed ascii_fold requests (omega arith)

pub new-WellFormed : WellFormed new
unfolding serve_all
new-WellFormed = serve_all-WellFormed ascii_fold [] (omega arith)

new_length : length new.vols ≡ 3
unfolding new new_volume
new_length = refl

abbrev in_twos : ListVolumesRequest
in_twos = record { version = none; max_entries = 2; starting_token = [] }

page_volumes-mock_example :
    (p : Paging) × (page_volumes mock_client (suc (length new.vols)) in_twos new ≡ some (p, new))
    × (p.err ≡ none)
    × (flatten p.pages ≡ map entry new.vols)
    × ((out : List Entry) → Sent p.pages out → Permᴰ (map entry new.vols) out)
page_volumes-mock_example = page_volumes-mock new in_twos (omega (arith, new_length)) refl
