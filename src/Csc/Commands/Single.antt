-- ===== src/Csc/Commands/Single.antt =====
-- csc/cmd: the commands that send one request, in identity_supportedversions.go,
-- identity_getplugininfo.go, controller_get_capacity.go, controller_get_capabilities.go,
-- controller_list_volumes.go (without the paging), controller_probe.go, node_get_id.go, node_probe.go
-- and node_get_capabilities.go.
use gocsi.Base.{ℕ, Option, none, some, List, [], ◌∷◌, ◌++◌, Text, itoa}
use gocsi.Csi.{GoMap, VolCaps, Request}
use gocsi.Csc.Commands.{Client, Ran, Printer, Root, wrote, line, with_answer}

pub record ListFlags : Type 0 where
  pub max_entries : ℕ
  pub starting_token : Text

pub record CapacityFlags : Type 0 where
  pub caps : VolCaps
  pub params : GoMap

-- `fmt.Println(cap.Type)` for each capability.
print_capabilities : (ℕ → Text) → List ℕ → Text
print_capabilities show [] = []
print_capabilities show (c ∷ cs) = line (show c) ++ print_capabilities show cs

abbrev capabilities_of : Option (List ℕ) → List ℕ
capabilities_of none = []
capabilities_of (some cs) = cs

module _ {S : Type 0} (client : Client S) (printer : Printer) (root : Root) where
  open printer use {capability_text, volumes, versions, plugin_info}

  unfoldable pub supported_versions : S → Ran × S
  supported_versions st = with_answer versions (client Request.get_supported_versions st)

  unfoldable pub show_plugin_info : S → Ran × S
  show_plugin_info st =
      with_answer plugin_info (client (Request.get_plugin_info (some root.version)) st)

  unfoldable pub get_capacity : CapacityFlags → S → Ran × S
  get_capacity f st =
      with_answer (λ n. wrote (line (itoa n)))
        (client
          (Request.get_capacity (record {
            version = some root.version;
            volume_capabilities = f.caps;
            parameters = f.params;
          }))
          st)

  unfoldable pub controller_get_capabilities : S → Ran × S
  unfolding print_capabilities
  controller_get_capabilities st =
      with_answer (λ cs. wrote (print_capabilities capability_text (capabilities_of cs)))
        (client (Request.controller_get_capabilities (some root.version)) st)

  unfoldable pub list_volumes : ListFlags → S → Ran × S
  list_volumes f st = with_answer volumes (
      client
        (Request.list_volumes (record {
          version = some root.version;
          max_entries = f.max_entries;
          starting_token = f.starting_token;
        }))
        st)

  unfoldable pub controller_probe : S → Ran × S
  controller_probe st =
      with_answer (λ a. wrote []) (client (Request.controller_probe (some root.version)) st)

  unfoldable pub get_node_id : S → Ran × S
  get_node_id st =
      with_answer (λ id. wrote (line id)) (client (Request.get_node_id (some root.version)) st)

  unfoldable pub node_probe : S → Ran × S
  node_probe st = with_answer (λ a. wrote []) (client (Request.node_probe (some root.version)) st)

  unfoldable pub node_get_capabilities : S → Ran × S
  unfolding print_capabilities
  node_get_capabilities st =
      with_answer (λ cs. wrote (print_capabilities capability_text (capabilities_of cs)))
        (client (Request.node_get_capabilities (some root.version)) st)
