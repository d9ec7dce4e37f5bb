-- ===== src/Csc/Commands/Volumes.antt =====
-- csc/cmd: what the commands for volumes do with their arguments.
use gocsi.Base.{Bool, true, false, List, [], ◌∷◌, ◌++◌, Text, text, is_empty, if◌then◌else◌}
use gocsi.Csi.{Request, ValidateVolumeCapabilitiesResponse}
use gocsi.Csc.Commands.{
  Client, Ran, Printer, Root, CreateFlags, PublishFlags, ValidateFlags, NodePublishFlags, wrote,
  line, with_answer, for_each, create_request, delete_request, publish_request, unpublish_request,
  validate_request, node_publish_request, node_unpublish_request,
}

-- `fmt.Printf("\t%q=%q", k, v)` for each entry.
print_entries : (Text → Text) → List (Text × Text) → Text
print_entries quote [] = []
print_entries quote ((k, v) ∷ es) =
    text "\t" ++ (quote k ++ (text "=" ++ (quote v ++ print_entries quote es)))

-- `%v` of a bool.
abbrev bool_text : Bool → Text
bool_text true = text "true"
bool_text false = text "false"

print_supported : (Text → Text) → Text → ValidateVolumeCapabilitiesResponse → Text
print_supported quote arg rep =
    quote arg
    ++ (text "\t"
        ++ (bool_text rep.supported
            ++ ((if is_empty rep.message then [] else text "\t" ++ quote rep.message)
                ++ text "\n")))

module _ {S : Type 0} (client : Client S) (printer : Printer) (root : Root) where
  open printer use {quote, entries_of, volume}

  unfoldable pub create_round : CreateFlags → Text → S → Ran × S
  create_round f arg st =
      with_answer volume (client (Request.create_volume (create_request root f arg)) st)

  unfoldable pub create_volumes : CreateFlags → List Text → S → Ran × S
  unfolding for_each create_round
  create_volumes f args st = for_each (create_round f) args st

  unfoldable pub delete_round : Text → S → Ran × S
  delete_round arg st =
      with_answer (λ a. wrote (line arg))
        (client (Request.delete_volume (delete_request root arg)) st)

  unfoldable pub delete_volumes : List Text → S → Ran × S
  unfolding for_each delete_round
  delete_volumes args st = for_each delete_round args st

  publish_round : PublishFlags → Text → S → Ran × S
  unfolding print_entries
  publish_round f arg st =
      with_answer (λ info. wrote (quote arg ++ line (print_entries quote (entries_of info))))
        (client (Request.controller_publish_volume (publish_request root f arg)) st)

  unfoldable pub publish_volumes : PublishFlags → List Text → S → Ran × S
  unfolding for_each publish_round
  publish_volumes f args st = for_each (publish_round f) args st

  unpublish_round : (node_id : Text) → Text → S → Ran × S
  unpublish_round node_id arg st =
      with_answer (λ a. wrote (line arg))
        (client (Request.controller_unpublish_volume (unpublish_request root node_id arg)) st)

  unfoldable pub unpublish_volumes : (node_id : Text) → List Text → S → Ran × S
  unfolding for_each unpublish_round
  unpublish_volumes node_id args st = for_each (unpublish_round node_id) args st

  validate_round : ValidateFlags → Text → S → Ran × S
  unfolding print_supported
  validate_round f arg st =
      with_answer (λ rep. wrote (print_supported quote arg rep))
        (client (Request.validate_volume_capabilities (validate_request root f arg)) st)

  unfoldable pub validate_volumes : ValidateFlags → List Text → S → Ran × S
  unfolding for_each validate_round
  validate_volumes f args st = for_each (validate_round f) args st

  node_publish_round : NodePublishFlags → Text → S → Ran × S
  node_publish_round f arg st =
      with_answer (λ a. wrote (line arg))
        (client (Request.node_publish_volume (node_publish_request root f arg)) st)

  unfoldable pub node_publish_volumes : NodePublishFlags → List Text → S → Ran × S
  unfolding for_each node_publish_round
  node_publish_volumes f args st = for_each (node_publish_round f) args st

  node_unpublish_round : (target_path : Text) → Text → S → Ran × S
  node_unpublish_round target_path arg st =
      with_answer (λ a. wrote (line arg))
        (client (Request.node_unpublish_volume (node_unpublish_request root target_path arg)) st)

  unfoldable pub node_unpublish_volumes : (target_path : Text) → List Text → S → Ran × S
  unfolding for_each node_unpublish_round
  node_unpublish_volumes target_path args st = for_each (node_unpublish_round target_path) args st
