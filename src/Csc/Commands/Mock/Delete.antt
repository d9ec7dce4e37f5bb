-- ===== src/Csc/Commands/Mock/Delete.antt =====
-- csc/cmd/controller_delete_volume.go on the mock service.
use gocsi.Base.{
  ◌≡◌, refl, ap, ◌∙◌, arith, none, List, [], ◌∷◌, ◌++◌, Text, Bool, true, false, map, EqualFold,
  if◌then◌else◌, ◌==◌,
}
use mathlib.Core.List.{flatten}
use gocsi.Csi.{Request, Response, DeleteVolumeRequest}
use gocsi.Status.{Error, Outcome, replies}
use gocsi.Mock.Server.Spec.{Promises, Same, asked, delete_done}
use gocsi.Mock.Identity.{WellFormed}
use gocsi.Mock.Kept.{delete_volume-Kept}
use gocsi.Mock.Service.{Service}
use gocsi.Mock.Controller.{delete_volume}
use gocsi.Mock.View.{View, at, update}
use gocsi.Mock.Server.{serve}
use gocsi.Mock.Server.Calls.{delete_volume-Keeps}
use gocsi.Csc.Commands.{Printer, Root, Ran, for_each, line, delete_request}
use gocsi.Csc.Commands.Loop.{for_each-cons}
use gocsi.Csc.Commands.Volumes.{delete_round, delete_volumes}
use gocsi.Csc.Commands.Mock.{answer_of_outcome, mock_rpcs}

-- What is printed for the volumes that are deleted: their ids, each on a line.
abbrev pub id_lines : List Text → Text
id_lines ids = flatten (map line ids)

abbrev pub is_one_of : Text → List Text → Bool
is_one_of w [] = false
is_one_of w (id ∷ ids) = if w == id then true else is_one_of w ids

-- The volumes without those of some ids.
abbrev pub without : List Text → View → View
without ids a w = if is_one_of w ids then none else a w

without_lem :
    (id : Text) (ids : List Text) (a : View) (w : Text)
    → without ids (update a id none) w ≡ without (id ∷ ids) a w
without_lem id ids a w = ground arith

module _ (fold : EqualFold) (broken : Error) (printer : Printer) (root : Root) where
  Promises-delete :
      {node : Text} {a b : View} {req : DeleteVolumeRequest} {o : Outcome}
      → Promises fold node a (Request.delete_volume req) o b
      → (o ≡ replies Response.delete_volume) × Same b (update a req.volume_id none)
  Promises-delete (delete_done same) = (refl, same)
  Promises-delete (asked q same) = absurd q

  abbrev deleted : Text → Service → Service
  deleted arg s = (delete_volume fold (delete_request root arg) s).1

  delete_round-mock :
      (arg : Text) (s : Service)
      → WellFormed s
      → delete_round (mock_rpcs broken fold) printer root arg s ≡ ((line arg, none), deleted arg s)
  unfolding delete_round mock_rpcs serve answer_of_outcome
  delete_round-mock arg s w =
      let (replied, same) =
        Promises-delete (delete_volume-Keeps fold s w (delete_request root arg)) in
      rw replied refl

  -- The command "delete-volume" on a well-formed mock service, whether its ids are those of volumes or
  -- not, ends without an error and prints each id on a line; afterwards the volumes of these ids are
  -- gone, and the others are as they were.
  pub delete_volumes-without :
      (ids : List Text) (s : Service)
      → WellFormed s
      → let run = delete_volumes (mock_rpcs broken fold) printer root ids s in
        (run.0 ≡ (id_lines ids, none)) × ((w : Text) → at run.1.vols w ≡ without ids (at s.vols) w)
  unfolding delete_volumes for_each flatten
  delete_volumes-without [] s f = (refl, λ w. refl)
  delete_volumes-without (id ∷ ids) s f =
      let formed = (delete_volume-Kept fold (delete_request root id) s f).formed in
      let (replied, same) =
        Promises-delete (delete_volume-Keeps fold s f (delete_request root id)) in
      let (printed, left) = delete_volumes-without ids (deleted id s) formed in
      let step =
        for_each-cons (delete_round (mock_rpcs broken fold) printer root) id ids s (deleted id s)
          (line id) (delete_round-mock id s f) in
      (
        ap (λ r. r.0) step ∙ ap (λ (o : Ran). (line id ++ o.0, o.1)) printed,
        λ w.
            ap (λ r. at r.1.vols w) step
            ∙ left w
            ∙ ap (λ o. if is_one_of w ids then none else o) (same w)
            ∙ without_lem id ids (at s.vols) w,
      )
