-- ===== src/Csc/Commands/Mock/Repeat.antt =====
-- csc/cmd/controller_create_volume.go on the mock service, run twice.
use gocsi.Base.{
  ℕ, ◌≡◌, refl, ap, sym, ◌∙◌, arith, Option-cases, inl, inr, some, List, [], ◌∷◌, ◌++◌, Text, text,
  length, length-append, EqualFold, length, length-append,
}
use gocsi.Csi.{Request, CreateVolumeRequest, VolumeInfo}
use gocsi.Status.{Error, Outcome}
use gocsi.Mock.Service.{Service, find_vol_no_lock, find_vol_by_name, new_volume}
use gocsi.Mock.Service.Find.{find_from-append_some}
use gocsi.Mock.Controller.{create_volume, capacity_of}
use gocsi.Mock.Effects.{create_volume-found, create_volume-missing, create_volume-idempotent}
use gocsi.Mock.Server.{serve}
use gocsi.Csc.Commands.Loop.{for_each_twice, with_answer_state}
use gocsi.Csc.Commands.Volumes.{create_round, create_volumes}
use gocsi.Csc.Commands.Mock.{answer_of_outcome, mock_rpcs}
use gocsi.Csc.Commands.{create_request, with_answer, Printer, Root, CreateFlags, Ran}

module _ (fold : EqualFold) (broken : Error) (printer : Printer) (root : Root)
    (f : CreateFlags) where
  -- One round on the mock service.
  mock_round : Text → Service → Ran × Service
  unfolding create_round mock_rpcs
  mock_round arg s = create_round (mock_rpcs broken fold) printer root f arg s

  -- What a round makes of the answer of the service.
  abbrev report : CreateVolumeRequest → Outcome × Service → Ran × Service
  report req p =
      with_answer printer.volume (answer_of_outcome broken (Request.create_volume req) p.0, p.1)

  mock_round_lem :
      (arg : Text) (s : Service)
      → mock_round arg s
        ≡ report (create_request root f arg) (create_volume fold (create_request root f arg) s)
  unfolding mock_round create_round mock_rpcs serve
  mock_round_lem arg s = refl

  mock_round_state :
      (arg : Text) (s : Service)
      → (mock_round arg s).1 ≡ (create_volume fold (create_request root f arg) s).1
  mock_round_state arg s = ap (λ r. r.1) (mock_round_lem arg s) ∙ with_answer_state printer.volume _

  mock_round-settles :
      (arg : Text) (s : Service) → mock_round arg (mock_round arg s).1 ≡ mock_round arg s
  mock_round-settles arg s =
      ap (mock_round arg) (mock_round_state arg s)
      ∙ mock_round_lem arg _
      ∙ ap (report (create_request root f arg))
          (create_volume-idempotent fold (create_request root f arg) s)
      ∙ sym (mock_round_lem arg s)

  find_vol_by_name-create_volume :
      (n : Text) (req : CreateVolumeRequest) (s : Service) (found : ℕ × VolumeInfo)
      → find_vol_by_name fold s n ≡ some found
      → find_vol_by_name fold (create_volume fold req s).1 n ≡ some found
  unfolding find_vol_by_name find_vol_no_lock
  find_vol_by_name-create_volume n req s found e =
      elim (Option-cases (find_vol_by_name fold s req.name)) [
        | inr (other, there) ↦ rw (create_volume-found fold req s other there) e
        | inl missing ↦
            rw (create_volume-missing fold req s missing)
              (find_from-append_some fold (text "name") n 0 s.vols _ found e)
      ]

  mock_round-found :
      (arg : Text) (s : Service) (found : ℕ × VolumeInfo)
      → find_vol_by_name fold s arg ≡ some found
      → mock_round arg s ≡ (printer.volume (some found.1), s)
  unfolding answer_of_outcome
  mock_round-found arg s found e =
      mock_round_lem arg s
      ∙ ap (report (create_request root f arg))
          (create_volume-found fold (create_request root f arg) s found e)

  -- A round that keeps the state found a volume.
  mock_round-kept :
      (arg : Text) (o : Ran) (s : Service)
      → mock_round arg s ≡ (o, s)
      → (found : ℕ × VolumeInfo) × (find_vol_by_name fold s arg ≡ some found)
  mock_round-kept arg o s h = elim (Option-cases (find_vol_by_name fold s arg)) [
    | inr there ↦ there
    | inl missing ↦
        let req = create_request root f arg in
        let v = (new_volume s arg (capacity_of req.capacity_range)).0 in
        let longer : length (s.vols ++ v ∷ []) ≡ length s.vols =
          ap (λ r. length r.1.vols) (sym (create_volume-missing fold req s missing))
          ∙ ap (λ t. length t.vols) (sym (mock_round_state arg s) ∙ ap (λ r. r.1) h) in
        absurd (omega (arith, longer, length-append s.vols (v ∷ [])))
  ]

  mock_round-stays :
      (arg other : Text) (o : Ran) (s : Service)
      → mock_round arg s ≡ (o, s)
      → mock_round arg (mock_round other s).1 ≡ (o, (mock_round other s).1)
  mock_round-stays arg other o s h =
      let (found, e) = mock_round-kept arg o s h in
      let same : printer.volume (some found.1) ≡ o =
        ap (λ r. r.0) (sym (mock_round-found arg s found e) ∙ h) in
      let still : find_vol_by_name fold (mock_round other s).1 arg ≡ some found =
        ap (λ t. find_vol_by_name fold t arg) (mock_round_state other s)
        ∙ find_vol_by_name-create_volume arg (create_request root f other) s found e in
      mock_round-found arg _ found still ∙ ap (λ p. (p, (mock_round other s).1)) same

  -- The command "create-volume", run a second time with the same names on a mock service, prints what
  -- the first run printed, ends with the same error if there was one, and leaves the service as the
  -- first run left it.
  pub create_volumes_twice :
      (args : List Text) (s : Service)
      → create_volumes
          (mock_rpcs broken fold)
          printer
          root
          f
          args
          (create_volumes (mock_rpcs broken fold) printer root f args s).1
        ≡ create_volumes (mock_rpcs broken fold) printer root f args s
  unfolding create_volumes mock_round
  create_volumes_twice args s = for_each_twice mock_round mock_round-settles mock_round-stays args s
