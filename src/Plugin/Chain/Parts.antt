-- ===== src/Plugin/Chain/Parts.antt =====
-- A chain, part by part.
use mathlib.Core.List.{foldr}
use gocsi.Base.{ℕ, ◌≡◌, refl, ap, ◌∙◌, Bool, true, false, List, [], ◌∷◌, ◌++◌, map, Text}
use gocsi.Csi.{Version, GetPluginInfoResponse, Request}
use gocsi.Utils.Chain.{Handler, bc}
use gocsi.Logging.Effect.{Spares}
use gocsi.Plugin.Interceptors.{Installed}
use gocsi.Plugin.Chain.{Ctx, Run, Runtime, writer_if, interceptor}

-- The interceptors' own writes leave the service's part alone.
pub record IsApart {D P S L T : Type 0} (rt : Runtime D P S L) (inner : S → T) : Type 0 where
  pub stores : (n : ℕ) (st : S) → inner (rt.id.store n st) ≡ inner st
  pub writes : (line : Text) (st : S) → inner (rt.writer line st) ≡ inner st

pub writer_Spares :
    {D P S L T : Type 0} (rt : Runtime D P S L) (inner : S → T)
    → IsApart rt inner
    → (b : Bool) → Spares inner (writer_if rt.writer b)
writer_Spares rt inner apart true = apart.writes
writer_Spares rt inner apart false = tt

module _ {D P S L : Type 0} (rt : Runtime D P S L) (vs : List Version)
    (info : GetPluginInfoResponse) (method : Text) where
  abbrev pub one : Installed D P → Handler Ctx Request (Run S) → Handler Ctx Request (Run S)
  one x h = bc method (interceptor rt vs info x) h

  -- The handler that the chain makes of the last one.
  abbrev pub chain :
      List (Installed D P) → Handler Ctx Request (Run S) → Handler Ctx Request (Run S)
  chain l h = foldr (bc method) h (map (interceptor rt vs info) l)

  chain-append :
      (l k : List (Installed D P)) (h : Handler Ctx Request (Run S))
      → chain (l ++ k) h ≡ chain l (chain k h)
  chain-append [] k h = refl
  chain-append (x ∷ l) k h = ap (one x) (chain-append l k h)

  pub chain-parts :
      (a b c d e tail : List (Installed D P)) (h : Handler Ctx Request (Run S))
      → chain ((a ++ (b ++ (c ++ (d ++ e)))) ++ tail) h
        ≡ chain a (chain b (chain c (chain d (chain e (chain tail h)))))
  chain-parts a b c d e tail h =
      chain-append (a ++ (b ++ (c ++ (d ++ e)))) tail h
      ∙ chain-append a (b ++ (c ++ (d ++ e))) (chain tail h)
      ∙ ap (chain a) (
          chain-append b (c ++ (d ++ e)) (chain tail h)
          ∙ ap (chain b) (
              chain-append c (d ++ e) (chain tail h)
              ∙ ap (chain c) (chain-append d e (chain tail h))))
