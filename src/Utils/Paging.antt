-- ===== src/Utils/Paging.antt =====
-- `PageVolumes` of utils/utils.go. A goroutine asks for the pages, one after the other; each page is
-- sent on the channel by a goroutine of its own, so the pages may mix there.
use mathlib.Core.Option
use mathlib.Core.List.{flatten, Permᴰ}
use mathlib.Core.List.Permᴰ
use gocsi.Base.{
  refl, ℕ, zero, suc, Option, none, some, List, [], ◌∷◌, ◌++◌, is_empty, if◌then◌else◌,
}
use gocsi.Csi.{VolumeInfo, ListVolumesRequest, ListVolumesResponse}
use gocsi.Status.{Error}

abbrev pub Entry : Type 0
Entry = Option (Option VolumeInfo)

-- What `client.ListVolumes` returns.
pub data Listed : Type 0 where
  listed : ListVolumesResponse → Listed
  failed : Error → Listed

-- The pages that were received, and the error on the error channel.
pub record Paging : Type 0 where
  pub pages : List (List Entry)
  pub err : Option Error

module _ {S : Type 0} where
  abbrev pub add_page : List Entry → Paging × S → Paging × S
  add_page es (p, st) = (record p { pages = es ∷ p.pages }, st)

  -- What the loop does with an answer; `again` is the rest of the loop.
  pub after_page :
      (ListVolumesRequest → S → Option (Paging × S))
      → ListVolumesRequest
      → Listed × S
      → Option (Paging × S)
  after_page again req (failed e, st) = some (record { pages = []; err = some e }, st)
  after_page again req (listed res, st) =
      if is_empty res.next_token
      then some (record { pages = res.entries ∷ []; err = none }, st)
      else Option.map (add_page res.entries)
          (again (record req { starting_token = res.next_token }) st)

module _ {S : Type 0} (client : ListVolumesRequest → S → Listed × S) where
  -- The loop, while the context is not cancelled from outside. `none`: the fuel ran out.
  unfoldable pub page_volumes : ℕ → ListVolumesRequest → S → Option (Paging × S)
  unfolding after_page
  page_volumes zero req st = none
  page_volumes (suc fuel) req st = after_page (page_volumes fuel) req (client req st)

module _ {ℓ} {A : Type ℓ} where
  -- `zs` takes the elements of `xs` and of `ys`, each in its order.
  pub data Merge : List A → List A → List A → Type ℓ where
    nil : Merge [] [] []
    left : {x : A} {xs ys zs : List A} → Merge xs ys zs → Merge (x ∷ xs) ys (x ∷ zs)
    right : {y : A} {xs ys zs : List A} → Merge xs ys zs → Merge xs (y ∷ ys) (y ∷ zs)

  -- What may come out of the channel when every page is sent by a goroutine of its own.
  pub data Sent : List (List A) → List A → Type ℓ where
    nothing : Sent [] []
    page :
        {p : List A} {ps : List (List A)} {ys zs : List A}
        → Sent ps ys
        → Merge p ys zs
        → Sent (p ∷ ps) zs

  Merge-perm : {xs ys zs : List A} → Merge xs ys zs → Permᴰ (xs ++ ys) zs
  Merge-perm nil = Permᴰ.nil
  Merge-perm (left m) = Permᴰ.cons refl (Merge-perm m)
  Merge-perm (right {y} {xs} {ys} m) =
      Permᴰ.trans (Permᴰ.middle y xs ys) (Permᴰ.cons refl (Merge-perm m))

  pub Sent-perm : {ps : List (List A)} {zs : List A} → Sent ps zs → Permᴰ (flatten ps) zs
  unfolding flatten
  Sent-perm nothing = Permᴰ.nil
  Sent-perm (page {p} s m) = Permᴰ.trans (Permᴰ.append_left p (Sent-perm s)) (Merge-perm m)
