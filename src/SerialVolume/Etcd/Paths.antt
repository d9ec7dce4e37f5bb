-- ===== src/SerialVolume/Etcd/Paths.antt =====
-- Which locks of the etcd provider are one lock.
use mathlib.Core.List.{append_cancel_left}
use gocsi.Base.{
  ℕ, zero, suc, ◌≡◌, ◌↔◌, refl, sym, ap, ◌∙◌, arith, [], ◌∷◌, ◌++◌, Text, text, ◌==◌, IsElement,
  path_join_all, path_join_all_last, path_join_all-rooted, path_join_all_up,
}
use gocsi.SerialVolume.{Key, id, named}
use gocsi.SerialVolume.Etcd.Client.{domain_of, lock_path}

-- The id or the name is one element of a path: it is not empty, has no slash, and is not "." or "..".
abbrev pub IsPlain : Key → Type 0
IsPlain (id t) = IsElement t
IsPlain (named t) = IsElement t

ids_IsElement : IsElement (text "volumesByID")
unfolding text ◌==◌
ids_IsElement = (
  (refl, (refl, (refl, (refl, (refl, (refl, (refl, (refl, (refl, (refl, (refl, tt))))))))))),
  refl,
  refl,
  refl,
)

names_IsElement : IsElement (text "volumesByName")
unfolding text ◌==◌
names_IsElement = (
  (
    refl,
    (
      refl,
      (refl, (refl, (refl, (refl, (refl, (refl, (refl, (refl, (refl, (refl, (refl, tt))))))))))),
    ),
  ),
  refl,
  refl,
  refl,
)

abbrev tail_of : Key → Text
tail_of (id t) = text "volumesByID" ++ b'/' ∷ t
tail_of (named t) = text "volumesByName" ++ b'/' ∷ t

-- The byte at a place, or 0.
abbrev nth : ℕ → Text → ℕ
nth n [] = 0
nth zero (c ∷ s) = c
nth (suc n) (c ∷ s) = nth n s

tail_of-injective : (j k : Key) → tail_of j ≡ tail_of k → j ≡ k
unfolding text
tail_of-injective (id t) (id u) h = ap id (append_cancel_left (text "volumesByID/") t u h)
tail_of-injective (named t) (named u) h =
    ap named (append_cancel_left (text "volumesByName/") t u h)
tail_of-injective (id t) (named u) h = absurd (omega (arith, ap (λ s. nth 9 s) h))
tail_of-injective (named t) (id u) h = absurd (omega (arith, ap (λ s. nth 9 s) h))

domain_of-rooted : (dom : Text) → (d : Text) × (domain_of dom ≡ b'/' ∷ d)
unfolding domain_of text
domain_of-rooted dom = path_join_all-rooted dom

lock_path-tail_of :
    (d before : Text)
    → ((a t : Text)
        → IsElement a
        → IsElement t
        → path_join_all ((b'/' ∷ d) ∷ a ∷ t ∷ []) ≡ before ++ (a ++ b'/' ∷ t))
    → (k : Key) → IsPlain k
    → lock_path (b'/' ∷ d) k ≡ before ++ tail_of k
unfolding lock_path
lock_path-tail_of d before h (id t) p = h (text "volumesByID") t ids_IsElement p
lock_path-tail_of d before h (named t) p = h (text "volumesByName") t names_IsElement p

lock_path-injective :
    (dom : Text) (j k : Key)
    → IsPlain j
    → IsPlain k
    → lock_path (domain_of dom) j ≡ lock_path (domain_of dom) k
    → j ≡ k
lock_path-injective dom j k pj pk e =
    let (d, r) = domain_of-rooted dom in
    let (before, h) = path_join_all_last d in
    tail_of-injective j k (
      append_cancel_left before (tail_of j) (tail_of k) (
        sym (lock_path-tail_of d before h j pj)
        ∙ ap (λ x. lock_path x j) (sym r)
        ∙ e
        ∙ ap (λ x. lock_path x k) r
        ∙ lock_path-tail_of d before h k pk))

-- In a domain, volumes whose ids or names are plain have one lock exactly when both are the same id
-- or the same name; no id has the lock of a name.
pub lock_path-eq_iff :
    (dom : Text) (j k : Key)
    → IsPlain j
    → IsPlain k
    → (lock_path (domain_of dom) j ≡ lock_path (domain_of dom) k) ↔ (j ≡ k)
lock_path-eq_iff dom j k pj pk =
    (lock_path-injective dom j k pj pk, λ e. ap (lock_path (domain_of dom)) e)

-- An id that begins with "../volumesByName/" has the lock of the name behind that.
pub lock_path_up :
    (dom t : Text)
    → IsElement t
    → lock_path (domain_of dom) (id (text "../volumesByName/" ++ t))
      ≡ lock_path (domain_of dom) (named t)
unfolding lock_path text
lock_path_up dom t p =
    let (d, r) = domain_of-rooted dom in
    rw r (
      path_join_all_up d (text "volumesByID") (text "volumesByName") t ids_IsElement names_IsElement
        p)
