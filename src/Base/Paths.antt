-- ===== src/Base/Paths.antt =====
-- `path.Join` of Go's standard library, with `path.Clean`, on slash-separated paths.
use mathlib.Core.Path.{◌≡◌, refl, sym, ap, ◌∙◌}
use mathlib.Core.Bool.{Bool, true, false, ◌||◌}
use mathlib.Core.List.{List, [], ◌∷◌, ◌++◌, reverse, append-nil, reverse-cons, append_assoc}
use native.Mathlib.Omega.{arith}
use gocsi.Base.Split.{join, IsFree}
use gocsi.Base.Tests.{nat_eq, if◌then◌else◌}
use gocsi.Base.Strings.{Text, text, is_empty, ◌==◌}

-- The elements between the slashes.
split_slash : Text → Text → List Text
split_slash cur [] = reverse cur ∷ []
split_slash cur (c ∷ s) =
    let closed = split_slash [] s in
    let longer = split_slash (c ∷ cur) s in if nat_eq c b'/' then reverse cur ∷ closed else longer

-- `..` on a stack of elements, its top at the head.
pop : Bool → List Text → List Text
pop rooted [] = if rooted then [] else text ".." ∷ []
pop rooted (top ∷ stack) = if top == text ".." then text ".." ∷ top ∷ stack else stack

push_part : Bool → List Text → Text → List Text
unfolding pop
push_part rooted stack part =
    if is_empty part || part == text "."
    then stack
    else if part == text ".."
    then pop rooted stack
    else part ∷ stack

clean_parts : Bool → List Text → List Text → List Text
unfolding push_part
clean_parts rooted stack [] = reverse stack
clean_parts rooted stack (part ∷ parts) = clean_parts rooted (push_part rooted stack part) parts

join_slash : List Text → Text
join_slash [] = []
join_slash (part ∷ []) = part
join_slash (part ∷ next ∷ parts) = part ++ b'/' ∷ join_slash (next ∷ parts)

relative : List Text → Text
unfolding join_slash
relative [] = text "."
relative (part ∷ parts) = join_slash (part ∷ parts)

unfoldable pub clean : Text → Text
unfolding split_slash clean_parts join_slash relative
clean [] = text "."
clean (c ∷ s) =
    if nat_eq c b'/'
    then b'/' ∷ join_slash (clean_parts true [] (split_slash [] s))
    else relative (clean_parts false [] (split_slash [] (c ∷ s)))

-- `path.Join(a, b)`: empty elements are ignored.
unfoldable pub path_join : Text → Text → Text
unfolding clean
path_join [] [] = []
path_join [] (c ∷ b) = clean (c ∷ b)
path_join (c ∷ a) [] = clean (c ∷ a)
path_join (c ∷ a) (d ∷ b) = clean ((c ∷ a) ++ b'/' ∷ d ∷ b)

-- `path.Join` of several elements.
unfoldable pub path_join_all : List Text → Text
unfolding clean
path_join_all [] = []
path_join_all ([] ∷ es) = path_join_all es
path_join_all ((c ∷ e) ∷ es) = clean (join b'/' ((c ∷ e) ∷ es))

-- A name that stands for itself in a path.
abbrev pub IsElement : Text → Type 0
IsElement t =
    IsFree b'/' t × (is_empty t ≡ false) × ((t == text ".") ≡ false) × ((t == text "..") ≡ false)

split_slash_whole : (cur t : Text) → IsFree b'/' t → split_slash cur t ≡ (reverse cur ++ t) ∷ []
unfolding split_slash
split_slash_whole cur [] h = rw append-nil refl
split_slash_whole cur (c ∷ t) (hc, h) = rw hc (
    split_slash_whole (c ∷ cur) t h
    ∙ ap (λ s. s ∷ []) (rw reverse-cons (append_assoc (reverse cur) (c ∷ []) t)))

split_slash-append :
    (cur s t : Text) → split_slash cur (s ++ b'/' ∷ t) ≡ split_slash cur s ++ split_slash [] t
unfolding split_slash
split_slash-append cur [] t = refl
split_slash-append cur (c ∷ s) t =
    ground (arith, split_slash-append [] s t, split_slash-append (c ∷ cur) s t)

clean_parts-append :
    (ps stack : List Text)
    → (kept : List Text) × ((qs : List Text)
        → clean_parts true stack (ps ++ qs) ≡ clean_parts true kept qs)
unfolding clean_parts
clean_parts-append [] stack = (stack, λ qs. refl)
clean_parts-append (p ∷ ps) stack = clean_parts-append ps (push_part true stack p)

push_part-IsElement :
    (stack : List Text) (a : Text) → IsElement a → push_part true stack a ≡ a ∷ stack
unfolding push_part
push_part-IsElement stack a (free, some, one, two) = rw (some, one, two) refl

clean_parts-IsElement :
    (stack : List Text) (a t : Text)
    → IsElement a
    → IsElement t
    → clean_parts true stack (a ∷ t ∷ []) ≡ reverse stack ++ (a ∷ t ∷ [])
unfolding clean_parts
clean_parts-IsElement stack a t ha ht = rw (push_part-IsElement stack a ha) (
    rw (push_part-IsElement (a ∷ stack) t ht)
      (rw reverse-cons (rw reverse-cons (append_assoc (reverse stack) (a ∷ []) (t ∷ [])))))

join_slash_last :
    (ps : List Text)
    → (before : Text) × ((a t : Text) → join_slash (ps ++ (a ∷ t ∷ [])) ≡ before ++ (a ++ b'/' ∷ t))
unfolding join_slash
join_slash_last [] = ([], λ a t. refl)
join_slash_last (p ∷ []) = (p ++ b'/' ∷ [], λ a t. sym (append_assoc p (b'/' ∷ []) (a ++ b'/' ∷ t)))
join_slash_last (p ∷ q ∷ ps) =
    let (before, h) = join_slash_last (q ∷ ps) in
    (
      p ++ b'/' ∷ before,
      λ a t. ap (λ s. p ++ b'/' ∷ s) (h a t) ∙ sym (append_assoc p (b'/' ∷ before) (a ++ b'/' ∷ t)),
    )

split_slash_two :
    (d b t : Text)
    → IsElement b
    → IsElement t
    → split_slash [] (d ++ b'/' ∷ (b ++ b'/' ∷ t)) ≡ split_slash [] d ++ (b ∷ t ∷ [])
split_slash_two d b t hb ht = rw (split_slash-append [] d (b ++ b'/' ∷ t)) (
    rw (split_slash-append [] b t)
      (rw (split_slash_whole [] b hb.0) (rw (split_slash_whole [] t ht.0) refl)))

clean-rooted :
    (d : Text) (a t : Text)
    → IsElement a
    → IsElement t
    → clean (b'/' ∷ (d ++ b'/' ∷ (a ++ b'/' ∷ t)))
      ≡ b'/' ∷ join_slash (clean_parts true [] (split_slash [] d ++ (a ∷ t ∷ [])))
unfolding clean
clean-rooted d a t ha ht =
    ap (λ ps. b'/' ∷ join_slash (clean_parts true [] ps)) (split_slash_two d a t ha ht)

-- Two names at the end of a rooted path: they stand behind a text that does not depend on them.
pub path_join_all_last :
    (d : Text)
    → (before : Text) × ((a t : Text)
        → IsElement a
        → IsElement t
        → path_join_all ((b'/' ∷ d) ∷ a ∷ t ∷ []) ≡ before ++ (a ++ b'/' ∷ t))
unfolding path_join_all
path_join_all_last d =
    let (kept, h) = clean_parts-append (split_slash [] d) [] in
    let (before, g) = join_slash_last (reverse kept) in
    (
      b'/' ∷ before,
      λ a t ha ht.
          clean-rooted d a t ha ht
          ∙ ap (λ ps. b'/' ∷ join_slash ps) (h (a ∷ t ∷ []) ∙ clean_parts-IsElement kept a t ha ht)
          ∙ ap (λ s. b'/' ∷ s) (g a t),
    )

-- A rooted path.
pub path_join_all-rooted :
    (e : Text) → (d : Text) × (path_join_all ((b'/' ∷ []) ∷ e ∷ []) ≡ b'/' ∷ d)
unfolding path_join_all clean
path_join_all-rooted e = (_, refl)

dots : Text
dots = b'.' ∷ b'.' ∷ []

push_part-dots :
    (stack : List Text) (a : Text) → IsElement a → push_part true (a ∷ stack) dots ≡ stack
unfolding push_part pop dots ◌==◌ text
push_part-dots stack a (free, some, one, two) = rw two refl

split_slash_up :
    (d a b t : Text)
    → IsElement a
    → IsElement b
    → IsElement t
    → split_slash [] (d ++ b'/' ∷ (a ++ b'/' ∷ b'.' ∷ b'.' ∷ b'/' ∷ (b ++ b'/' ∷ t)))
      ≡ split_slash [] d ++ (a ∷ dots ∷ b ∷ t ∷ [])
unfolding split_slash dots
split_slash_up d a b t ha hb ht =
    split_slash-append [] d _
    ∙ ap (λ ps. split_slash [] d ++ ps)
        (split_slash-append [] a _
          ∙ rw (split_slash_whole [] a ha.0) (
              ap (λ ps. a ∷ dots ∷ ps)
                (split_slash-append [] b t
                  ∙ rw (split_slash_whole [] b hb.0) (rw (split_slash_whole [] t ht.0) refl))))

clean_parts_up :
    (stack : List Text) (a : Text) (ps : List Text)
    → IsElement a
    → clean_parts true stack (a ∷ dots ∷ ps) ≡ clean_parts true stack ps
unfolding clean_parts
clean_parts_up stack a ps ha =
    rw (push_part-IsElement stack a ha) (rw (push_part-dots stack a ha) refl)

-- Two dots at the start of the last element take back the element before it.
pub path_join_all_up :
    (d a b t : Text)
    → IsElement a
    → IsElement b
    → IsElement t
    → path_join_all ((b'/' ∷ d) ∷ a ∷ (b'.' ∷ b'.' ∷ b'/' ∷ (b ++ b'/' ∷ t)) ∷ [])
      ≡ path_join_all ((b'/' ∷ d) ∷ b ∷ t ∷ [])
unfolding path_join_all clean
path_join_all_up d a b t ha hb ht =
    let (kept, h) = clean_parts-append (split_slash [] d) [] in
    ap (λ ps. b'/' ∷ join_slash ps)
      (ap (clean_parts true []) (split_slash_up d a b t ha hb ht)
        ∙ h _
        ∙ clean_parts_up kept a (b ∷ t ∷ []) ha
        ∙ sym (h _)
        ∙ ap (clean_parts true []) (sym (split_slash_two d b t hb ht)))

path_join_tests :
    (path_join (text "node") (text "dev") ≡ text "node/dev")
    × (path_join (text "com.thecodeteam.mock") (text "/mnt//a/./b/../c/")
        ≡ text "com.thecodeteam.mock/mnt/a/c")
    × (path_join (text "com.thecodeteam.mock") (text "../name") ≡ text "name")
    × (path_join (text "/a") (text "../../..") ≡ text "/")
    × (path_join (text "..") (text "dev") ≡ text "../dev")
    × (path_join [] [] ≡ [])
unfolding path_join text ◌==◌
path_join_tests = (refl, refl, refl, refl, refl, refl)
