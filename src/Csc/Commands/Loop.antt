-- ===== src/Csc/Commands/Loop.antt =====
-- csc/cmd: the loop of a command over its arguments.
use gocsi.Base.{
  ◌≡◌, refl, ap, sym, ◌∙◌, Option-cases, inl, inr, none, some, List, [], ◌∷◌, ◌++◌, Text,
}
use gocsi.Status.{Attempt, got, failed}
use gocsi.Csc.Commands.{Ran, for_each, after_round, prepend, with_answer}

pub with_answer_state :
    {A S : Type 0} (print : A → Ran) (r : Attempt A × S) → (with_answer print r).1 ≡ r.1
with_answer_state print (got a, st) = refl
with_answer_state print (failed e, st) = refl

module _ {S : Type 0} where
  after_round-some :
      (rest : S → Ran × S) (r : Ran × S) {e : _} → r.0.1 ≡ some e → after_round rest r ≡ r
  after_round-some rest ((out, some x), st) h = refl
  after_round-some rest ((out, none), st) h = cc

  after_round-none :
      (rest : S → Ran × S) (r : Ran × S)
      → r.0.1 ≡ none
      → after_round rest r ≡ prepend r.0.0 (rest r.1)
  after_round-none rest ((out, some x), st) h = cc
  after_round-none rest ((out, none), st) h = refl

  prepend_state : (out : Text) (r : Ran × S) → (prepend out r).1 ≡ r.1
  prepend_state out ((more, err), st) = refl

  prepend_lem : (out : Text) (r : Ran × S) → prepend out r ≡ ((out ++ r.0.0, r.0.1), r.1)
  prepend_lem out ((more, err), st) = refl

  -- A round without an error, and then the others.
  pub for_each-cons :
      (round : Text → S → Ran × S) (arg : Text) (args : List Text) (s s' : S) (out : Text)
      → round arg s ≡ ((out, none), s')
      → let rest = for_each round args s' in
        for_each round (arg ∷ args) s ≡ ((out ++ rest.0.0, rest.0.1), rest.1)
  unfolding for_each
  for_each-cons round arg args s s' out h = rw h (prepend_lem out (for_each round args s'))

  module _ (round : Text → S → Ran × S)
      (settles : (arg : Text) (s : S) → round arg (round arg s).1 ≡ round arg s)
      (stays : (arg other : Text) (o : Ran) (s : S)
        → round arg s ≡ (o, s)
        → round arg (round other s).1 ≡ (o, (round other s).1)) where
    for_each-stays :
        (arg : Text) (o : Ran) (args : List Text) (s : S)
        → round arg s ≡ (o, s)
        → round arg (for_each round args s).1 ≡ (o, (for_each round args s).1)
    unfolding for_each
    for_each-stays arg o [] s h = h
    for_each-stays arg o (b ∷ bs) s h = elim (Option-cases (round b s).0.1) [
      | inl ok ↦
          rw (after_round-none (for_each round bs) (round b s) ok)
            (for_each-stays arg o bs (round b s).1 (stays arg b o s h))
      | inr (e, bad) ↦ rw (after_round-some (for_each round bs) (round b s) bad) (stays arg b o s h)
    ]

    -- The loop a second time.
    pub for_each_twice :
        (args : List Text) (s : S)
        → for_each round args (for_each round args s).1 ≡ for_each round args s
    unfolding for_each
    for_each_twice [] s = refl
    for_each_twice (a ∷ l) s = elim (Option-cases (round a s).0.1) [
      | inl ok ↦
          let again = for_each round l in
          let once = after_round-none again (round a s) ok in
          let kept = for_each-stays a (round a s).0 l (round a s).1 (settles a s) in
          ap (λ r. after_round again (round a r.1)) once
          ∙ ap (λ t. after_round again (round a t))
              (prepend_state (round a s).0.0 (again (round a s).1))
          ∙ ap (after_round again) kept
          ∙ after_round-none again _ ok
          ∙ ap (prepend (round a s).0.0) (for_each_twice l (round a s).1)
          ∙ sym once
      | inr (e, bad) ↦
          let once = after_round-some (for_each round l) (round a s) bad in
          ap (λ r. after_round (for_each round l) (round a r.1)) once
          ∙ ap (after_round (for_each round l)) (settles a s)
    ]
