-- ===== src/SerialVolume/Exclusion.antt =====
-- Requests for one volume are served one at a time, whatever the order of their steps.
use mathlib.Core.Path.{subst, ap₂}
use gocsi.Base.{
  lookup, ℕ, ◌≡◌, ◌≢◌, ◌⊎◌, inl, inr, refl, sym, ap, ◌∙◌, arith, true, false, Bool-cases, none,
  some, nat_eq, nat_eq_iff,
}
use gocsi.SerialVolume.{Key, id, named}
use gocsi.SerialVolume.Provider.{
  some-none, some_inj, Locks, no_locks, lock_of, Distinct, get_lock-Found,
}
use gocsi.SerialVolume.Steps.{
  Thread, arrived, waiting, running, over, World, update, start, Step, arrive, get, lock, abort,
  unlock, Reachable, none_yet, after, HasLock, Runs, Invariant,
}

pub update-cases {ℓ} :
    {A : Type ℓ} (f : ℕ → A) (i : ℕ) (x : A) (j : ℕ)
    → ((i ≡ j) × (update f i x j ≡ x)) ⊎ ((i ≢ j) × (update f i x j ≡ f j))
update-cases f i x j = elim (Bool-cases (nat_eq i j)) [
  | inl e ↦ inl ((nat_eq_iff i j).0 e, rw e)
  | inr e ↦ inr ((λ h. absurd (ground (arith, nat_eq_iff i j))), rw e)
]

lock_of-none : (k : Key) → lock_of no_locks k ≡ none
unfolding lookup
lock_of-none (id t) = refl
lock_of-none (named t) = refl

Invariant-start : Invariant start
Invariant-start = record {
  distinct = record {
    below = λ k a e. absurd (some-none (sym e ∙ lock_of-none k));
    apart = λ j k a e f. absurd (some-none (sym e ∙ lock_of-none j));
  };
  has_lock = λ i. tt;
  is_held = λ i a r. absurd r;
  is_alone = λ i j a r r'. absurd r;
  has_owner = λ a e. absurd cc;
}

HasLock-kept :
    (l l' : Locks) (t : Thread)
    → ((j : Key) (b : ℕ) → lock_of l j ≡ some b → lock_of l' j ≡ some b)
    → HasLock l t
    → HasLock l' t
HasLock-kept l l' (arrived k) kept h = tt
HasLock-kept l l' (waiting k a) kept h = kept k a h
HasLock-kept l l' (running k a) kept h = kept k a h
HasLock-kept l l' over kept h = tt

-- Every request has its lock after one of them took a step.
has_locks :
    (w : World) (l : Locks) (i : ℕ) (x : Thread)
    → Invariant w
    → ((j : Key) (b : ℕ) → lock_of w.locks j ≡ some b → lock_of l j ≡ some b)
    → HasLock l x
    → (j : ℕ) → HasLock l (update w.threads i x j)
has_locks w l i x inv kept h j = elim (update-cases w.threads i x j) [
  | inl (here, e) ↦ subst (HasLock l) (sym e) h
  | inr (there, e) ↦
      subst (HasLock l) (sym e) (HasLock-kept w.locks l (w.threads j) kept (inv.has_lock j))
]

-- A request that runs after a step of one that does not run ran before.
ran :
    (w : World) (i : ℕ) (x : Thread) (a j : ℕ)
    → ¬ Runs a x
    → Runs a (update w.threads i x j)
    → Runs a (w.threads j)
ran w i x a j idle r = elim (update-cases w.threads i x j) [
  | inl (here, e) ↦ absurd (idle (subst (Runs a) e r))
  | inr (there, e) ↦ subst (Runs a) e r
]

-- A step of a request that runs neither before nor after.
quiet :
    (w : World) (l : Locks) (i : ℕ) (x : Thread)
    → Invariant w
    → ((a : ℕ) → ¬ Runs a x)
    → ((a : ℕ) → ¬ Runs a (w.threads i))
    → Distinct l
    → ((j : Key) (b : ℕ) → lock_of w.locks j ≡ some b → lock_of l j ≡ some b)
    → HasLock l x
    → Invariant (record w { locks = l; threads = update w.threads i x })
quiet w l i x inv idle was d kept h = record {
  distinct = d;
  has_lock = has_locks w l i x inv kept h;
  is_held = λ j a r. inv.is_held j a (ran w i x a j (idle a) r);
  is_alone =
      λ j k a r r'. inv.is_alone j k a (ran w i x a j (idle a) r) (ran w i x a k (idle a) r');
  has_owner = λ a e.
      let (j, r) = inv.has_owner a e in
      elim (update-cases w.threads i x j) [
        | inl (here, f) ↦ absurd (was a (subst (λ n. Runs a (w.threads n)) (sym here) r))
        | inr (there, f) ↦ (j, subst (Runs a) (sym f) r)
      ];
}

false-true : ¬ (false ≡ true)
false-true e = absurd cc

clash : (w : World) (a b : ℕ) → w.held a ≡ false → b ≡ a → w.held b ≡ true → ⊥
clash w a b free same busy = false-true (sym free ∙ ap w.held (sym same) ∙ busy)

id_absurd : ¬ ⊥
id_absurd e = e

update-here {ℓ} : {A : Type ℓ} (f : ℕ → A) (i : ℕ) (x : A) → update f i x i ≡ x
update-here f i x = rw ((nat_eq_iff i i).1 refl) refl

idle :
    (w : World) (i : ℕ) (t : Thread)
    → w.threads i ≡ t
    → ((a : ℕ) → ¬ Runs a t)
    → (a : ℕ) → ¬ Runs a (w.threads i)
idle w i t e h a r = h a (subst (Runs a) e r)

-- A request that runs under the lock of a key runs for that key.
Runs-with :
    (l : Locks) (k : Key) (a : ℕ) (t : Thread)
    → Distinct l
    → lock_of l k ≡ some a
    → HasLock l t
    → Runs a t
    → t ≡ running k a
Runs-with l k a (arrived j) d mine has r = absurd r
Runs-with l k a (waiting j b) d mine has r = absurd r
Runs-with l k a (running j b) d mine has r =
    let same : j ≡ k = d.apart j k a (has ∙ ap some (sym r)) mine in ap₂ running same (sym r)
Runs-with l k a over d mine has r = absurd r

-- What the thread `i` was, seen through its new name `j`.
Runs-same :
    (w : World) (i j a : ℕ) (t : Thread) → w.threads i ≡ t → i ≡ j → Runs a (w.threads j) → Runs a t
Runs-same w i j a t e same r = subst (Runs a) (ap w.threads (sym same) ∙ e) r

locked :
    (w : World) (i : ℕ) (k : Key) (a : ℕ)
    → Invariant w
    → w.threads i ≡ waiting k a
    → w.held a ≡ false
    → Invariant
        (record w { held = update w.held a true; threads = update w.threads i (running k a) })
locked w i k a inv e free = record {
  distinct = inv.distinct;
  has_lock =
      has_locks w w.locks i (running k a) inv (λ j b f. f)
        (subst (HasLock w.locks) e (inv.has_lock i));
  is_held = λ j b r. elim (update-cases w.held a true b) [
    | inl (same, f) ↦ f
    | inr (other, f) ↦ elim (update-cases w.threads i (running k a) j) [
      | inl (here, g) ↦ absurd (other (sym (subst (Runs b) g r)))
      | inr (there, g) ↦ f ∙ inv.is_held j b (subst (Runs b) g r)
    ]
  ];
  is_alone = λ j j' b r r'. elim (update-cases w.threads i (running k a) j) [
    | inl (here, g) ↦ elim (update-cases w.threads i (running k a) j') [
      | inl (here', g') ↦ sym here ∙ here'
      | inr (there', g') ↦
          absurd (clash w a b free (subst (Runs b) g r) (inv.is_held j' b (subst (Runs b) g' r')))
    ]
    | inr (there, g) ↦ elim (update-cases w.threads i (running k a) j') [
      | inl (here', g') ↦
          absurd (clash w a b free (subst (Runs b) g' r') (inv.is_held j b (subst (Runs b) g r)))
      | inr (there', g') ↦ inv.is_alone j j' b (subst (Runs b) g r) (subst (Runs b) g' r')
    ]
  ];
  has_owner = λ b f. elim (update-cases w.held a true b) [
    | inl (same, g) ↦ (i, subst (Runs b) (sym (update-here w.threads i (running k a))) (sym same))
    | inr (other, g) ↦
        let (j, r) = inv.has_owner b (sym g ∙ f) in
        elim (update-cases w.threads i (running k a) j) [
          | inl (here, h) ↦ absurd (Runs-same w i j b (waiting k a) e here r)
          | inr (there, h) ↦ (j, subst (Runs b) (sym h) r)
        ]
  ];
}

unlocked :
    (w : World) (i : ℕ) (k : Key) (a : ℕ)
    → Invariant w
    → w.threads i ≡ running k a
    → Invariant (record w { held = update w.held a false; threads = update w.threads i over })
unlocked w i k a inv e = record {
  distinct = inv.distinct;
  has_lock = has_locks w w.locks i over inv (λ j b f. f) tt;
  is_held = λ j b r. elim (update-cases w.threads i over j) [
    | inl (here, g) ↦ absurd (subst (Runs b) g r)
    | inr (there, g) ↦ elim (update-cases w.held a false b) [
      | inl (same, f) ↦
          absurd
            (there (inv.is_alone i j b (subst (Runs b) (sym e) (sym same)) (subst (Runs b) g r)))
      | inr (other, f) ↦ f ∙ inv.is_held j b (subst (Runs b) g r)
    ]
  ];
  is_alone = λ j j' b r r'.
      inv.is_alone j j' b (ran w i over b j id_absurd r) (ran w i over b j' id_absurd r');
  has_owner = λ b f. elim (update-cases w.held a false b) [
    | inl (same, g) ↦ absurd (false-true (sym g ∙ f))
    | inr (other, g) ↦
        let (j, r) = inv.has_owner b (sym g ∙ f) in
        elim (update-cases w.threads i over j) [
          | inl (here, h) ↦ absurd (other (sym (Runs-same w i j b (running k a) e here r)))
          | inr (there, h) ↦ (j, subst (Runs b) (sym h) r)
        ]
  ];
}

step-Invariant : {w w' : World} → Invariant w → Step w w' → Invariant w'
step-Invariant {w} inv (arrive i k e) =
    quiet w w.locks i (arrived k) inv (λ a r. r) (idle w i over e (λ a r. r)) inv.distinct
      (λ j b f. f) tt
step-Invariant {w} inv (get i k e) =
    let found = get_lock-Found k w.locks inv.distinct in
    quiet w _ i _ inv (λ a r. r) (idle w i (arrived k) e (λ a r. r)) found.distinct found.kept
      found.here
step-Invariant {w} inv (lock i k a e free) = locked w i k a inv e free
step-Invariant {w} inv (abort i k a e) =
    quiet w w.locks i over inv (λ b r. r) (idle w i (waiting k a) e (λ b r. r)) inv.distinct
      (λ j b f. f) tt
step-Invariant {w} inv (unlock i k a e) = unlocked w i k a inv e

pub reachable-Invariant : {w : World} → Reachable w → Invariant w
reachable-Invariant none_yet = Invariant-start
reachable-Invariant (after r st) = step-Invariant (reachable-Invariant r) st

-- In a state that the requests can reach, two requests that are in the handler for the same volume id,
-- or for the same volume name, are one request.
pub mutual_exclusion :
    (w : World) (i j : ℕ) (k : Key) (a b : ℕ)
    → Reachable w
    → w.threads i ≡ running k a
    → w.threads j ≡ running k b
    → i ≡ j
mutual_exclusion w i j k a b r e f =
    let inv = reachable-Invariant r in
    let mine = subst (HasLock w.locks) e (inv.has_lock i) in
    let yours = subst (HasLock w.locks) f (inv.has_lock j) in
    let same : a ≡ b = some_inj (sym mine ∙ yours) in
    inv.is_alone i j a (subst (Runs a) (sym e) refl) (subst (Runs a) (sym f) same)

-- In a state that the requests can reach, a request that waits for a locked mutex, and may so be
-- aborted, is held up by a request that is in the handler for the same id or the same name.
pub abort-owner :
    (w : World) (i : ℕ) (k : Key) (a : ℕ)
    → Reachable w
    → w.threads i ≡ waiting k a
    → w.held a ≡ true
    → (j : ℕ) × (w.threads j ≡ running k a)
abort-owner w i k a r e busy =
    let inv = reachable-Invariant r in
    let mine = subst (HasLock w.locks) e (inv.has_lock i) in
    let (j, runs) = inv.has_owner a busy in
    (j, Runs-with w.locks k a (w.threads j) inv.distinct mine (inv.has_lock j) runs)
