-- ===== src/SerialVolume/Provider.antt =====
-- middleware/serialvolume/default_lock_provider.go: the locks by id and by name, made at first use. A
-- lock is the number of the `TryMutex`, in the order in which they were made.
use gocsi.Base.{
  ℕ, ◌+◌, ◌<◌, ◌≡◌, ◌≢◌, refl, sym, ap, ◌∙◌, arith, Option-cases, inl, inr, Option, none, some,
  List, [], Text, ==_ne, ==_refl, lookup, insert, lookup-insert,
}
use gocsi.SerialVolume.{Key, Key-discrete, id, named}

pub record Locks : Type 0 where
  pub vol_id_locks : List (Text × ℕ)
  pub vol_name_locks : List (Text × ℕ)
  pub made : ℕ

abbrev pub no_locks : Locks
no_locks = record { vol_id_locks = []; vol_name_locks = []; made = 0 }

-- `GetLockWithID`
unfoldable pub get_lock_with_id : Text → Locks → ℕ × Locks
get_lock_with_id t l = elim (lookup t l.vol_id_locks) [
  | some a ↦ (a, l)
  | none ↦ (l.made, record l { vol_id_locks = insert t l.made l.vol_id_locks; made = l.made + 1 })
]

-- `GetLockWithName`
unfoldable pub get_lock_with_name : Text → Locks → ℕ × Locks
get_lock_with_name t l = elim (lookup t l.vol_name_locks) [
  | some a ↦ (a, l)
  | none ↦
      (l.made, record l { vol_name_locks = insert t l.made l.vol_name_locks; made = l.made + 1 })
]

unfoldable pub get_lock : Key → Locks → ℕ × Locks
unfolding get_lock_with_id get_lock_with_name
get_lock (id t) l = get_lock_with_id t l
get_lock (named t) l = get_lock_with_name t l

abbrev pub lock_of : Locks → Key → Option ℕ
lock_of l (id t) = lookup t l.vol_id_locks
lock_of l (named t) = lookup t l.vol_name_locks

-- The locks were made before, and no two keys share one.
pub record Distinct (l : Locks) : Type 0 where
  pub below : (k : Key) (a : ℕ) → lock_of l k ≡ some a → a < l.made
  pub apart : (j k : Key) (a : ℕ) → lock_of l j ≡ some a → lock_of l k ≡ some a → j ≡ k

-- What a lookup does: the key has the lock, and the others keep theirs.
pub record Found (k : Key) (l l' : Locks) (a : ℕ) : Type 0 where
  pub here : lock_of l' k ≡ some a
  pub kept : (j : Key) (b : ℕ) → lock_of l j ≡ some b → lock_of l' j ≡ some b
  pub distinct : Distinct l'

pub some_inj : {a b : ℕ} → Path (Option ℕ) (some a) (some b) → a ≡ b
some_inj e = cc

pub some-none : {a : ℕ} → ¬ Path (Option ℕ) (some a) none
some-none e = absurd cc

-- A new lock is below the new number, and no other key has it.
fresh :
    (k : Key) (l l' : Locks)
    → lock_of l k ≡ none
    → lock_of l' k ≡ some l.made
    → ((j : Key) → k ≢ j → lock_of l' j ≡ lock_of l j)
    → l'.made ≡ l.made + 1
    → Distinct l
    → Found k l l' l.made
fresh k l l' missing here others more d = record {
  here = here;
  kept = λ j b e. elim (Key-discrete k j) [
    | yes same ↦ absurd (some-none (sym e ∙ ap (lock_of l) (sym same) ∙ missing))
    | no other ↦ others j other ∙ e
  ];
  distinct = record {
    below = λ j b e. elim (Key-discrete k j) [
      | yes same ↦
          let new : l.made ≡ b = some_inj (sym here ∙ ap (lock_of l') same ∙ e) in omega arith
      | no other ↦ let old = d.below j b (sym (others j other) ∙ e) in omega arith
    ];
    apart = λ i j b e f. elim (Key-discrete k i) [
      | yes this ↦ elim (Key-discrete k j) [
        | yes that ↦ sym this ∙ that
        | no other ↦
            let new : l.made ≡ b = some_inj (sym here ∙ ap (lock_of l') this ∙ e) in
            let old = d.below j b (sym (others j other) ∙ f) in absurd (omega arith)
      ]
      | no that ↦ elim (Key-discrete k j) [
        | yes this ↦
            let new : l.made ≡ b = some_inj (sym here ∙ ap (lock_of l') this ∙ f) in
            let old = d.below i b (sym (others i that) ∙ e) in absurd (omega arith)
        | no other ↦ d.apart i j b (sym (others i that) ∙ e) (sym (others j other) ∙ f)
      ]
    ];
  };
}

other_text :
    (t u : Text) (a : ℕ) (m : List (Text × ℕ)) → t ≢ u → lookup u (insert t a m) ≡ lookup u m
other_text t u a m h = lookup-insert t u a m ∙ rw (==_ne t u h) refl

this_text : (t : Text) (a : ℕ) (m : List (Text × ℕ)) → lookup t (insert t a m) ≡ some a
this_text t a m = lookup-insert t t a m ∙ rw (==_refl t) refl

others_id :
    (t : Text) (l : Locks) (j : Key)
    → id t ≢ j
    → lock_of (record l { vol_id_locks = insert t l.made l.vol_id_locks; made = l.made + 1 }) j
      ≡ lock_of l j
others_id t l (id u) h = other_text t u l.made l.vol_id_locks (λ e. h (ap id e))
others_id t l (named u) h = refl

others_name :
    (t : Text) (l : Locks) (j : Key)
    → named t ≢ j
    → lock_of (record l { vol_name_locks = insert t l.made l.vol_name_locks; made = l.made + 1 }) j
      ≡ lock_of l j
others_name t l (id u) h = refl
others_name t l (named u) h = other_text t u l.made l.vol_name_locks (λ e. h (ap named e))

-- A lookup gives the lock of its key, a new one if the key had none; the other keys keep theirs, and
-- no two keys share one.
pub get_lock-Found :
    (k : Key) (l : Locks) → Distinct l → Found k l (get_lock k l).1 (get_lock k l).0
unfolding get_lock get_lock_with_id get_lock_with_name
get_lock-Found (id t) l d = elim (Option-cases (lookup t l.vol_id_locks)) [
  | inr (a, e) ↦ rw (e, get_lock_with_id) (record { here = e; kept = λ j b f. f; distinct = d })
  | inl e ↦
      rw (e, get_lock_with_id)
        (fresh (id t) l _ e (this_text t l.made l.vol_id_locks) (others_id t l) refl d)
]
get_lock-Found (named t) l d = elim (Option-cases (lookup t l.vol_name_locks)) [
  | inr (a, e) ↦ rw (e, get_lock_with_name) (record { here = e; kept = λ j b f. f; distinct = d })
  | inl e ↦
      rw (e, get_lock_with_name)
        (fresh (named t) l _ e (this_text t l.made l.vol_name_locks) (others_name t l) refl d)
]
