-- ===== src/Fork/Pool/Ledger.antt =====
-- Who owns each running process: a live fork, an idle slot of the attached warm pool, or anyone else.
use firefork_ai.Prelude.{
  ℕ, ◌+◌, ◌≤◌, ◌<◌, ◌≡◌, refl, ap, List, [], ◌∷◌, ◌++◌, Option, none, some, if◌then◌else◌, All,
  Bool-cases, inl, inr, arith,
}
use firefork_ai.Prelude.Text.{Text, text_eq, text_eq_iff}
use firefork_ai.Prelude.Table.{lookup, insert}
use firefork_ai.Fc.Host.{count, count-remove_one, count_self, remove_one}
use firefork_ai.Fork.WarmPool.{WarmPool, Slot}
use firefork_ai.Fork.WarmPool.Ownership.{slot_count, slot_count-append}
use firefork_ai.Fork.Pool.{Fork}

-- How often a process id is that of a fork's process.
unfoldable pub fork_count : Text → Fork → ℕ
fork_count x r = elim r.warm_cmd [
  | some id ↦ count x (id ∷ [])
  | none ↦ if r.sdk then count x (r.id ∷ []) else 0
]

unfoldable pub live_count : Text → List (Text × Fork) → ℕ
live_count x [] = 0
live_count x ((k, r) ∷ l) = fork_count x r + live_count x l

unfoldable pub warm_count : Text → Option WarmPool → ℕ
warm_count x none = 0
warm_count x (some w) = slot_count x w.idle

-- The process of a live fork goes by the fork's key.
abbrev pub HasProcess : Text × Fork → Type 0
HasProcess (k, r) = (x : Text) → fork_count x r ≡ count x (k ∷ [])

-- Every process runs once at most, and each that runs has exactly one owner; `others` says how often
-- a process belongs to someone else, such as a goroutine of the warm pool.
pub record IsSound (others : Text → ℕ) (live : List (Text × Fork)) (warm : Option WarmPool)
    (running : List Text) : Type 0 where
  pub accounted : (x : Text) → count x running ≡ live_count x live + warm_count x warm + others x
  pub unique : (x : Text) → count x running ≤ 1
  pub keyed : All HasProcess live

abbrev pub and_one : (Text → ℕ) → Text → Text → ℕ
and_one others id x = others x + count x (id ∷ [])

pub lookup-live_count :
    (k : Text) (live : List (Text × Fork))
    → All HasProcess live
    → live_count k live ≡ 0
    → lookup k live ≡ none
unfolding live_count lookup
lookup-live_count k [] h z = refl
lookup-live_count k ((j, r) ∷ l) (p, h) z =
    ground (arith, p k, count_self k, text_eq_iff j k, lookup-live_count k l h)

live_count-insert :
    (x k : Text) (r : Fork) (live : List (Text × Fork))
    → lookup k live ≡ none
    → live_count x (insert k r live) ≡ live_count x live + fork_count x r
unfolding live_count lookup insert
live_count-insert x k r [] e = omega arith
live_count-insert x k r ((j, s) ∷ l) e = ground (arith, live_count-insert x k r l)

insert-HasProcess :
    (k : Text) (r : Fork) (live : List (Text × Fork))
    → HasProcess (k, r)
    → All HasProcess live
    → All HasProcess (insert k r live)
unfolding insert
insert-HasProcess k r [] p h = (p, tt)
insert-HasProcess k r ((j, s) ∷ l) p (q, h) = elim (Bool-cases (text_eq j k)) [
  | inl e ↦ rw (e, insert) (p, h)
  | inr e ↦ rw (e, insert) (q, insert-HasProcess k r l p h)
]

module _ (others : Text → ℕ) (live : List (Text × Fork)) (warm : Option WarmPool)
    (running : List Text) where
  -- A process that belongs to someone else is not that of a live fork.
  pub absent : (id : Text) → IsSound (and_one others id) live warm running → lookup id live ≡ none
  absent id v =
      lookup-live_count id live v.keyed (omega (arith, v.accounted id, v.unique id, count_self id))

  -- It becomes a live fork,
  pub adopt :
      (r : Fork)
      → HasProcess (r.id, r)
      → IsSound (and_one others r.id) live warm running
      → IsSound others (insert r.id r live) warm running
  adopt r p v = record {
    accounted =
        λ x. omega (arith, v.accounted x, p x, live_count-insert x r.id r live (absent r.id v));
    unique = v.unique;
    keyed = insert-HasProcess r.id r live p v.keyed;
  }

  -- or is killed.
  pub kill_other :
      (id : Text)
      → IsSound (and_one others id) live warm running
      → IsSound others live warm (remove_one id running)
  kill_other id v =
      let here : 0 < count id running = omega (arith, v.accounted id, count_self id) in
      record {
        accounted = λ x. omega (arith, v.accounted x, count-remove_one x id running here);
        unique = λ x. omega (arith, v.unique x, count-remove_one x id running here);
        keyed = v.keyed;
      }

  -- A new process belongs to whoever starts it.
  pub start_other :
      (id : Text)
      → count id running ≡ 0
      → IsSound others live warm running
      → IsSound (and_one others id) live warm (id ∷ running)
  unfolding count
  start_other id z v = record {
    accounted = λ x. ground (arith, v.accounted x);
    unique = λ x. ground (arith, v.unique x, text_eq_iff x id);
    keyed = v.keyed;
  }

  -- Only how often each process runs matters.
  pub recount :
      (now : List Text)
      → ((x : Text) → count x now ≡ count x running)
      → IsSound others live warm running
      → IsSound others live warm now
  recount now e v = record {
    accounted = λ x. omega (arith, v.accounted x, e x);
    unique = λ x. omega (arith, v.unique x, e x);
    keyed = v.keyed;
  }

-- A taken slot belongs to its taker.
pub take_other :
    (others : Text → ℕ) (live : List (Text × Fork)) (w w' : WarmPool) (running : List Text)
    (rest : List Slot) (s : Slot)
    → w.idle ≡ rest ++ s ∷ []
    → w'.idle ≡ rest
    → IsSound others live (some w) running
    → IsSound (and_one others s.id) live (some w') running
unfolding warm_count slot_count
take_other others live w w' running rest s e f v = record {
  accounted = λ x. omega (
    arith,
    v.accounted x,
    ap (slot_count x) e,
    ap (slot_count x) f,
    slot_count-append x rest (s ∷ []),
  );
  unique = v.unique;
  keyed = v.keyed;
}

-- The pool with the same idle slots.
pub same_idle :
    (others : Text → ℕ) (live : List (Text × Fork)) (w w' : WarmPool) (running : List Text)
    → w'.idle ≡ w.idle
    → IsSound others live (some w) running
    → IsSound others live (some w') running
unfolding warm_count
same_idle others live w w' running e v = record {
  accounted = λ x. omega (arith, v.accounted x, ap (slot_count x) e);
  unique = v.unique;
  keyed = v.keyed;
}
