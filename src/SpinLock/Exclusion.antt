-- ===== src/SpinLock/Exclusion.antt =====
-- The spin lock: who is inside, and how a thread that spins gets in.
use funderberker.Common.{
  ℕ, Bool, true, false, ◌≡◌, ◌⊎◌, inl, inr, refl, ◌==◌, ==_iff, if◌then◌else◌, Bool-cases, sym, ◌∙◌,
}
use funderberker.SpinLock.{
  Phase, outside, spinning, holding, releasing, Lock, new, call_lock, swap_round, write,
  drop_custom, unlock, Step, calls, swaps, writes, drops, unlocks, Runs, done, and_then,
}

-- Whether a thread has the guard or is about to store the flag.
abbrev pub inside : Phase → Bool
inside holding = true
inside releasing = true
inside _ = false

-- The flag is set exactly while a thread is inside, and no two are.
pub record IsExclusive {T : Type 0} (l : Lock T) : Type 0 where
  pub only : (i j : ℕ) → inside (l.phase i) ≡ true → inside (l.phase j) ≡ true → i ≡ j
  pub flagged : (i : ℕ) → inside (l.phase i) ≡ true → l.lock ≡ true
  pub owner : (l.lock ≡ false) ⊎ ((i : ℕ) × (inside (l.phase i) ≡ true))

-- A step after which the same threads are inside
same_inside :
    {T : Type 0} {l u : Lock T}
    → ((j : ℕ) → inside (u.phase j) ≡ inside (l.phase j))
    → u.lock ≡ l.lock
    → IsExclusive l
    → IsExclusive u
same_inside {T} {l} {u} same flag ex = record {
  only = λ i j a b. ex.only i j (sym (same i) ∙ a) (sym (same j) ∙ b);
  flagged = λ i a. flag ∙ ex.flagged i (sym (same i) ∙ a);
  owner = elim ex.owner [ inl free ↦ inl (flag ∙ free) | inr (i, a) ↦ inr (i, same i ∙ a) ];
}

moved_inside :
    (phase : ℕ → Phase) (i : ℕ) (p : Phase)
    → inside (phase i) ≡ inside p
    → (j : ℕ) → inside (if j == i then p else phase j) ≡ inside (phase j)
moved_inside phase i p same j = elim (Bool-cases (j == i)) [
  | inl here ↦ let e : j ≡ i = (==_iff j i).0 here in rw (here, e) (sym same)
  | inr away ↦ rw away refl
]

-- Where at most the thread that moves was inside, at most that one is.
moved_only :
    (phase : ℕ → Phase) (i : ℕ) (p : Phase)
    → ((j : ℕ) → inside (phase j) ≡ true → j ≡ i)
    → (j : ℕ) → inside (if j == i then p else phase j) ≡ true
    → (j ≡ i) × (inside p ≡ true)
moved_only phase i p only j h = elim (Bool-cases (j == i)) [
  | inl here ↦ ((==_iff j i).0 here, rw here at h)
  | inr away ↦
      let e : j ≡ i = only j (rw away at h) in let same : j == i ≡ true = (==_iff j i).1 e in cc
]

module _ {T : Type 0} (custom_unlock : T → T) where
  Step-IsExclusive : {l u : Lock T} → Step T custom_unlock l u → IsExclusive l → IsExclusive u
  unfolding call_lock swap_round write drop_custom unlock
  Step-IsExclusive {l} (calls i at) ex =
      same_inside (moved_inside l.phase i spinning (rw at refl)) refl ex
  Step-IsExclusive {l} (swaps i at) ex = elim (Bool-cases l.lock) [
    | inl taken ↦
        same_inside (λ j. rw taken (moved_inside l.phase i spinning (rw at refl) j)) (sym taken) ex
    | inr free ↦
        let none_inside : (j : ℕ) → inside (l.phase j) ≡ true → j ≡ i =
          λ j a. let set_ = ex.flagged j a in cc in
        let moved = λ (j : ℕ) (a : inside ((swap_round T i l).phase j) ≡ true).
          (moved_only l.phase i holding none_inside j (rw free at a)).0 in
        record {
          only = λ j k a b. moved j a ∙ sym (moved k b);
          flagged = λ j a. refl;
          owner = inr (i, rw ((==_iff i i).1 refl, free) refl);
        }
  ]
  Step-IsExclusive {l} (writes i value at) ex = record {
    only = ex.only;
    flagged = ex.flagged;
    owner = ex.owner;
  }
  Step-IsExclusive {l} (drops i at) ex =
      same_inside (moved_inside l.phase i releasing (rw at refl)) refl ex
  Step-IsExclusive {l} (unlocks i at) ex =
      let here : inside (l.phase i) ≡ true = rw at refl in
      let nobody = λ (j : ℕ) (a : inside ((unlock T i l).phase j) ≡ true).
        (moved_only l.phase i outside (λ k b. ex.only k i b here) j a).1 in
      record {
        only = λ j k a b. let never : false ≡ true = nobody j a in cc;
        flagged = λ j a. nobody j a;
        owner = inl refl;
      }

  -- From a new lock, in whatever order the threads step: no two threads are inside at once, where a
  -- thread is inside from the end of `lock` until its guard has stored the flag, and the flag is set
  -- exactly while one is.
  pub Runs-IsExclusive :
      {value : T} {l : Lock T} → Runs T custom_unlock (new T value) l → IsExclusive l
  Runs-IsExclusive done = record {
    only = λ i j a b. let never : false ≡ true = a in cc;
    flagged = λ i a. a;
    owner = inl refl;
  }
  Runs-IsExclusive (and_then runs step) = Step-IsExclusive step (Runs-IsExclusive runs)

  taken_by : (l : Lock T) (i : ℕ) → l.lock ≡ false → (swap_round T i l).phase i ≡ holding
  unfolding swap_round
  taken_by l i free = rw ((==_iff i i).1 refl, free) refl

  still_spins :
      (l : Lock T) (i j : ℕ) (p : Phase)
      → l.phase i ≡ spinning
      → inside (l.phase j) ≡ true
      → (if i == j then p else l.phase i) ≡ spinning
  still_spins l i j p at a = elim (Bool-cases (i == j)) [
    | inl same ↦
        let e : i ≡ j = (==_iff i j).0 same in let never : false ≡ true = (rw (← e, at) at a) in cc
    | inr other ↦ rw other at
  ]

  after_release :
      {k : Lock T} (l : Lock T) (i j : ℕ)
      → Runs T custom_unlock k l
      → l.phase i ≡ spinning
      → l.phase j ≡ releasing
      → (u : Lock T) × Runs T custom_unlock k u × (u.phase i ≡ holding)
  unfolding unlock
  after_release l i j runs at leaving =
      let l' = unlock T j l in
      (
        swap_round T i l',
        and_then (and_then runs (unlocks j leaving))
            (swaps i (still_spins l i j outside at (rw leaving refl))),
        taken_by l' i refl,
      )

  after_drop :
      {k : Lock T} (l : Lock T) (i j : ℕ)
      → Runs T custom_unlock k l
      → l.phase i ≡ spinning
      → l.phase j ≡ holding
      → (u : Lock T) × Runs T custom_unlock k u × (u.phase i ≡ holding)
  unfolding drop_custom
  after_drop l i j runs at held =
      after_release (drop_custom T custom_unlock j l) i j (and_then runs (drops j held))
        (still_spins l i j releasing at (rw held refl)) (rw ((==_iff j j).1 refl) refl)

  inside-cases : (p : Phase) → inside p ≡ true → (p ≡ holding) ⊎ (p ≡ releasing)
  inside-cases outside a = cc
  inside-cases spinning a = cc
  inside-cases holding a = inl refl
  inside-cases releasing a = inr refl

  -- No deadlock: from a new lock, whenever a thread spins, some steps of the thread that is inside, if
  -- there is one, and then one round of its own loop let it in.
  pub Runs-enters :
      {value : T} {l : Lock T} (i : ℕ)
      → Runs T custom_unlock (new T value) l
      → l.phase i ≡ spinning
      → (u : Lock T) × Runs T custom_unlock l u × (u.phase i ≡ holding)
  unfolding drop_custom unlock
  Runs-enters {value} {l} i runs at = elim (Runs-IsExclusive runs).owner [
    | inl free ↦ (swap_round T i l, and_then done (swaps i at), taken_by l i free)
    | inr (j, a) ↦ elim (inside-cases (l.phase j) a) [
      | inl held ↦ after_drop l i j done at held
      | inr leaving ↦ after_release l i j done at leaving
    ]
  ]
