-- ===== src/SpinLock.antt =====
-- utils/src/sync/spinlock.rs: the spin lock, with any number of threads that take and release it. A
-- thread runs its calls one atomic step after another, and any thread may be the next to run. The
-- steps are sequentially consistent; the `Acquire` and `Release` orderings are not modelled.
pub mod Exclusion
use funderberker.Common.{ℕ, Bool, true, false, ◌≡◌, ◌==◌, if◌then◌else◌}

-- Where a thread is: outside, in the loop of `lock`, between `lock` and the drop of its guard, or in
-- that `drop`, after `custom_unlock`.
pub data Phase : Type 0 where
  outside : Phase
  spinning : Phase
  holding : Phase
  releasing : Phase

module _ (T : Type 0) where
  -- `SpinLock`, and where each thread is
  pub record Lock : Type 0 where
    pub lock : Bool
    pub data_ : T
    pub phase : ℕ → Phase

  -- `SpinLock::new`
  abbrev pub new : T → Lock
  new data_ = record { lock = false; data_ = data_; phase = λ i. outside }

  abbrev move : ℕ → Phase → (ℕ → Phase) → ℕ → Phase
  move i p phase j = if j == i then p else phase j

  -- A call of `lock`
  unfoldable pub call_lock : ℕ → Lock → Lock
  call_lock i l = record l { phase = move i spinning l.phase }

  -- A round of the loop in `lock`: `swap(true)`, which ends the loop if the flag was not set.
  unfoldable pub swap_round : ℕ → Lock → Lock
  swap_round i l = record l {
    lock = true;
    phase = move i (if l.lock then spinning else holding) l.phase;
  }

  -- A write through the guard
  unfoldable pub write : T → Lock → Lock
  write value l = record l { data_ = value }

  -- `custom_unlock` in the drop of the guard, which the lockable type may define
  unfoldable pub drop_custom : (T → T) → ℕ → Lock → Lock
  drop_custom custom_unlock i l = record l {
    data_ = custom_unlock l.data_;
    phase = move i releasing l.phase;
  }

  -- `unlock`: the flag is stored.
  unfoldable pub unlock : ℕ → Lock → Lock
  unlock i l = record l { lock = false; phase = move i outside l.phase }

  -- One atomic step of one thread
  pub data Step (custom_unlock : T → T) (l : Lock) : Lock → Type 0 where
    calls : (i : ℕ) → l.phase i ≡ outside → Step custom_unlock l (call_lock i l)
    swaps : (i : ℕ) → l.phase i ≡ spinning → Step custom_unlock l (swap_round i l)
    writes : (i : ℕ) (value : T) → l.phase i ≡ holding → Step custom_unlock l (write value l)
    drops : (i : ℕ) → l.phase i ≡ holding → Step custom_unlock l (drop_custom custom_unlock i l)
    unlocks : (i : ℕ) → l.phase i ≡ releasing → Step custom_unlock l (unlock i l)

  -- Any number of steps
  pub data Runs (custom_unlock : T → T) (l : Lock) : Lock → Type 0 where
    done : Runs custom_unlock l l
    and_then :
        {m n : Lock} → Runs custom_unlock l m → Step custom_unlock m n → Runs custom_unlock l n
