-- ===== src/Adapters/Manager/Backoff.antt =====
-- The pauses between the crashes of a watch in src/prodeo/adapters/manager.py.
use command_center.Base.{
  ℕ, zero, suc, ◌*◌, ◌^◌, ◌≤◌, List, [], ◌∷◌, false, ltb, min, length, All, ◌≡◌, refl, arith,
  Bool-cases, inl, inr,
}
use command_center.Adapters.Manager.Discovery.{backoff_step, backoffs}

abbrev second : ℕ
second = 1000000

-- From one second to one minute.
abbrev pub IsPause : ℕ → Type 0
IsPause t = (second ≤ t) × (t ≤ 60 * second)

step-IsPause :
    (backoff ran_for : ℕ)
    → IsPause backoff
    → IsPause (backoff_step backoff ran_for).0 × IsPause (backoff_step backoff ran_for).1
unfolding backoff_step
step-IsPause backoff ran_for (low, high) = elim (Bool-cases (ltb (60 * second) ran_for)) [
  | inl long ↦ rw long ((omega arith, omega arith), (omega arith, omega arith))
  | inr short ↦ rw short ((low, high), (omega arith, omega arith))
]

-- However long a watch has run before each of its crashes, each pause is at least a second and at most
-- a minute, if the first backoff is.
pub backoffs-IsPause :
    (backoff : ℕ) (runs : List ℕ) → IsPause backoff → All IsPause (backoffs backoff runs)
unfolding backoffs
backoffs-IsPause backoff [] v = tt
backoffs-IsPause backoff (r ∷ runs) v =
    let (now_, next) = step-IsPause backoff r v in
    (now_, backoffs-IsPause (backoff_step backoff r).1 runs next)

-- The schedule of an exponential backoff, from its n-th pause on.
unfoldable pub doubling : ℕ → ℕ → List ℕ
doubling n zero = []
doubling n (suc k) = min (2 ^ n * second) (60 * second) ∷ doubling (suc n) k

abbrev pub IsShort : ℕ → Type 0
IsShort t = t ≤ 60 * second

doubles_from :
    (n : ℕ) (runs : List ℕ)
    → All IsShort runs
    → backoffs (min (2 ^ n * second) (60 * second)) runs ≡ doubling n (length runs)
unfolding backoffs doubling backoff_step
doubles_from n [] v = refl
doubles_from n (r ∷ runs) (short, rest) =
    let quick : ltb (60 * second) r ≡ false = ground arith in
    let next : min (min (2 ^ n * second) (60 * second) * 2) (60 * second)
        ≡ min (2 ^ suc n * second) (60 * second) =
      omega arith in
    rw (quick, next, doubles_from (suc n) runs rest)

-- While a watch crashes within a minute of each start, its pauses are those of an exponential backoff:
-- a second, doubled each time, up to a minute.
pub backoffs_double :
    (runs : List ℕ) → All IsShort runs → backoffs second runs ≡ doubling 0 (length runs)
backoffs_double runs v = doubles_from 0 runs v
