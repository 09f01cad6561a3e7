-- ===== src/Apps/Supervisor/Fit.antt =====
-- The invariant of src/prodeo/apps/supervisor.py: which child an app has, and what its task may do next.
use command_center.Base.{
  ℕ, suc, ◌≤◌, ◌*◌, String, Option, none, some, Bool, true, false, not, ◌||◌, string_Eq, ◌==◌, ◌≡◌,
  refl, sym, ◌∙◌, Bool-cases, Option-cases, inl, inr, some_inj, subst,
}
use command_center.Base.Dict.{Dict, get, put, get-put}
use command_center.Events.Host.{Host}
use command_center.Apps.Supervisor.{
  AppManifest, AppState, running, Task, looping, waiting, sleeping, done, Running, Supervisor,
  second, running_of, store, is_present, status_of,
}

abbrev pub is_running : AppState → Bool
is_running running = true
is_running _ = false

-- No child, and not shown as running.
abbrev pub IsIdle : Running → Type 0
IsIdle r = (r.process ≡ none) × (r.pid ≡ none) × (is_running r.state ≡ false)

-- A backoff between a second and a minute, and fewer than five crashes.
abbrev pub IsBounded : ℕ → ℕ → Type 0
IsBounded backoff crash_loop = (second ≤ backoff) × (backoff ≤ 60 * second) × (suc crash_loop ≤ 5)

abbrev pub FitsTask : Bool → Running → Option Task → Type 0
FitsTask stopping r none = IsIdle r × ((not r.wanted || stopping) ≡ true)
FitsTask stopping r (some done) = IsIdle r × ((not r.wanted || stopping) ≡ true)
FitsTask stopping r (some (looping backoff crash_loop)) =
    IsIdle r × (r.wanted ≡ true) × IsBounded backoff crash_loop
FitsTask stopping r (some (sleeping backoff crash_loop)) =
    IsIdle r × (r.wanted ≡ true) × IsBounded backoff crash_loop
FitsTask stopping r (some (waiting backoff crash_loop)) =
    (p : ℕ) × (r.process ≡ some p)
    × (r.pid ≡ some p)
    × (r.state ≡ running)
    × (r.wanted ≡ true)
    × IsBounded backoff crash_loop

-- An app has a child, whose pid is shown, exactly while its task waits for that child, and then it is
-- wanted and shown as running. A task that will launch has no child yet. An app without a live task is
-- not wanted, unless the supervisor is stopping.
abbrev pub Fits : Bool → Running → Type 0
Fits stopping r = FitsTask stopping r r.task

abbrev pub IsFit : Supervisor → Type 0
IsFit s = (name : String) (r : Running) → get s.states name ≡ some r → Fits s.stopping r

pub running_of-Fits :
    (s : Supervisor) (name : String) → IsFit s → Fits s.stopping (running_of s name)
unfolding running_of
running_of-Fits s name v = elim (Option-cases (get s.states name)) [
  | inl new ↦ rw (running_of, new) ((refl, refl, refl), refl)
  | inr (r, known) ↦ rw (running_of, known) (v name r known)
]

-- What holds of all states holds of them after one is written.
pub put-all :
    (P : Running → Type 0) (states : Dict String Running) (name : String) (r : Running)
    → ((other : String) (x : Running) → get states other ≡ some x → P x)
    → P r
    → (other : String) (x : Running) → get (put states name r) other ≡ some x
    → P x
put-all P states name r v p other x found = elim (Bool-cases (name == other)) [
  | inl same ↦
      let e : r ≡ x = some_inj (sym (get-put states name other r ∙ rw same) ∙ found) in subst P e p
  | inr apart ↦ v other x (sym (get-put states name other r ∙ rw apart) ∙ found)
]

pub store-IsFit :
    (s : Supervisor) (name : String) (r : Running)
    → IsFit s
    → Fits s.stopping r
    → IsFit (store s name r)
store-IsFit s name r v fit = put-all (Fits s.stopping) s.states name r v fit

pub is_present-IsFit :
    (h : Host) (s : Supervisor) (m : AppManifest) → IsFit s → IsFit (is_present h s m).2
unfolding is_present
is_present-IsFit h s m v = elim (Option-cases s.presence) [
  | inl absent ↦ rw (is_present, absent) v
  | inr (clients, there) ↦ elim (Bool-cases (m.presence_client_id == "")) [
    | inl anonymous ↦ rw (is_present, there, anonymous) v
    | inr named ↦ rw (is_present, there, named) v
  ]
]

pub status_of-IsFit :
    (h : Host) (s : Supervisor) (name : String) → IsFit s → IsFit (status_of h s name).supervisor
unfolding status_of
status_of-IsFit h s name v = elim (Option-cases (get s.apps name)) [
  | inl unknown ↦ rw (status_of, unknown) v
  | inr (m, installed) ↦
      rw (status_of, installed)
        (is_present-IsFit h (store s name (running_of s name)) m
          (store-IsFit s name (running_of s name) v (running_of-Fits s name v)))
]
