-- ===== src/Presence/Tests.antt =====
-- A run of src/prodeo/presence/tracker.py at concrete inputs.
use command_center.Base.{ℕ, List, [], ◌∷◌, true, false, ◌≡◌, ◌↔◌, arith}
use command_center.Presence.Tracker.{any_attentive}
use command_center.Presence.Tracker.Lazy.{
  Call, reports, lists, asks, run, heard, IsAttentive, any_attentive-IsAttentive,
}

abbrev calls : List (ℕ × Call)
calls =
    (1, reports "desk" "dashboard" true 10 "hub")
    ∷ (2, reports "voice" "voice" true 100 "hub")
    ∷ (20, lists)
    ∷ (21, reports "voice" "voice" false 100 "hub")
    ∷ (22, asks)
    ∷ (23, reports "desk" "dashboard" true 10 "hub")
    ∷ []

any_attentive-IsAttentive_example :
    ((any_attentive 24 (run [] calls)).0 ≡ true) ↔ IsAttentive 24 (heard [] calls)
any_attentive-IsAttentive_example = any_attentive-IsAttentive calls 24 (
  omega arith,
  (omega arith, (omega arith, (omega arith, (omega arith, (omega arith, omega arith))))),
)
