-- ===== src/Examples/Logins.antt =====
-- A login that is started, approved and polled.
use swift_proof.Prelude.{List, [], count_if, false, none, refl, true, ℕ, ◌*◌, ◌∷◌, ◌≡◌, ◌≤◌}
use swift_proof.Prelude.Dict.{get}
use swift_proof.Texts.{to_lower}
use swift_proof.UserCode.{display_user_code, new_user_code, normalize_user_code}
use swift_proof.UserCode.Typed.{normalize_user_code-display}
use swift_proof.Devices.{
  DeviceFlows, DeviceGrant, begun, decide_grant, granted, new_grant, no_logins, poll, second, start,
}
use swift_proof.Devices.Links.{IsLinked}
use swift_proof.Devices.Runs.{
  Event, Run, Run-IsLinked, Step, answer, answers, begin, idle, more, starts,
}
use swift_proof.Devices.Runs.History.{ApprovedSince, granted-ApprovedSince}
use swift_proof.Devices.Runs.Once.{Run-once, hands_over, issues}
use swift_proof.Devices.Refines.{Moves, Step-Moves, phase}

abbrev pub drawn : List ℕ
drawn = 0 ∷ 1 ∷ 2 ∷ 3 ∷ 4 ∷ 5 ∷ 6 ∷ 7 ∷ []

normalize_user_code-display_example :
    (normalize_user_code "BCDFGHJK" ≡ "BCDFGHJK")
    × (normalize_user_code (display_user_code "BCDFGHJK") ≡ "BCDFGHJK")
    × (normalize_user_code (to_lower (display_user_code "BCDFGHJK")) ≡ "BCDFGHJK")
unfolding new_user_code
normalize_user_code-display_example = normalize_user_code-display drawn "BCDFGHJK" refl refl

abbrev waiting_grant : DeviceGrant
waiting_grant = new_grant "BCDFGHJK" "cli" second

abbrev pub one_login : DeviceFlows
one_login = record { by_device = ("h1", waiting_grant) ∷ []; by_user = ("BCDFGHJK", "h1") ∷ [] }

abbrev pub approved_grant : DeviceGrant
approved_grant = record waiting_grant { user_key = "ann" }

abbrev pub approved_login : DeviceFlows
approved_login = record one_login { by_device = ("h1", approved_grant) ∷ [] }

started_test : start "h1" "cli" second (drawn ∷ []) no_logins ≡ (one_login, begun "BCDFGHJK")
unfolding start
started_test = refl

approved_test : decide_grant "BCDFGHJK" "ann" true (2 * second) one_login ≡ (approved_login, true)
unfolding decide_grant
approved_test = refl

handed_test : poll "h1" (3 * second) approved_login ≡ (no_logins, granted approved_grant)
unfolding poll
handed_test = refl

started-Step : Step (starts "h1" "BCDFGHJK" second) no_logins one_login
unfolding start get
started-Step = begin "h1" "cli" "BCDFGHJK" second (drawn ∷ []) no_logins (λ e. cc) refl refl

approved-Step : Step (answers "BCDFGHJK" "ann" true (2 * second) true) one_login approved_login
unfolding decide_grant
approved-Step = answer "BCDFGHJK" "ann" true (2 * second) one_login (λ e. cc)

abbrev pub history : List Event
history = answers "BCDFGHJK" "ann" true (2 * second) true ∷ starts "h1" "BCDFGHJK" second ∷ []

pub approved-Run : Run history approved_login
approved-Run = more (more idle started-Step) approved-Step

Run-IsLinked_example : IsLinked approved_login
Run-IsLinked_example = Run-IsLinked history approved_login approved-Run

granted-ApprovedSince_example :
    ApprovedSince "h1" "BCDFGHJK" "ann" history
    × (3 * second ≤ 601 * second)
    × (false ≡ false)
    × (get "h1" (poll "h1" (3 * second) approved_login).0.by_device ≡ none)
unfolding poll
granted-ApprovedSince_example =
    granted-ApprovedSince history approved_login "h1" (3 * second) approved_grant approved-Run refl

Run-once_example : count_if (hands_over "h1") history ≤ count_if (issues "h1") history
Run-once_example = Run-once history approved_login "h1" approved-Run

Step-Moves_example :
    Moves
      (answers "BCDFGHJK" "ann" true (2 * second) true)
      (λ k. phase (2 * second) k one_login)
      (λ k. phase (2 * second) k approved_login)
Step-Moves_example = Step-Moves approved-Step
