-- ===== src/Realtime/Shut.antt =====
-- That a session which kid mode, or the local profile, closes stays closed.
use dotty_stackchan.Prelude.{◌≡◌, true, List, [], ◌∷◌}
use dotty_stackchan.Realtime.State.{World}
use dotty_stackchan.Realtime.System.{Action}
use dotty_stackchan.Realtime.KidMode.{is_shut}

abbrev pub AreShut : List (World × Action) → Type 0
AreShut [] = Unit
AreShut ((w, x) ∷ xs) = (is_shut w ≡ true) × AreShut xs
