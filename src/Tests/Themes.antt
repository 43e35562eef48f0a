-- ===== src/Tests/Themes.antt =====
-- Runs of the theme buttons of the two front ends at fixed inputs.
use waddle_perf.Common.{List, [], ◌∷◌, true, false}
use waddle_perf.Http.Storage.{LocalStorage, empty, set_item}
use waddle_perf.Theme.{Event, click, system_change}
use waddle_perf.Theme.Toggle
use waddle_perf.Theme.Provider
use waddle_perf.Theme.Laws.{Agree, run-Agree}

-- A text that is no theme.
abbrev pink : LocalStorage
pink = set_item "theme" "pink" empty

abbrev clicks : List Event
clicks = click ∷ system_change true ∷ click ∷ click ∷ system_change false ∷ []

run-Agree_example :
    Agree
      (Toggle.run clicks false (Toggle.mount false pink))
      (Provider.run clicks false (Provider.mount false pink))
run-Agree_example = run-Agree pink false clicks
