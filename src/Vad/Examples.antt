-- ===== src/Vad/Examples.antt =====
-- Regions of the VAD adapter: its theorems at a concrete labelling.
use idiolect.Common.{◌≡◌, Bool, true, false, not, ◌||◌, List, [], ◌∷◌}
use idiolect.Vad.{speech_ranges, merge_short_gaps}
use idiolect.Vad.Regions.{covers, labelled, Separated, merge_short_gaps_lem}

abbrev labels : List Bool
labels = false ∷ true ∷ true ∷ false ∷ true ∷ []

merge_short_gaps_lem_example :
    ((not (labelled 0 labels 1) || covers (merge_short_gaps (speech_ranges labels)) 1) ≡ true)
    × Separated 10 0 5 (merge_short_gaps (speech_ranges labels))
merge_short_gaps_lem_example = merge_short_gaps_lem labels 1
