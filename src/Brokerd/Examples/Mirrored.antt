-- ===== src/Brokerd/Examples/Mirrored.antt =====
-- The theorems on sequences of calls, at the small deployment.
use broker_core.Base.{refl, List, [], ◌∷◌, none}
use broker_core.Base.Rows.{select_one}
use broker_core.Effects.Stays.{AtRest}
use broker_core.Brokerd.Mirror.{IsMirrored}
use broker_core.Brokerd.Kept.{HasRow}
use broker_core.Brokerd.Handlers.Events
use broker_core.Brokerd.Calls.{Call, serve}
use broker_core.Brokerd.Calls.Holds.{serve-IsMirrored, reports_frame}
use broker_core.Brokerd.Examples.{env, world, db, won, lost, final_deal, preparation, other_row}

abbrev calls : List Call
calls =
    Call.batch_auctioned "op1" won
    ∷ Call.create "data" "o"
    ∷ Call.create_new_batch "b3" "car" 10 ("id0" ∷ []) "o" none "http://car"
    ∷ Call.new_batch_prepared "b3" preparation
    ∷ Call.batch_finalized_deal "op2" final_deal
    ∷ Call.batch_auctioned "op3" lost
    ∷ []

mirrored : AtRest IsMirrored (world db)
unfolding select_one
mirrored = record { closed = refl; holds = record { rows = (refl, tt) } }

serve-IsMirrored_example : AtRest IsMirrored (serve env calls (world db))
serve-IsMirrored_example = serve-IsMirrored env calls (world db) mirrored

reports_frame_example :
    AtRest (HasRow "b2" other_row) (Events.batch_auctioned env "op1" won (world db)).1
    × AtRest (HasRow "b2" other_row) (Events.batch_finalized_deal env "op1" final_deal (world db)).1
    × AtRest (HasRow "b2" other_row) (Events.new_batch_prepared env "b1" preparation (world db)).1
unfolding select_one
reports_frame_example =
    reports_frame env "b2" other_row "op1" won final_deal "b1" preparation (world db) refl refl refl
      (record { closed = refl; holds = refl })
