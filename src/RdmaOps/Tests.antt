-- ===== src/RdmaOps/Tests.antt =====
-- Runs of the polling loop at the simulated device.
use remus_tutorial.Prelude.{◌≡◌, refl, abort, [], ◌∷◌}
use remus_tutorial.RdmaOps.{poll, handle}
use remus_tutorial.RdmaOps.Ibv.{nothing, failed}
use remus_tutorial.RdmaOps.Simulator.{Sim, simulator}

abbrev broken : Sim
broken = record { cells = []; queue = nothing ∷ failed ∷ [] }

broken_aborts : poll simulator 5 0 1 (0 ∷ 1 ∷ []) broken ≡ abort
unfolding poll handle
broken_aborts = refl
