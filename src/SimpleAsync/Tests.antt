-- ===== src/SimpleAsync/Tests.antt =====
-- Runs of the coroutines, and uses of the theorems at concrete inputs.
use remus_tutorial.Prelude.{◌≡◌, refl, true, false, none, some, done, ◌>>=◌, List, [], ◌∷◌}
use remus_tutorial.ComputeThread.Operations.{read}
use remus_tutorial.ComputeThread.Samples.{there, machine}
use remus_tutorial.SimpleAsync.{read_async, await}
use remus_tutorial.SimpleAsync.Handles.{
  Store, Action, creates, constructs, assigns, drops, returns, create, move_construct, move_assign,
  drop, return_value, get_value, get_ready, act, act_all,
}
use remus_tutorial.SimpleAsync.Owns.{Owns, AllLegal, no_objects, act_all-Owns}
use remus_tutorial.SimpleAsync.Await.{read_async-read}

read_async-read_example :
    (read_async 8 8 there true machine >>= await 4) ≡ read 5 8 8 there true machine
read_async-read_example = read_async-read 4 8 8 there true machine

-- Two coroutines; the first one's object is moved, returns, and is assigned over.
abbrev moves : List Action
moves = creates 0 7 ∷ constructs 1 0 ∷ returns 7 42 ∷ creates 2 8 ∷ drops 0 ∷ []

value_after :
    ((act_all moves no_objects >>= get_value 1) ≡ done 42)
    × ((act_all moves no_objects >>= get_ready 2) ≡ done false)
    × ((act_all moves no_objects >>= act (assigns 1 2) >>= λ s. done (s.frames 7)) ≡ done none)
unfolding create move_construct move_assign drop return_value get_value get_ready act act_all
value_after = (refl, refl, refl)

moves-AllLegal : AllLegal moves (done no_objects)
unfolding create move_construct drop return_value act
moves-AllLegal =
    ((refl, refl), ((refl, (some 7, refl)), (λ e. cc, ((refl, refl), ((none, refl), tt)))))

act_all-Owns_example : (s' : Store) × (act_all moves no_objects ≡ done s') × Owns s'
act_all-Owns_example = act_all-Owns moves moves-AllLegal
