-- ===== src/SimpleAsync/Handles.antt =====
-- The handles of rdma/include/remus/simple_async_result.h: `AsyncResult`, and `AsyncResultVoid` with
-- the same code. An object holds the handle of a coroutine or, after a move, none; to destroy a
-- coroutine twice, or to resume one that is gone, is undefined behaviour.
use remus_tutorial.Prelude.{
  ℕ, ◌==◌, Bool, true, false, if◌then◌else◌, Option, none, some, Outcome, done, fault, ◌>>=◌, at,
  List, [], ◌∷◌,
}

-- `promise_type`; `state` is the flag that `return_value` sets with the value.
pub record Promise : Type 0 where
  pub val : ℕ
  pub state : Bool

-- The objects by their names in the program, and the coroutines by their handles; an object that
-- does not exist, and a coroutine that is destroyed, is none.
pub record Store : Type 0 where
  pub objects : ℕ → Option (Option ℕ)
  pub frames : ℕ → Option Promise

abbrev pub set_at {ℓ} : {A : Type ℓ} → ℕ → A → (ℕ → A) → ℕ → A
set_at i a f j = if i == j then a else f j

abbrev pub set_object : ℕ → Option (Option ℕ) → Store → Store
set_object i o s = record s { objects = set_at i o s.objects }

abbrev pub destroy_frame : ℕ → Option Promise → Store → Outcome Store
destroy_frame h none s = fault
destroy_frame h (some p) s = done (record s { frames = set_at h none s.frames })

-- `if (handle) handle.destroy()`
abbrev pub destroy_handle : Option ℕ → Store → Outcome Store
destroy_handle none s = done s
destroy_handle (some h) s = destroy_frame h (s.frames h) s

-- `get_return_object`: the coroutine with the handle `h` starts, and the object `i` is made of it.
unfoldable pub create : ℕ → ℕ → Store → Store
create i h s = record {
  objects = set_at i (some (some h)) s.objects;
  frames = set_at h (some (record { val = 0; state = false })) s.frames;
}

-- `AsyncResult(AsyncResult &&c)`
unfoldable pub move_construct : ℕ → ℕ → Store → Outcome Store
move_construct i c s = do
  handle ← at (s.objects c)
  done (record s { objects = set_at c (some none) (set_at i (some handle) s.objects) })

-- `operator=(AsyncResult &&c)`
unfoldable pub move_assign : ℕ → ℕ → Store → Outcome Store
move_assign i c s = do
  own ← at (s.objects i)
  handle ← at (s.objects c)
  let moved = destroy_handle own s >>= λ s'.
      done (record s' { objects = set_at c (some none) (set_at i (some handle) s'.objects) })
  if i == c then done s else moved

-- `~AsyncResult`
unfoldable pub drop : ℕ → Store → Outcome Store
drop i s = do own ← at (s.objects i); s' ← destroy_handle own s; done (set_object i none s')

-- `return_value`, in the coroutine.
unfoldable pub return_value : ℕ → ℕ → Store → Outcome Store
return_value h value s = do
  p ← at (s.frames h)
  done (record s { frames = set_at h (some (record { val = value; state = true })) s.frames })

abbrev promise_of : Option ℕ → Store → Outcome Promise
promise_of none s = fault
promise_of (some h) s = at (s.frames h)

-- `get_value` and `get_ready`; a null handle has no promise.
unfoldable pub get_value : ℕ → Store → Outcome ℕ
get_value i s = do own ← at (s.objects i); p ← promise_of own s; done p.val

unfoldable pub get_ready : ℕ → Store → Outcome Bool
get_ready i s = do own ← at (s.objects i); p ← promise_of own s; done p.state

-- What a program does with its objects and coroutines.
pub data Action : Type 0 where
  creates : ℕ → ℕ → Action
  constructs : ℕ → ℕ → Action
  assigns : ℕ → ℕ → Action
  drops : ℕ → Action
  returns : ℕ → ℕ → Action

unfoldable pub act : Action → Store → Outcome Store
act (creates i h) s = done (create i h s)
act (constructs i c) s = move_construct i c s
act (assigns i c) s = move_assign i c s
act (drops i) s = drop i s
act (returns h value) s = return_value h value s

unfoldable pub act_all : List Action → Store → Outcome Store
act_all [] s = done s
act_all (a ∷ actions) s = act a s >>= act_all actions
