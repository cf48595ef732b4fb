-- ===== src/Runner/Exec.antt =====
-- Python statements that call the server and may raise, as worker/emi_worker/runner.py uses them. The
-- state outlives an exception, so it comes back beside the error too.
use emi_analyzer.Base.{List, [], ◌∷◌, ◌++◌, Text}

-- What is raised, as the handlers tell it apart. `reassigned` is a subclass of `server_error`'s class;
-- `no_space` is an OSError with ENOSPC; any other exception has its class name and its text.
pub data Raised : Type 0 where
  reassigned server_error stage_error : Text → Raised
  stopped no_space : Raised
  other : (class_name text : Text) → Raised

pub data Outcome {ℓ} (A : Type ℓ) : Type ℓ where
  returns : A → Outcome A
  raises : Raised → Outcome A

-- The last call of `complete` for a run: its status, with the stage's result or the message.
pub data Report (R : Type 0) : Type 0 where
  done : R → Report R
  failed : Text → Report R

-- The calls that leave the process, in order.
pub data Action (R : Type 0) : Type 0 where
  mint claim run_dir run_stage remove_scratch : Action R
  complete : Report R → Action R

pub record Worker (R : Type 0) : Type 0 where
  pub stop_requested : List Text
  pub trace : List (Action R)

abbrev pub Exec : Type 0 → Type 0 → Type 0
Exec R A = Worker R → Outcome A × Worker R

module _ {R : Type 0} where
  abbrev pub log : Worker R → Action R → Worker R
  log w a = record w { trace = w.trace ++ a ∷ [] }

  -- A call whose answer the environment gives.
  abbrev pub call : {A : Type 0} → Action R → Outcome A → Exec R A
  call a answer w = (answer, log w a)

  abbrev pub pure : {A : Type 0} → A → Exec R A
  pure a w = (returns a, w)

  abbrev pub throw : {A : Type 0} → Raised → Exec R A
  throw e w = (raises e, w)

  abbrev pub and_then : {A B : Type 0} → Outcome A → (A → Exec R B) → Exec R B
  and_then (returns a) f w = f a w
  and_then (raises e) f w = (raises e, w)

  infixl 5 ◌>>=◌ ◌>>◌
  abbrev pub ◌>>=◌ : {A B : Type 0} → Exec R A → (A → Exec R B) → Exec R B
  ◌>>=◌ m f w = let (r, w') = m w in and_then r f w'

  abbrev pub ◌>>◌ : {A B : Type 0} → Exec R A → Exec R B → Exec R B
  m >> n = m >>= λ _. n

  abbrev pub handle : {A : Type 0} → Outcome A → (Raised → Exec R A) → Exec R A
  handle (returns a) h w = (returns a, w)
  handle (raises e) h w = h e w

  -- `try: body` / `except …: handler`
  abbrev pub try_except : {A : Type 0} → Exec R A → (Raised → Exec R A) → Exec R A
  try_except body h w = let (r, w') = body w in handle r h w'

  -- `try: body` / `finally: cleanup`, for a cleanup that does not raise.
  abbrev pub try_finally : {A : Type 0} → Exec R A → (Worker R → Worker R) → Exec R A
  try_finally body cleanup w = let (r, w') = body w in (r, cleanup w')
