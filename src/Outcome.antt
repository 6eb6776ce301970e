-- ===== src/Outcome.antt =====
-- Exceptions as values: the exception classes of the program and of the standard library that its
-- code throws or catches, `what()`, and the monad of calls that change a state and may throw.
pub mod Ends
use rp_t_minigames_server.Prelude.{ℕ, ◌≡◌, refl, ◌⊎◌, inl, inr, Bool, true, false, Text}

-- Each class with what its constructor keeps. No handler catches the last three: a failed `assert`,
-- a read of a variable that nothing has initialised, and a loop that outruns the fuel of its model.
pub data Error : Type 0 where
  bad_square_state bad_dimensions bad_coordinates : Text → Error
  bad_mutable_flag : Bool → Error
  move_required bad_executor_mode : Error
  bad_board_game_state bad_players_state : Text → Error
  bad_service_request : Text → Error
  invalid_argument out_of_range : Text → Error
  not_enough_words parsed_index_out_of_range : ℕ → ℕ → Error
  bad_timer_state : Text → ℕ → ℕ → Error
  empty_events_queue service_name_already_registered : Text → Error
  bad_watched_token : ℕ → Text → Error
  no_error_message no_uids_list no_more_message : Error
  bad_client_message internal_error : Text → Error
  unknown_client_token unavailable_client_token alive_client unknown_actor_uid : ℕ → Error
  assertion_failed undefined_behaviour unfinished : Error

pub data Result {ℓ} (A : Type ℓ) : Type ℓ where
  ok : A → Result A
  err : Error → Result A

abbrev pub bind {ℓ κ} : {A : Type ℓ} {B : Type κ} → Result A → (A → Result B) → Result B
bind (ok a) f = f a
bind (err e) f = err e

abbrev pub check : Bool → Error → Result (Unit {0})
check true e = ok tt
check false e = err e

pub bind-eq-ok {ℓ κ} :
    {A : Type ℓ} {B : Type κ} (m : Result A) (f : A → Result B) {b : B}
    → bind m f ≡ ok b
    → (a : A) × (m ≡ ok a) × (f a ≡ ok b)
bind-eq-ok (ok a) f h = (a, refl, h)
bind-eq-ok (err e) f h = cc

pub Result-cases {ℓ} :
    {A : Type ℓ} (r : Result A) → ((a : A) × (r ≡ ok a)) ⊎ ((e : Error) × (r ≡ err e))
Result-cases (ok a) = inl (a, refl)
Result-cases (err e) = inr (e, refl)

-- A call on an object: what it was before a throw is not undone, so the state comes back then too.
abbrev pub Action : Type 0 → Type 0 → Type 0
Action S A = S → Result A × S

module _ {S A : Type 0} where
  abbrev pub pure : A → Action S A
  pure a s = (ok a, s)

  abbrev pub throw : Error → Action S A
  throw e s = (err e, s)

  abbrev pub lift : Result A → Action S A
  lift r s = (r, s)

  abbrev pub gets : (S → A) → Action S A
  gets f s = (ok (f s), s)

abbrev pub modify : {S : Type 0} → (S → S) → Action S (Unit {0})
modify f s = (ok tt, f s)

abbrev pub guard : {S : Type 0} → Bool → Error → Action S (Unit {0})
guard b e s = (check b e, s)

-- What follows a step: nothing, if that threw.
abbrev pub after : {S A B : Type 0} → Result A → (A → Result B × S) → S → Result B × S
after (ok a) f s = f a
after (err e) f s = (err e, s)

infixl 5 ◌>>=◌ ◌>>◌
abbrev pub ◌>>=◌ : {S A B : Type 0} → Action S A → (A → Action S B) → Action S B
◌>>=◌ m f s = after (m s).0 (λ a. f a (m s).1) (m s).1

abbrev pub ◌>>◌ : {S A B : Type 0} → Action S A → Action S B → Action S B
m >> k = m >>= λ _. k

-- A call on a part of the object.
abbrev pub zoom : {S T A : Type 0} → (S → T) → (T → S → S) → Action T A → Action S A
zoom get put m s = let (r, t) = m (get s) in (r, put t s)
