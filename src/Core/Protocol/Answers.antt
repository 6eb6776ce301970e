-- ===== src/Core/Protocol/Answers.antt =====
-- The answers to the requests that are written down.
use rp_t_minigames_server.Prelude.{
  ℕ, ◌^◌, ◌<◌, ◌≡◌, ◌≢◌, refl, sym, subst, ◌∙◌, ap, inl, inr, false, Bool-cases, Option,
  Option-cases, none, some, List, [], ◌∷◌, ◌++◌, ++_assoc, Text, text, text_eq, text_eq_sound,
  text_eq_refl, if◌then◌else◌,
}
use rp_t_minigames_server.Outcome.{Result, ok, err, after}
use rp_t_minigames_server.Numbers.{to_string}
use rp_t_minigames_server.Messages.{what, is_exception}
use rp_t_minigames_server.Utils.HandlingResult.{HandlingResult}
use rp_t_minigames_server.Utils.TextProtocol.{skip_separators}
use rp_t_minigames_server.Utils.TextProtocol.Joined.{IsWord, join}
use rp_t_minigames_server.Core.Protocol.{
  Request, RunningService, find_service, respond, response_prefix, not_found, run_request,
  handle_service_request,
}
use rp_t_minigames_server.Core.Protocol.Requests.{written, received, parse_service_request-written}

-- The first service of a name, if any.
pub data Finds {W : Type 0} (name : Text)
    : List (RunningService W) → Option (RunningService W) → Type 0 where
  nobody : Finds name [] none
  first :
      (s : RunningService W) (rest : List (RunningService W))
      → s.name ≡ name
      → Finds name (s ∷ rest) (some s)
  later :
      (s : RunningService W) (rest : List (RunningService W)) (o : Option (RunningService W))
      → s.name ≢ name
      → Finds name rest o
      → Finds name (s ∷ rest) o

apart : (s t : Text) → s ≢ t → text_eq s t ≡ false
apart s t h = elim (Bool-cases (text_eq s t)) [
  | inl same ↦ absurd (h (text_eq_sound s t same))
  | inr other ↦ other
]

find_service-Finds :
    {W : Type 0} (name : Text) (services : List (RunningService W)) (o : Option (RunningService W))
    → Finds name services o
    → find_service name services ≡ o
unfolding find_service
find_service-Finds name [] _ nobody = refl
find_service-Finds name _ _ (first s rest same) =
    rw (ap (λ (t : Text). text_eq t name) same ∙ text_eq_refl name) refl
find_service-Finds name _ _ (later s rest o other found) =
    rw (apart s.name name other) (find_service-Finds name rest o found)

-- What a response says after its identifier.
abbrev pub verdict : Option Text → Text
verdict none = text "OK"
verdict (some m) = join (text "KO" ∷ []) m

-- The words RESPONSE and the identifier, then the verdict on what the handler returned or threw; what
-- is no exception goes on.
abbrev pub Response : ℕ → Result HandlingResult → Result Text → Type 0
Response uid (ok r) x =
    x ≡ ok (join (text "RESPONSE" ∷ to_string uid ∷ []) (verdict r.possible_error_message))
Response uid (err e) x = x ≡ (
    if is_exception e
    then ok (join (text "RESPONSE" ∷ to_string uid ∷ []) (verdict (some (what e))))
    else err e)

joined_prefix :
    (uid : ℕ) (s : Text) → response_prefix uid ++ s ≡ join (text "RESPONSE" ∷ to_string uid ∷ []) s
unfolding text
joined_prefix uid s =
    ap (λ (l : Text). text "RESPONSE " ++ l) (++_assoc (to_string uid) (32 ∷ []) s)

joined_refusal :
    (uid : ℕ) (m : Text)
    → response_prefix uid ++ text "KO " ++ m
      ≡ join (text "RESPONSE" ∷ to_string uid ∷ []) (verdict (some m))
unfolding text
joined_refusal uid m =
    ++_assoc (response_prefix uid) (text "KO ") m ∙ joined_prefix uid (text "KO " ++ m)

respond-Response : (uid : ℕ) (y : Result HandlingResult) → Response uid y (respond uid y)
unfolding respond
respond-Response uid (ok r) = elim (Option-cases r.possible_error_message) [
  | inl success ↦ rw success (ap (λ (l : Text). ok l) (joined_prefix uid (text "OK")))
  | inr (m, failure) ↦ rw failure (ap (λ (l : Text). ok l) (joined_refusal uid m))
]
respond-Response uid (err e) =
    ap (λ (l : Text). if is_exception e then ok l else err e) (joined_refusal uid (what e))

-- What becomes of a request, by the service of its name.
abbrev pub Answered :
    {W : Type 0} → ℕ → Request → W → Option (RunningService W) → Result Text × W → Type 0
Answered actor r w none x = x ≡ (err (not_found r.intended_service_name), w)
Answered actor r w (some s) x =
    let y = s.handle actor (skip_separators r.command_data) w in
    Response r.request_uid y.0 x.0 × (x.1 ≡ y.1)

run_request-Answered :
    {W : Type 0} (actor : ℕ) (r : Request) (w : W) (found : Option (RunningService W))
    → Answered actor r w found (run_request actor (received r) found w)
run_request-Answered actor r w none = refl
run_request-Answered actor r w (some s) =
    (respond-Response r.request_uid (s.handle actor (skip_separators r.command_data) w).0, refl)

-- A written request is handled by the first service of the name that it gives: for the actor, and with
-- the command without the spaces in front. The response is RESPONSE, the identifier of the request and
-- OK when the service succeeds, and KO with the message when it refuses or throws an exception; the
-- state is what the service leaves. When no service has the name, the error says so and the state is
-- unchanged. The identifier fits in 64 bits, and the name is a word.
pub handle_service_request-Answered :
    {W : Type 0} (services : List (RunningService W)) (actor : ℕ) (r : Request) (w : W)
    (o : Option (RunningService W))
    → r.request_uid < 2 ^ 64
    → IsWord r.intended_service_name
    → Finds r.intended_service_name services o
    → Answered actor r w o (handle_service_request services actor (written r) w)
unfolding handle_service_request
handle_service_request-Answered services actor r w o h named found =
    subst (Answered actor r w o)
      (sym (
        ap
          (λ (x : Result Request).
            after x (λ q. run_request actor q (find_service q.intended_service_name services) w) w)
          (parse_service_request-written r h named)
        ∙ ap (λ p. run_request actor (received r) p w)
            (find_service-Finds r.intended_service_name services o found)))
      (run_request-Answered actor r w o)
