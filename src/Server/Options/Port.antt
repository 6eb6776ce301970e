-- ===== src/Server/Options/Port.antt =====
-- The port that the server listens on.
use rp_t_minigames_server.Prelude.{
  ℕ, ◌-◌, ◌^◌, ◌<◌, ◌≡◌, ◌⊎◌, inl, inr, ap, refl, sym, true, false, Bool-cases, Text, text, ltb,
  arith,
}
use rp_t_minigames_server.Outcome.{Result, ok, err}
use rp_t_minigames_server.Numbers.{stoull}
use rp_t_minigames_server.Utils.CommandLine.{Options, Parsed, parsed, failed, has, get}
use rp_t_minigames_server.Server.Options.{
  set_up, local_port_of, default_port, from_options, from_call, port_of_number, bind_setup,
}

port_of_number-lt : (n port : ℕ) → port_of_number n ≡ set_up port → (port < 2 ^ 16) × (n ≡ port)
port_of_number-lt n port h = elim (Bool-cases (ltb (2 ^ 16 - 1) n)) [
  | inl over ↦ absurd (ground (arith, h, over))
  | inr fits ↦ ground (arith, h, fits)
]

-- From what `std::stoull` makes of the argument.
number-lt :
    (r : Result ℕ) (port : ℕ)
    → bind_setup (from_call r) port_of_number ≡ set_up port
    → (port < 2 ^ 16) × (r ≡ ok port)
number-lt (ok n) port h = let (small, same) = port_of_number-lt n port h in (small, ap ok same)
number-lt (err e) port h = cc

-- From the option's value.
argument-lt :
    (p : Parsed Text) (port : ℕ)
    → bind_setup
        (from_options p)
        (λ port_argument. bind_setup (from_call (stoull port_argument)) port_of_number)
      ≡ set_up port
    → (port < 2 ^ 16)
      × (port_argument : Text) × (p ≡ parsed port_argument)
      × (stoull port_argument ≡ ok port)
argument-lt (parsed a) port h =
    let (small, read) = number-lt (stoull a) port h in (small, a, refl, read)
argument-lt (failed e) port h = cc

set : {A : Type 0} {a b : A} → set_up a ≡ set_up b → a ≡ b
set h = cc

-- The port that the settings hold fits in 16 bits. It is the default one if the option is not given, and
-- else the number that `std::stoull` reads from the option's value, not truncated.
pub local_port_of-lt :
    (options : Options) (port : ℕ)
    → local_port_of options ≡ set_up port
    → (port < 2 ^ 16)
      × (((has (text "port") options ≡ false) × (port ≡ default_port))
          ⊎ ((has (text "port") options ≡ true)
              × (port_argument : Text) × (get (text "port") options ≡ parsed port_argument)
              × (stoull port_argument ≡ ok port)))
unfolding local_port_of
local_port_of-lt options port h = elim (Bool-cases (has (text "port") options)) [
  | inl given ↦
      let (small, argument, is, read) =
        argument-lt (get (text "port") options) port (rw given at h) in
      (small, inr (given, argument, is, read))
  | inr absent ↦
      let default : default_port ≡ port = set (rw absent at h) in
      (omega (arith, default), inl (absent, sym default))
]
