-- ===== src/SystemTimeService/Requests.antt =====
-- The requests to timedated, the calls that they begin, and how those are completed.
use system_settings.Prelude.{
  ℕ, ◌+◌, ◌-◌, ◌%◌, Bool, false, true, not, Option, none, some, List, [], ◌∷◌, Bytes, codes,
  is_empty, if◌then◌else◌, ◌==◌, ℤ,
}
use system_settings.SystemTimeService.Results.{
  SystemTimeResult, ok, invalid_argument, unavailable, GError, default_message, result_from_error,
  result_message,
}
use system_settings.SystemTimeService.Lifetime.{
  Parameters, timezone_interactive, ntp_interactive, time_relative_interactive, Call, completed,
  World, Pointer, null, to_cell, unsigned_size, service_unref,
}

abbrev pub complete_immediately : SystemTimeResult → Bool → ℕ → World → World
complete_immediately result callback user_data w =
    if callback
    then record w { log = completed user_data result (default_message result) ∷ w.log }
    else w

unfoldable pub begin_call :
    Pointer → Option Bytes → Option Parameters → Bool → ℕ → World → Option World
begin_call service none parameters callback user_data w =
    some (complete_immediately invalid_argument callback user_data w)
begin_call service (some method) none callback user_data w =
    some (complete_immediately invalid_argument callback user_data w)
begin_call null (some method) (some parameters) callback user_data w =
    some (complete_immediately unavailable callback user_data w)
begin_call to_cell (some method) (some parameters) callback user_data w = elim w.cell [
  | none ↦ none
  | some s ↦
      let call : Call = record {
        method = method;
        parameters = parameters;
        callback = callback;
        user_data = user_data;
      } in
      if not s.has_proxy
      then some (complete_immediately unavailable callback user_data w)
      else some (record w {
        cell = some (record s { references = (s.references + 1) % unsigned_size });
        calls = call ∷ w.calls;
      })
]

unfoldable pub set_timezone : Pointer → Option Bytes → Bool → ℕ → World → Option World
unfolding begin_call
set_timezone service none callback user_data w =
    some (complete_immediately invalid_argument callback user_data w)
set_timezone service (some timezone) callback user_data w =
    let begun =
      begin_call service (some (codes "SetTimezone")) (some (timezone_interactive timezone true))
        callback user_data w in
    if is_empty timezone
    then some (complete_immediately invalid_argument callback user_data w)
    else begun

unfoldable pub set_ntp : Pointer → Bool → Bool → ℕ → World → Option World
unfolding begin_call
set_ntp service enabled =
    begin_call service (some (codes "SetNTP")) (some (ntp_interactive enabled true))

unfoldable pub set_time : Pointer → ℤ → Bool → ℕ → World → Option World
unfolding begin_call
set_time service unix_time_usec =
    begin_call service (some (codes "SetTime"))
      (some (time_relative_interactive unix_time_usec false true))

-- The three mutations with their values.
pub data Request : Type 0 where
  timezone : Option Bytes → Request
  ntp : Bool → Request
  time : ℤ → Request

unfoldable pub send : Request → Pointer → Bool → ℕ → World → Option World
unfolding set_timezone set_ntp set_time
send (timezone value) service = set_timezone service value
send (ntp value) service = set_ntp service value
send (time value) service = set_time service value

-- GDBus finishes its calls in any order: the call at a position, and the others.
unfoldable pub take_call : ℕ → List Call → Option (Call × List Call)
take_call i [] = none
take_call i (c ∷ calls) =
    let rest = take_call (i - 1) calls in
    if i == 0
    then some (c, calls)
    else elim rest [ none ↦ none | some (d, others) ↦ some (d, c ∷ others) ]

-- `call_finished` up to and with the callback
unfoldable pub deliver : ℕ → Bool → Option GError → World → World
deliver i reply error w = elim (take_call i w.calls) [
  | none ↦ w
  | some (c, others) ↦
      let outcome = if reply then ok else result_from_error error in
      record w {
        calls = others;
        returning = c ∷ w.returning;
        log =
            if c.callback
            then completed c.user_data outcome (result_message outcome error) ∷ w.log
            else w.log;
      }
]

-- `call_finished` behind the callback
unfoldable pub call_returned : World → Option World
unfolding service_unref
call_returned w = elim w.returning [
  | [] ↦ some w
  | c ∷ others ↦ service_unref to_cell (record w { returning = others })
]

-- `reaction` is what the callback does with the service in between.
unfoldable pub call_finished :
    (World → Option World) → ℕ → Bool → Option GError → World → Option World
unfolding deliver call_returned
call_finished reaction i reply error w = elim (reaction (deliver i reply error w)) [
  | none ↦ none
  | some w1 ↦ call_returned w1
]
