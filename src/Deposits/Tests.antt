-- ===== src/Deposits/Tests.antt =====
-- The theorems on deposits at concrete inputs.
use seismic_evm.Prelude.{length, filter, Result, ok, err, ◌*◌, ◌≡◌, refl, ap, List, [], ◌∷◌}
use seismic_evm.Types.{Log}
use seismic_evm.Platform.{DepositEvent, Platform}
use seismic_evm.Deposits.{
  accumulate_deposit_from_log, is_deposit_log, accumulate_deposits_from_receipt, deposit_contract,
  parse_deposits_from_receipts,
}
use seismic_evm.Deposits.Parse.{
  request, HasFixedSizes, all_logs, requests_of, parse_deposits-requests, DecodesToFixedSizes,
  deposit_logs, length-parse_deposits,
}
use seismic_evm.Toy.{
  ToyReceipt, toy_types, zeros, toy_event, toy_platform, toy_spec, toy_event-HasFixedSizes,
}
use mathlib.Core.Path.{subst}

abbrev event_of : Result (Unit {0}) DepositEvent → DepositEvent
event_of (ok d) = d
event_of (err e) = toy_event

abbrev deposit_log : Log
deposit_log = record { address = 7; topics = 77 ∷ []; log_data = [] }

abbrev other_log : Log
other_log = record { address = 8; topics = 77 ∷ []; log_data = [] }

abbrev two_receipts : List ToyReceipt
two_receipts =
    record { gas = 1; logs = other_log ∷ deposit_log ∷ [] } ∷ record { gas = 2; logs = [] } ∷ []

parse_deposits-requests_example :
    parse_deposits_from_receipts toy_platform toy_spec two_receipts
    ≡ requests_of toy_platform (
        filter
          (is_deposit_log toy_platform (deposit_contract toy_platform toy_spec))
          (all_logs toy_platform two_receipts))
parse_deposits-requests_example = parse_deposits-requests toy_platform toy_spec two_receipts

parsed_request :
    parse_deposits_from_receipts toy_platform toy_spec two_receipts ≡ ok (request toy_event)
unfolding parse_deposits_from_receipts accumulate_deposits_from_receipt accumulate_deposit_from_log
parsed_request = refl

-- A platform whose decoder gives back the data of a log as the public key, whatever its length.
abbrev decoding_platform : Platform toy_types
decoding_platform = record toy_platform {
  decode_log = λ log. ok (record toy_event { pubkey = log.log_data });
}

-- A log of the deposit contract, and one of another contract, with a public key that is too short.
abbrev sized_log : Log
sized_log = record { address = 7; topics = 77 ∷ []; log_data = zeros 48 }

abbrev short_log : Log
short_log = record { address = 8; topics = 77 ∷ []; log_data = [] }

abbrev sized_receipts : List ToyReceipt
sized_receipts = record { gas = 1; logs = short_log ∷ sized_log ∷ [] } ∷ []

parsed_sized :
    parse_deposits_from_receipts decoding_platform toy_spec sized_receipts ≡ ok (request toy_event)
unfolding parse_deposits_from_receipts accumulate_deposits_from_receipt accumulate_deposit_from_log
parsed_sized = refl

sized_log-DecodesToFixedSizes : DecodesToFixedSizes decoding_platform sized_log
sized_log-DecodesToFixedSizes d decoded =
    subst HasFixedSizes (ap event_of decoded) toy_event-HasFixedSizes

length-parse_deposits_example :
    length (request toy_event)
    ≡ length (deposit_logs decoding_platform toy_spec sized_receipts) * 192
length-parse_deposits_example =
    length-parse_deposits decoding_platform toy_spec sized_receipts (request toy_event)
      (sized_log-DecodesToFixedSizes, tt) parsed_sized
