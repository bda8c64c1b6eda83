-- ===== src/Tests/OutboundRuns.antt =====
-- The signer and the broadcaster on one wallet.
use hara_registry.Prelude.{refl, none, some, List, [], ◌∷◌, codes, false}
use hara_registry.Outbound.Database.{Database}
use hara_registry.Outbound.Signer
use hara_registry.Outbound.Signer.{SubmitBody}
use hara_registry.Outbound.Broadcaster
use hara_registry.Outbound.Invariant.{IsSound}
use hara_registry.Outbound.History.{
  Event, request, message, timer, restart, history, history-IsSound, empty-IsSound,
}

abbrev signer : Signer.Outside
signer = record {
  breaks = λ n. false;
  transaction_count = λ n addr. some 3;
  fetch_signer_key = λ n path. some (record { address = codes "0xAB"; private_key = codes "k" });
  sign_transaction = λ key chain price tx. some (codes "0xf8");
  keccak256 = λ t. codes "0x11";
  random_uuid = λ n. n ∷ [];
  big_int = λ t. some 0;
}

abbrev broadcaster : Broadcaster.Outside
broadcaster = record {
  breaks = λ n. false;
  send_raw_transaction = λ n raw. none;
  transaction_receipt = λ n hash. none;
  now = λ n. n;
}

abbrev settings : Broadcaster.Config
settings = record { max_retries = 3; receipt_timeout_ms = 5 }

abbrev signer_settings : Signer.Config
signer_settings = record { chain_id = 131216; default_gas_limit = 21000; default_gas_price = 0 }

abbrev one_wallet : Database
one_wallet = record {
  wallets = (codes "0xab", codes "secret/ab") ∷ [];
  reserved = (codes "0xab", 0) ∷ [];
  confirmed = (codes "0xab", 0) ∷ [];
  transactions = [];
  attempts = [];
  queue = [];
  delayed = [];
  uses = 0;
}

abbrev transfer : SubmitBody
transfer = record {
  from = some (codes "0xAB");
  to = some (codes "0xCD");
  input = none;
  value = none;
  gas_limit = none;
}

-- Two requests, the first message with a node that refuses it, and its timer.
abbrev events : List Event
events =
    request signer_settings none transfer
    ∷ request signer_settings none transfer
    ∷ message
    ∷ timer
    ∷ restart []
    ∷ []

history-IsSound_example : IsSound 3 (history signer broadcaster settings events one_wallet)
history-IsSound_example =
    history-IsSound signer broadcaster settings events one_wallet
      (empty-IsSound 3 one_wallet refl refl refl)
