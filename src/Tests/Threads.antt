-- ===== src/Tests/Threads.antt =====
-- Runs of the theorems on requests of several connections.
use vibe_coding_secret_manag.Prelude.{
  ◌≡◌, refl, true, false, List, [], ◌∷◌, ◌++◌, none, codes, equal,
}
use vibe_coding_secret_manag.Machine.Exec.{Machine, query, lift, ◌>>=◌}
use vibe_coding_secret_manag.Power.{start_power, new_manager, acquire, stop_power, call_stop}
use vibe_coding_secret_manag.Vault.Session.{
  is_unlocked, unlock, unlock_locked, unwrap_dek, install_keys, get_machine, set_keys,
}
use vibe_coding_secret_manag.SecureCrypto.{derive_kek, expand_key, open_sealed}
use vibe_coding_secret_manag.Vault.Context.{wrapper_aad}
use vibe_coding_secret_manag.Vault.Rows.{select_wrapper}
use vibe_coding_secret_manag.Broker.Handle.{handle, operation_of}
use vibe_coding_secret_manag.Broker.Threads.{Event, arrives, turn}
use vibe_coding_secret_manag.Broker.Threads.Cases.{all_occur}
use vibe_coding_secret_manag.Broker.Threads.Steady.{IsSteady}
use vibe_coding_secret_manag.Broker.Threads.Interleaved.{all_occur-IsSteady}
use vibe_coding_secret_manag.Broker.Threads.Race.{overtaken, overtaken-all_occur}
use vibe_coding_secret_manag.Tests.Toy.{toy, fresh, filled, no_rows_yet}
use vibe_coding_secret_manag.Tests.Brokers.{toy_host, ask, opened_on, no_rows_yet-IsWellFormed}
use vibe_coding_secret_manag.Broker.Unlocking.{IsAnswered, held, handle-IsAnswered}
use vibe_coding_secret_manag.Tests.Brokers.{helpless, quiet}

-- A creation, a rotation and a lock, with their steps in turns.
abbrev busy : List Event
busy =
    arrives (ask (codes "secret.create") [])
    ∷ turn 0
    ∷ turn 0
    ∷ turn 0
    ∷ arrives (ask (codes "secret.rotate") [])
    ∷ arrives (ask (codes "lock") [])
    ∷ turn 0
    ∷ turn 1
    ∷ turn 0
    ∷ turn 2
    ∷ turn 0
    ∷ turn 2
    ∷ turn 1
    ∷ turn 0
    ∷ turn 1
    ∷ turn 2
    ∷ turn 1
    ∷ []

all_occur-IsSteady_example : IsSteady 0 (all_occur toy_host busy ([], opened_on fresh)).1
all_occur-IsSteady_example = all_occur-IsSteady toy_host busy (opened_on fresh) (record {
  store = record { well = no_rows_yet-IsWellFormed; unlocked = refl };
  power = record { honest = refl; counted = refl };
})

-- A locked vault, whose wrapped key opens with any password.
abbrev pub shut : Machine
shut = record fresh {
  keys = none;
  db = record no_rows_yet {
    wrappers =
        record {
          wrapper_id = codes "password-primary";
          params = 65536 ∷ 3 ∷ 4 ∷ [];
          salt = filled 16 1;
          nonce = filled 24 2;
          ciphertext = wrapper_aad (codes "v") ++ filled 32 3;
          is_active = true;
          created_at = [];
        }
        ∷ [];
  };
}

abbrev unlocked : Machine
unlocked = (unlock toy (codes "password") shut).1

overtaken-all_occur_example :
    let after = (all_occur toy_host (overtaken (codes "password")) ([], opened_on shut)).1 in
    (after.power.active ≡ true)
    × (after.system ≡ record { inhibitors = 1; asked = 1 })
    × (is_unlocked after.store ≡ false)
unfolding acquire stop_power call_stop unlock unlock_locked unwrap_dek install_keys is_unlocked
    query ◌>>=◌ select_wrapper derive_kek expand_key get_machine open_sealed wrapper_aad lift
    set_keys
overtaken-all_occur_example =
    overtaken-all_occur toy_host (codes "password") (record { password = codes "password" })
      (opened_on shut) unlocked (record { inhibitors = 1; asked = 1 }) refl refl refl refl

handle-IsAnswered_example :
    let after = handle helpless (ask (codes "unlock") (codes "password")) (opened_on shut) in
    (is_unlocked after.store ≡ true)
    × IsAnswered false
        (held (opened_on shut) unlocked (false, new_manager, record quiet { asked = 1 }))
        after
unfolding operation_of equal unlock start_power acquire unlock_locked unwrap_dek install_keys
    is_unlocked query ◌>>=◌ select_wrapper derive_kek expand_key get_machine open_sealed wrapper_aad
    lift set_keys
handle-IsAnswered_example =
    handle-IsAnswered helpless (λ n. refl) (λ a. refl) (ask (codes "unlock") (codes "password"))
      (record { password = codes "password" }) (opened_on shut) unlocked refl refl refl refl
