-- ===== src/SeismicEvm/SystemCall.antt =====
-- What a system call of `SeismicEvm` leaves behind.
use seismic_evm.Prelude.{
  ◌==◌, if◌then◌else◌, ok, ◌≡◌, refl, ap, Bool, true, false, none, [], ◌∷◌, arith,
}
use seismic_evm.Prelude.Dict.{lookup}
use seismic_evm.Types.{Address, Bytes, EvmState, ResultAndState}
use seismic_evm.SeismicEvm.{
  SeismicTransaction, Machine, SeismicEvm, Inner, retain, system_tx, set_swapped, transact_raw,
  seismic_transact_system_call, seismic_finish_env,
}
use seismic_evm.Prelude.Keeps.{OnOk}

-- Only the contract is left, with what the call made of it.
lookup-retain :
    (contract a : Address) (state : EvmState)
    → lookup a (retain contract state) ≡ (if a == contract then lookup a state else none)
lookup-retain contract a [] = ground arith
lookup-retain contract a ((k, account) ∷ rest) = ground (arith, lookup-retain contract a rest)

-- The inner EVM runs a transaction without changing the block's settings or the configuration.
pub record KeepsSettings {k : Machine} (i : Inner k) : Type 0 where
  pub keeps_transact :
      (tx : SeismicTransaction k.AccessItem k.Authorization) (s : SeismicEvm k)
      → seismic_finish_env (i.inner_transact tx s).1 ≡ seismic_finish_env s
  pub keeps_inspect_tx :
      (tx : SeismicTransaction k.AccessItem k.Authorization) (s : SeismicEvm k)
      → seismic_finish_env (i.inner_inspect_tx tx s).1 ≡ seismic_finish_env s

module _ {k : Machine} (i : Inner k) where
  env-chosen :
      KeepsSettings i
      → (inspect : Bool) (tx : SeismicTransaction k.AccessItem k.Authorization) (s : SeismicEvm k)
      → seismic_finish_env ((if inspect then i.inner_inspect_tx tx else i.inner_transact tx) s).1
        ≡ seismic_finish_env s
  env-chosen h true tx s = h.keeps_inspect_tx tx s
  env-chosen h false tx s = h.keeps_transact tx s

  env-transact_raw :
      KeepsSettings i
      → (tx : SeismicTransaction k.AccessItem k.Authorization) (s : SeismicEvm k)
      → seismic_finish_env (transact_raw i tx s).1 ≡ seismic_finish_env s
  unfolding transact_raw
  env-transact_raw h tx s = env-chosen h s.inspect tx s

  -- A system call leaves the block's settings and the configuration as they were, whether or not
  -- it fails, if the inner EVM does not change them.
  pub env-seismic_transact_system_call :
      KeepsSettings i
      → (caller contract : Address) (input : Bytes) (s : SeismicEvm k)
      → seismic_finish_env (seismic_transact_system_call i caller contract input s).1
        ≡ seismic_finish_env s
  unfolding seismic_transact_system_call
  env-seismic_transact_system_call h caller contract input s =
      ap
        (λ e. record {
          block_env = record e.block_env {
            gas_limit = s.block.gas_limit;
            basefee = s.block.basefee;
          };
          cfg_env = record e.cfg_env { disable_nonce_check = s.cfg.disable_nonce_check };
        })
        (env-transact_raw h (system_tx caller contract input) (set_swapped (30000000, 0, true) s))

  -- A system call that succeeds runs with the gas limit of 30 million as the block's, no base fee
  -- and no nonce check, and of the changes of that run it reports exactly those of the contract.
  pub state-seismic_transact_system_call :
      (caller contract : Address) (input : Bytes) (s s' : SeismicEvm k)
      (r : ResultAndState k.HaltReason)
      → transact_raw i (system_tx caller contract input) (set_swapped (30000000, 0, true) s)
        ≡ (ok r, s')
      → OnOk
          (λ r' _.
            (r'.result ≡ r.result)
            × ((a : Address)
                → lookup a r'.state ≡ (if a == contract then lookup a r.state else none)))
          (seismic_transact_system_call i caller contract input s)
  unfolding seismic_transact_system_call
  state-seismic_transact_system_call caller contract input s s' r ran =
      rw (ap (λ o. o.0) ran) (refl, λ a. lookup-retain contract a r.state)
