-- ===== src/Canyon/Tests.antt =====
-- The theorems on the Canyon transition at concrete inputs.
use seismic_evm.Prelude.{length, ◌≡◌, refl, arith}
use seismic_evm.Canyon.Bytecode.{big_endian, bytes_of_words, create_2_deployer_bytecode}
use seismic_evm.Canyon.{ensure_create2_deployer}
use seismic_evm.Canyon.Transition.{Deployment, ensure_create2_deployer-Deployment}
use seismic_evm.Toy.Optimism.{toy_op_platform, toy_op_spec}

length-create_2_deployer_bytecode : length create_2_deployer_bytecode ≡ 1584
unfolding create_2_deployer_bytecode bytes_of_words big_endian
length-create_2_deployer_bytecode = refl

ensure_create2_deployer-Deployment_example :
    Deployment toy_op_platform 1000 1001 7
      (ensure_create2_deployer toy_op_platform toy_op_spec 1001 7)
ensure_create2_deployer-Deployment_example =
    ensure_create2_deployer-Deployment toy_op_platform toy_op_spec 1000 1001 7 (λ info. refl)
      (λ n. refl) (omega arith)
